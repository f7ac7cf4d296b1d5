-- ===== src/Driver/Parts.antt =====
-- The parts of the driver's loop that make no call to disruptoor (cmd/migration-chaos/main.go:
-- execute): the refused ops, the injections, the hold and what the heals say.
use pbt_devnet.Prelude.{
  ℕ, ◌+◌, ◌-◌, ◌≡◌, refl, Bool, true, false, not, ◌&&◌, Option, none, some, List, [], ◌∷◌,
  if◌then◌else◌,
}
use pbt_devnet.Schedule.{Class, Op, admitted}
use pbt_devnet.Schedule.Windows.{is_straddle}
use pbt_devnet.Migmon.{warn, skip, no_finding}
use pbt_devnet.Driver.{
  World, ◌>>=◌, ◌>>◌, give, log_all, refused, deploy, wait, deploy_failed, window_closed,
  never_crossed, never_reached, wrote_split,
}
use pbt_devnet.Driver.Hold.{has, Hold, hold, no_one}
use pbt_devnet.Driver.Execute.{heal_note, skip_refused, prepare, write_split, hold_op}
use pbt_devnet.Driver.Neutral.{
  is_verdict, is_quiet, IsNeutral, bind-IsNeutral, give-IsNeutral, act-IsNeutral, log-IsNeutral,
  log_all-IsNeutral, deploy-IsNeutral,
}
use pbt_devnet.Driver.Quiet.{if-IsNeutral, wait-IsNeutral, hold-IsNeutral}

pub heal_note-quiet : (h : Option Hold) (v : ℕ) → is_verdict (heal_note h v) ≡ false
unfolding heal_note is_verdict
heal_note-quiet none v = refl
heal_note-quiet (some h) v = by_tests (has v h.reached) (has v h.crossed)
  where
    by_tests :
        (a b : Bool)
        → is_verdict
            (if not a then never_reached else if not b then never_crossed else window_closed)
          ≡ false
    by_tests true true = refl
    by_tests true false = refl
    by_tests false b = refl

pub skip_refused-IsNeutral :
    {w : World} {U : Type 0} (os : List Op) → IsNeutral w U (skip_refused os)
unfolding skip_refused is_verdict
skip_refused-IsNeutral [] = give-IsNeutral tt
skip_refused-IsNeutral (o ∷ os) =
    bind-IsNeutral (if admitted o then give tt else log_all skip (λ v. refused o.refused) o.victims)
      _
      (if-IsNeutral (admitted o) (give-IsNeutral tt)
        (log_all-IsNeutral skip (λ v. refused o.refused) o.victims (λ v. refl)))
      (λ _. skip_refused-IsNeutral os)

module _ (w : World) (participants : ℕ) (inject : Bool) (fuel slot : ℕ) where
  pub prepare-IsNeutral :
      {U : Type 0} (at : ℕ) (c : Class)
      → IsNeutral w U (prepare w participants inject fuel slot at c)
  unfolding prepare is_verdict
  prepare-IsNeutral at c = if-IsNeutral (not (inject && is_straddle c)) (give-IsNeutral tt) (
      bind-IsNeutral (wait w (at - 60) >> deploy w) _
        (bind-IsNeutral (wait w (at - 60)) _ (wait-IsNeutral w (at - 60)) (λ _. deploy-IsNeutral w))
        (λ done.
          if-IsNeutral done (give-IsNeutral tt)
            (log-IsNeutral warn none no_finding deploy_failed refl)))

  pub write_split-IsNeutral :
      {U : Type 0} (at : ℕ) (c : Class)
      → IsNeutral w U (write_split w participants inject fuel slot at c)
  unfolding write_split is_quiet
  write_split-IsNeutral at c = if-IsNeutral (not (inject && is_straddle c)) (give-IsNeutral tt) (
      bind-IsNeutral (wait w (at + 15)) _ (wait-IsNeutral w (at + 15))
        (λ _. act-IsNeutral wrote_split refl))

  pub hold_op-IsNeutral : (o : Op) → IsNeutral w Unit (hold_op w participants inject fuel slot o)
  unfolding hold_op
  hold_op-IsNeutral o = by_hold o.hold_until
    where
      by_hold :
          (t : Option ℕ)
          → IsNeutral w Unit {A = Option Hold} (elim t [
            | none ↦ give none
            | some t ↦ hold w fuel slot t o.victims no_one >>= λ h. give (some h)
          ])
      by_hold none = give-IsNeutral none
      by_hold (some t) =
          bind-IsNeutral (hold w fuel slot t o.victims no_one) _
            (hold-IsNeutral w fuel slot t o.victims no_one) (λ h. give-IsNeutral (some h))
