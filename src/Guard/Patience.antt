-- ===== src/Guard/Patience.antt =====
-- The end of the wait for convergence (cmd/migration-gate/main.go: awaitConvergence).
use pbt_devnet.Prelude.{
  ℕ, ◌+◌, ◌*◌, ◌≤◌, ◌<◌, ◌≡◌, refl, Bool, true, false, not, Option, none, some, List, [], ◌∷◌,
  arith, length, ltb, if◌then◌else◌,
}
use pbt_devnet.Guard.{convergence_grace}
use pbt_devnet.Guard.Wait.{
  Look, Convergence, converged_again, is_agreed, past_deadline, await, await_convergence,
  still_disagree, interrupted, spread_shrinking, no_trend, not_shrinking,
}

-- Each look is over five seconds after it was taken at least, and the next is taken after it.
abbrev pub Rising : ℕ → List Look → Type 0
Rising from [] = Unit
Rising from (l ∷ ls) = (from ≤ l.now) × (l.now + 5 ≤ l.later) × Rising l.later ls

abbrev pub Ends : Option Convergence → Type 0
Ends o = (c : Convergence) × (o ≡ some c)

-- One look either ends the wait, goes on after a sleep, or goes on with a later deadline.
look-Ends :
    (deadline : ℕ) (extended : Bool) (l : Look) (ls : List Look)
    → (l.now ≤ deadline → Ends (await deadline extended ls))
    → (extended ≡ false → deadline < l.now → Ends (await (l.later + 120) true ls))
    → Ends (await deadline extended (l ∷ ls))
unfolding await
look-Ends deadline extended l ls on longer = by_view (is_agreed l.view)
  where
    past : Option Convergence → Option Convergence
    past o = elim o [ some c ↦ some c | none ↦ await (l.later + convergence_grace) true ls ]

    by_past : (b : Bool) → extended ≡ b → deadline < l.now → Ends (past (past_deadline b l))
    by_past true e t = (still_disagree, refl)
    by_past false e t = by_trend (spread_shrinking l.samples)
      where
        by_trend :
            (o : Option Bool)
            → Ends (
                past (elim o [
                  | none ↦ some (if l.cancelled then interrupted else no_trend)
                  | some shrinking ↦ if shrinking then none else some not_shrinking
                ]))
        by_trend none = (if l.cancelled then interrupted else no_trend, refl)
        by_trend (some false) = (not_shrinking, refl)
        by_trend (some true) = longer e t

    by_awake :
        (b : Bool)
        → l.now ≤ deadline
        → Ends (if b then await deadline extended ls else some interrupted)
    by_awake true t = on t
    by_awake false t = (interrupted, refl)

    by_time :
        (b : Bool)
        → ltb deadline l.now ≡ b
        → Ends (
            if not b
            then (if l.awake then await deadline extended ls else some interrupted)
            else past (past_deadline extended l))
    by_time false e = by_awake l.awake (ground arith)
    by_time true e = by_past extended refl (ground arith)

    by_view :
        (b : Bool)
        → Ends (
            if b
            then some converged_again
            else if not (ltb deadline l.now)
            then (if l.awake then await deadline extended ls else some interrupted)
            else past (past_deadline extended l))
    by_view true = (converged_again, refl)
    by_view false = by_time (ltb deadline l.now) refl

await-extended :
    (ls : List Look) (from deadline : ℕ)
    → Rising from ls
    → 1 ≤ length ls
    → deadline + 5 < from + 5 * length ls
    → Ends (await deadline true ls)
await-extended [] from deadline r n h = absurd (omega arith)
await-extended (l ∷ ls) from deadline r n h =
    look-Ends deadline true l ls
      (λ t. await-extended ls l.later deadline r.2 (omega (arith, r.0)) (omega (arith, r.0, r.1)))
      (λ e. absurd (cc))

await-Ends :
    (ls : List Look) (from deadline : ℕ)
    → Rising from ls
    → 27 ≤ length ls
    → deadline + 135 < from + 5 * length ls
    → Ends (await deadline false ls)
await-Ends [] from deadline r n h = absurd (omega arith)
await-Ends (l ∷ ls) from deadline r n h =
    look-Ends deadline false l ls
      (λ t. await-Ends ls l.later deadline r.2 (omega (arith, r.0)) (omega (arith, r.0, r.1)))
      (λ e t. await-extended ls l.later (l.later + 120) r.2 (omega arith) (omega arith))

-- The wait for convergence ends: 53 looks, each over five seconds after it was taken at least, are
-- enough for an answer, since the deadline is put off once at most.
pub await_convergence-Ends :
    (now : ℕ) (looks : List Look)
    → Rising now looks
    → 53 ≤ length looks
    → Ends (await_convergence now looks)
unfolding await_convergence
await_convergence-Ends now looks r n =
    await-Ends looks now (now + 120) r (omega arith) (omega arith)
