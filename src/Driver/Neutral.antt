-- ===== src/Driver/Neutral.antt =====
-- Steps of the driver that leave disruptoor alone while they go on, and clear it where they stop.
use pbt_devnet.Prelude.{
  ℕ, ◌≡◌, refl, ap, ◌∙◌, Bool, true, false, not, Option, some, List, [], ◌∷◌, ◌++◌, All, All-append,
  is_some, none,
}
use mathlib.Core.List.{append_assoc}
use pbt_devnet.Migmon.{Kind, Finding, no_finding}
use pbt_devnet.Driver.{
  World, Run, Step, Flow, next, stop, stuck, ◌>>=◌, give, act, Act, asked_partition, asked_clear,
  logged, log, log_all, Note, now, deploy, ask_repeer, sleep_until, quit, probe, outlived, swept,
}

-- What holds where a step goes on, where it stops, and where it is stuck.
abbrev pub Ends : {A : Type 0} → Type 0 → (Run → Type 0) → (A → Run → Type 0) → Flow A → Type 0
Ends U S P (next a r) = P a r
Ends U S P (stop r) = S r
Ends U S P stuck = U

pub bind-Ends :
    {A B : Type 0} (U : Type 0) (S : Run → Type 0) (P : A → Run → Type 0) (Q : B → Run → Type 0)
    (m : Step A) (f : A → Step B) (r : Run)
    → Ends U S P (m r)
    → ((a : A) (s : Run) → P a s → Ends U S Q (f a s))
    → Ends U S Q ((m >>= f) r)
bind-Ends {A} {B} U S P Q m f r h k = by_flow (m r) h
  where
    by_flow :
        (x : Flow A)
        → Ends U S P x
        → Ends U S Q (
            let y : Flow B = elim x [ next a r' ↦ f a r' | stop r' ↦ stop r' | stuck ↦ stuck ] in y)
    by_flow (next a s) e = k a s e
    by_flow (stop s) e = e
    by_flow stuck e = e

pub Ends-map :
    {A : Type 0} (U : Type 0) (S T : Run → Type 0) (P Q : A → Run → Type 0) (x : Flow A)
    → ((s : Run) → S s → T s)
    → ((a : A) (s : Run) → P a s → Q a s)
    → Ends U S P x
    → Ends U T Q x
Ends-map U S T P Q (next a s) f g h = g a s h
Ends-map U S T P Q (stop s) f g h = f s h
Ends-map U S T P Q stuck f g h = h

-- The outcome of a sweep: whether it found a split in force.
abbrev pub verdict : Note → Option Bool
verdict outlived = some true
verdict swept = some false
verdict _ = none

unfoldable pub is_verdict : Note → Bool
is_verdict n = is_some (verdict n)

unfoldable pub is_quiet : Act → Bool
unfolding is_verdict
is_quiet (asked_partition n g d) = false
is_quiet (asked_clear d) = false
is_quiet (logged l) = not (is_verdict l.note)
is_quiet _ = true

abbrev pub Quiet : List Act → Type 0
Quiet as' = All (λ a. is_quiet a ≡ true) as'

-- The run went on with quiet calls alone.
pub record Same (r s : Run) : Type 0 where
  pub calls : List Act
  pub quiet : Quiet calls
  pub grows : s.trace ≡ calls ++ r.trace
  pub applied : s.applied ≡ r.applied
  pub healed : s.healed ≡ r.healed

-- The run stopped after quiet calls and a clear.
pub record Halted (w : World) (r s : Run) : Type 0 where
  pub calls : List Act
  pub quiet : Quiet calls
  pub grows : s.trace ≡ asked_clear (w.clears (calls ++ r.trace)) ∷ (calls ++ r.trace)

Same-self : (r : Run) → Same r r
Same-self r = record { calls = []; quiet = tt; grows = refl; applied = refl; healed = refl }

pub Same-trans : {r s t : Run} → Same r s → Same s t → Same r t
Same-trans {r} {s} {t} h k = record {
  calls = k.calls ++ h.calls;
  quiet = All-append (λ a. is_quiet a ≡ true) k.calls h.calls k.quiet h.quiet;
  grows = k.grows ∙ ap (λ x. k.calls ++ x) h.grows ∙ rw (append_assoc k.calls h.calls r.trace);
  applied = k.applied ∙ h.applied;
  healed = k.healed ∙ h.healed;
}

pub Same-Halted : {w : World} {r s t : Run} → Same r s → Halted w s t → Halted w r t
Same-Halted {w} {r} {s} {t} h k = record {
  calls = k.calls ++ h.calls;
  quiet = All-append (λ a. is_quiet a ≡ true) k.calls h.calls k.quiet h.quiet;
  grows =
      k.grows
      ∙ ap (λ x. asked_clear (w.clears x) ∷ x)
          (ap (λ x. k.calls ++ x) h.grows ∙ rw (append_assoc k.calls h.calls r.trace));
}

pub record IsNeutral (w : World) (U : Type 0) {A : Type 0} (m : Step A) : Type 0 where
  pub ends : (r : Run) → Ends U (Halted w r) (λ _ s. Same r s) (m r)

pub bind-IsNeutral :
    {w : World} {U A B : Type 0} (m : Step A) (f : A → Step B)
    → IsNeutral w U m
    → ((a : A) → IsNeutral w U (f a))
    → IsNeutral w U (m >>= f)
bind-IsNeutral {w} {U} m f h k = record {
  ends = λ r.
      bind-Ends U (Halted w r) (λ _ s. Same r s) (λ _ s. Same r s) m f r (h.ends r)
        (λ a s e.
          Ends-map U (Halted w s) (Halted w r) (λ _ t. Same s t) (λ _ t. Same r t) (f a s)
            (λ t x. Same-Halted e x) (λ _ t x. Same-trans e x) ((k a).ends s));
}

pub give-IsNeutral : {w : World} {U : Type 0} {A : Type 0} (a : A) → IsNeutral w U (give a)
give-IsNeutral a = record { ends = λ r. Same-self r }

act-Same : (a : Act) (r : Run) → is_quiet a ≡ true → Same r (record r { trace = a ∷ r.trace })
act-Same a r e = record {
  calls = a ∷ [];
  quiet = (e, tt);
  grows = refl;
  applied = refl;
  healed = refl;
}

pub act-IsNeutral : {w : World} {U : Type 0} (a : Act) → is_quiet a ≡ true → IsNeutral w U (act a)
act-IsNeutral a e = record { ends = λ r. act-Same a r e }

pub log-IsNeutral :
    {w : World} {U : Type 0} (k : Kind) (node : Option ℕ) (f : Finding) (note : Note)
    → is_verdict note ≡ false
    → IsNeutral w U (log k node f note)
unfolding log is_quiet
log-IsNeutral k n f note e = record { ends = λ r. act-Same _ r (rw e) }

pub log_all-IsNeutral :
    {w : World} {U : Type 0} (k : Kind) (note : ℕ → Note) (vs : List ℕ)
    → ((v : ℕ) → is_verdict (note v) ≡ false)
    → IsNeutral w U (log_all k note vs)
unfolding log_all
log_all-IsNeutral k note [] e = give-IsNeutral tt
log_all-IsNeutral k note (v ∷ vs) e =
    bind-IsNeutral (log k (some v) no_finding (note v)) _
      (log-IsNeutral k (some v) no_finding (note v) (e v)) (λ _. log_all-IsNeutral k note vs e)

module _ (w : World) where
  pub now-IsNeutral : {U : Type 0} → IsNeutral w U (now w)
  unfolding now is_quiet
  now-IsNeutral = record { ends = λ r. act-Same _ r refl }

  pub sleep_until-IsNeutral : {U : Type 0} (t : ℕ) → IsNeutral w U (sleep_until w t)
  unfolding sleep_until is_quiet
  sleep_until-IsNeutral t = record { ends = λ r. act-Same _ r refl }

  pub probe-IsNeutral : {U : Type 0} (v : ℕ) → IsNeutral w U (probe w v)
  unfolding probe is_quiet
  probe-IsNeutral v = record { ends = λ r. act-Same _ r refl }

  pub deploy-IsNeutral : {U : Type 0} → IsNeutral w U (deploy w)
  unfolding deploy is_quiet
  deploy-IsNeutral = record { ends = λ r. act-Same _ r refl }

  pub ask_repeer-IsNeutral : {U : Type 0} → IsNeutral w U (ask_repeer w)
  unfolding ask_repeer is_quiet
  ask_repeer-IsNeutral = record { ends = λ r. act-Same _ r refl }

  pub quit-IsNeutral : {U : Type 0} (A : Type 0) → IsNeutral w U (quit w {A = A})
  unfolding quit
  quit-IsNeutral A = record { ends = λ r. record { calls = []; quiet = tt; grows = refl } }
