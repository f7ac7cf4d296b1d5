-- ===== src/Driver/Clock.antt =====
-- Steps that come to an end under a clock that goes on (cmd/migration-chaos/main.go: clock).
use pbt_devnet.Prelude.{
  ℕ, ◌≤◌, sym, subst, Bool, true, false, List, [], ◌∷◌, ◌++◌, arith, if◌then◌else◌,
}
use pbt_devnet.Driver.{World, Run, Step, Flow, next, stop, stuck, ◌>>=◌, Act, Trace, slept}
use pbt_devnet.Driver.Neutral.{Ends, bind-Ends, Ends-map, Same, Halted, IsNeutral}

-- A clock never goes back, and has come to the instant that a sleep was for.
pub record IsClock (w : World) : Type 0 where
  pub onward : (a : Act) (t : Trace) → w.clock t ≤ w.clock (a ∷ t)
  pub after_sleep : (until : ℕ) (t : Trace) → until ≤ w.clock (slept until true ∷ t)

-- Two things known of an end.
pub Ends-both :
    {A : Type 0} (U V : Type 0) (S T : Run → Type 0) (P Q : A → Run → Type 0) (x : Flow A)
    → Ends U S P x
    → Ends V T Q x
    → Ends U S (λ a s. P a s × Q a s) x
Ends-both U V S T P Q (next a s) h k = (h, k)
Ends-both U V S T P Q (stop s) h k = h
Ends-both U V S T P Q stuck h k = h

abbrev pub Anywhere : Run → Type 0
Anywhere r = Unit

module _ (w : World) (clock : IsClock w) where
  abbrev pub Later : Run → Run → Type 0
  Later r s = w.clock r.trace ≤ w.clock s.trace

  -- A step that ends, whatever it is run on.
  pub record Runs {A : Type 0} (m : Step A) : Type 0 where
    pub ends : (r : Run) → Ends ⊥ Anywhere (λ _ s. Later r s) (m r)

  clock-append : (as' : List Act) (t : Trace) → w.clock t ≤ w.clock (as' ++ t)
  clock-append [] t = omega arith
  clock-append (a ∷ as') t = omega (arith, clock-append as' t, clock.onward a (as' ++ t))

  pub Same-Later : {r s : Run} → Same r s → Later r s
  Same-Later {r} {s} e =
      subst (λ t. w.clock r.trace ≤ w.clock t) (sym e.grows) (clock-append e.calls r.trace)

  pub neutral-Runs : {A : Type 0} (m : Step A) → IsNeutral w ⊥ m → Runs m
  neutral-Runs m n = record {
    ends = λ r.
        Ends-map ⊥ (Halted w r) Anywhere (λ _ s. Same r s) (λ _ s. Later r s) (m r) (λ _ _. tt)
          (λ _ s e. Same-Later e) (n.ends r);
  }

  pub bind-Runs :
      {A B : Type 0} (m : Step A) (f : A → Step B)
      → Runs m
      → ((a : A) → Runs (f a))
      → Runs (m >>= f)
  bind-Runs m f h k = record {
    ends = λ r.
        bind-Ends ⊥ Anywhere (λ _ s. Later r s) (λ _ s. Later r s) m f r (h.ends r)
          (λ a s e.
            Ends-map ⊥ Anywhere Anywhere (λ _ t. Later s t) (λ _ t. Later r t) (f a s) (λ _ _. tt)
              (λ _ t l. omega arith) ((k a).ends s));
  }

  pub if-Runs : {A : Type 0} (b : Bool) {m n : Step A} → Runs m → Runs n → Runs (if b then m else n)
  if-Runs true h k = h
  if-Runs false h k = k
