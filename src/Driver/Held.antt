-- ===== src/Driver/Held.antt =====
-- A split in force, and the end that is to take it down (cmd/migration-chaos/main.go: execute).
use pbt_devnet.Prelude.{
  ◌≡◌, refl, ◌≢◌, ap, ◌∙◌, ◌⊎◌, inl, inr, Bool, true, false, none, some, List, [], ◌∷◌, ◌++◌, Some,
  if◌then◌else◌, eq_iff, ==_iff,
}
use pbt_devnet.Schedule.{Op}
use pbt_devnet.Schedule.Actions.{Action, end_of}
use pbt_devnet.Driver.{Name, World, Run, Step, ◌>>=◌, Trace, asked_clear, same_name, clear}
use pbt_devnet.Driver.Execute.{is_applied}
use pbt_devnet.Driver.Neutral.{Ends, bind-Ends, Ends-map, Same, Halted, IsNeutral}
use pbt_devnet.Driver.Flag.{split, split-Quiet}

-- No split is in force.
abbrev pub Free : Run → Type 0
Free r = split r.trace ≡ none

-- A split in force is of an op that the driver holds applied, and its end is in the work ahead.
pub record Pending (ahead : List Action) (r : Run) : Type 0 where
  pub of_op : Op
  pub in_force : split r.trace ≡ some of_op.name
  pub applied : is_applied of_op.name r.applied ≡ true
  pub ends : Some (λ b. b ≡ end_of of_op) ahead

abbrev pub Held : List Action → Run → Type 0
Held ahead r = Free r ⊎ Pending ahead r

pub Held-Free : (r : Run) → Held [] r → Free r
Held-Free r (inl f) = f
Held-Free r (inr p) = absurd p.ends

same_name_self : (n : Name) → same_name n n ≡ true
unfolding same_name
same_name_self n = rw ((eq_iff n.0 n.0).1 refl, (==_iff n.1 n.1).1 refl) refl

pub is_applied-head : (n : Name) (ns : List Name) → is_applied n (n ∷ ns) ≡ true
unfolding is_applied
is_applied-head n ns = rw (same_name_self n) refl

Same-Held : {r s : Run} {ahead : List Action} → Same r s → Held ahead r → Held ahead s
Same-Held {r} {s} {ahead} e (inl f) =
    inl (ap split e.grows ∙ split-Quiet e.calls r.trace e.quiet ∙ f)
Same-Held {r} {s} {ahead} e (inr p) = inr (record {
  of_op = p.of_op;
  in_force = ap split e.grows ∙ split-Quiet e.calls r.trace e.quiet ∙ p.in_force;
  applied = ap (is_applied p.of_op.name) e.applied ∙ p.applied;
  ends = p.ends;
})

-- The end of a split in force is no start or sweep.
pub drop-Held :
    (a : Action) (rest : List Action) (r : Run)
    → ((o : Op) → a ≢ end_of o)
    → Held (a ∷ rest) r
    → Held rest r
drop-Held a rest r n (inl f) = inl f
drop-Held a rest r n (inr p) = elim p.ends [
  | inl e ↦ absurd (n p.of_op e)
  | inr m ↦ inr (record { of_op = p.of_op; in_force = p.in_force; applied = p.applied; ends = m })
]

module _ (w : World) (works : (t : Trace) → w.clears t ≡ true) where
  Halted-Free : {r s : Run} → Halted w r s → Free s
  unfolding split
  Halted-Free {r} {s} e =
      ap split (e.grows ∙ ap (λ d. asked_clear d ∷ (e.calls ++ r.trace)) (works _))

  -- A step after which the ends ahead of a split in force are among `after`.
  pub record Frees (before after : List Action) {A : Type 0} (m : Step A) : Type 0 where
    pub ends : (r : Run) → Held before r → Ends Unit Free (λ _ s. Held after s) (m r)

  pub neutral-Frees :
      {A : Type 0} (ahead : List Action) (m : Step A) → IsNeutral w Unit m → Frees ahead ahead m
  neutral-Frees ahead m n = record {
    ends = λ r i.
        Ends-map Unit (Halted w r) Free (λ _ s. Same r s) (λ _ s. Held ahead s) (m r)
          (λ s e. Halted-Free e) (λ _ s e. Same-Held e i) (n.ends r);
  }

  pub bind-Frees :
      {A B : Type 0} (before mid after : List Action) (m : Step A) (f : A → Step B)
      → Frees before mid m
      → ((a : A) → Frees mid after (f a))
      → Frees before after (m >>= f)
  bind-Frees before mid after m f h k = record {
    ends = λ r i.
        bind-Ends Unit Free (λ _ s. Held mid s) (λ _ s. Held after s) m f r (h.ends r i)
          (λ a s e. (k a).ends s e);
  }

  pub clear-Free : (r : Run) → Ends Unit Free (λ d s. (d ≡ true) × Free s) (clear w r)
  unfolding clear split
  clear-Free r = (works r.trace, ap (λ d. split (asked_clear d ∷ r.trace)) (works r.trace))

  pub if-Frees :
      (before after : List Action) {A : Type 0} (b : Bool) {m n : Step A}
      → Frees before after m
      → Frees before after n
      → Frees before after (if b then m else n)
  if-Frees before after true h k = h
  if-Frees before after false h k = k

  -- A run that has just been freed goes on free.
  pub freed :
      {A : Type 0} (ahead : List Action) (m : Step A)
      → IsNeutral w Unit m
      → (r : Run) → Free r
      → Ends Unit Free (λ _ s. Held ahead s) (m r)
  freed ahead m n r f = (neutral-Frees ahead m n).ends r (inl f)
