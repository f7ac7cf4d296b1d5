-- ===== src/Driver/Flag.antt =====
-- The driver's events on its sweeps, and what the sweeps found (cmd/migration-chaos/main.go:
-- execute).
use pbt_devnet.Prelude.{
  ◌≡◌, refl, sym, ap, ◌∙◌, subst, Bool, true, false, not, Option, none, some, List, [], ◌∷◌, ◌++◌,
  is_some, arith,
}
use pbt_devnet.Driver.{
  World, Name, Run, Step, ◌>>=◌, Act, Trace, slept, read_clock, asked_partition, asked_clear,
  probed, deployed, wrote_split, asked_repeer, logged, Note,
}
use pbt_devnet.Driver.Neutral.{
  Ends, bind-Ends, Ends-map, verdict, is_verdict, is_quiet, Quiet, Same, Halted, IsNeutral,
}

-- The split that disruptoor has in force, by the calls that it accepted.
unfoldable pub split : Trace → Option Name
split [] = none
split (asked_partition n g true ∷ t) = some n
split (asked_clear true ∷ t) = none
split (_ ∷ t) = split t

-- The clear just made worked, and took down a split or found none.
unfoldable pub Cleared : (found : Bool) → Trace → Type 0
unfolding split
Cleared found (asked_clear true ∷ t) = is_some (split t) ≡ found
Cleared found _ = ⊥

unfoldable pub Says : Trace → Option Bool → Type 0
unfolding Cleared
Says t none = Unit
Says t (some found) = Cleared found t

unfoldable pub Told : Note → Trace → Type 0
unfolding Says
Told n t = Says t (verdict n)

-- Every event on a sweep is told right.
unfoldable pub IsHonest : Trace → Type 0
unfolding Told
IsHonest [] = Unit
IsHonest (logged l ∷ t) = Told l.note t × IsHonest t
IsHonest (_ ∷ t) = IsHonest t

-- `healed` says that no split is in force.
pub record IsRight (r : Run) : Type 0 where
  pub honest : IsHonest r.trace
  pub flag : r.healed ≡ not (is_some (split r.trace))

pub split-quiet : (a : Act) (t : Trace) → is_quiet a ≡ true → split (a ∷ t) ≡ split t
unfolding split is_quiet
split-quiet (slept u k) t h = refl
split-quiet (read_clock k) t h = refl
split-quiet (asked_partition n g d) t h = cc
split-quiet (asked_clear d) t h = cc
split-quiet (probed v p) t h = refl
split-quiet (deployed d) t h = refl
split-quiet wrote_split t h = refl
split-quiet (asked_repeer d) t h = refl
split-quiet (logged l) t h = refl

pub split-Quiet : (as' : List Act) (t : Trace) → Quiet as' → split (as' ++ t) ≡ split t
split-Quiet [] t h = refl
split-Quiet (a ∷ as') t h = split-quiet a (as' ++ t) h.0 ∙ split-Quiet as' t h.1

Told-quiet : (n : Note) (t : Trace) → is_verdict n ≡ false → Told n t
unfolding Told Says is_verdict
Told-quiet n t h = by_verdict (verdict n) h
  where
    by_verdict : (v : Option Bool) → is_some v ≡ false → Says t v
    by_verdict none k = tt
    by_verdict (some found) k = cc

IsHonest-quiet : (a : Act) (t : Trace) → is_quiet a ≡ true → IsHonest t → IsHonest (a ∷ t)
unfolding IsHonest is_quiet
IsHonest-quiet (slept u k) t h i = i
IsHonest-quiet (read_clock k) t h i = i
IsHonest-quiet (asked_partition n g d) t h i = i
IsHonest-quiet (asked_clear d) t h i = i
IsHonest-quiet (probed v p) t h i = i
IsHonest-quiet (deployed d) t h i = i
IsHonest-quiet wrote_split t h i = i
IsHonest-quiet (asked_repeer d) t h i = i
IsHonest-quiet (logged l) t h i = (Told-quiet l.note t (ground arith), i)

pub IsHonest-Quiet : (as' : List Act) (t : Trace) → Quiet as' → IsHonest t → IsHonest (as' ++ t)
IsHonest-Quiet [] t h i = i
IsHonest-Quiet (a ∷ as') t h i = IsHonest-quiet a (as' ++ t) h.0 (IsHonest-Quiet as' t h.1 i)

pub Same-IsRight : {r s : Run} → Same r s → IsRight r → IsRight s
Same-IsRight {r} {s} e i = record {
  honest = subst IsHonest (sym e.grows) (IsHonest-Quiet e.calls r.trace e.quiet i.honest);
  flag =
      e.healed
      ∙ i.flag
      ∙ sym (
          ap (λ t. not (is_some (split t))) e.grows
          ∙ ap (λ n. not (is_some n)) (split-Quiet e.calls r.trace e.quiet));
}

pub Halted-IsHonest : {w : World} {r s : Run} → Halted w r s → IsRight r → IsHonest s.trace
unfolding IsHonest
Halted-IsHonest {w} {r} {s} e i =
    subst IsHonest (sym e.grows) (IsHonest-Quiet e.calls r.trace e.quiet i.honest)

pub Cleared-split : (found : Bool) (t : Trace) → Cleared found t → split t ≡ none
unfolding Cleared split
Cleared-split found (asked_clear true ∷ t) h = refl
Cleared-split found [] h = absurd h
Cleared-split found (asked_clear false ∷ t) h = absurd h
Cleared-split found (slept u k ∷ t) h = absurd h
Cleared-split found (read_clock k ∷ t) h = absurd h
Cleared-split found (asked_partition n g d ∷ t) h = absurd h
Cleared-split found (probed v p ∷ t) h = absurd h
Cleared-split found (deployed d ∷ t) h = absurd h
Cleared-split found (wrote_split ∷ t) h = absurd h
Cleared-split found (asked_repeer d ∷ t) h = absurd h
Cleared-split found (logged l ∷ t) h = absurd h

-- A step that goes on with a right flag, and has told every sweep right where it stops too.
pub record KeepsRight {A : Type 0} (m : Step A) : Type 0 where
  pub ends : (r : Run) → IsRight r → Ends Unit (λ s. IsHonest s.trace) (λ _ s. IsRight s) (m r)

pub neutral-KeepsRight : (w : World) {A : Type 0} (m : Step A) → IsNeutral w Unit m → KeepsRight m
neutral-KeepsRight w m n = record {
  ends = λ r i.
      Ends-map Unit (Halted w r) (λ s. IsHonest s.trace) (λ _ s. Same r s) (λ _ s. IsRight s) (m r)
        (λ s e. Halted-IsHonest e i) (λ _ s e. Same-IsRight e i) (n.ends r);
}

pub bind-KeepsRight :
    {A B : Type 0} (m : Step A) (f : A → Step B)
    → KeepsRight m
    → ((a : A) → KeepsRight (f a))
    → KeepsRight (m >>= f)
bind-KeepsRight m f h k = record {
  ends = λ r i.
      bind-Ends Unit (λ s. IsHonest s.trace) (λ _ s. IsRight s) (λ _ s. IsRight s) m f r
        (h.ends r i) (λ a s e. (k a).ends s e);
}
