-- ===== src/Driver/Plan.antt =====
-- What a planned request to split is, and steps that make no other (cmd/migration-chaos/main.go: execute).
use pbt_devnet.Prelude.{
  ℕ, ◌<◌, ◌≤◌, ◌≡◌, ◌↔◌, map, ap, refl, sym, subst, Bool, true, false, List, [], ◌∷◌, ◌++◌, Some,
  if◌then◌else◌,
}
use pbt_devnet.Schedule.{Op, admitted}
use pbt_devnet.Schedule.Topology.{others}
use pbt_devnet.Schedule.Topology.Selection.{Has, others-Has}
use pbt_devnet.Driver.{
  alone, Name, World, Run, Step, ◌>>=◌, give, Act, Trace, slept, read_clock, asked_partition, quit,
  asked_clear, probed, deployed, wrote_split, asked_repeer, logged, islands, now, clear, wait,
  sleep_until,
}
use pbt_devnet.Driver.Neutral.{Ends, bind-Ends, Ends-map, is_quiet, Quiet, Same, Halted, IsNeutral}

-- The groups that an op splits the network into: the participants that are no victims, and its
-- victims, each alone if its islands are mutual, and together if not.
pub record IsSplit (participants : ℕ) (o : Op) (groups : List (List ℕ)) : Type 0 where
  pub rest : List ℕ
  pub cut : List (List ℕ)
  pub split : groups ≡ rest ∷ cut
  pub others : (i : ℕ) → Has rest i ↔ ((1 ≤ i) × (i ≤ participants) × (¬ Has o.victims i))
  pub apart : o.mutual_islands ≡ true → cut ≡ map (λ v. v ∷ []) o.victims
  pub together : o.mutual_islands ≡ false → cut ≡ o.victims ∷ []

alone-map : (vs : List ℕ) → alone vs ≡ map (λ v. v ∷ []) vs
unfolding alone
alone-map [] = refl
alone-map (v ∷ vs) = ap (λ l. (v ∷ []) ∷ l) (alone-map vs)

pub islands-IsSplit : (participants : ℕ) (o : Op) → IsSplit participants o (islands participants o)
unfolding islands
islands-IsSplit participants o = record {
  rest = others participants o.victims;
  cut = if o.mutual_islands then alone o.victims else o.victims ∷ [];
  split = refl;
  others = others-Has participants o.victims;
  apart = λ h. rw h (alone-map o.victims);
  together = λ h. rw h refl;
}

module _ (participants : ℕ) (ops : List Op) where
  -- An op that a request may be for: the request came when the driver had slept until its start,
  -- and found that its window was still open.
  pub record IsFor (n : Name) (g : List (List ℕ)) (slept_until now : ℕ) (o : Op) : Type 0 where
    pub admitted : admitted o ≡ true
    pub name : n ≡ o.name
    pub groups : IsSplit participants o g
    pub on_time : slept_until ≡ o.start
    pub open_still : now < o.end

  unfoldable pub Asked : Name → List (List ℕ) → Trace → Type 0
  Asked n g (read_clock now ∷ slept until true ∷ t) = Some (IsFor n g until now) ops
  Asked n g _ = ⊥

  -- Every request to split is for an op of the schedule.
  unfoldable pub IsPlanned : Trace → Type 0
  unfolding Asked
  IsPlanned [] = Unit
  IsPlanned (asked_partition n g d ∷ t) = Asked n g t × IsPlanned t
  IsPlanned (_ ∷ t) = IsPlanned t

  IsPlanned-quiet : (a : Act) (t : Trace) → is_quiet a ≡ true → IsPlanned t → IsPlanned (a ∷ t)
  unfolding IsPlanned is_quiet
  IsPlanned-quiet (slept u k) t h i = i
  IsPlanned-quiet (read_clock k) t h i = i
  IsPlanned-quiet (asked_partition n g d) t h i = cc
  IsPlanned-quiet (asked_clear d) t h i = i
  IsPlanned-quiet (probed v p) t h i = i
  IsPlanned-quiet (deployed d) t h i = i
  IsPlanned-quiet wrote_split t h i = i
  IsPlanned-quiet (asked_repeer d) t h i = i
  IsPlanned-quiet (logged l) t h i = i

  IsPlanned-Quiet : (as' : List Act) (t : Trace) → Quiet as' → IsPlanned t → IsPlanned (as' ++ t)
  IsPlanned-Quiet [] t h i = i
  IsPlanned-Quiet (a ∷ as') t h i = IsPlanned-quiet a (as' ++ t) h.0 (IsPlanned-Quiet as' t h.1 i)

  -- A step that asks for planned splits only.
  pub record KeepsPlan {A : Type 0} (m : Step A) : Type 0 where
    pub ends :
        (r : Run)
        → IsPlanned r.trace
        → Ends Unit (λ s. IsPlanned s.trace) (λ _ s. IsPlanned s.trace) (m r)

  pub neutral-KeepsPlan : (w : World) {A : Type 0} (m : Step A) → IsNeutral w Unit m → KeepsPlan m
  unfolding IsPlanned
  neutral-KeepsPlan w m n = record {
    ends = λ r i.
        Ends-map Unit (Halted w r) (λ s. IsPlanned s.trace) (λ _ s. Same r s)
          (λ _ s. IsPlanned s.trace) (m r)
          (λ s e. subst IsPlanned (sym e.grows) (IsPlanned-Quiet e.calls r.trace e.quiet i))
          (λ _ s e. subst IsPlanned (sym e.grows) (IsPlanned-Quiet e.calls r.trace e.quiet i))
          (n.ends r);
  }

  pub bind-KeepsPlan :
      {A B : Type 0} (m : Step A) (f : A → Step B)
      → KeepsPlan m
      → ((a : A) → KeepsPlan (f a))
      → KeepsPlan (m >>= f)
  bind-KeepsPlan m f h k = record {
    ends = λ r i.
        bind-Ends Unit (λ s. IsPlanned s.trace) (λ _ s. IsPlanned s.trace)
          (λ _ s. IsPlanned s.trace) m f r (h.ends r i) (λ a s e. (k a).ends s e);
  }

  pub if-KeepsPlan :
      {A : Type 0} (b : Bool) {m n : Step A}
      → KeepsPlan m
      → KeepsPlan n
      → KeepsPlan (if b then m else n)
  if-KeepsPlan true h k = h
  if-KeepsPlan false h k = k

  -- The clock was read right after the sleep.
  abbrev pub Woken : (at now : ℕ) → Run → Type 0
  Woken at now s = IsPlanned s.trace × (t : Trace) × (s.trace ≡ read_clock now ∷ slept at true ∷ t)

  abbrev pub Awake : (at : ℕ) → Run → Type 0
  Awake at s = IsPlanned s.trace × (t : Trace) × (s.trace ≡ slept at true ∷ t)

  module _ (w : World) where
    pub clear-KeepsPlan : KeepsPlan (clear w)
    unfolding clear IsPlanned
    clear-KeepsPlan = record { ends = λ r i. i }

    pub wait-Awake :
        (at : ℕ) (r : Run)
        → IsPlanned r.trace
        → Ends Unit (λ s. IsPlanned s.trace) (λ _ s. Awake at s) (wait w at r)
    unfolding wait sleep_until quit clear IsPlanned
    wait-Awake at r i = by_answer (w.awake r.trace at)
      where
        by_answer :
            (b : Bool)
            → Ends Unit
                (λ s. IsPlanned s.trace)
                (λ _ s. Awake at s)
                ((if b then give tt else quit w) (record r { trace = slept at b ∷ r.trace }))
        by_answer true = (i, r.trace, refl)
        by_answer false = i
