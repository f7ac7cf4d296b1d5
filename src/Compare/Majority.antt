-- ===== src/Compare/Majority.antt =====
-- The strict majority and the height of the comparison (compare.go: strictMajority, pickHeight).
use pbt_devnet.Prelude.{
  ℕ, ◌-◌, ◌*◌, ◌&&◌, ◌≤◌, ◌<◌, ◌≡◌, refl, ◌↔◌, ◌⊎◌, inl, inr, String, Bool, true, false, Option,
  none, some, List, [], ◌∷◌, ltb, if◌then◌else◌, Bool-cases, All, All-map, Some, Some-map, arith,
}
use pbt_devnet.Compare.{
  NodeAnswer, is_eligible, lower, lowest_head, compare_depth, pick_height, Counts, total_of,
  majority_in, strict_majority,
}

entry-le : (t : ℕ) (m : Counts) → Some (λ e. t < e.1 * 2) m → t < total_of m * 2
unfolding total_of
entry-le t [] h = absurd h
entry-le t (e ∷ m) (inl h) = omega arith
entry-le t (e ∷ m) (inr h) = omega (arith, entry-le t m h)

majority_in_sound :
    (t : ℕ) (m : Counts) (v : String)
    → majority_in t m ≡ some v
    → Some (λ e. (e.0 ≡ v) × (t < e.1 * 2)) m
unfolding majority_in
majority_in_sound t [] v h = absurd (cc)
majority_in_sound t (e ∷ m) v h = elim (Bool-cases (ltb t (e.1 * 2))) [
  | inl wins ↦ let found : some e.0 ≡ some v = rw wins at h in inl (cc, ground arith)
  | inr loses ↦ inr (majority_in_sound t m v (rw loses at h))
]

majority_in_complete :
    (t : ℕ) (m : Counts) (v : String)
    → total_of m ≤ t
    → Some (λ e. (e.0 ≡ v) × (t < e.1 * 2)) m
    → majority_in t m ≡ some v
unfolding majority_in total_of
majority_in_complete t [] v low h = absurd h
majority_in_complete t (e ∷ m) v low (inl (same, wins)) = ground (arith, same)
majority_in_complete t (e ∷ m) v low (inr later) = elim (Bool-cases (ltb t (e.1 * 2))) [
  | inl wins ↦
      let rest = entry-le t m (Some-map _ _ (λ x p. p.1) m later) in absurd (ground (arith, rest))
  | inr loses ↦ rw loses (majority_in_complete t m v (omega arith) later)
]

-- A value is the strict majority exactly if one of the entries counts it more than half of the
-- total, in whatever order the entries are visited.
pub strict_majority_iff :
    (m : Counts) (v : String)
    → (strict_majority m ≡ some v) ↔ Some (λ e. (e.0 ≡ v) × (total_of m < e.1 * 2)) m
unfolding strict_majority
strict_majority_iff m v =
    (majority_in_sound (total_of m) m v, majority_in_complete (total_of m) m v (omega arith))

-- A lower bound of the eligible heads and of the number before, which is one of them; or none.
abbrev Lowest : List NodeAnswer → (before after : Option ℕ) → Type 0
Lowest answers before none = (before ≡ none) × All (λ a. is_eligible a ≡ false) answers
Lowest answers before (some n) =
    All (λ a. is_eligible a ≡ true → n ≤ a.head_number) answers
    × ((m : ℕ) → before ≡ some m → n ≤ m)
    × ((before ≡ some n) ⊎ Some (λ a. (is_eligible a ≡ true) × (a.head_number ≡ n)) answers)

lower-Lowest :
    (a : NodeAnswer) (answers : List NodeAnswer) (before after : Option ℕ)
    → Lowest answers (lower a before) after
    → Lowest (a ∷ answers) before after
unfolding lower
lower-Lowest a answers before after h = by_test (is_eligible a) refl before after h
  where
    lowered : Bool → Option ℕ → Option ℕ
    lowered t none = if t then some a.head_number else none
    lowered t (some n) = if t && ltb a.head_number n then some a.head_number else some n

    by_test :
        (t : Bool)
        → is_eligible a ≡ t
        → (before after : Option ℕ) → Lowest answers (lowered t before) after
        → Lowest (a ∷ answers) before after
    by_test false e none none (same, rest) = (refl, (e, rest))
    by_test false e (some m) none (same, rest) = absurd (cc)
    by_test true e none none (same, rest) = absurd (cc)
    by_test true e (some m) none (same, rest) = absurd (ground arith)
    by_test false e none (some n) (low, least, met) = (
      (λ t. absurd (cc), low),
      λ m eq. absurd (cc),
      elim met [ inl eq ↦ absurd (cc) | inr at ↦ inr (inr at) ],
    )
    by_test false e (some m) (some n) (low, least, met) =
        ((λ t. absurd (cc), low), least, elim met [ inl eq ↦ inl eq | inr at ↦ inr (inr at) ])
    by_test true e none (some n) (low, least, met) = (
      (λ t. least a.head_number refl, low),
      λ m eq. absurd (cc),
      elim met [ inl eq ↦ inr (inl (e, ground arith)) | inr at ↦ inr (inr at) ],
    )
    by_test true e (some m) (some n) (low, least, met) = elim (Bool-cases (ltb a.head_number m)) [
      | inl less ↦
          let least' = rw less at least in
          let below : n ≤ a.head_number = least' a.head_number refl in
          (
            (λ t. below, low),
            λ k eq. ground arith,
            elim met [
              | inl eq ↦ let eq' = rw less at eq in inr (inl (e, ground arith))
              | inr at ↦ inr (inr at)
            ],
          )
      | inr more ↦
          let least' = rw more at least in
          let below : n ≤ m = least' m refl in
          (
            (λ t. ground arith, low),
            λ k eq. ground arith,
            elim met [ inl eq ↦ inl (rw more at eq) | inr at ↦ inr (inr at) ],
          )
    ]

lowest_head-Lowest :
    (answers : List NodeAnswer) (before : Option ℕ)
    → Lowest answers before (lowest_head answers before)
unfolding lowest_head
lowest_head-Lowest [] none = (refl, tt)
lowest_head-Lowest [] (some n) = (tt, λ m e. ground arith, inl refl)
lowest_head-Lowest (a ∷ answers) before =
    lower-Lowest a answers before _ (lowest_head-Lowest answers (lower a before))

-- The height of the comparison: none exactly if no node is eligible; otherwise no eligible head is
-- below it, and some eligible head is two blocks above it, or less where that would be below 0.
abbrev pub Fits : List NodeAnswer → Option ℕ → Type 0
Fits answers none = All (λ a. is_eligible a ≡ false) answers
Fits answers (some h) =
    All (λ a. is_eligible a ≡ true → h ≤ a.head_number - 2) answers
    × Some (λ a. (is_eligible a ≡ true) × (h ≡ a.head_number - 2)) answers

-- `pickHeight` gives no height exactly where no node is eligible. Its height is two below the lowest
-- eligible head, or 0 if that head is below 2.
pub pick_height-Fits : (answers : List NodeAnswer) → Fits answers (pick_height answers)
unfolding pick_height
pick_height-Fits answers = by_lowest (lowest_head answers none) (lowest_head-Lowest answers none)
  where
    by_lowest :
        (o : Option ℕ)
        → Lowest answers none o
        → let it : Option ℕ = elim o [ none ↦ none | some n ↦ some (n - compare_depth) ] in
          Fits answers it
    by_lowest none (_, rest) = rest
    by_lowest (some n) (low, _, met) = (
      All-map _ _ (λ a f t. omega (arith, f t)) answers low,
      elim met [
        | inl eq ↦ absurd (cc)
        | inr at ↦ Some-map _ _ (λ a (t, eq). (t, omega (arith, eq))) answers at
      ],
    )
