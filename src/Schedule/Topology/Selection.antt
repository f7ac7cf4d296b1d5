-- ===== src/Schedule/Topology/Selection.antt =====
-- Who may be disrupted, and who stays outside an island (internal/migsched/schedule.go: Lights,
-- Others).
use pbt_devnet.Prelude.{
  ℕ, zero, suc, ◌+◌, ◌≤◌, ◌<◌, ◌≡◌, ◌≢◌, ◌↔◌, inl, inr, true, not, List, [], ◌∷◌, arith, ◌==◌, sym,
  subst, All-Some, ℕ_discrete, keep, Some, Some-map, Some-keep, some_of-Some, All, Bool-cases,
}
use pbt_devnet.Schedule.Topology.{indices, contains, lights_of, others}

abbrev pub Has : List ℕ → ℕ → Type 0
Has xs i = Some (λ x. x ≡ i) xs

indices-Has : (from n i : ℕ) → Has (indices from n) i ↔ ((from ≤ i) × (i < from + n))
unfolding indices
indices-Has from zero i = (λ h. absurd h, λ h. absurd (omega arith))
indices-Has from (suc n) i =
    let (to, back) = indices-Has (suc from) n i in
    (
      λ h. elim h [
        | inl e ↦ (omega arith, omega arith)
        | inr k ↦ (omega (arith, (to k).0), omega (arith, (to k).1))
      ],
      λ h. elim (ℕ_discrete from i) [
        | yes e ↦ inl e
        | no n ↦ inr (back (omega arith, omega arith))
      ],
    )

contains-Has : (xs : List ℕ) (i : ℕ) → (contains xs i ≡ true) ↔ Has xs i
unfolding contains
contains-Has xs i =
    let (to, from) = some_of-Some (λ x. x == i) xs in
    (
      λ h. Some-map (λ x. (x == i) ≡ true) (λ x. x ≡ i) (λ x k. ground arith) xs (to h),
      λ h. from (Some-map (λ x. x ≡ i) (λ x. (x == i) ≡ true) (λ x k. ground arith) xs h),
    )

left_out : (xs : List ℕ) (i : ℕ) → (not (contains xs i) ≡ true) ↔ (¬ Has xs i)
left_out xs i =
    let (to, from) = contains-Has xs i in
    elim (Bool-cases (contains xs i)) [
      | inl e ↦ (λ h. absurd (let k = rw e at h in cc), λ h. absurd (h (to e)))
      | inr e ↦ (λ _ m. absurd (let k = from m in cc), λ _. rw e)
    ]

All-units : (xs : List ℕ) → All (λ x. Unit {0}) xs
All-units [] = tt
All-units (x ∷ xs) = (tt, All-units xs)

-- Membership in a selection of the participants by a set that it leaves out.
select-Has :
    (participants : ℕ) (out : List ℕ) (i : ℕ)
    → Has (keep (λ j. not (contains out j)) (indices 1 participants)) i
      ↔ ((1 ≤ i) × (i ≤ participants) × (¬ Has out i))
select-Has participants out i =
    let (to, from) = Some-keep (λ x. x ≡ i) (λ j. not (contains out j)) (indices 1 participants) in
    let (ito, ifrom) = indices-Has 1 participants i in
    let (oto, ofrom) = left_out out i in
    (
      λ h.
          let m =
            Some-map (λ x. (not (contains out x) ≡ true) × (x ≡ i))
              (λ x. (x ≡ i) × (not (contains out i) ≡ true))
              (λ x p. (p.1, subst (λ y. not (contains out y) ≡ true) p.1 p.0)) _ (to h) in
          let k = ito (
            Some-map (λ x. (x ≡ i) × (not (contains out i) ≡ true)) (λ x. x ≡ i) (λ x p. p.0) _
              m) in
          let (x, _, p) =
            All-Some (λ x. Unit {0}) (λ x. (x ≡ i) × (not (contains out i) ≡ true)) _
              (All-units (indices 1 participants)) m in
          (k.0, omega (arith, k.1), oto p.1),
      λ h. from (
          Some-map (λ x. x ≡ i) (λ x. (not (contains out x) ≡ true) × (x ≡ i))
            (λ x e. (subst (λ y. not (contains out y) ≡ true) (sym e) (ofrom h.2), e)) _
            (ifrom (h.0, omega (arith, h.1)))),
    )

-- The lights are the participants other than the anchor and the protected ones.
pub lights_of-Has :
    (participants anchor : ℕ) (protect : List ℕ) (i : ℕ)
    → Has (lights_of participants anchor protect) i
      ↔ ((1 ≤ i) × (i ≤ participants) × (i ≢ anchor) × (¬ Has protect i))
unfolding lights_of
lights_of-Has participants anchor protect i =
    let (to, from) = select-Has participants (anchor ∷ protect) i in
    (
      λ h. let (a, b, c) = to h in (a, b, λ e. c (inl (sym e)), λ m. c (inr m)),
      λ h. from (h.0, h.1, λ m. elim m [ inl e ↦ h.2 (sym e) | inr k ↦ h.3 k ]),
    )

-- `Others` is the complement: each participant is either a victim or one of the others.
pub others-Has :
    (participants : ℕ) (victims : List ℕ) (i : ℕ)
    → Has (others participants victims) i ↔ ((1 ≤ i) × (i ≤ participants) × (¬ Has victims i))
unfolding others
others-Has participants victims i = select-Has participants victims i
