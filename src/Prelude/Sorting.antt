-- ===== src/Prelude/Sorting.antt =====
-- A stable sort by a `less` test, as sort.SliceStable takes it.
use mathlib.Core.Path.{◌≡◌}
use mathlib.Core.Logic.{◌↔◌, ◌⊎◌, inl, inr}
use mathlib.Core.Bool.{Bool, true, false}
use mathlib.Core.List.{List, [], ◌∷◌, Perm}
use mathlib.Core.List.Perm
use pbt_devnet.Prelude.Tests.{if◌then◌else◌, Bool-cases}
use pbt_devnet.Prelude.Lists.{All, Some, All-map}

module _ {ℓ} {A : Type ℓ} (less : A → A → Bool) where
  unfoldable pub insert : A → List A → List A
  insert x [] = x ∷ []
  insert x (y ∷ ys) = let rest = insert x ys in if less y x then y ∷ rest else x ∷ y ∷ ys

  unfoldable pub sort : List A → List A
  unfolding insert
  sort [] = []
  sort (x ∷ xs) = insert x (sort xs)

  -- No later item is less than an earlier one.
  abbrev pub IsSorted : List A → Type 0
  IsSorted [] = Unit
  IsSorted (x ∷ xs) = All (λ y. less y x ≡ false) xs × IsSorted xs

module _ {ℓ} {A : Type ℓ} (less : A → A → Bool) where
  insert-perm : (x : A) (ys : List A) → Perm (insert less x ys) (x ∷ ys)
  unfolding insert
  insert-perm x [] = Perm.refl _
  insert-perm x (y ∷ ys) = elim (Bool-cases (less y x)) [
    | inl e ↦ rw e (Perm.trans (Perm.cons y (insert-perm x ys)) (Perm.swap x y ys))
    | inr e ↦ rw e (Perm.refl _)
  ]

  pub sort-perm : (xs : List A) → Perm (sort less xs) xs
  unfolding sort
  sort-perm [] = Perm.refl _
  sort-perm (x ∷ xs) = Perm.trans (insert-perm x (sort less xs)) (Perm.cons x (sort-perm xs))

  insert-All {κ} :
      (P : A → Type κ) (x : A) (ys : List A) → P x → All P ys → All P (insert less x ys)
  unfolding insert
  insert-All P x [] p h = (p, tt)
  insert-All P x (y ∷ ys) p h = elim (Bool-cases (less y x)) [
    | inl e ↦ rw e (h.0, insert-All P x ys p h.1)
    | inr e ↦ rw e (p, h)
  ]

  pub sort-All {κ} : (P : A → Type κ) (xs : List A) → All P xs → All P (sort less xs)
  unfolding sort
  sort-All P [] h = tt
  sort-All P (x ∷ xs) h = insert-All P x (sort less xs) h.0 (sort-All P xs h.1)

  insert-Some :
      (P : A → Type 0) (x : A) (ys : List A) → Some P (insert less x ys) ↔ (P x ⊎ Some P ys)
  unfolding insert
  insert-Some P x [] = (λ h. h, λ h. h)
  insert-Some P x (y ∷ ys) = elim (Bool-cases (less y x)) [
    | inr e ↦ rw e (λ h. h, λ h. h)
    | inl e ↦
        let (to, from) = insert-Some P x ys in
        rw e (
          λ h. elim h [
            | inl a ↦ inr (inl a)
            | inr b ↦ elim (to b) [ inl c ↦ inl c | inr d ↦ inr (inr d) ]
          ],
          λ h. elim h [
            | inl a ↦ inr (from (inl a))
            | inr (inl b) ↦ inl b
            | inr (inr c) ↦ inr (from (inr c))
          ],
        )
  ]

  pub sort-Some : (P : A → Type 0) (xs : List A) → Some P (sort less xs) ↔ Some P xs
  unfolding sort
  sort-Some P [] = (λ h. h, λ h. h)
  sort-Some P (x ∷ xs) =
      let (to, from) = sort-Some P xs in
      let (in_to, in_from) = insert-Some P x (sort less xs) in
      (
        λ h. elim (in_to h) [ inl a ↦ inl a | inr b ↦ inr (to b) ],
        λ h. elim h [ inl a ↦ in_from (inl a) | inr b ↦ in_from (inr (from b)) ],
      )

  -- What a `less` test has to satisfy for the result to be sorted.
  pub record IsOrder : Type ℓ where
    pub asym : (a b : A) → less a b ≡ true → less b a ≡ false
    pub trans : (a b c : A) → less b a ≡ false → less c b ≡ false → less c a ≡ false

module _ {ℓ} {A : Type ℓ} (less : A → A → Bool) (order : IsOrder less) where
  insert-IsSorted : (x : A) (ys : List A) → IsSorted less ys → IsSorted less (insert less x ys)
  unfolding insert
  insert-IsSorted x [] h = (tt, tt)
  insert-IsSorted x (y ∷ ys) h = elim (Bool-cases (less y x)) [
    | inl e ↦ rw e (
      insert-All less (λ z. less z y ≡ false) x ys (order.asym y x e) h.0,
      insert-IsSorted x ys h.1,
    )
    | inr e ↦ rw e (
      (
        e,
        All-map (λ z. less z y ≡ false) (λ z. less z x ≡ false) (λ z. order.trans x y z e) ys h.0,
      ),
      h,
    )
  ]

  pub sort-IsSorted : (xs : List A) → IsSorted less (sort less xs)
  unfolding sort
  sort-IsSorted [] = tt
  sort-IsSorted (x ∷ xs) = insert-IsSorted x (sort less xs) (sort-IsSorted xs)
