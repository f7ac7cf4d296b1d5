-- ===== src/Prelude/Lists.antt =====
-- Lists measured by native numbers, predicates on all and on some items, and membership
-- that can be taken apart.
use Prim.Native.Nat.{ℕ, zero, suc, ◌+◌, ◌<◌}
use mathlib.Core.Path.{◌≡◌, refl, sym, ◌∙◌}
use mathlib.Core.Logic.{◌↔◌, ◌⊎◌, inl, inr}
use mathlib.Core.Bool.{Bool, true, false}
use mathlib.Core.List.{List, [], ◌∷◌, ◌++◌, map}
use mathlib.Core.Option.{Option, none, some}
use native.Mathlib.Omega.{arith}
use pbt_devnet.Prelude.Tests.{if◌then◌else◌, Bool-cases}

module _ {ℓ} {A : Type ℓ} where
  abbrev pub length : List A → ℕ
  length [] = 0
  length (x ∷ xs) = suc (length xs)

  abbrev pub get_elem? : List A → ℕ → Option A
  get_elem? [] i = none
  get_elem? (x ∷ xs) zero = some x
  get_elem? (x ∷ xs) (suc i) = get_elem? xs i

  -- The items that pass a test, in order.
  abbrev pub keep : (A → Bool) → List A → List A
  keep p [] = []
  keep p (x ∷ xs) = let rest = keep p xs in if p x then x ∷ rest else rest

  -- Whether some item passes a test.
  abbrev pub some_of : (A → Bool) → List A → Bool
  some_of p [] = false
  some_of p (x ∷ xs) = let rest = some_of p xs in if p x then true else rest

  pub length-append : (xs ys : List A) → length (xs ++ ys) ≡ length xs + length ys
  length-append [] ys = omega arith
  length-append (x ∷ xs) ys = omega (arith, length-append xs ys)

  pub get_elem?-total : (xs : List A) (i : ℕ) → i < length xs → (a : A) × (get_elem? xs i ≡ some a)
  get_elem?-total [] i h = elim h [ ]
  get_elem?-total (x ∷ xs) zero h = (x, refl)
  get_elem?-total (x ∷ xs) (suc i) h = get_elem?-total xs i (omega arith)

  -- A predicate on every item, and on some item with its position.
  abbrev pub All {κ} : (A → Type κ) → List A → Type κ
  All P [] = Unit
  All P (x ∷ xs) = P x × All P xs

  abbrev pub Some : (A → Type 0) → List A → Type 0
  Some P [] = ⊥
  Some P (x ∷ xs) = P x ⊎ Some P xs

  pub All-map {κ μ} :
      (P : A → Type κ) (Q : A → Type μ)
      → ((x : A) → P x → Q x)
      → (xs : List A) → All P xs
      → All Q xs
  All-map P Q f [] h = tt
  All-map P Q f (x ∷ xs) h = (f x h.0, All-map P Q f xs h.1)

  pub All-both {κ μ ν} :
      (P : A → Type κ) (Q : A → Type μ) (R : A → Type ν)
      → ((x : A) → P x → Q x → R x)
      → (xs : List A) → All P xs
      → All Q xs
      → All R xs
  All-both P Q R f [] h k = tt
  All-both P Q R f (x ∷ xs) h k = (f x h.0 k.0, All-both P Q R f xs h.1 k.1)

  pub All-iff : (P Q : A → Type 0) (xs : List A) → All (λ x. P x ↔ Q x) xs → All P xs ↔ All Q xs
  All-iff P Q [] h = (λ k. tt, λ k. tt)
  All-iff P Q (x ∷ xs) h =
      let (to, from) = All-iff P Q xs h.1 in (λ k. (h.0.0 k.0, to k.1), λ k. (h.0.1 k.0, from k.1))

  pub All-append {κ} : (P : A → Type κ) (xs ys : List A) → All P xs → All P ys → All P (xs ++ ys)
  All-append P [] ys h k = k
  All-append P (x ∷ xs) ys h k = (h.0, All-append P xs ys h.1 k)

  pub Some-map : (P Q : A → Type 0) → ((x : A) → P x → Q x) → (xs : List A) → Some P xs → Some Q xs
  Some-map P Q f [] h = h
  Some-map P Q f (x ∷ xs) (inl h) = inl (f x h)
  Some-map P Q f (x ∷ xs) (inr h) = inr (Some-map P Q f xs h)

  pub All-Some {κ} :
      (P : A → Type κ) (Q : A → Type 0) (xs : List A) → All P xs → Some Q xs → (x : A) × P x × Q x
  All-Some P Q [] h k = absurd k
  All-Some P Q (x ∷ xs) h (inl k) = (x, h.0, k)
  All-Some P Q (x ∷ xs) h (inr k) = All-Some P Q xs h.1 k

  pub append-eq-nil : (xs ys : List A) → (xs ++ ys ≡ []) ↔ ((xs ≡ []) × (ys ≡ []))
  append-eq-nil [] ys = (λ h. (refl, h), λ h. h.1)
  append-eq-nil (x ∷ xs) ys = (λ h. cc, λ h. cc)

  -- The tests `keep` and `some_of` against the predicates that they decide.
  pub All-keep {κ} :
      (P : A → Type κ) (p : A → Bool) (xs : List A)
      → ((x : A) → p x ≡ true → P x)
      → All P (keep p xs)
  All-keep P p [] f = tt
  All-keep P p (x ∷ xs) f = elim (Bool-cases (p x)) [
    | inl e ↦ rw e (f x e, All-keep P p xs f)
    | inr e ↦ rw e (All-keep P p xs f)
  ]

  pub keep-append : (p : A → Bool) (xs ys : List A) → keep p (xs ++ ys) ≡ keep p xs ++ keep p ys
  keep-append p [] ys = refl
  keep-append p (x ∷ xs) ys = elim (Bool-cases (p x)) [
    | inl e ↦ rw e (rw (keep-append p xs ys))
    | inr e ↦ rw e (keep-append p xs ys)
  ]

  pub Some-keep :
      (P : A → Type 0) (p : A → Bool) (xs : List A)
      → Some P (keep p xs) ↔ Some (λ x. (p x ≡ true) × P x) xs
  Some-keep P p [] = (λ h. h, λ h. h)
  Some-keep P p (x ∷ xs) =
      let (to, from) = Some-keep P p xs in
      elim (Bool-cases (p x)) [
        | inl e ↦ rw e (
          λ h. elim h [ inl a ↦ inl (refl, a) | inr b ↦ inr (to b) ],
          λ h. elim h [ inl a ↦ inl a.1 | inr b ↦ inr (from b) ],
        )
        | inr e ↦ rw e (λ h. inr (to h), λ h. elim h [ inl a ↦ cc | inr b ↦ from b ])
      ]

  pub some_of-Some :
      (p : A → Bool) (xs : List A) → (some_of p xs ≡ true) ↔ Some (λ x. p x ≡ true) xs
  some_of-Some p [] = (λ h. cc, λ h. absurd h)
  some_of-Some p (x ∷ xs) =
      let (to, from) = some_of-Some p xs in
      elim (Bool-cases (p x)) [
        | inl e ↦ rw e (λ h. inl refl, λ h. refl)
        | inr e ↦ rw e (λ h. inr (to h), λ h. elim h [ inl a ↦ cc | inr b ↦ from b ])
      ]

  pub some_of-All :
      (p : A → Bool) (xs : List A) → (some_of p xs ≡ false) ↔ All (λ x. p x ≡ false) xs
  some_of-All p [] = (λ h. tt, λ h. refl)
  some_of-All p (x ∷ xs) =
      let (to, from) = some_of-All p xs in
      elim (Bool-cases (p x)) [
        | inl e ↦ rw e (λ h. cc, λ h. h.0)
        | inr e ↦ rw e (λ h. (refl, to h), λ h. from h.1)
      ]

  pub Some-append : (P : A → Type 0) (xs ys : List A) → Some P (xs ++ ys) ↔ (Some P xs ⊎ Some P ys)
  Some-append P [] ys = (λ h. inr h, λ h. elim h [ inl a ↦ absurd a | inr b ↦ b ])
  Some-append P (x ∷ xs) ys =
      let (to, from) = Some-append P xs ys in
      (
        λ h. elim h [
          | inl a ↦ inl (inl a)
          | inr b ↦ elim (to b) [ inl c ↦ inl (inr c) | inr d ↦ inr d ]
        ],
        λ h. elim h [
          | inl (inl a) ↦ inl a
          | inl (inr b) ↦ inr (from (inl b))
          | inr c ↦ inr (from (inr c))
        ],
      )

module _ {A : Type 0} where
  -- What holds of every member holds of all, and some item is a member.
  pub All-of_members {κ} :
      (P : A → Type κ) (xs : List A) → ((x : A) → Some (λ y. y ≡ x) xs → P x) → All P xs
  All-of_members P [] f = tt
  All-of_members P (x ∷ xs) f = (f x (inl refl), All-of_members P xs (λ y h. f y (inr h)))

  pub Some-member :
      (P : A → Type 0) (xs : List A) → Some P xs → (x : A) × Some (λ y. y ≡ x) xs × P x
  Some-member P (x ∷ xs) (inl h) = (x, inl refl, h)
  Some-member P (x ∷ xs) (inr h) = let (y, m, k) = Some-member P xs h in (y, inr m, k)
  Some-member P [] h = absurd h

module _ {ℓ κ} {A : Type ℓ} {B : Type κ} where
  pub Some-of_map :
      (P : B → Type 0) (f : A → B) (xs : List A) → Some P (map f xs) ↔ Some (λ x. P (f x)) xs
  Some-of_map P f [] = (λ h. h, λ h. h)
  Some-of_map P f (x ∷ xs) =
      let (to, from) = Some-of_map P f xs in
      (
        λ h. elim h [ inl a ↦ inl a | inr b ↦ inr (to b) ],
        λ h. elim h [ inl a ↦ inl a | inr b ↦ inr (from b) ],
      )

module _ {ℓ} {A : Type ℓ} where
  pub All-not-Some : (P : A → Type 0) (xs : List A) → All (λ x. ¬ P x) xs ↔ (¬ Some P xs)
  All-not-Some P [] = (λ _ h. h, λ _. tt)
  All-not-Some P (x ∷ xs) =
      let (to, from) = All-not-Some P xs in
      (
        λ h m. elim m [ inl a ↦ h.0 a | inr b ↦ to h.1 b ],
        λ h. (λ a. h (inl a), from (λ m. h (inr m))),
      )

  -- `Some-map` where a fact about every item may be used.
  pub Some-map_with {κ} :
      (C : A → Type κ) (P Q : A → Type 0)
      → ((x : A) → C x → P x → Q x)
      → (xs : List A) → All C xs
      → Some P xs
      → Some Q xs
  Some-map_with C P Q f [] c h = h
  Some-map_with C P Q f (x ∷ xs) c (inl h) = inl (f x c.0 h)
  Some-map_with C P Q f (x ∷ xs) c (inr h) = inr (Some-map_with C P Q f xs c.1 h)

-- What the items add to a list is nothing exactly if each passes.
pub each-eq-nil :
    {A B : Type 0} (adds : A → List B) (total : List A → List B) (Q : A → Type 0)
    → total [] ≡ []
    → ((x : A) (xs : List A) → total (x ∷ xs) ≡ adds x ++ total xs)
    → ((x : A) → (adds x ≡ []) ↔ Q x)
    → (xs : List A) → (total xs ≡ []) ↔ All Q xs
each-eq-nil adds total Q start step one [] = (λ h. tt, λ h. start)
each-eq-nil adds total Q start step one (x ∷ xs) =
    let (split, join) = append-eq-nil (adds x) (total xs) in
    let (to, from) = each-eq-nil adds total Q start step one xs in
    let (to_x, from_x) = one x in
    (
      λ h. let both = split (sym (step x xs) ∙ h) in (to_x both.0, to both.1),
      λ h. step x xs ∙ join (from_x h.0, from h.1),
    )
