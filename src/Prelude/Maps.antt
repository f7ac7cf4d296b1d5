-- ===== src/Prelude/Maps.antt =====
-- Go maps as association lists, and `Option` as a computation that may not return.
use Prim.Native.Nat.{ℕ}
use Prim.Native.String.{String}
use mathlib.Core.Path.{◌≡◌, refl, sym, subst, ◌∙◌}
use mathlib.Core.Logic.{◌↔◌, ◌⊎◌, inl, inr}
use mathlib.Core.Bool.{Bool, true, false}
use mathlib.Core.List.{List, [], ◌∷◌, map}
use mathlib.Core.Option.{Option, none, some}
use native.Mathlib.Omega.{arith}
use text.Mathlib.TextEquality.{eq_iff}
use pbt_devnet.Prelude.Tests.{if◌then◌else◌, Bool-cases, is_some, ◌==◌ as nat_beq, ==_iff, str_eq}

-- The keys of a map are compared by `==`.
pub record Key (K : Type 0) : Type 0 where
  pub beq : K → K → Bool
  pub beq_iff : (a b : K) → (beq a b ≡ true) ↔ (a ≡ b)

instance abbrev pub nat_key : Key ℕ
nat_key = record { beq = nat_beq; beq_iff = ==_iff }

instance abbrev pub string_key : Key String
string_key = record { beq = str_eq; beq_iff = eq_iff }

abbrev pub Map : Type 0 → Type 0 → Type 0
Map K V = List (K × V)

pub beq_self : {K : Type 0} ⦃e : Key K⦄ (k : K) → e.beq k k ≡ true
beq_self ⦃e⦄ k = (e.beq_iff k k).1 refl

module _ {K V : Type 0} ⦃e : Key K⦄ where
  unfoldable pub lookup : K → Map K V → Option V
  lookup k [] = none
  lookup k ((j, v) ∷ m) = let rest = lookup k m in if e.beq j k then some v else rest

  -- `m[k] = v`
  unfoldable pub store : K → V → Map K V → Map K V
  store k v [] = (k, v) ∷ []
  store k v ((j, w) ∷ m) = let rest = store k v m in if e.beq j k then (k, v) ∷ m else (j, w) ∷ rest

  -- `delete(m, k)`
  unfoldable pub erase : K → Map K V → Map K V
  erase k [] = []
  erase k ((j, w) ∷ m) = let rest = erase k m in if e.beq j k then rest else (j, w) ∷ rest

  -- `_, ok := m[k]`
  abbrev pub has_key : K → Map K V → Bool
  has_key k m = is_some (lookup k m)

  pub lookup-store :
      (k j : K) (v : V) (m : Map K V)
      → lookup j (store k v m) ≡ (if e.beq k j then some v else lookup j m)
  unfolding lookup store
  lookup-store k j v [] = refl
  lookup-store k j v ((i, w) ∷ m) =
      ground (arith, e.beq_iff k j, e.beq_iff i k, e.beq_iff i j, lookup-store k j v m)

  pub lookup-erase :
      (k j : K) (m : Map K V) → lookup j (erase k m) ≡ (if e.beq k j then none else lookup j m)
  unfolding lookup erase
  lookup-erase k j [] = ground arith
  lookup-erase k j ((i, w) ∷ m) =
      ground (arith, e.beq_iff k j, e.beq_iff i k, e.beq_iff i j, lookup-erase k j m)

  pub lookup-store_self : (k : K) (v : V) (m : Map K V) → lookup k (store k v m) ≡ some v
  lookup-store_self k v m = rw lookup-store (rw beq_self refl)

  pub lookup-store_other :
      (k j : K) (v : V) (m : Map K V) → e.beq k j ≡ false → lookup j (store k v m) ≡ lookup j m
  lookup-store_other k j v m h = rw lookup-store (rw h refl)

  -- What a map holds after `m[k] = v`.
  pub store_inv :
      (k j : K) (v w : V) (m : Map K V)
      → lookup j (store k v m) ≡ some w
      → ((k ≡ j) × (v ≡ w)) ⊎ ((e.beq k j ≡ false) × (lookup j m ≡ some w))
  store_inv k j v w m h = elim (Bool-cases (e.beq k j)) [
    | inl same ↦
        let found : (if true then some v else lookup j m) ≡ some w =
          subst (λ b. (if b then some v else lookup j m) ≡ some w) same
            (sym (lookup-store k j v m) ∙ h) in
        inl ((e.beq_iff k j).0 same, cc)
    | inr other ↦ inr (
      other,
      subst (λ b. (if b then some v else lookup j m) ≡ some w) other
          (sym (lookup-store k j v m) ∙ h),
    )
  ]

abbrev pub keys : {K V : Type 0} → Map K V → List K
keys m = map (λ p. p.0) m

abbrev pub get_or {ℓ} : {A : Type ℓ} → A → Option A → A
get_or d none = d
get_or d (some a) = a

-- The value of a loop, `none` where it does not end.
infixl 5 ◌>>=◌
abbrev pub ◌>>=◌ {ℓ κ} : {A : Type ℓ} {B : Type κ} → Option A → (A → Option B) → Option B
m >>= f = elim m [ none ↦ none | some a ↦ f a ]
