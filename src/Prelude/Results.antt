-- ===== src/Prelude/Results.antt =====
-- A value or an error, as Go's `(T, error)`.
use mathlib.Core.Path.{◌≡◌, refl}
use mathlib.Core.Bool.{Bool, true, false}

pub data Result {ℓ} (E A : Type ℓ) : Type ℓ where
  err : (why : E) → Result E A
  ok : (value : A) → Result E A

-- `if test { return err }`.
abbrev pub refuse_if : {E : Type 0} → Bool → E → Result E (Unit {0})
refuse_if test why = elim test [ true ↦ err why | false ↦ ok tt ]

infixl 5 ◌>>=◌ ◌>>◌
abbrev pub ◌>>=◌ {ℓ} : {E A B : Type ℓ} → Result E A → (A → Result E B) → Result E B
step >>= rest = elim step [ err why ↦ err why | ok x ↦ rest x ]

abbrev pub ◌>>◌ : {E B : Type 0} → Result E (Unit {0}) → Result E B → Result E B
check >> rest = check >>= λ _. rest

pub ok-injective {ℓ} : {E A : Type ℓ} {x y : A} → ◌≡◌ {A = Result E A} (ok x) (ok y) → x ≡ y
ok-injective h = cc

-- A chain that succeeds has succeeded at every link.
pub >>=-eq-ok {ℓ} :
    {E A B : Type ℓ} (step : Result E A) (rest : A → Result E B) {out : B}
    → (step >>= rest) ≡ ok out
    → (x : A) × (step ≡ ok x) × (rest x ≡ ok out)
>>=-eq-ok (err why) rest h = cc
>>=-eq-ok (ok x) rest h = (x, refl, h)

pub >>-eq-ok :
    {E : Type 0} (check : Result E (Unit {0})) {rest : Result E (Unit {0})}
    → (check >> rest) ≡ ok tt
    → (check ≡ ok tt) × (rest ≡ ok tt)
>>-eq-ok (err why) h = cc
>>-eq-ok (ok tt) h = (refl, h)
