-- ===== src/Migmon/Quorum/Order.antt =====
-- What the order of Go's map iteration cannot change (internal/migmon/timeline.go:
-- checkProvisional).
use mathlib.Core.List.{Permᴰ}
use pbt_devnet.Prelude.{
  ℕ, ◌≡◌, refl, sym, ◌∙◌, subst, ◌↔◌, inl, inr, String, true, Option, none, some, List, [], ◌∷◌,
  arith, eq_iff, length, is_some, All, All-map, Bool-cases, Option-cases, ◌⊎◌,
}
use pbt_devnet.Migmon.{IStar}
use pbt_devnet.Migmon.Quorum.{IStarQuorum, same, first_differing, disagreement, check_provisional}

abbrev pub Entries : Type 0
Entries = List (String × IStar)

pub same_sym : (a b : IStar) → same a b ≡ true → same b a ≡ true
unfolding same
same_sym a b h = ground (arith, eq_iff a.hash b.hash, eq_iff b.hash a.hash)

pub same_trans : (a b c : IStar) → same a b ≡ true → same b c ≡ true → same a c ≡ true
unfolding same
same_trans a b c h k =
    ground (arith, eq_iff a.hash b.hash, eq_iff b.hash c.hash, eq_iff a.hash c.hash)

pub same_self : (a : IStar) → same a a ≡ true
unfolding same
same_self a = ground (arith, eq_iff a.hash a.hash)

-- All entries hold one fork block.
abbrev pub Agree : Entries → Type 0
Agree m = (r : IStar) × All (λ e. same e.1 r ≡ true) m

first_differing-none :
    (r : IStar) (m : Entries) → (first_differing r m ≡ none) ↔ All (λ e. same e.1 r ≡ true) m
unfolding first_differing
first_differing-none r [] = (λ h. tt, λ h. refl)
first_differing-none r ((node, rec) ∷ m) =
    let (to, from) = first_differing-none r m in
    elim (Bool-cases (same rec r)) [
      | inl e ↦ rw e (λ h. (refl, to h), λ h. from h.1)
      | inr e ↦ rw e (λ h. absurd (cc), λ h. absurd (let k = h.0 in cc))
    ]

disagreement-Agree : (m : Entries) → disagreement m ≡ none → Agree m
unfolding disagreement
disagreement-Agree [] h = (record { number = 0; hash = ""; time = 0; parent_time = 0 }, tt)
disagreement-Agree ((node, r) ∷ m) h =
    (r, (same_self r, (first_differing-none r m).0 (ground arith)))

Agree-disagreement : (m : Entries) → Agree m → disagreement m ≡ none
unfolding disagreement
Agree-disagreement [] a = refl
Agree-disagreement ((node, x) ∷ m) (r, (h, k)) =
    let all =
      All-map (λ e. same e.1 r ≡ true) (λ e. same e.1 x ≡ true)
        (λ e j. same_trans e.1 r x j (same_sym x r h)) m k in
    rw ((first_differing-none x m).1 all, disagreement)

All-Permᴰ : (P : String × IStar → Type 0) {m n : Entries} → Permᴰ m n → All P m → All P n
All-Permᴰ P Permᴰ.nil h = h
All-Permᴰ P (Permᴰ.cons e p) h = (subst P e h.0, All-Permᴰ P p h.1)
All-Permᴰ P (Permᴰ.swap {a} {b} {a'} {b'} {l} e f) h = (subst P f h.1.0, (subst P e h.0, h.1.1))
All-Permᴰ P (Permᴰ.trans p q) h = All-Permᴰ P q (All-Permᴰ P p h)

length-Permᴰ : {m n : Entries} → Permᴰ m n → length m ≡ length n
length-Permᴰ Permᴰ.nil = refl
length-Permᴰ (Permᴰ.cons e p) = omega (arith, length-Permᴰ p)
length-Permᴰ (Permᴰ.swap e f) = refl
length-Permᴰ (Permᴰ.trans p q) = length-Permᴰ p ∙ length-Permᴰ q

Permᴰ-symm : {m n : Entries} → Permᴰ m n → Permᴰ n m
Permᴰ-symm Permᴰ.nil = Permᴰ.nil
Permᴰ-symm (Permᴰ.cons e p) = Permᴰ.cons (sym e) (Permᴰ-symm p)
Permᴰ-symm (Permᴰ.swap e f) = Permᴰ.swap (sym f) (sym e)
Permᴰ-symm (Permᴰ.trans p q) = Permᴰ.trans (Permᴰ-symm q) (Permᴰ-symm p)

agreed : {m n : Entries} → Permᴰ m n → disagreement m ≡ none → disagreement n ≡ none
agreed {m} {n} p h =
    let (r, a) = disagreement-Agree m h in
    Agree-disagreement n (r, All-Permᴰ (λ e. same e.1 r ≡ true) p a)

-- Whether two nodes disagree does not depend on the order.
disagreement-Permᴰ :
    {m n : Entries} → Permᴰ m n → is_some (disagreement m) ≡ is_some (disagreement n)
disagreement-Permᴰ {m} {n} p =
    by_cases (Option-cases (disagreement m)) (Option-cases (disagreement n))
  where
    by_cases :
        (disagreement m ≡ none)
          ⊎ ((a : String × IStar × String × IStar) × (disagreement m ≡ some a))
        → (disagreement n ≡ none)
          ⊎ ((a : String × IStar × String × IStar) × (disagreement n ≡ some a))
        → is_some (disagreement m) ≡ is_some (disagreement n)
    by_cases (inl h) (inl k) = rw (h, k)
    by_cases (inr (a, h)) (inr (b, k)) = rw (h, k)
    by_cases (inl h) (inr (b, k)) = absurd (let e = agreed p h in cc)
    by_cases (inr (a, h)) (inl k) = absurd (let e = agreed (Permᴰ-symm p) k in cc)

-- In whichever order the loop visits the records: the same since-instant, the same latch, and a
-- finding in both or in neither.
pub check_provisional-order :
    (now : ℕ) (q : IStarQuorum) (m : Entries)
    → Permᴰ q.provisional m
    → let r = check_provisional now q in
      let s = check_provisional now (record q { provisional = m }) in
      (r.0.disagree_since ≡ s.0.disagree_since)
      × (r.0.disagree_fired ≡ s.0.disagree_fired)
      × (length r.1 ≡ length s.1)
unfolding check_provisional
check_provisional-order now q m p =
    by_cases (disagreement q.provisional) (disagreement m) refl refl (disagreement-Permᴰ p)
  where
    same_length : length q.provisional ≡ length m
    same_length = length-Permᴰ p

    by_cases :
        (a b : Option (String × IStar × String × IStar))
        → disagreement q.provisional ≡ a
        → disagreement m ≡ b
        → is_some a ≡ is_some b
        → let r = check_provisional now q in
          let s = check_provisional now (record q { provisional = m }) in
          (r.0.disagree_since ≡ s.0.disagree_since)
          × (r.0.disagree_fired ≡ s.0.disagree_fired)
          × (length r.1 ≡ length s.1)
    by_cases none none h k e = ground (arith, same_length)
    by_cases (some a) (some b) h k e = ground (arith, same_length)
    by_cases none (some b) h k e = absurd (cc)
    by_cases (some a) none h k e = absurd (cc)
