-- ===== src/Guard/Heads.antt =====
-- What the comparisons of the heads say (cmd/migration-gate/main.go: headSpread, converged).
use pbt_devnet.Prelude.{
  ℕ, ◌-◌, ◌≤◌, ◌≡◌, ◌≢◌, refl, sym, ap, ◌∙◌, subst, ◌↔◌, ◌⊎◌, inl, inr, String, Option, none, some,
  List, [], ◌∷◌, arith, All, Some, str_eq, eq_iff, Bool-cases, min, max,
}
use pbt_devnet.Guard.{
  View, unreadable, agreed, split, spread_from, head_spread, lowest, compare, converged,
}

-- A head that was read, between two bounds.
abbrev pub Between : (low high : ℕ) → Option ℕ → Type 0
Between low high h = (a : ℕ) × (h ≡ some a) × (low ≤ a) × (a ≤ high)

-- The bounds of some heads, each the head of some client.
abbrev pub Spans : (low high : ℕ) → List (Option ℕ) → Type 0
Spans low high hs =
    All (Between low high) hs × Some (λ h. h ≡ some low) hs × Some (λ h. h ≡ some high) hs

-- With heads already seen between `low` and `high`.
abbrev Spread : (low high d : ℕ) → List (Option ℕ) → Type 0
Spread low high d hs =
    (l : ℕ) × (h : ℕ) × (d ≡ h - l)
    × (l ≤ low)
    × (high ≤ h)
    × All (Between l h) hs
    × ((l ≡ low) ⊎ Some (λ x. x ≡ some l) hs)
    × ((h ≡ high) ⊎ Some (λ x. x ≡ some h) hs)

min-cases : (a b : ℕ) → (min a b ≡ a) ⊎ (min a b ≡ b)
min-cases a b = ground arith

max-cases : (a b : ℕ) → (max a b ≡ a) ⊎ (max a b ≡ b)
max-cases a b = ground arith

spread_from-Spread :
    (low high d : ℕ) (hs : List (Option ℕ))
    → spread_from low high hs ≡ some d
    → Spread low high d hs
unfolding spread_from
spread_from-Spread low high d [] e =
    (low, high, cc, omega arith, omega arith, tt, inl refl, inl refl)
spread_from-Spread low high d (none ∷ hs) e = absurd (cc)
spread_from-Spread low high d (some x ∷ hs) e =
    let (l, h, k, a, b, c, f, g) = spread_from-Spread (min low x) (max high x) d hs e in
    (
      l,
      h,
      k,
      omega (arith, a),
      omega (arith, b),
      ((x, refl, omega (arith, a), omega (arith, b)), c),
      elim f [
        | inl z ↦ elim (min-cases low x) [
          | inl m ↦ inl (z ∙ m)
          | inr m ↦ inr (inl (ap some (sym (z ∙ m))))
        ]
        | inr z ↦ inr (inr z)
      ],
      elim g [
        | inl z ↦ elim (max-cases high x) [
          | inl m ↦ inl (z ∙ m)
          | inr m ↦ inr (inl (ap some (sym (z ∙ m))))
        ]
        | inr z ↦ inr (inr z)
      ],
    )

-- The spread of some heads is none unless every client answers; it is then the distance of two of
-- the heads, between which all of them lie.
pub head_spread-Spans :
    (h : Option ℕ) (hs : List (Option ℕ)) (d : ℕ)
    → head_spread (h ∷ hs) ≡ some d
    → (l : ℕ) × (u : ℕ) × (d ≡ u - l) × Spans l u (h ∷ hs)
unfolding head_spread
head_spread-Spans none hs d e = absurd (cc)
head_spread-Spans (some x) hs d e =
    let (l, u, k, a, b, c, f, g) = spread_from-Spread x x d hs e in
    (
      l,
      u,
      k,
      (
        ((x, refl, a, b), c),
        elim f [ inl z ↦ inl (ap some (sym z)) | inr z ↦ inr z ],
        elim g [ inl z ↦ inl (ap some (sym z)) | inr z ↦ inr z ],
      ),
    )

compare-agreed-some :
    (x : String) (ys : List (Option String))
    → (compare (some x) ys ≡ agreed) ↔ All (λ y. y ≡ some x) ys
unfolding compare
compare-agreed-some x [] = (λ e. tt, λ h. refl)
compare-agreed-some x (none ∷ ys) = (λ e. absurd (cc), λ h. absurd (let k = h.0 in cc))
compare-agreed-some x (some y ∷ ys) =
    let (to, from) = compare-agreed-some x ys in
    elim (Bool-cases (str_eq x y)) [
      | inl e ↦
          let q : x ≡ y = (eq_iff x y).0 e in rw e (λ k. (ap some (sym q), to k), λ h. from h.1)
      | inr e ↦ rw e (
        λ k. absurd (split_rest (compare (some x) ys) k),
        λ h. absurd (let q = h.0 in let p : x ≡ y = cc in let m = (eq_iff x y).1 p in cc),
      )
    ]
  where
    split_rest : (v : View) → (elim v [ unreadable ↦ unreadable | _ ↦ split ]) ≡ agreed → ⊥
    split_rest unreadable k = cc
    split_rest agreed k = cc
    split_rest split k = cc

compare-agreed-none :
    (ys : List (Option String))
    → (compare none ys ≡ agreed) ↔ ((x : String) × (ys ≢ []) × All (λ y. y ≡ some x) ys)
unfolding compare
compare-agreed-none [] = (λ e. absurd (cc), λ h. absurd (h.1 refl))
compare-agreed-none (none ∷ ys) = (λ e. absurd (cc), λ h. absurd (let k = h.2.0 in cc))
compare-agreed-none (some y ∷ ys) =
    let (to, from) = compare-agreed-some y ys in
    (
      λ e. (y, λ k. cc, (refl, to e)),
      λ h.
          let q : h.0 ≡ y = let k = h.2.0 in cc in
          from (subst (λ x. All (λ y. y ≡ some x) ys) q h.2.1),
    )

-- The clients are said to agree exactly if every one tells its head, and every one has the same
-- block at the lowest of them.
pub converged-agreed :
    (heads : List (Option ℕ)) (hashes : ℕ → List (Option String))
    → (converged heads hashes ≡ agreed) ↔ (
        (l : ℕ) × (lowest heads ≡ some l)
        × (x : String) × (hashes l ≢ [])
        × All (λ y. y ≡ some x) (hashes l))
unfolding converged
converged-agreed heads hashes = by_lowest (lowest heads)
  where
    by_lowest :
        (o : Option ℕ)
        → (elim o [ none ↦ unreadable | some l ↦ compare none (hashes l) ] ≡ agreed) ↔ (
            (l : ℕ) × (o ≡ some l)
            × (x : String) × (hashes l ≢ [])
            × All (λ y. y ≡ some x) (hashes l))
    by_lowest none = (λ e. absurd (cc), λ h. absurd (let k = h.1 in cc))
    by_lowest (some l) =
        let (to, from) = compare-agreed-none (hashes l) in
        (
          λ e. let k = to e in (l, refl, k.0, k.1, k.2),
          λ h.
              let q : h.0 ≡ l = let k = h.1 in cc in
              from (
                subst (λ l. (x : String) × (hashes l ≢ []) × All (λ y. y ≡ some x) (hashes l)) q
                  (h.2, h.3, h.4)),
        )
