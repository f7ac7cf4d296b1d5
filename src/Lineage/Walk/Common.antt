-- ===== src/Lineage/Walk/Common.antt =====
-- The last common block of two chains (lineage.go: commonAncestor).
use pbt_devnet.Prelude.{
  ℕ, zero, suc, ◌≤◌, ◌<◌, ◌≡◌, refl, sym, ap, ◌∙◌, subst, ◌⊎◌, inl, inr, String, Bool, true, false,
  Option, none, some, str_eq, eq_iff, ltb, ltb→lt, Bool-cases, if◌then◌else◌, arith,
}
use pbt_devnet.Prelude.Maps.{lookup, string_key, ◌>>=◌}
use pbt_devnet.Lineage.{Block, Store}
use pbt_devnet.Lineage.Walk.{meet, meet_lowered, lower_second, level, common_ancestor}
use pbt_devnet.Lineage.Walk.Ancestry.{
  IsLinked, Known, Known-of, Ancestor, here, up, Ancestor-cases, Ancestor-trans, Ancestor-le,
  Ancestor-eq_of_le, below, Landing, fell, landed, climb-Landing,
}

-- The deepest common known ancestor of two blocks, or that there is none.
pub data Deepest (s : Store) (x y : Block) : Option Block → Type 0 where
  apart : ((a : Block) → Ancestor s a x → ¬ Ancestor s a y) → Deepest s x y none
  joined :
      (c : Block)
      → Known s c
      → Ancestor s c x
      → Ancestor s c y
      → ((a : Block) → Ancestor s a x → Ancestor s a y → Ancestor s a c)
      → Deepest s x y (some c)

module _ {s : Store} (k : IsLinked s) where
  same_block : (x y : Block) → Known s x → Known s y → x.hash ≡ y.hash → x ≡ y
  same_block x y kx ky e = cc (ap (λ h. lookup h s) e)

  common_below :
      (x y a : Block)
      → Known s x
      → Known s y
      → str_eq x.hash y.hash ≡ false
      → x.number ≡ y.number
      → Ancestor s a x
      → Ancestor s a y
      → a.number < x.number
  common_below x y a kx ky differ e rx ry = elim (Bool-cases (ltb a.number x.number)) [
    | inl h ↦ ltb→lt _ _ h
    | inr h ↦
        let to_x : x ≡ a = Ancestor-eq_of_le k kx rx (ground arith) in
        let to_y : y ≡ a = Ancestor-eq_of_le k ky ry (ground arith) in
        let one : str_eq x.hash y.hash ≡ true =
          (eq_iff x.hash y.hash).1 (ap (λ b. b.hash) (to_x ∙ sym to_y)) in
        cc
  ]

  step_apart :
      (x y : Block)
      → Known s x
      → Known s y
      → str_eq x.hash y.hash ≡ false
      → x.number ≡ y.number
      → (lookup x.parent s ≡ none) ⊎ (lookup y.parent s ≡ none)
      → Deepest s x y none
  step_apart x y kx ky differ e gone = apart λ a rx ry.
      let low = common_below x y a kx ky differ e rx ry in
      elim gone [ inl ex ↦ no_parent x a ex rx low | inr ey ↦ no_parent y a ey ry (omega arith) ]
    where
      no_parent :
          (b a : Block) → lookup b.parent s ≡ none → Ancestor s a b → a.number < b.number → ⊥
      no_parent b a e r h = elim (Ancestor-cases r) [
        | inl same ↦ omega (arith, ap (λ (z : Block). z.number) same)
        | inr (q, _, e') ↦ cc
      ]

  step_down :
      (x y px py : Block)
      → Known s x
      → Known s y
      → str_eq x.hash y.hash ≡ false
      → x.number ≡ y.number
      → lookup x.parent s ≡ some px
      → lookup y.parent s ≡ some py
      → {r : Option Block} → Deepest s px py r
      → Deepest s x y r
  step_down x y px py kx ky differ e ex ey (apart f) = apart λ a rx ry.
      let low = common_below x y a kx ky differ e rx ry in
      f a (below k a x px ex rx low) (below k a y py ey ry (omega arith))
  step_down x y px py kx ky differ e ex ey (joined c kc cx cy most) =
      joined c kc (up cx ex) (up cy ey) λ a rx ry.
        let low = common_below x y a kx ky differ e rx ry in
        most a (below k a x px ex rx low) (below k a y py ey ry (omega arith))

  meet-Deepest :
      (n : ℕ) (x y : Block)
      → Known s x
      → Known s y
      → x.number ≡ y.number
      → x.number < n
      → (r : Option Block) × (meet (suc n) s x y ≡ some r) × Deepest s x y r
  unfolding meet
  meet-Deepest zero x y kx ky e h = absurd (omega arith)
  meet-Deepest (suc n) x y kx ky e h =
      by_test (str_eq x.hash y.hash) refl (lookup x.parent s) refl (lookup y.parent s) refl
        (meet-Deepest n)
    where
      by_test :
          (t : Bool)
          → str_eq x.hash y.hash ≡ t
          → (ox : Option Block) → lookup x.parent s ≡ ox
          → (oy : Option Block) → lookup y.parent s ≡ oy
          → ((p q : Block)
              → Known s p
              → Known s q
              → p.number ≡ q.number
              → p.number < n
              → (r : Option Block) × (meet (suc n) s p q ≡ some r) × Deepest s p q r)
          → let rest : Option (Option Block) = elim ox [
            | none ↦ some none
            | some px ↦ elim oy [ none ↦ some none | some py ↦ meet (suc n) s px py ]
          ] in
            (r : Option Block) × ((if t then some (some x) else rest) ≡ some r) × Deepest s x y r
      by_test true eh ox ex oy ey _ =
          let one = same_block x y kx ky ((eq_iff x.hash y.hash).0 eh) in
          (some x, refl, joined x kx here (subst (λ z. Ancestor s x z) one here) (λ a r _. r))
      by_test false eh none ex oy ey _ = (none, refl, step_apart x y kx ky eh e (inl ex))
      by_test false eh (some px) ex none ey _ = (none, refl, step_apart x y kx ky eh e (inr ey))
      by_test false eh (some px) ex (some py) ey rec =
          let nx = k.linked x.hash x px kx ex in
          let ny = k.linked y.hash y py ky ey in
          let (r, ends, deep) =
            rec px py (Known-of k x.parent px ex) (Known-of k y.parent py ey) (omega arith)
              (omega arith) in
          (r, ends, step_down x y px py kx ky eh e ex ey deep)

  -- What is common to the two lowered blocks is common to the two.
  widen :
      (x y x' y' : Block)
      → Known s y
      → Ancestor s x' x
      → Ancestor s y' y
      → ((a : Block) → Ancestor s a x → a.number ≤ y.number → Ancestor s a x')
      → ((a : Block) → Ancestor s a y → a.number ≤ x'.number → Ancestor s a y')
      → Known s x'
      → {r : Option Block} → Deepest s x' y' r
      → Deepest s x y r
  widen x y x' y' ky rx ry mx my kx' (apart f) = apart λ a ra rb.
      let in_x = mx a ra (Ancestor-le k ky rb) in f a in_x (my a rb (Ancestor-le k kx' in_x))
  widen x y x' y' ky rx ry mx my kx' (joined c kc cx cy most) =
      joined c kc (Ancestor-trans cx rx) (Ancestor-trans cy ry) λ a ra rb.
        let in_x = mx a ra (Ancestor-le k ky rb) in most a in_x (my a rb (Ancestor-le k kx' in_x))

  abbrev Lowered : (x y : Block) → Option (Option Block) → Type 0
  Lowered x y it = (r : Option Block) × (it ≡ some r) × Deepest s x y r

  meet_lowered_lem :
      (x y x' : Block)
      → Known s y
      → Known s x'
      → Ancestor s x' x
      → x'.number ≤ y.number
      → ((a : Block) → Ancestor s a x → a.number ≤ y.number → Ancestor s a x')
      → (r : Option Block) → Landing s x'.number y r
      → Lowered x y (meet_lowered s x' r)
  unfolding meet_lowered
  meet_lowered_lem x y x' ky kx' cx low mx none (fell f) = (
    none,
    refl,
    apart λ a ra rb.
        absurd (omega (arith, f a rb, Ancestor-le k kx' (mx a ra (Ancestor-le k ky rb)))),
  )
  meet_lowered_lem x y x' ky kx' cx low mx (some y') (landed _ ky' cy small exact _ my) =
      let (r, ends, deep) =
        meet-Deepest (suc x'.number) x' y' kx' ky' (sym (exact low)) (omega arith) in
      (r, ends, widen x y x' y' ky cx cy mx my kx' deep)

  lower_second_lem :
      (x y : Block)
      → Known s y
      → (r : Option Block) → Landing s y.number x r
      → Lowered x y (lower_second s y r)
  unfolding lower_second
  lower_second_lem x y ky none (fell f) =
      (none, refl, apart λ a ra rb. absurd (omega (arith, f a ra, Ancestor-le k ky rb)))
  lower_second_lem x y ky (some x') (landed _ kx' cx low _ _ mx) =
      let (ry, ends, lands) = climb-Landing k x'.number (suc y.number) y ky (omega arith) in
      let (r, done, deep) = meet_lowered_lem x y x' ky kx' cx low mx ry lands in
      (r, rw (ends, ◌>>=◌) done, deep)

  level-Deepest : (x y : Block) → Known s x → Known s y → Lowered x y (level s x y)
  unfolding level
  level-Deepest x y kx ky =
      let (rx, ends, lands) = climb-Landing k y.number (suc x.number) x kx (omega arith) in
      let (r, done, deep) = lower_second_lem x y ky rx lands in (r, rw (ends, ◌>>=◌) done, deep)

-- What `commonAncestor` answers: the deepest common known ancestor of two known blocks, or that
-- there is none, also when one of the two is unknown.
pub data Answer (s : Store) (x y : String) : Option Block → Type 0 where
  unknown : (lookup x s ≡ none) ⊎ (lookup y s ≡ none) → Answer s x y none
  both :
      (bx by : Block)
      → lookup x s ≡ some bx
      → lookup y s ≡ some by
      → {r : Option Block} → Deepest s bx by r
      → Answer s x y r

-- In a linked store `commonAncestor` ends, with the last block that the two known chains share if
-- there is one, and with none otherwise.
pub common_ancestor-Answer :
    (s : Store)
    → IsLinked s
    → (x y : String) → (r : Option Block) × (common_ancestor s x y ≡ some r) × Answer s x y r
unfolding common_ancestor
common_ancestor-Answer s k x y = by_read (lookup x s) refl (lookup y s) refl
  where
    by_read :
        (ox : Option Block)
        → lookup x s ≡ ox
        → (oy : Option Block) → lookup y s ≡ oy
        → let it : Option (Option Block) = elim ox [
          | none ↦ some none
          | some bx ↦ elim oy [ none ↦ some none | some by ↦ level s bx by ]
        ] in
          (r : Option Block) × (it ≡ some r) × Answer s x y r
    by_read none ex oy ey = (none, refl, unknown (inl ex))
    by_read (some bx) ex none ey = (none, refl, unknown (inr ey))
    by_read (some bx) ex (some by) ey =
        let (r, ends, deep) = level-Deepest k bx by (Known-of k x bx ex) (Known-of k y by ey) in
        (r, ends, both bx by ex ey deep)
