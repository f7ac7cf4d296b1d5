-- ===== src/Lineage/Walk/Ancestry.antt =====
-- Known ancestors (lineage.go: isAncestor): the relation, and the walk that decides it.
use pbt_devnet.Prelude.{
  ℕ, zero, suc, ◌≤◌, ◌<◌, ◌≡◌, refl, sym, ap, ◌∙◌, subst, ◌↔◌, ◌⊎◌, inl, inr, String, Bool, true,
  false, Option, none, some, ltb, eq_iff, if◌then◌else◌, arith,
}
use pbt_devnet.Prelude.Maps.{lookup, string_key, ◌>>=◌}
use pbt_devnet.Lineage.{Block, Store}
use pbt_devnet.Lineage.Walk.{climb, fuel_of, has_hash, is_ancestor}

-- A block's hash is its key, and its number is one more than its known parent's.
pub record IsLinked (s : Store) : Type 0 where
  pub named : (h : String) (b : Block) → lookup h s ≡ some b → b.hash ≡ h
  pub linked :
      (h : String) (b p : Block)
      → lookup h s ≡ some b
      → lookup b.parent s ≡ some p
      → b.number ≡ suc p.number

abbrev pub Known : Store → Block → Type 0
Known s b = lookup b.hash s ≡ some b

-- `a` is `b`, or reached from it over parents that the store has.
pub data Ancestor (s : Store) (a : Block) : Block → Type 0 where
  here : Ancestor s a a
  up : {b p : Block} → Ancestor s a p → lookup b.parent s ≡ some p → Ancestor s a b

pub Ancestor-trans : {s : Store} {a b d : Block} → Ancestor s a b → Ancestor s b d → Ancestor s a d
Ancestor-trans r here = r
Ancestor-trans r (up q e) = up (Ancestor-trans r q) e

pub Ancestor-cases :
    {s : Store} {a b : Block}
    → Ancestor s a b
    → (b ≡ a) ⊎ ((p : Block) × Ancestor s a p × (lookup b.parent s ≡ some p))
Ancestor-cases here = inl refl
Ancestor-cases (up {p = p} r e) = inr (p, r, e)

module _ {s : Store} (k : IsLinked s) where
  pub Known-of : (h : String) (b : Block) → lookup h s ≡ some b → Known s b
  Known-of h b e = subst (λ x. lookup x s ≡ some b) (sym (k.named h b e)) e

  pub Ancestor-le : {a b : Block} → Known s b → Ancestor s a b → a.number ≤ b.number
  Ancestor-le kb here = omega arith
  Ancestor-le {a} {b} kb (up {p = p} r e) =
      omega (arith, Ancestor-le (Known-of b.parent p e) r, k.linked b.hash b p kb e)

  pub Ancestor-eq_of_le : {a b : Block} → Known s b → Ancestor s a b → b.number ≤ a.number → b ≡ a
  Ancestor-eq_of_le kb here h = refl
  Ancestor-eq_of_le {a} {b} kb (up {p = p} r e) h =
      absurd (omega (arith, Ancestor-le (Known-of b.parent p e) r, k.linked b.hash b p kb e))

  -- An ancestor below a block is an ancestor of its parent.
  pub below :
      (a b p : Block)
      → lookup b.parent s ≡ some p
      → Ancestor s a b
      → a.number < b.number
      → Ancestor s a p
  below a b p e r h = elim (Ancestor-cases r) [
    | inl same ↦ absurd (omega (arith, ap (λ (x : Block). x.number) same))
    | inr (q, r', e') ↦ subst (λ x. Ancestor s a x) (cc) r'
  ]

-- Where a climb to a number ends: at the highest ancestor that is not above it, if that is known.
pub data Landing (s : Store) (floor : ℕ) (b : Block) : Option Block → Type 0 where
  fell : ((a : Block) → Ancestor s a b → floor < a.number) → Landing s floor b none
  landed :
      (c : Block)
      → Known s c
      → Ancestor s c b
      → c.number ≤ floor
      → (floor ≤ b.number → c.number ≡ floor)
      → (b.number ≤ floor → c ≡ b)
      → ((a : Block) → Ancestor s a b → a.number ≤ floor → Ancestor s a c)
      → Landing s floor b (some c)

module _ {s : Store} (k : IsLinked s) (floor : ℕ) where
  stay : (b : Block) → Known s b → b.number ≤ floor → Landing s floor b (some b)
  stay b kb h = landed b kb here h (λ h'. omega arith) (λ _. refl) (λ a r _. r)

  lift :
      (b p : Block)
      → Known s b
      → lookup b.parent s ≡ some p
      → floor < b.number
      → {r : Option Block} → Landing s floor p r
      → Landing s floor b r
  lift b p kb e h (fell f) = fell λ a r. elim (Ancestor-cases r) [
    | inl same ↦ omega (arith, ap (λ (x : Block). x.number) same)
    | inr (q, r', e') ↦ f a (subst (λ x. Ancestor s a x) (cc) r')
  ]
  lift b p kb e h (landed c kc r low exact whole most) =
      landed c kc (up r e) low (λ _. exact (omega (arith, k.linked b.hash b p kb e)))
        (λ h'. absurd (omega arith)) (λ a r' h'. most a (below k a b p e r' (omega arith)) h')

  pub climb-Landing :
      (n : ℕ) (b : Block)
      → Known s b
      → b.number < n
      → (r : Option Block) × (climb (suc n) s floor (some b) ≡ some r) × Landing s floor b r
  unfolding climb
  climb-Landing zero b kb h = absurd (omega arith)
  climb-Landing (suc n) b kb h =
      by_test (ltb floor b.number) refl (lookup b.parent s) refl (climb-Landing n)
    where
      by_test :
          (t : Bool)
          → ltb floor b.number ≡ t
          → (o : Option Block) → lookup b.parent s ≡ o
          → ((p : Block)
              → Known s p
              → p.number < n
              → (r : Option Block) × (climb (suc n) s floor (some p) ≡ some r)
                × Landing s floor p r)
          → (r : Option Block) × ((if t then climb (suc n) s floor o else some (some b)) ≡ some r)
            × Landing s floor b r
      by_test false e o _ _ = (some b, refl, stay b kb (ground arith))
      by_test true e none eo _ = (
        none,
        refl,
        fell λ a r. elim (Ancestor-cases r) [
          | inl same ↦ rw (sym same) (ground arith)
          | inr (q, _, e') ↦ absurd (cc)
        ],
      )
      by_test true e (some p) eo rec =
          let (r, ends, lands) =
            rec p (Known-of k b.parent p eo) (omega (arith, k.linked b.hash b p kb eo)) in
          (r, ends, lift b p kb eo (ground arith) lands)

-- `a` is `b` or one of its known ancestors, by their hashes.
abbrev pub HasAncestor : Store → (a b : String) → Type 0
HasAncestor s a b =
    (low : Block) × (high : Block) × (lookup a s ≡ some low)
    × (lookup b s ≡ some high)
    × Ancestor s low high

module _ {s : Store} (k : IsLinked s) where
  decides_at :
      (a b : String) (low high : Block)
      → lookup a s ≡ some low
      → lookup b s ≡ some high
      → (r : Option Block) → Landing s low.number high r
      → (has_hash a r ≡ true) ↔ Ancestor s low high
  unfolding has_hash
  decides_at a b low high ea eb none (fell f) = (λ h. cc, λ r. absurd (omega (arith, f low r)))
  decides_at a b low high ea eb (some d) (landed _ kd r small _ _ most) = (
    λ h. subst (λ x. Ancestor s x high) (cc (ap (λ x. lookup x s) ((eq_iff d.hash a).0 h))) r,
    λ r'. (eq_iff d.hash a).1 (
        ap (λ x. x.hash) (Ancestor-eq_of_le k kd (most low r' (omega arith)) small)
        ∙ k.named a low ea),
  )

  -- In a linked store `isAncestor` ends, and tells whether a block is an ancestor over known parents.
  pub is_ancestor_iff :
      (a b : String) → (r : Bool) × (is_ancestor s a b ≡ some r) × ((r ≡ true) ↔ HasAncestor s a b)
  unfolding is_ancestor
  is_ancestor_iff a b = by_low (lookup a s) refl (lookup b s) refl
    where
      by_low :
          (oa : Option Block)
          → lookup a s ≡ oa
          → (ob : Option Block) → lookup b s ≡ ob
          → let it : Option Bool = elim oa [
            | none ↦ some false
            | some low ↦ elim ob [
              | none ↦ some false
              | some high ↦
                  climb (fuel_of high) s low.number (some high) >>= λ cur. some (has_hash a cur)
            ]
          ] in
            (r : Bool) × (it ≡ some r) × ((r ≡ true) ↔ HasAncestor s a b)
      by_low none ea ob eb = (false, refl, (λ h. cc, λ (low, high, e, _, _). cc))
      by_low (some low) ea none eb = (false, refl, (λ h. cc, λ (low', high, _, e, _). cc))
      by_low (some low) ea (some high) eb =
          let (r, ends, lands) =
            climb-Landing k low.number (suc high.number) high (Known-of k b high eb)
              (omega arith) in
          let (to, from) = decides_at a b low high ea eb r lands in
          (
            has_hash a r,
            rw (ends, ◌>>=◌),
            (
              λ h. (low, high, ea, eb, to h),
              λ (low', high', ea', eb', anc).
                  from
                    (subst (λ x. Ancestor s x high) (cc) (subst (λ x. Ancestor s low' x) (cc) anc)),
            ),
          )
