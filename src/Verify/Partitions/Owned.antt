-- ===== src/Verify/Partitions/Owned.antt =====
-- The op that a partition belongs to (cmd/verify-migration/checks.go: opOwns, attributeWindows).
use pbt_devnet.Prelude.{
  some_of, some_of-Some, Some, Some-map, leb, ◌&&◌, ◌==◌, ==_iff, ℕ, ◌+◌, ◌≤◌, ◌≡◌, refl, subst,
  sym, ap, ◌∙◌, ◌↔◌, ◌⊎◌, inl, inr, String, Bool, true, false, Option, none, some, List, [], ◌∷◌,
  Bool-cases, All, arith,
}
use mathlib.Core.Path.{ap₂}
use pbt_devnet.Dump.{DumpOp}
use pbt_devnet.Verify.Partitions.{ChaosWindow, op_owns, owner_of, attribute_windows}

module _ (index_of : String → Option ℕ) where
  -- A partition of a victim of an op that began while the op ran, half a minute aside.
  abbrev pub Owns : ChaosWindow → DumpOp → Type 0
  Owns w o =
      (i : ℕ) × (index_of w.node ≡ some i)
      × Some (λ v. v ≡ i) o.victims
      × (o.start ≤ w.from + 30)
      × (w.from ≤ o.end + 30)

  -- The first of some ops that owns a partition.
  abbrev pub IsOwner : ChaosWindow → DumpOp → List DumpOp → Type 0
  IsOwner w o [] = ⊥
  IsOwner w o (p ∷ ops) = ((p ≡ o) × Owns w o) ⊎ ((¬ Owns w p) × IsOwner w o ops)

  -- The partitions that ops own, each with the first that owns it, and those that none owns.
  pub data Attributed (ops : List DumpOp)
      : List ChaosWindow → List (DumpOp × ChaosWindow) → List ChaosWindow → Type 0 where
    no_window : Attributed ops [] [] []
    owned :
        (o : DumpOp) (w : ChaosWindow) {ws : List ChaosWindow} {ms : List (DumpOp × ChaosWindow)}
        {us : List ChaosWindow}
        → IsOwner w o ops
        → Attributed ops ws ms us
        → Attributed ops (w ∷ ws) ((o, w) ∷ ms) us
    free :
        (w : ChaosWindow) {ws : List ChaosWindow} {ms : List (DumpOp × ChaosWindow)}
        {us : List ChaosWindow}
        → All (λ o. ¬ Owns w o) ops
        → Attributed ops ws ms us
        → Attributed ops (w ∷ ws) ms (w ∷ us)

  pub op_owns_iff : (o : DumpOp) (w : ChaosWindow) → (op_owns index_of o w ≡ true) ↔ Owns w o
  unfolding op_owns
  op_owns_iff o w = by_index (index_of w.node) refl
    where
      by_index :
          (x : Option ℕ)
          → index_of w.node ≡ x
          → let it : Bool = elim x [
            | none ↦ false
            | some i ↦
                some_of (λ v. v == i) o.victims
                && (leb o.start (w.from + 30) && leb w.from (o.end + 30))
          ] in
            (it ≡ true) ↔ Owns w o
      by_index none e = (λ h. absurd (cc), λ (i, e', _, _, _). absurd (cc))
      by_index (some i) e =
          let (to, from) = some_of-Some (λ v. v == i) o.victims in
          (
            λ h. (
              i,
              e,
              Some-map _ (λ v. v ≡ i) (λ v k. (==_iff v i).0 k) o.victims (to (ground (arith, h))),
              ground (arith, h),
              ground (arith, h),
            ),
            λ (j, e', m, a, b).
                let same : j ≡ i = cc in
                let found =
                  from (Some-map (λ v. v ≡ j) _ (λ v k. (==_iff v i).1 (k ∙ same)) o.victims m) in
                ground (arith, found, a, b),
          )

  pub not-Owns : (o : DumpOp) (w : ChaosWindow) → op_owns index_of o w ≡ false → ¬ Owns w o
  not-Owns o w e k = let z = (op_owns_iff o w).1 k in cc

  owner_of-none :
      (ops : List DumpOp) (w : ChaosWindow)
      → (owner_of index_of ops w ≡ none) ↔ All (λ o. ¬ Owns w o) ops
  unfolding owner_of
  owner_of-none [] w = (λ h. tt, λ h. refl)
  owner_of-none (o ∷ ops) w =
      let (to, from) = owner_of-none ops w in
      elim (Bool-cases (op_owns index_of o w)) [
        | inl e ↦ rw e (λ h. absurd (cc), λ h. absurd (h.0 ((op_owns_iff o w).0 e)))
        | inr e ↦ rw e (λ h. (not-Owns o w e, to h), λ h. from h.1)
      ]

  owner_of-some :
      (ops : List DumpOp) (w : ChaosWindow) (o : DumpOp)
      → (owner_of index_of ops w ≡ some o) ↔ IsOwner w o ops
  unfolding owner_of
  owner_of-some [] w o = (λ h. absurd (cc), λ h. absurd h)
  owner_of-some (p ∷ ops) w o =
      let (to, from) = owner_of-some ops w o in
      elim (Bool-cases (op_owns index_of p w)) [
        | inl e ↦
            let owns = (op_owns_iff p w).0 e in
            rw e (
              λ h. let same : p ≡ o = cc in inl (same, subst (Owns w) same owns),
              λ h. elim h [ inl a ↦ ap some a.0 | inr b ↦ absurd (b.0 owns) ],
            )
        | inr e ↦ rw e (
          λ h. inr (not-Owns p w e, to h),
          λ h. elim h [
            | inl a ↦ absurd (not-Owns p w e (subst (Owns w) (sym a.0) a.1))
            | inr b ↦ from b.1
          ],
        )
      ]

  pub Owns-not : (o : DumpOp) (w : ChaosWindow) → (¬ Owns w o) → op_owns index_of o w ≡ false
  Owns-not o w out = elim (Bool-cases (op_owns index_of o w)) [
    | inl e ↦ absurd (out ((op_owns_iff o w).0 e))
    | inr e ↦ e
  ]

  pub attribute-Attributed :
      (ops : List DumpOp) (ws : List ChaosWindow)
      → let (ms, us) = attribute_windows index_of ops ws in Attributed ops ws ms us
  unfolding attribute_windows
  attribute-Attributed ops [] = no_window
  attribute-Attributed ops (w ∷ ws) =
      by_owner (owner_of index_of ops w) refl (attribute_windows index_of ops ws)
        (attribute-Attributed ops ws)
    where
      by_owner :
          (e : Option DumpOp)
          → owner_of index_of ops w ≡ e
          → (p : List (DumpOp × ChaosWindow) × List ChaosWindow) → Attributed ops ws p.0 p.1
          → let it : List (DumpOp × ChaosWindow) × List ChaosWindow = elim e [
            | some o ↦ ((o, w) ∷ p.0, p.1)
            | none ↦ (p.0, w ∷ p.1)
          ] in
            Attributed ops (w ∷ ws) it.0 it.1
      by_owner none e p a = free w ((owner_of-none ops w).0 e) a
      by_owner (some o) e p a = owned o w ((owner_of-some ops w o).0 e) a

  abbrev attribute_one :
      ChaosWindow
      → Option DumpOp
      → List (DumpOp × ChaosWindow) × List ChaosWindow
      → List (DumpOp × ChaosWindow) × List ChaosWindow
  attribute_one w e p = elim e [ some o ↦ ((o, w) ∷ p.0, p.1) | none ↦ (p.0, w ∷ p.1) ]

  pub Attributed-attribute :
      (ops : List DumpOp) {ws : List ChaosWindow} {ms : List (DumpOp × ChaosWindow)}
      {us : List ChaosWindow}
      → Attributed ops ws ms us
      → attribute_windows index_of ops ws ≡ (ms, us)
  unfolding attribute_windows
  Attributed-attribute ops no_window = refl
  Attributed-attribute ops (owned o w is a) =
      ap₂ (attribute_one w) ((owner_of-some ops w o).1 is) (Attributed-attribute ops a)
  Attributed-attribute ops (free w unowned a) =
      ap₂ (attribute_one w) ((owner_of-none ops w).1 unowned) (Attributed-attribute ops a)
