-- ===== src/Compare/Judged.antt =====
-- What the table blames a node for (compare.go: judge, rootState, verdictFor).
use pbt_devnet.Prelude.{
  ℕ, ◌≡◌, ◌≢◌, refl, ◌↔◌, inl, inr, true, false, List, [], ◌∷◌, Bool-cases, Some, ◌∙◌, All,
  All-append, All-map, sort-All, arith,
}
use pbt_devnet.Compare.Cells.{
  Cells, Differs, hash_cells-Cells, istar_iff, IsIstarOr, istar_of-IsIstar,
}
use pbt_devnet.Compare.{
  Cell, agree, dissent, unjudged, no_inspect, pending, behind, unreachable, header_dissent,
  shadow_dissent, istar_dissent, fork, NodeAnswer, Against, CompareRow, CompareView, is_cell,
  verdict_for, row_of, add_row, add_rows, by_node, Counts, reference, against, judge,
}

-- What a row of the table claims of a node's answer.
pub record IsFair (g : Against) (a : NodeAnswer) (r : CompareRow) : Type 0 where
  pub as_fork : (r.verdict ≡ fork) ↔ (r.hash_state ≡ dissent)
  pub as_header : (r.verdict ≡ header_dissent) ↔ (r.header_state ≡ dissent)
  pub as_shadow :
      (r.verdict ≡ shadow_dissent) ↔ ((r.header_state ≢ dissent) × (r.shadow_state ≡ dissent))
  pub as_istar : (r.verdict ≡ istar_dissent) ↔ (
      (r.header_state ≢ dissent)
      × (r.shadow_state ≢ dissent)
      × (r.hash_state ≢ dissent)
      × (r.istar_state ≡ dissent))
  pub cells : Cells g a r.hash_state r.header_state r.shadow_state
  pub at_istar : (r.istar_state ≡ dissent) ↔ Differs a.istar_hash g.anchor_istar
  pub of_node : r.node ≡ a.node

is_cell_iff : (c : Cell) → (is_cell c dissent ≡ true) ↔ (c ≡ dissent)
unfolding is_cell
is_cell_iff dissent = (λ h. refl, λ h. refl)
is_cell_iff agree = (λ h. cc, λ h. cc)
is_cell_iff unjudged = (λ h. cc, λ h. cc)
is_cell_iff no_inspect = (λ h. cc, λ h. cc)
is_cell_iff pending = (λ h. cc, λ h. cc)
is_cell_iff behind = (λ h. cc, λ h. cc)
is_cell_iff unreachable = (λ h. cc, λ h. cc)

verdict_header : (h hd sh i : Cell) → (verdict_for h hd sh i ≡ header_dissent) ↔ (hd ≡ dissent)
unfolding verdict_for
verdict_header h hd sh i = ground (arith, is_cell_iff hd)

verdict_shadow :
    (h hd sh i : Cell)
    → (verdict_for h hd sh i ≡ shadow_dissent) ↔ ((hd ≢ dissent) × (sh ≡ dissent))
unfolding verdict_for
verdict_shadow h hd sh i = (
  λ v. (ground (arith, v, is_cell_iff hd), ground (arith, v, is_cell_iff sh)),
  λ (x, y). ground (arith, is_cell_iff hd, is_cell_iff sh),
)

verdict_istar :
    (h hd sh i : Cell)
    → (verdict_for h hd sh i ≡ istar_dissent)
      ↔ ((hd ≢ dissent) × (sh ≢ dissent) × (h ≢ dissent) × (i ≡ dissent))
unfolding verdict_for
verdict_istar h hd sh i = (
  λ v. (
    ground (arith, v, is_cell_iff hd),
    ground (arith, v, is_cell_iff sh),
    ground (arith, v, is_cell_iff h),
    ground (arith, v, is_cell_iff i),
  ),
  λ (x, y, z, k). ground (arith, is_cell_iff hd, is_cell_iff sh, is_cell_iff h, is_cell_iff i),
)

not_cell : (c : Cell) → c ≢ dissent → is_cell c dissent ≡ false
not_cell c other = elim (Bool-cases (is_cell c dissent)) [
  | inl e ↦ absurd (other ((is_cell_iff c).0 e))
  | inr e ↦ e
]

verdict_fork :
    (h hd sh i : Cell)
    → (h ≡ dissent → (hd ≢ dissent) × (sh ≢ dissent))
    → (verdict_for h hd sh i ≡ fork) ↔ (h ≡ dissent)
unfolding verdict_for
verdict_fork h hd sh i alone = (
  λ v. (is_cell_iff h).0 (ground (arith, v)),
  λ e.
      let at : is_cell h dissent ≡ true = (is_cell_iff h).1 e in
      let aside = alone e in
      let header : is_cell hd dissent ≡ false = not_cell hd aside.0 in
      let shadow : is_cell sh dissent ≡ false = not_cell sh aside.1 in rw (header, shadow, at) refl,
)

row_of-IsFair : (g : Against) (a : NodeAnswer) → IsFair g a (row_of g a)
unfolding row_of
row_of-IsFair g a =
    let c = hash_cells-Cells g a in
    record {
      as_fork = verdict_fork _ _ _ _ (λ h. (
        λ e. (c.off.0 h).1.2 (c.header_off.0 e).0.1.2,
        λ e. (c.off.0 h).1.2 (c.shadow_off.0 e).1.1.2,
      ));
      as_header = verdict_header _ _ _ _;
      as_shadow = verdict_shadow _ _ _ _;
      as_istar = verdict_istar _ _ _ _;
      cells = c;
      at_istar = istar_iff g a;
      of_node = refl;
    }

module _ (P : CompareRow → Type 0) (g : Against) where
  add_rows-All :
      (answers : List NodeAnswer) (v : CompareView)
      → ((a : NodeAnswer) → Some (λ b. b ≡ a) answers → P (row_of g a))
      → All P v.rows
      → All P (add_rows g answers v).rows
  unfolding add_rows add_row
  add_rows-All [] v each h = h
  add_rows-All (a ∷ answers) v each h =
      add_rows-All answers (add_row g a v) (λ b m. each b (inr m))
        (All-append P v.rows _ h (each a (inl refl), tt))

-- The table keeps the reference that it was made with.
add_rows-ref :
    (g : Against) (answers : List NodeAnswer) (v : CompareView) → (add_rows g answers v).ref ≡ v.ref
unfolding add_rows add_row
add_rows-ref g [] v = refl
add_rows-ref g (a ∷ answers) v = add_rows-ref g answers (add_row g a v)

-- Every row of the table is fair to an answer of its node. It says "fork" exactly if its hash cell
-- dissents, "header dissent" exactly if its header cell does, and "shadow dissent" and "I* dissent"
-- exactly if that cell dissents and no cell that goes before it does. The hash cell dissents exactly
-- if the node is reachable and has a hash that is not the reference's, with a reference at hand. A
-- root cell agrees or dissents exactly if the node holds the block of reference, and introspects for
-- the shadow root, and its root is, or is not, the class that the rows are judged against, both
-- known. The cell of I* dissents exactly if the node's hash there is not the anchor's, both known,
-- which needs no reference; the anchor's is that of its last answer, if it has one.
pub judge-IsFair :
    (visit : Counts → Counts) (height : ℕ) (answers : List NodeAnswer) (anchor : ℕ)
    → let v : CompareView = judge visit height answers anchor in
      let g : Against = against visit height answers anchor v.ref in
      All (λ r. (a : NodeAnswer) × Some (λ b. b ≡ a) answers × IsFair g a r) v.rows
      × (g.ref ≡ v.ref)
      × IsIstarOr anchor answers "" g.anchor_istar
unfolding judge against
judge-IsFair visit height answers anchor =
    let (ref, source) = reference visit answers anchor in
    let g = against visit height answers anchor ref in
    rw (add_rows-ref g answers _) (
      sort-All by_node _ _ (
          add_rows-All (λ r. (a : NodeAnswer) × Some (λ b. b ≡ a) answers × IsFair g a r) g answers
            _ (λ a m. (a, m, row_of-IsFair g a)) tt),
      refl,
      istar_of-IsIstar anchor answers "",
    )

-- Without a reference no hash and no root is said to dissent.
pub judge-blames_none :
    (visit : Counts → Counts) (height : ℕ) (answers : List NodeAnswer) (anchor : ℕ)
    → (judge visit height answers anchor).ref ≡ ""
    → All
        (λ r. (r.hash_state ≢ dissent) × (r.header_state ≢ dissent) × (r.shadow_state ≢ dissent))
        (judge visit height answers anchor).rows
judge-blames_none visit height answers anchor unknown =
    let (rows, at, _) = judge-IsFair visit height answers anchor in
    All-map _ _
      (λ r (a, m, f). (
        λ h. (f.cells.off.0 h).1.1 (at ∙ unknown),
        λ h. (f.cells.header_off.0 h).0.1.1 (at ∙ unknown),
        λ h. (f.cells.shadow_off.0 h).1.1.1 (at ∙ unknown),
      ))
      _ rows
