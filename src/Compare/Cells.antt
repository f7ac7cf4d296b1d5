-- ===== src/Compare/Cells.antt =====
-- What the cells of a row tell of the node's answer (compare.go: judge, rootState).
use pbt_devnet.Prelude.{
  ℕ, ◌≡◌, ◌≢◌, refl, ap, ◌↔◌, ◌⊎◌, inl, inr, String, Bool, true, false, not, List, [], ◌∷◌, ◌++◌,
  leb, str_eq, eq_iff, ==_iff, ◌==◌, if◌then◌else◌, Bool-cases, All, arith,
}
use pbt_devnet.Compare.{
  Cell, agree, dissent, pending, behind, unreachable, NodeAnswer, Against, root_state, on_ref,
  hash_cell, answered_cells, thrice, hash_cells, istar_cell, anchor_istar,
}

-- Two answers that are there and are not the same, or are the same.
abbrev pub Differs : String → String → Type 0
Differs x y = (x ≢ "") × (y ≢ "") × (x ≢ y)

abbrev pub Agrees : String → String → Type 0
Agrees x y = (x ≢ "") × (y ≢ "") × (x ≡ y)

-- A node that answered with the block of reference.
abbrev pub IsOn : Against → NodeAnswer → Type 0
IsOn g a = (a.reachable ≡ true) × Agrees a.hash g.ref

-- What the cells of the hash and of the two roots claim.
pub record Cells (g : Against) (a : NodeAnswer) (h hd sh : Cell) : Type 0 where
  pub off : (h ≡ dissent) ↔ ((a.reachable ≡ true) × Differs a.hash g.ref)
  pub on : (h ≡ agree) ↔ IsOn g a
  pub header_off : (hd ≡ dissent) ↔ (IsOn g a × Differs a.header_root g.header_class)
  pub header_on : (hd ≡ agree) ↔ (IsOn g a × Agrees a.header_root g.header_class)
  pub shadow_off :
      (sh ≡ dissent) ↔ ((a.introspects ≡ true) × IsOn g a × Differs a.shadow_root g.shadow_class)
  pub shadow_on :
      (sh ≡ agree) ↔ ((a.introspects ≡ true) × IsOn g a × Agrees a.shadow_root g.shadow_class)

module _ (root class : String) (c i : Bool) where
  root_off : (root_state root class c i ≡ dissent) ↔ ((i ≡ true) × (c ≡ true) × Differs root class)
  unfolding root_state
  root_off = (
    λ h. (
      ground (arith, h),
      ground (arith, h),
      (
        ground (arith, h, eq_iff root ""),
        ground (arith, h, eq_iff class ""),
        ground (arith, h, eq_iff root class),
      ),
    ),
    λ (a, b, (x, y, z)). ground (arith, eq_iff root "", eq_iff class "", eq_iff root class),
  )

  root_on : (root_state root class c i ≡ agree) ↔ ((i ≡ true) × (c ≡ true) × Agrees root class)
  unfolding root_state
  root_on = (
    λ h. (
      ground (arith, h),
      ground (arith, h),
      (
        ground (arith, h, eq_iff root ""),
        ground (arith, h, eq_iff class ""),
        ground (arith, h, eq_iff root class),
      ),
    ),
    λ (a, b, (x, y, z)). ground (arith, eq_iff root "", eq_iff class "", eq_iff root class),
  )

on_ref_iff :
    (ref : String) (a : NodeAnswer) → a.hash ≢ "" → (on_ref ref a ≡ true) ↔ Agrees a.hash ref
unfolding on_ref
on_ref_iff ref a some_hash = (
  λ h. (some_hash, ground (arith, eq_iff ref ""), ground (arith, eq_iff a.hash ref)),
  λ (_, r, e). ground (arith, eq_iff ref "", eq_iff a.hash ref),
)

hash_off : (ref hash : String) → hash ≢ "" → (hash_cell ref hash ≡ dissent) ↔ Differs hash ref
unfolding hash_cell
hash_off ref hash some_hash = (
  λ h. (some_hash, ground (arith, eq_iff ref ""), ground (arith, eq_iff hash ref)),
  λ (_, r, e). ground (arith, eq_iff ref "", eq_iff hash ref),
)

hash_on : (ref hash : String) → hash ≢ "" → (hash_cell ref hash ≡ agree) ↔ Agrees hash ref
unfolding hash_cell
hash_on ref hash some_hash = (
  λ h. (some_hash, ground (arith, eq_iff ref ""), ground (arith, eq_iff hash ref)),
  λ (_, r, e). ground (arith, eq_iff ref "", eq_iff hash ref),
)

answered_cells-Cells :
    (g : Against) (a : NodeAnswer)
    → a.reachable ≡ true
    → a.hash ≢ ""
    → Cells g a (answered_cells g a).0 (answered_cells g a).1 (answered_cells g a).2
unfolding answered_cells
answered_cells-Cells g a up some_hash =
    let (o_to, o_from) = on_ref_iff g.ref a some_hash in
    let (d_to, d_from) = hash_off g.ref a.hash some_hash in
    let (s_to, s_from) = hash_on g.ref a.hash some_hash in
    let header = root_off a.header_root g.header_class (on_ref g.ref a) true in
    let header' = root_on a.header_root g.header_class (on_ref g.ref a) true in
    let shadow = root_off a.shadow_root g.shadow_class (on_ref g.ref a) a.introspects in
    let shadow' = root_on a.shadow_root g.shadow_class (on_ref g.ref a) a.introspects in
    record {
      off = (λ h. (up, d_to h), λ h. d_from h.1);
      on = (λ h. (up, s_to h), λ h. s_from h.1);
      header_off = (
        λ h. let (_, c, d) = header.0 h in ((up, o_to c), d),
        λ h. header.1 (refl, o_from h.0.1, h.1),
      );
      header_on = (
        λ h. let (_, c, d) = header'.0 h in ((up, o_to c), d),
        λ h. header'.1 (refl, o_from h.0.1, h.1),
      );
      shadow_off = (
        λ h. let (i, c, d) = shadow.0 h in (i, (up, o_to c), d),
        λ h. shadow.1 (h.0, o_from h.1.1, h.2),
      );
      shadow_on = (
        λ h. let (i, c, d) = shadow'.0 h in (i, (up, o_to c), d),
        λ h. shadow'.1 (h.0, o_from h.1.1, h.2),
      );
    }

-- A node that is away, or that has no block, has nothing to compare.
thrice-Cells :
    (g : Against) (a : NodeAnswer) (c : Cell)
    → c ≢ dissent
    → c ≢ agree
    → ¬ ((a.reachable ≡ true) × (a.hash ≢ ""))
    → Cells g a c c c
thrice-Cells g a c d s away = record {
  off = (λ h. absurd (d h), λ h. absurd (away (h.0, h.1.0)));
  on = (λ h. absurd (s h), λ h. absurd (away (h.0, h.1.0)));
  header_off = (λ h. absurd (d h), λ h. absurd (away (h.0.0, h.0.1.0)));
  header_on = (λ h. absurd (s h), λ h. absurd (away (h.0.0, h.0.1.0)));
  shadow_off = (λ h. absurd (d h), λ h. absurd (away (h.1.0, h.1.1.0)));
  shadow_on = (λ h. absurd (s h), λ h. absurd (away (h.1.0, h.1.1.0)));
}

abbrev pub CellsOf : Against → NodeAnswer → Cell × Cell × Cell → Type 0
CellsOf g a cs = Cells g a cs.0 cs.1 cs.2

pub hash_cells-Cells : (g : Against) (a : NodeAnswer) → CellsOf g a (hash_cells g a)
unfolding hash_cells
hash_cells-Cells g a =
    by_tests a.reachable refl (str_eq a.hash "") refl (leb g.height a.head_number)
  where
    by_tests :
        (up : Bool)
        → a.reachable ≡ up
        → (empty : Bool) → str_eq a.hash "" ≡ empty
        → (reached : Bool)
        → CellsOf g a (
            if not up
            then thrice unreachable
            else if empty
            then thrice (if reached then pending else behind)
            else answered_cells g a)
    by_tests false u empty e reached =
        thrice-Cells g a unreachable (λ h. cc) (λ h. cc) (λ z. let k = z.0 in cc)
    by_tests true u true e true =
        thrice-Cells g a pending (λ h. cc) (λ h. cc) (λ z. z.1 ((eq_iff a.hash "").0 e))
    by_tests true u true e false =
        thrice-Cells g a behind (λ h. cc) (λ h. cc) (λ z. z.1 ((eq_iff a.hash "").0 e))
    by_tests true u false e reached =
        answered_cells-Cells g a u (λ h. cc (e, (eq_iff a.hash "").1 h))

-- The cell of the block at I* compares with the anchor's, whatever the reference.
pub istar_iff :
    (g : Against) (a : NodeAnswer)
    → (istar_cell g a ≡ dissent) ↔ Differs a.istar_hash g.anchor_istar
unfolding istar_cell
istar_iff g a = (
  λ h. (
    ground (arith, eq_iff a.istar_hash ""),
    ground (arith, eq_iff g.anchor_istar ""),
    ground (arith, eq_iff a.istar_hash g.anchor_istar),
  ),
  λ (x, y, z).
      ground (
        arith,
        eq_iff a.istar_hash "",
        eq_iff g.anchor_istar "",
        eq_iff a.istar_hash g.anchor_istar,
      ),
)

-- The hash at I* that the anchor gave with its last answer.
abbrev pub IsIstar : (anchor : ℕ) → List NodeAnswer → (it : String) → Type 0
IsIstar anchor answers it =
    (pre : List NodeAnswer) × (a : NodeAnswer) × (post : List NodeAnswer) × (answers
      ≡ pre ++ a ∷ post)
    × (a.node ≡ anchor)
    × All (λ b. b.node ≢ anchor) post
    × (it ≡ a.istar_hash)

abbrev pub IsIstarOr : (anchor : ℕ) → List NodeAnswer → (h it : String) → Type 0
IsIstarOr anchor answers h it =
    (All (λ b. b.node ≢ anchor) answers × (it ≡ h)) ⊎ IsIstar anchor answers it

pub istar_of-IsIstar :
    (anchor : ℕ) (answers : List NodeAnswer) (h : String)
    → IsIstarOr anchor answers h (anchor_istar anchor answers h)
unfolding anchor_istar
istar_of-IsIstar anchor [] h = inl (tt, refl)
istar_of-IsIstar anchor (a ∷ answers) h = elim (Bool-cases (a.node == anchor)) [
  | inl e ↦ rw e (elim (istar_of-IsIstar anchor answers a.istar_hash) [
    | inl (others, is) ↦ inr ([], a, answers, refl, (==_iff a.node anchor).0 e, others, is)
    | inr (pre, b, post, at, eq, others, is) ↦
        inr (a ∷ pre, b, post, ap (λ xs. a ∷ xs) at, eq, others, is)
  ])
  | inr e ↦ rw e (elim (istar_of-IsIstar anchor answers h) [
    | inl (others, is) ↦ inl ((λ z. cc (e, (==_iff a.node anchor).1 z), others), is)
    | inr (pre, b, post, at, eq, others, is) ↦
        inr (a ∷ pre, b, post, ap (λ xs. a ∷ xs) at, eq, others, is)
  ])
]
