-- ===== src/Compare/Report.antt =====
-- The findings of the comparison (compare.go: settling, reportDissent).
use pbt_devnet.Prelude.{
  ℕ, ◌-◌, String, Bool, true, false, not, ◌&&◌, Option, none, some, List, [], ◌∷◌, ◌++◌, ltb, leb,
  ◌==◌, some_of, length, if◌then◌else◌,
}
use pbt_devnet.Migmon.{Event, event, critical, root_mismatch, header_differs, other_fork_block}
use pbt_devnet.Lineage.{Reorg}
use pbt_devnet.Compare.{
  Why, no_reason, lifted_at, reorg_at, header_dissent, istar_dissent, CompareRow, CompareView,
}

-- A partition that disruptoor applied; `lifted_slot` is 0 while it is in force.
pub record Partition : Type 0 where
  pub name : String
  pub victims : List ℕ
  pub applied_slot : ℕ
  pub lifted_slot : ℕ

unfoldable pub within_grace : (slot now grace : ℕ) → Bool
within_grace slot now grace = leb slot now && leb (now - slot) grace

unfoldable pub lifted_lately : List Partition → (node now grace : ℕ) → Option ℕ
unfolding within_grace
lifted_lately [] node now grace = none
lifted_lately (p ∷ parts) node now grace =
    let rest = lifted_lately parts node now grace in
    if not (p.lifted_slot == 0)
      && some_of (λ v. v == node) p.victims
      && within_grace p.lifted_slot now grace
    then some p.lifted_slot
    else rest

unfoldable pub reorged_lately : List Reorg → (node now grace : ℕ) → Option ℕ
unfolding within_grace
reorged_lately [] node now grace = none
reorged_lately (r ∷ reorgs) node now grace =
    let rest = reorged_lately reorgs node now grace in
    if r.node == node && within_grace r.slot now grace then some r.slot else rest

-- Without a partition tracker `parts` is empty.
unfoldable pub settling : List Partition → List Reorg → (node now grace : ℕ) → Why
unfolding lifted_lately reorged_lately
settling parts reorgs node now grace = elim (lifted_lately parts node now grace) [
  | some slot ↦ lifted_at slot
  | none ↦ elim (reorged_lately reorgs node now grace) [
    | some slot ↦ reorg_at slot
    | none ↦ no_reason
  ]
]

-- The key of a finding: its node, its height, and whether it is of the header or of the fork block.
abbrev pub Key : Type 0
Key = ℕ × ℕ × Bool

unfoldable pub key_eq : Key → Key → Bool
key_eq a b = a.0 == b.0 && a.1 == b.1 && (if a.2 then b.2 else not b.2)

unfoldable pub was_fired : Key → List Key → Bool
unfolding key_eq
was_fired k fired = some_of (λ j. key_eq j k) fired

-- The kind of finding that a row is worth: `true` for the header, `false` for the fork block.
unfoldable pub worth : CompareRow → Option Bool
worth r =
    if r.expected
    then none
    else elim r.verdict [ header_dissent ↦ some true | istar_dissent ↦ some false | _ ↦ none ]

unfoldable pub finding_of :
    (name : ℕ → String) → CompareView → CompareRow → (of_header : Bool) → Event
finding_of name v r of_header =
    event critical (name r.node) root_mismatch v.height ""
      (if of_header then header_differs r.header_root v.height v.ref else other_fork_block v.height)

-- A finding is made once for its key.
abbrev pub fire : (again : Bool) → Key → Event → List Key × List Event → List Key × List Event
fire true k e p = p
fire false k e (fired, out) = (k ∷ fired, out ++ e ∷ [])

module _ (name : ℕ → String) (v : CompareView) where
  unfoldable pub report_row : CompareRow → List Key × List Event → List Key × List Event
  unfolding worth was_fired finding_of
  report_row r (fired, out) = elim (worth r) [
    | none ↦ (fired, out)
    | some k ↦
        fire (was_fired (r.node, v.height, k) fired) (r.node, v.height, k) (finding_of name v r k)
          (fired, out)
  ]

  unfoldable pub report_rows : List CompareRow → List Key × List Event → List Key × List Event
  unfolding report_row
  report_rows [] p = p
  report_rows (r ∷ rows) p = report_rows rows (report_row r p)

  -- `reportDissent`, with the keys that were fired before.
  unfoldable pub report_dissent : List Key → List Key × List Event
  unfolding report_rows
  report_dissent fired =
      let (fired', out) = report_rows v.rows (fired, []) in
      (if ltb 4096 (length fired') then [] else fired', out)
