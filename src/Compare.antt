-- ===== src/Compare.antt =====
-- The clients' answers at one height (cmd/migration-monitor/compare.go, with the records of
-- snapshot.go). The loops over Go maps visit the entries in the order that the parameter `visit`
-- gives. A text that is "" is `none` where it stands for a missing answer only in the source's tests,
-- and stays a text here.
pub mod Majority
pub mod Cells
pub mod Judged
pub mod Report
pub mod Once
use pbt_devnet.Prelude.{
  ℕ, suc, ◌+◌, ◌-◌, ◌*◌, String, Bool, true, false, not, ◌&&◌, ◌||◌, Option, none, some, List, [],
  ◌∷◌, ◌++◌, ltb, leb, ◌==◌, str_eq, some_of, length, sort, if◌then◌else◌,
}
use pbt_devnet.Prelude.Maps.{Map, lookup, store, get_or, string_key}
use pbt_devnet.Prelude.Int.{ℤ, sub_ℕ}

abbrev pub compare_depth : ℕ
compare_depth = 2

pub data Cell : Type 0 where
  agree dissent unjudged no_inspect pending behind unreachable : Cell

pub data Verdict : Type 0 where
  header_dissent shadow_dissent istar_dissent fork partial absent fine : Verdict

-- Why a disagreement is expected.
pub data Why : Type 0 where
  no_reason isolation : Why
  lifted_at reorg_at : ℕ → Why

pub record NodeAnswer : Type 0 where
  pub node : ℕ
  pub head_number : ℕ
  pub reachable : Bool
  pub isolated : Bool
  pub introspects : Bool
  pub settling : Why
  pub phase : String
  pub hash : String
  pub header_root : String
  pub shadow_root : String
  pub istar_hash : String

unfoldable pub is_settling : Why → Bool
is_settling no_reason = false
is_settling _ = true

unfoldable pub is_eligible : NodeAnswer → Bool
unfolding is_settling
is_eligible a =
    a.reachable
    && not a.isolated
    && not (is_settling a.settling)
    && not (str_eq a.phase "stalled")
    && not (str_eq a.phase "unknown")

-- The loop's body: the lowest head so far.
unfoldable pub lower : NodeAnswer → Option ℕ → Option ℕ
lower a none = if is_eligible a then some a.head_number else none
lower a (some n) = if is_eligible a && ltb a.head_number n then some a.head_number else some n

unfoldable pub lowest_head : List NodeAnswer → Option ℕ → Option ℕ
unfolding lower
lowest_head [] lowest = lowest
lowest_head (a ∷ answers) lowest = lowest_head answers (lower a lowest)

unfoldable pub pick_height : List NodeAnswer → Option ℕ
unfolding lowest_head
pick_height answers = elim (lowest_head answers none) [
  | none ↦ none
  | some n ↦ some (n - compare_depth)
]

abbrev pub Counts : Type 0
Counts = Map String ℕ

-- `counts[v]++`
unfoldable pub bump : String → Counts → Counts
bump v counts = store v (get_or 0 (lookup v counts) + 1) counts

unfoldable pub total_of : Counts → ℕ
total_of [] = 0
total_of (e ∷ m) = e.1 + total_of m

unfoldable pub majority_in : (total : ℕ) → Counts → Option String
majority_in total [] = none
majority_in total (e ∷ m) =
    let rest = majority_in total m in if ltb total (e.1 * 2) then some e.0 else rest

unfoldable pub strict_majority : Counts → Option String
unfolding total_of majority_in
strict_majority counts = majority_in (total_of counts) counts

-- The most common value, and whether another is as common.
pub record Best : Type 0 where
  pub value : String
  pub times : ℕ
  pub tied : Bool

unfoldable pub best_of : Counts → Best → Best
best_of [] b = b
best_of (e ∷ m) b = best_of m (
    if ltb b.times e.1
    then record { value = e.0; times = e.1; tied = false }
    else if e.1 == b.times && not (str_eq e.0 b.value)
    then record b { tied = true }
    else b)

module _ (anchor : ℕ) (pick : NodeAnswer → String) where
  -- The counts of what is picked, and what is picked of the anchor.
  unfoldable pub tally_roots : List NodeAnswer → Counts × String → Counts × String
  unfolding bump
  tally_roots [] p = p
  tally_roots (a ∷ answers) p = tally_roots answers (
      if str_eq (pick a) ""
      then p
      else (bump (pick a) p.0, if a.node == anchor then pick a else p.1))

-- The hashes of the nodes that are settled, and the anchor's hash.
unfoldable pub tally_hashes : (anchor : ℕ) → List NodeAnswer → Counts × String → Counts × String
unfolding bump is_settling
tally_hashes anchor [] p = p
tally_hashes anchor (a ∷ answers) p = tally_hashes anchor answers (
    if str_eq a.hash "" then p else (
      if not a.isolated && not (is_settling a.settling) then bump a.hash p.0 else p.0,
      if a.node == anchor then a.hash else p.1,
    ))

unfoldable pub anchor_istar : (anchor : ℕ) → List NodeAnswer → String → String
anchor_istar anchor [] h = h
anchor_istar anchor (a ∷ answers) h =
    anchor_istar anchor answers (if a.node == anchor then a.istar_hash else h)

pub data RefSource : Type 0 where
  by_anchor by_majority by_none : RefSource

unfoldable pub root_state : (root class : String) → (comparable introspects : Bool) → Cell
root_state root class comparable introspects =
    if not introspects
    then no_inspect
    else if not comparable
    then unjudged
    else if str_eq root ""
    then pending
    else if str_eq class ""
    then unjudged
    else if str_eq root class
    then agree
    else dissent

pub record CompareRow : Type 0 where
  pub node : ℕ
  pub ahead : ℤ
  pub hash : String
  pub header_root : String
  pub shadow_root : String
  pub hash_state : Cell
  pub header_state : Cell
  pub shadow_state : Cell
  pub istar_state : Cell
  pub verdict : Verdict
  pub expected : Bool
  pub why : Why

unfoldable pub is_cell : Cell → Cell → Bool
is_cell agree agree = true
is_cell dissent dissent = true
is_cell unjudged unjudged = true
is_cell no_inspect no_inspect = true
is_cell pending pending = true
is_cell behind behind = true
is_cell unreachable unreachable = true
is_cell _ _ = false

unfoldable pub verdict_for : (hash header shadow istar : Cell) → Verdict
unfolding is_cell
verdict_for hash header shadow istar =
    if is_cell header dissent
    then header_dissent
    else if is_cell shadow dissent
    then shadow_dissent
    else if is_cell hash dissent
    then fork
    else if is_cell istar dissent
    then istar_dissent
    else if is_cell hash unreachable
    then absent
    else if is_cell hash behind
    then absent
    else if is_cell hash pending
        || is_cell shadow pending
        || is_cell shadow no_inspect
        || is_cell header pending
    then partial
    else fine

-- What the rows are judged against.
pub record Against : Type 0 where
  pub height : ℕ
  pub ref : String
  pub header_class : String
  pub shadow_class : String
  pub anchor_istar : String

unfoldable pub on_ref : (ref : String) → NodeAnswer → Bool
on_ref ref a = not (str_eq ref "") && str_eq a.hash ref

-- The cells of a node that answered: of its hash and of its two roots.
unfoldable pub hash_cell : (ref hash : String) → Cell
hash_cell ref hash = if str_eq ref "" then unjudged else if str_eq hash ref then agree else dissent

unfoldable pub answered_cells : Against → NodeAnswer → Cell × Cell × Cell
answered_cells g a = (
  hash_cell g.ref a.hash,
  root_state a.header_root g.header_class (on_ref g.ref a) true,
  root_state a.shadow_root g.shadow_class (on_ref g.ref a) a.introspects,
)

abbrev pub thrice : Cell → Cell × Cell × Cell
thrice c = (c, c, c)

unfoldable pub hash_cells : Against → NodeAnswer → Cell × Cell × Cell
hash_cells g a =
    if not a.reachable
    then thrice unreachable
    else if str_eq a.hash ""
    then thrice (if leb g.height a.head_number then pending else behind)
    else answered_cells g a

unfoldable pub istar_cell : Against → NodeAnswer → Cell
istar_cell g a =
    if str_eq a.istar_hash "" || str_eq g.anchor_istar ""
    then unjudged
    else if str_eq a.istar_hash g.anchor_istar
    then agree
    else dissent

unfoldable pub why_of : NodeAnswer → Why
unfolding is_settling
why_of a = if a.isolated && not (is_settling a.settling) then isolation else a.settling

unfoldable pub row_of : Against → NodeAnswer → CompareRow
unfolding is_settling
row_of g a =
    let cells = hash_cells g a in
    record {
      node = a.node;
      ahead = sub_ℕ a.head_number g.height;
      hash = a.hash;
      header_root = a.header_root;
      shadow_root = a.shadow_root;
      hash_state = cells.0;
      header_state = cells.1;
      shadow_state = cells.2;
      istar_state = istar_cell g a;
      verdict = verdict_for cells.0 cells.1 cells.2 (istar_cell g a);
      expected = a.isolated || is_settling a.settling;
      why = why_of a;
    }

pub record CompareView : Type 0 where
  pub height : ℕ
  pub ref : String
  pub ref_source : RefSource
  pub hash_agree : ℕ
  pub hash_judged : ℕ
  pub shadow_agree : ℕ
  pub shadow_judged : ℕ
  pub shadow_seen : List String
  pub rows : List CompareRow

abbrev pub count_if : Bool → ℕ → ℕ
count_if t n = if t then suc n else n

abbrev pub is_judged : Cell → Bool
is_judged c = is_cell c agree || is_cell c dissent

unfoldable pub note_root : Against → NodeAnswer → List String → List String
unfolding on_ref
note_root g a seen =
    if a.reachable
      && not (str_eq a.hash "")
      && on_ref g.ref a
      && a.introspects
      && not (str_eq a.shadow_root "")
      && not (some_of (λ r. str_eq r a.shadow_root) seen)
    then a.shadow_root ∷ seen
    else seen

-- One round of the loop that fills the table.
unfoldable pub add_row : Against → NodeAnswer → CompareView → CompareView
unfolding row_of note_root is_cell
add_row g a v =
    let r = row_of g a in
    record v {
      rows = v.rows ++ r ∷ [];
      hash_judged = count_if (is_judged r.hash_state) v.hash_judged;
      hash_agree = count_if (is_cell r.hash_state agree) v.hash_agree;
      shadow_judged = count_if (is_judged r.shadow_state) v.shadow_judged;
      shadow_agree = count_if (is_cell r.shadow_state agree) v.shadow_agree;
      shadow_seen = note_root g a v.shadow_seen;
    }

unfoldable pub add_rows : Against → List NodeAnswer → CompareView → CompareView
unfolding add_row
add_rows g [] v = v
add_rows g (a ∷ answers) v = add_rows g answers (add_row g a v)

unfoldable pub by_node : CompareRow → CompareRow → Bool
by_node a b = ltb a.node b.node

module _ (visit : Counts → Counts) where
  unfoldable pub majority_root : List NodeAnswer → (anchor : ℕ) → (NodeAnswer → String) → String
  unfolding tally_roots best_of
  majority_root answers anchor pick =
      let (counts, anchor_val) = tally_roots anchor pick answers ([], "") in
      let best = best_of (visit counts) (record { value = ""; times = 0; tied = false }) in
      if best.tied && not (str_eq anchor_val "") then anchor_val else best.value

  unfoldable pub reference : List NodeAnswer → (anchor : ℕ) → String × RefSource
  unfolding tally_hashes strict_majority
  reference answers anchor =
      let (counts, anchor_hash) = tally_hashes anchor answers ([], "") in
      if not (str_eq anchor_hash "")
      then (anchor_hash, by_anchor)
      else elim (strict_majority (visit counts)) [
        | none ↦ ("", by_none)
        | some h ↦ (h, by_majority)
      ]

  unfoldable pub against : (height : ℕ) → List NodeAnswer → (anchor : ℕ) → (ref : String) → Against
  unfolding majority_root on_ref anchor_istar
  against height answers anchor ref = record {
    height = height;
    ref = ref;
    header_class = majority_root answers anchor (λ a. if on_ref ref a then a.header_root else "");
    shadow_class =
        majority_root answers anchor
          (λ a. if on_ref ref a && a.introspects then a.shadow_root else "");
    anchor_istar = anchor_istar anchor answers "";
  }

  unfoldable pub judge : (height : ℕ) → List NodeAnswer → (anchor : ℕ) → CompareView
  unfolding reference against add_rows by_node
  judge height answers anchor =
      let (ref, source) = reference answers anchor in
      let v = add_rows (against height answers anchor ref) answers (record {
        height = height;
        ref = ref;
        ref_source = source;
        hash_agree = 0;
        hash_judged = 0;
        shadow_agree = 0;
        shadow_judged = 0;
        shadow_seen = [];
        rows = [];
      }) in
      record v { rows = sort by_node v.rows }
