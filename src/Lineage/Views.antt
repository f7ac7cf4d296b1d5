-- ===== src/Lineage/Views.antt =====
-- What the page reads of the lineage, and what is dropped from it (lineage.go: segments, blocks,
-- segmentOf, holders and prune). The fields of a block that the shadow table fills are left out.
pub mod Pruned
use pbt_devnet.Prelude.{
  ℕ, ◌-◌, String, Bool, true, false, not, ◌&&◌, ◌||◌, Option, none, some, List, [], ◌∷◌, map, ltb,
  leb, ◌==◌, str_eq, some_of, keep, sort, if◌then◌else◌,
}
use Prim.Native.Nat.{Ordering}
use Prim.Native.String.{compare}
use pbt_devnet.Prelude.Maps.{Map, lookup, erase, has_key, keys, nat_key, string_key}
use pbt_devnet.Lineage.{Lineage, Block, Segment, orphaned, Reorg}
use pbt_devnet.Lineage.Segments.{is_live, ints}

unfoldable pub records : List ℕ → Map ℕ Segment → List Segment
records [] recs = []
records (id ∷ ids) recs =
    let rest = records ids recs in elim (lookup id recs) [ none ↦ rest | some r ↦ r ∷ rest ]

-- The canonical chain first, then the branches by number.
unfoldable pub segments : Lineage → List Segment
unfolding records
segments l =
    let ids = ints (keep (λ id. not (id == 0)) (keys l.recs)) in
    records (if has_key 0 l.recs then 0 ∷ ids else ids) l.recs

unfoldable pub segment_of : String → Lineage → Option ℕ
segment_of h l = lookup h l.seg_of

-- The nodes on a live segment.
unfoldable pub holders : ℕ → Lineage → List ℕ
unfolding is_live
holders id l = elim (lookup id l.recs) [
  | none ↦ []
  | some r ↦ if is_live r.state then r.holders else []
]

pub record BlockView : Type 0 where
  pub hash : String
  pub parent : String
  pub number : ℕ
  pub slot : ℕ
  pub segment : Option ℕ
  pub is_pbt : Bool
  pub state_root : String
  pub istar : Bool
  pub istar_orphaned : Bool

-- Whether a block is the first of the new format on its branch.
unfoldable pub is_istar : Lineage → Block → Bool
is_istar l b =
    leb l.fork_time b.time
    && elim (lookup b.parent l.by_hash) [ none ↦ false | some p ↦ ltb p.time l.fork_time ]

unfoldable pub on_orphan : Lineage → Block → Bool
unfolding is_live
on_orphan l b = elim (lookup b.hash l.seg_of) [
  | none ↦ false
  | some id ↦ elim (lookup id l.recs) [ none ↦ false | some r ↦ not (is_live r.state) ]
]

unfoldable pub view_of : Lineage → Block → BlockView
unfolding is_istar on_orphan
view_of l b = record {
  hash = b.hash;
  parent = b.parent;
  number = b.number;
  slot = l.slot_of b.time;
  segment = lookup b.hash l.seg_of;
  is_pbt = leb l.fork_time b.time;
  state_root = b.root;
  istar = is_istar l b;
  istar_orphaned = is_istar l b && on_orphan l b;
}

unfoldable pub str_lt : String → String → Bool
str_lt a b = elim (compare a b) [ Ordering.lt ↦ true | _ ↦ false ]

unfoldable pub by_number : BlockView → BlockView → Bool
unfolding str_lt
by_number a b = if a.number == b.number then str_lt a.hash b.hash else ltb a.number b.number

unfoldable pub in_slots : (from to : ℕ) → Lineage → String × Block → Bool
in_slots from to l e = leb from (l.slot_of e.1.time) && leb (l.slot_of e.1.time) to

unfoldable pub blocks : (from to : ℕ) → Lineage → List BlockView
unfolding view_of by_number in_slots
blocks from to l = sort by_number (map (λ e. view_of l e.1) (keep (in_slots from to l) l.by_hash))

-- What a record or a head still points at.
unfoldable pub is_pointed : Lineage → String → Bool
is_pointed l h =
    some_of (λ e. str_eq e.1.tip h || str_eq e.1.ancestor h) l.recs
    || some_of (λ e. str_eq e.1 h) l.heads

unfoldable pub is_stale : Lineage → (cutoff : ℕ) → String × Block → Bool
unfolding is_pointed
is_stale l cutoff e = ltb (l.slot_of e.1.time) cutoff && not (is_pointed l e.0)

-- `for hash, b := range l.byHash { if … { delete(m, hash) } }`
unfoldable pub drop_stale :
    {V : Type 0} → Lineage → (cutoff : ℕ) → List (String × Block) → Map String V → Map String V
unfolding is_stale
drop_stale l cutoff [] m = m
drop_stale l cutoff (e ∷ es) m =
    drop_stale l cutoff es (if is_stale l cutoff e then erase e.0 m else m)

unfoldable pub prune : (now : ℕ) → Lineage → Lineage
unfolding drop_stale
prune now l =
    if ltb now l.retain_slots
    then l
    else let cutoff = now - l.retain_slots in
      record l {
        by_hash = drop_stale l cutoff l.by_hash l.by_hash;
        seg_of = drop_stale l cutoff l.by_hash l.seg_of;
        reorgs = keep (λ r. leb cutoff r.slot) l.reorgs;
      }
