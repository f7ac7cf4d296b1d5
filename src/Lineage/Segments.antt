-- ===== src/Lineage/Segments.antt =====
-- The segments of the page (lineage.go: segmentID, firstOf, freeLane and recompute). The value of a
-- step is `none` where its loop does not end or where a nil record would be read. Slices are values:
-- `segments` copies those that it hands out. Entries of a map are visited in the order of the list.
pub mod Placed
pub mod Filed
pub mod Retired
pub mod Total
use pbt_devnet.Prelude.{
  ℕ, suc, ◌+◌, String, Bool, true, false, not, ◌&&◌, ◌||◌, Option, none, some, List, [], ◌∷◌, ◌++◌,
  map, ltb, leb, ◌==◌, str_eq, some_of, keep, length, sort, if◌then◌else◌,
}
use pbt_devnet.Prelude.Maps.{
  Map, lookup, store, erase, has_key, get_or, keys, nat_key, string_key, ◌>>=◌,
}
use pbt_devnet.Prelude.Int.{ℤ, pos, negsuc, int_eq}
use pbt_devnet.Migmon.{u64, sub64}
use pbt_devnet.Lineage.{Lineage, Segment, SegmentState, live, orphaned, Reorg, block_at}
use pbt_devnet.Lineage.Walk.{contains, walk_to, spine}

unfoldable pub is_live : SegmentState → Bool
is_live live = true
is_live orphaned = false

-- A live segment keeps its lane, an orphaned one until three slots after its last.
unfoldable pub occupies : ℤ → (first_slot : ℕ) → Segment → Bool
unfolding is_live int_eq
occupies lane first_slot r =
    int_eq r.lane lane && (is_live r.state || leb first_slot (u64 (r.last_slot + 3)))

unfoldable pub free_lane_of : List ℤ → (first_slot : ℕ) → Map ℕ Segment → ℤ
unfolding occupies
free_lane_of [] first_slot recs = pos 4
free_lane_of (lane ∷ lanes) first_slot recs =
    let rest = free_lane_of lanes first_slot recs in
    if some_of (λ e. occupies lane first_slot e.1) recs then rest else lane

abbrev pub lanes : List ℤ
lanes = pos 1 ∷ negsuc 0 ∷ pos 2 ∷ negsuc 1 ∷ pos 3 ∷ negsuc 2 ∷ []

unfoldable pub free_lane : (first_slot : ℕ) → Map ℕ Segment → ℤ
unfolding free_lane_of
free_lane first_slot recs = free_lane_of lanes first_slot recs

abbrev pub blank_segment : (id : ℕ) → ℤ → (first_slot : ℕ) → Segment
blank_segment id lane first_slot = record {
  id = id;
  lane = lane;
  ancestor = "";
  first_slot = first_slot;
  last_slot = 0;
  blocks = 0;
  tip = "";
  state = live;
  holders = [];
  lost_by = [];
}

unfoldable pub new_segment : (first : String) → Lineage → Lineage
new_segment first l =
    let slot = l.slot_of (block_at l.by_hash first).time in
    record l {
      next_id = suc l.next_id;
      by_first = store first l.next_id l.by_first;
      recs = store l.next_id (blank_segment l.next_id (free_lane slot l.recs) slot) l.recs;
    }

unfoldable pub segment_id : (first : String) → Lineage → ℕ × Lineage
unfolding new_segment
segment_id first l = elim (lookup first l.by_first) [
  | some id ↦ (id, l)
  | none ↦ (l.next_id, new_segment first l)
]

unfoldable pub first_of : ℕ → Map String ℕ → String
first_of id [] = ""
first_of id ((h, sid) ∷ m) = let rest = first_of id m in if sid == id then h else rest

-- `for _, h := range hashes { l.segOf[h] = id }`
unfoldable pub relabel : ℕ → List String → Map String ℕ → Map String ℕ
relabel id [] seg_of = seg_of
relabel id (h ∷ hs) seg_of = relabel id hs (store h id seg_of)

unfoldable pub is_in : Map String ℕ → ℕ → String → Bool
is_in seg_of id h = elim (lookup h seg_of) [ none ↦ false | some sid ↦ sid == id ]

abbrev pub last_of : String → List String → String
last_of h [] = h
last_of h (x ∷ xs) = last_of x xs

abbrev pub ints : List ℕ → List ℕ
ints ns = sort ltb ns

-- The nodes that were on a segment before this tick's moves.
unfoldable pub losers : (moved : Map ℕ String) → Map String ℕ → ℕ → Map ℕ String → List ℕ
unfolding is_in
losers moved seg_of id heads =
    ints (keys (keep (λ e. is_in seg_of id (get_or e.1 (lookup e.0 moved))) heads))

unfoldable pub same_id : Option ℕ → ℕ → Bool
same_id none id = false
same_id (some a) id = a == id

unfoldable pub relink : Map String ℕ → ℕ → Reorg → Reorg
unfolding is_in same_id
relink seg_of id r =
    if same_id r.lost_segment 0 && is_in seg_of id r.old_head
    then record r { lost_segment = some id }
    else r

-- The anchor's old suffix becomes the orphan `id`.
unfoldable pub orphan_suffix :
    (moved : Map ℕ String) (old first : String) (suffix : List String) (id : ℕ)
    → Segment
    → Lineage
    → Lineage
unfolding relabel losers relink
orphan_suffix moved old first suffix id rec l =
    let seg_of = relabel id suffix l.seg_of in
    record l {
      seg_of = seg_of;
      reorgs = map (relink seg_of id) l.reorgs;
      recs =
          store id
            (record rec {
              ancestor = (block_at l.by_hash first).parent;
              tip = old;
              blocks = length suffix;
              last_slot = l.slot_of (block_at l.by_hash old).time;
              state = orphaned;
              holders = [];
              lost_by = losers moved seg_of id l.heads;
            })
            l.recs;
    }

unfoldable pub abandon_as :
    (moved : Map ℕ String) (old first : String) (suffix : List String)
    → ℕ × Lineage
    → Option Lineage
unfolding orphan_suffix
abandon_as moved old first suffix (id, l) = elim (lookup id l.recs) [
  | none ↦ none
  | some rec ↦ some (orphan_suffix moved old first suffix id rec l)
]

unfoldable pub abandon : Map ℕ String → (old : String) → List String → Lineage → Option Lineage
unfolding segment_id abandon_as
abandon moved old [] l = some l
abandon moved old (h ∷ hs) l =
    abandon_as moved old (last_of h hs) (h ∷ hs) (segment_id (last_of h hs) l)

-- `s0` before its tip moves: its old suffix, if the anchor left that.
unfoldable pub leave_old : Map ℕ String → List String → (old : String) → Lineage → Option Lineage
unfolding abandon
leave_old moved canonical old l =
    if not (str_eq old "") && not (contains old canonical)
    then (walk_to l.by_hash canonical old >>= λ suffix. abandon moved old suffix l)
    else some l

unfoldable pub ensure_spine : Lineage → Lineage
ensure_spine l = elim (lookup 0 l.recs) [
  | none ↦ record l { recs = store 0 (blank_segment 0 (pos 0) 0) l.recs }
  | some _ ↦ l
]

unfoldable pub set_spine : (tip first : String) → List String → Segment → Lineage → Lineage
unfolding relabel
set_spine tip first canonical s0 l = record l {
  seg_of = relabel 0 canonical l.seg_of;
  recs =
      store 0
        (record s0 {
          tip = tip;
          blocks = (block_at l.by_hash tip).number;
          first_slot = l.slot_of (block_at l.by_hash first).time;
          last_slot = l.slot_of (block_at l.by_hash tip).time;
          holders = [];
        })
        l.recs;
}

-- A head and its branch join the segment `rec`, which is live.
unfoldable pub extend_tip : (l : Lineage) (h first : String) → Segment → Segment
extend_tip l h first rec =
    let b = block_at l.by_hash h in
    if str_eq rec.tip "" || ltb (block_at l.by_hash rec.tip).number b.number
    then record rec {
      tip = h;
      last_slot = l.slot_of b.time;
      ancestor = (block_at l.by_hash first).parent;
      blocks = u64 (sub64 b.number (block_at l.by_hash first).number + 1);
    }
    else rec

unfoldable pub hold_on :
    ℕ
    → (h first : String) (branch : List String) → ℕ
    → Segment
    → Lineage
    → List ℕ
    → Lineage × List ℕ
unfolding relabel extend_tip
hold_on n h first branch id rec l seen =
    let known = some_of (λ s. s == id) seen in
    let fresh = if known then rec else record rec { holders = []; tip = ""; blocks = 0 } in
    let grown = extend_tip l h first fresh in
    (
      record l {
        seg_of = relabel id branch l.seg_of;
        recs = store id (record grown { holders = grown.holders ++ n ∷ [] }) l.recs;
      },
      if known then seen else id ∷ seen,
    )

unfoldable pub join_rec :
    ℕ
    → (h first : String) (branch : List String) → ℕ
    → Segment
    → Lineage
    → List ℕ
    → Lineage × List ℕ
unfolding is_live hold_on
join_rec n h first branch id rec l seen =
    if is_live rec.state
    then hold_on n h first branch id rec l seen
    else if leb (block_at l.by_hash h).number (block_at l.by_hash rec.tip).number
    then (l, seen)
    else hold_on n h first branch id (record rec { state = live; lost_by = [] }) l seen

unfoldable pub join :
    ℕ → (h first : String) (branch : List String) → ℕ × Lineage → List ℕ → Option (Lineage × List ℕ)
unfolding join_rec
join n h first branch (id, l) seen = elim (lookup id l.recs) [
  | none ↦ none
  | some rec ↦ some (join_rec n h first branch id rec l seen)
]

-- The hysteresis of a branch that has no segment: `ticks` off the canonical chain, this one too.
unfoldable pub too_young : (ticks size : ℕ) → Bool
too_young ticks size = ltb ticks 2 || (ltb size 2 && ltb ticks 3)

unfoldable pub place_branch :
    ℕ → (h : String) → List String → Lineage → List ℕ → Option (Lineage × List ℕ)
unfolding segment_id join too_young
place_branch n h [] l seen = some (l, seen)
place_branch n h (b ∷ bs) l seen =
    let first = last_of b bs in
    let ticks = get_or 0 (lookup n l.off) + 1 in
    let aged = record l { off = store n ticks l.off } in
    if has_key first l.by_first
    then join n h first (b ∷ bs) (segment_id first l) seen
    else if too_young ticks (length (b ∷ bs))
    then some (aged, seen)
    else join n h first (b ∷ bs) (segment_id first aged) seen

unfoldable pub hold_spine : ℕ → Segment → Lineage → Lineage
hold_spine n s0 l = record l {
  recs = store 0 (record s0 { holders = s0.holders ++ n ∷ [] }) l.recs;
  off = store n 0 l.off;
}

unfoldable pub place_head : List String → ℕ → String → Lineage → List ℕ → Option (Lineage × List ℕ)
unfolding hold_spine place_branch
place_head canonical n h l seen =
    if contains h canonical
    then elim (lookup 0 l.recs) [ none ↦ none | some s0 ↦ some (hold_spine n s0 l, seen) ]
    else (walk_to l.by_hash canonical h >>= λ branch. place_branch n h branch l seen)

-- The loop over the nodes in order; `heads` are those of the start.
unfoldable pub place_heads :
    List String → Map ℕ String → List ℕ → Lineage → List ℕ → Option (Lineage × List ℕ)
unfolding place_head
place_heads canonical heads [] l seen = some (l, seen)
place_heads canonical heads (n ∷ ns) l seen =
    place_head canonical n (get_or "" (lookup n heads)) l seen >>= λ p.
    place_heads canonical heads ns p.0 p.1

unfoldable pub adopt : ℕ → Reorg → Reorg
unfolding same_id
adopt id r = record r {
  won_segment = if same_id r.won_segment id then some 0 else r.won_segment;
  lost_segment = if same_id r.lost_segment id then some 0 else r.lost_segment;
}

-- A record that no head is on: adopted by the anchor's chain, or orphaned.
unfoldable pub retire : List String → ℕ → Segment → Lineage → Lineage
unfolding first_of adopt is_live
retire canonical id rec l =
    let first = first_of id l.by_first in
    if contains first canonical
    then record l {
      reorgs = map (adopt id) l.reorgs;
      recs = erase id l.recs;
      by_first = erase first l.by_first;
    }
    else if is_live rec.state
    then record l {
      recs = store id (record rec { state = orphaned; lost_by = rec.holders; holders = [] }) l.recs;
    }
    else l

unfoldable pub retire_all : List String → (seen : List ℕ) → Map ℕ Segment → Lineage → Lineage
unfolding retire
retire_all canonical seen [] l = l
retire_all canonical seen ((id, rec) ∷ rest) l =
    retire_all canonical seen rest
      (if some_of (λ s. s == id) seen then l else retire canonical id rec l)

-- `s0.Tip`
abbrev pub spine_tip : Lineage → String
spine_tip l = (get_or (blank_segment 0 (pos 0) 0) (lookup 0 l.recs)).tip

unfoldable pub settle_spine : Map ℕ String → (tip : String) → List String → Lineage → Option Lineage
unfolding ensure_spine leave_old set_spine place_heads retire_all
settle_spine moved tip canonical l =
    leave_old moved canonical (spine_tip (ensure_spine l)) (ensure_spine l) >>= λ left.
    lookup 0 left.recs >>= λ s0.
    place_heads canonical left.heads (ints (keys left.heads))
      (set_spine tip (last_of tip canonical) canonical s0 left) (0 ∷ [])
    >>= λ p. some (retire_all canonical p.1 p.0.recs p.0)

unfoldable pub recompute : Map ℕ String → Lineage → Option Lineage
unfolding settle_spine
recompute moved l = elim (lookup l.anchor l.heads) [
  | none ↦ some l
  | some tip ↦
      if has_key tip l.by_hash
      then (spine l.by_hash tip >>= λ canonical. settle_spine moved tip canonical l)
      else some l
]
