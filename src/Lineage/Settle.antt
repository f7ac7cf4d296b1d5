-- ===== src/Lineage/Settle.antt =====
-- The reorgs that a tick's moves imply (lineage.go: settle).
pub mod Judged
use pbt_devnet.Prelude.{
  ℕ, suc, ◌-◌, String, Bool, true, false, not, ◌&&◌, ◌||◌, Option, none, some, List, [], ◌∷◌, ◌++◌,
  ltb, leb, str_eq, if◌then◌else◌,
}
use pbt_devnet.Prelude.Maps.{Map, lookup, get_or, keys, nat_key, string_key, ◌>>=◌}
use pbt_devnet.Lineage.{Lineage, Block, Reorg, block_at}
use pbt_devnet.Lineage.Walk.{is_ancestor, common_ancestor}
use pbt_devnet.Lineage.Segments.{recompute, ints}

unfoldable pub reorg_of : (now node : ℕ) (prev head : String) (a p n : Block) → Lineage → Reorg
reorg_of now node prev head a p n l = record {
  slot = now;
  node = node;
  depth = p.number - a.number;
  added = n.number - a.number;
  ancestor = a.hash;
  ancestor_number = a.number;
  old_head = prev;
  new_head = head;
  lost_segment = lookup prev l.seg_of;
  won_segment = lookup head l.seg_of;
  crosses_istar = ltb a.time l.fork_time && leb l.fork_time p.time;
}

-- What one move comes to: an advance, a move that is not judged, or a reorg.
pub data Move : Type 0 where
  advance unjudged : Move
  reorged : Reorg → Move

unfoldable pub judge_at : (now node : ℕ) (prev head : String) → Lineage → Option Block → Move
unfolding reorg_of
judge_at now node prev head l none = unjudged
judge_at now node prev head l (some a) =
    let p = block_at l.by_hash prev in
    let n = block_at l.by_hash head in
    if ltb p.number a.number || ltb n.number a.number
    then unjudged
    else reorged (reorg_of now node prev head a p n l)

unfoldable pub judge_ancestry :
    (now node : ℕ) (prev head : String) → Lineage → (is_advance : Bool) → Option Move
unfolding judge_at
judge_ancestry now node prev head l true = some advance
judge_ancestry now node prev head l false =
    common_ancestor l.by_hash prev head >>= λ a. some (judge_at now node prev head l a)

unfoldable pub judge_move : (now node : ℕ) (prev head : String) → Lineage → Option Move
unfolding judge_ancestry
judge_move now node prev head l =
    if str_eq prev ""
    then some advance
    else (is_ancestor l.by_hash prev head >>= judge_ancestry now node prev head l)

unfoldable pub record_move : Move → Lineage × List Reorg → Lineage × List Reorg
record_move advance (l, out) = (l, out)
record_move unjudged (l, out) = (record l { truncated = suc l.truncated }, out)
record_move (reorged r) (l, out) = (record l { reorgs = l.reorgs ++ r ∷ [] }, out ++ r ∷ [])

-- The loop over the nodes that moved, in order.
unfoldable pub judge_moves :
    ℕ → Map ℕ String → List ℕ → Lineage × List Reorg → Option (Lineage × List Reorg)
unfolding judge_move record_move
judge_moves now moved [] p = some p
judge_moves now moved (node ∷ nodes) p =
    judge_move now node (get_or "" (lookup node moved)) (get_or "" (lookup node p.0.heads)) p.0
    >>= λ it. judge_moves now moved nodes (record_move it p)

unfoldable pub settle : (now : ℕ) → Lineage → Option (Lineage × List Reorg)
unfolding judge_moves
settle now l = recompute l.moved (record l { moved = [] }) >>= λ l'.
    judge_moves now l.moved (ints (keys l.moved)) (l', [])
