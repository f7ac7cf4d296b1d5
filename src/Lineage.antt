-- ===== src/Lineage.antt =====
-- The block store of the monitor's page (cmd/migration-monitor/lineage.go, with the records of
-- snapshot.go). A map is a list of entries; a missing key is written out as Go reads it. The id "s0"
-- of a segment is the number 0, and "s3" the number 3. The slot of a time is a field, as there.
pub mod Walk
pub mod Extend
pub mod Segments
pub mod Settle
pub mod Views
use pbt_devnet.Prelude.{
  ℕ, zero, suc, ◌+◌, ◌-◌, ◌≡◌, refl, String, Bool, true, false, not, ◌&&◌, ◌||◌, Option, none, some,
  List, [], ◌∷◌, ◌++◌, ◌==◌, str_eq, if◌then◌else◌,
}
use pbt_devnet.Prelude.Maps.{Map, lookup, store, has_key, get_or, nat_key, string_key}
use pbt_devnet.Prelude.Int.{ℤ}
use pbt_devnet.Migmon.{Header}

pub record Block : Type 0 where
  pub hash : String
  pub parent : String
  pub root : String
  pub number : ℕ
  pub time : ℕ

pub data SegmentState : Type 0 where
  live orphaned : SegmentState

pub record Segment : Type 0 where
  pub id : ℕ
  pub lane : ℤ
  pub ancestor : String
  pub first_slot : ℕ
  pub last_slot : ℕ
  pub blocks : ℕ
  pub tip : String
  pub state : SegmentState
  pub holders : List ℕ
  pub lost_by : List ℕ

pub record Reorg : Type 0 where
  pub slot : ℕ
  pub node : ℕ
  pub depth : ℕ
  pub added : ℕ
  pub ancestor : String
  pub ancestor_number : ℕ
  pub old_head : String
  pub new_head : String
  pub lost_segment : Option ℕ
  pub won_segment : Option ℕ
  pub crosses_istar : Bool

abbrev pub Store : Type 0
Store = Map String Block

pub record Lineage : Type 0 where
  pub fork_time : ℕ
  pub slot_of : ℕ → ℕ
  pub retain_slots : ℕ
  pub anchor : ℕ
  pub by_hash : Store
  pub heads : Map ℕ String
  pub moved : Map ℕ String
  pub off : Map ℕ ℕ
  pub seg_of : Map String ℕ
  pub recs : Map ℕ Segment
  pub by_first : Map String ℕ
  pub next_id : ℕ
  pub reorgs : List Reorg
  pub truncated : ℕ

-- What a missing hash reads as.
abbrev pub no_block : Block
no_block = record { hash = ""; parent = ""; root = ""; number = 0; time = 0 }

abbrev pub block_at : Store → String → Block
block_at s h = get_or no_block (lookup h s)

unfoldable pub new_lineage : (fork_time : ℕ) → (ℕ → ℕ) → (retain_slots anchor : ℕ) → Lineage
new_lineage fork_time slot_of retain_slots anchor = record {
  fork_time = fork_time;
  slot_of = slot_of;
  retain_slots = retain_slots;
  anchor = anchor;
  by_hash = [];
  heads = [];
  moved = [];
  off = [];
  seg_of = [];
  recs = [];
  by_first = [];
  next_id = 1;
  reorgs = [];
  truncated = 0;
}

abbrev pub block_of : Header → Block
block_of h = record {
  hash = h.hash;
  parent = h.parent;
  root = h.root;
  number = h.number;
  time = h.time;
}

unfoldable pub put : Header → Store → Store
put h s = if has_key h.hash s then s else store h.hash (block_of h) s

-- The answer of `HeaderByHash`, by the headers got so far.
pub data Fetch : Type 0 where
  failed missing : Fetch
  found : Header → Fetch

pub data FetchError : Type 0 where
  no_error fetch_failed : FetchError
  unknown_parent : (parent : String) → (number : ℕ) → FetchError

pub record Extended : Type 0 where
  pub blocks : Store
  pub got : List Header
  pub error : FetchError

module _ (fetch : List Header → String → Fetch) where
  -- The loop of `extend`, with the fetches left.
  unfoldable pub fetch_parents : ℕ → Block → List Header → Store → Extended
  unfolding put
  fetch_parents zero cur got s = record { blocks = s; got = got; error = no_error }
  fetch_parents (suc n) cur got s =
      if cur.number == 0 || has_key cur.parent s
      then record { blocks = s; got = got; error = no_error }
      else elim (fetch got cur.parent) [
        | failed ↦ record { blocks = s; got = got; error = fetch_failed }
        | missing ↦ record { blocks = s; got = got; error = unknown_parent cur.parent cur.number }
        | found h ↦ fetch_parents n (block_at (put h s) h.hash) (got ++ h ∷ []) (put h s)
      ]

  unfoldable pub extend : Header → (max_depth : ℕ) → Store → Extended
  unfolding put fetch_parents
  extend head max_depth s =
      fetch_parents max_depth (block_at (put head s) head.hash) (head ∷ []) (put head s)

-- `observe` after its test for a head that is known already.
unfoldable pub move_head : ℕ → (prev head : String) → Lineage → Lineage
move_head node prev head l = record l {
  moved = if has_key node l.moved then l.moved else store node prev l.moved;
  heads = store node head l.heads;
}

unfoldable pub observe_head : ℕ → String → Lineage → Lineage
unfolding move_head
observe_head node head l = elim (lookup node l.heads) [
  | none ↦ move_head node "" head l
  | some prev ↦ if str_eq prev head then l else move_head node prev head l
]
