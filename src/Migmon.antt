-- ===== src/Migmon.antt =====
-- The events and progress reports of the migration monitor (internal/migmon/events.go,
-- findings.go, progress.go). A line that fmt formats is kept as a constructor with the values
-- that it names. Unsigned 64-bit sums and differences wrap.
pub mod Stall
pub mod Timeline
pub mod Quorum
pub mod Nulls
pub mod Memory
use pbt_devnet.Prelude.{
  ℕ, ◌+◌, ◌-◌, ◌%◌, String, Bool, true, false, Option, none, some, List, if◌then◌else◌, str_eq,
}

pub data Kind : Type 0 where
  progress sample reorg istar_seen head_seen critical warn istar_reorged istar_final lifecycle :
      Kind
  schedule isolate heal pause skip inject : Kind

pub data Finding : Type 0 where
  no_finding root_mismatch stall boundary no_convergence peer_starved null_warn null_critical :
      Finding

-- The phase of a direction: idle, following, synced, parked, stalled, or any other text.
pub data DirPhase : Type 0 where
  idle following synced parked stalled : DirPhase
  other_phase : String → DirPhase

-- The phase of the chain.
pub data ChainPhase : Type 0 where
  no_phase inactive running done : ChainPhase
  other_chain : String → ChainPhase

-- The identity and the time of a block (internal/migmon/client.go).
pub record Header : Type 0 where
  pub number : ℕ
  pub hash : String
  pub parent : String
  pub root : String
  pub time : ℕ

pub record IStar : Type 0 where
  pub number : ℕ
  pub hash : String
  pub time : ℕ
  pub parent_time : ℕ

-- The `Detail` of an event.
pub data Detail : Type 0 where
  no_detail not_armed fork_block_final done_before_istar : Detail
  orphaned : IStar → String → Detail
  boundary_expired : (polls blocks number : ℕ) → (binary merkle : Option DirPhase) → Detail
  done_at_head : (head number : ℕ) → Detail
  direction_stalled : (dir : String) → DirPhase → (error : String) → Detail
  cursor_frozen : (dir : String) → (cursor frozen advanced : ℕ) → Detail
  finalized_differ : (node : String) → IStar → (other : String) → IStar → Detail
  no_straddle : IStar → ℕ → Detail
  still_disagree : (seconds : ℕ) → (node : String) → IStar → (other : String) → IStar → Detail
  null_for : (streak : ℕ) → Detail
  header_differs : (root : String) → (height : ℕ) → (ref : String) → Detail
  other_fork_block : (height : ℕ) → Detail
  hash_moved : (before after : String) → (depth : ℕ) → Detail

pub record Event : Type 0 where
  pub kind : Kind
  pub node : String
  pub number : ℕ
  pub hash : String
  pub phase : ChainPhase
  pub finding : Finding
  pub detail : Detail

-- An event with the fields that every message leaves empty.
abbrev pub event :
    Kind → (node : String) → Finding → (number : ℕ) → (hash : String) → Detail → Event
event k node f number hash d = record {
  kind = k;
  node = node;
  number = number;
  hash = hash;
  phase = no_phase;
  finding = f;
  detail = d;
}

pub record DirectionProgress : Type 0 where
  pub phase : DirPhase
  pub cursor : ℕ
  pub cursor_hash : String
  pub shadow_root : String
  pub error : String

pub record MigrationProgress : Type 0 where
  pub phase : ChainPhase
  pub binary : Option DirectionProgress
  pub merkle : Option DirectionProgress

-- `DecodeProgress`: a payload without a phase is refused. The JSON decoder is a parameter.
unfoldable pub decode_progress :
    {Raw : Type 0} → (Raw → Option MigrationProgress) → Raw → Option MigrationProgress
decode_progress unmarshal raw = elim (unmarshal raw) [
  | none ↦ none
  | some p ↦ elim p.phase [ no_phase ↦ none | _ ↦ some p ]
]

-- `Active`: a direction that is live and healthy.
unfoldable pub active : Option DirectionProgress → Bool
active none = false
active (some d) = elim d.phase [ following ↦ true | synced ↦ true | _ ↦ false ]

-- `dirPhase`: a missing direction is printed "nil".
unfoldable pub dir_phase : Option DirectionProgress → Option DirPhase
dir_phase none = none
dir_phase (some d) = some d.phase

abbrev pub u64 : ℕ → ℕ
u64 n = n % 18446744073709551616

abbrev pub sub64 : ℕ → ℕ → ℕ
sub64 a b = u64 (a + 18446744073709551616 - b)

abbrev pub stall_polls : ℕ
stall_polls = 20

abbrev pub stall_head_delta : ℕ
stall_head_delta = 10

abbrev pub boundary_polls : ℕ
boundary_polls = 2

abbrev pub boundary_blocks : ℕ
boundary_blocks = 3

abbrev pub istar_provisional_grace : ℕ
istar_provisional_grace = 360

abbrev pub null_warn_after : ℕ
null_warn_after = 300

abbrev pub null_critical_after : ℕ
null_critical_after = 600
