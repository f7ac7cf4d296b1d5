-- ===== src/Migmon/Timeline.antt =====
-- One node's migration phases (internal/migmon/timeline.go: Timeline).
pub mod Record
pub mod Boundary
pub mod Missed
use pbt_devnet.Prelude.{
  ℕ, ◌+◌, String, Bool, true, false, not, ◌&&◌, ◌||◌, Option, none, some, List, [], ◌∷◌, ◌++◌, ltb,
  leb, ◌==◌, if◌then◌else◌,
}
use pbt_devnet.Migmon.{
  ChainPhase, no_phase, inactive, done, DirectionProgress, DirPhase, parked, MigrationProgress,
  IStar, Event, event, critical, warn, istar_seen, istar_reorged, istar_final, no_finding, boundary,
  no_detail, not_armed, fork_block_final, done_before_istar, orphaned, boundary_expired,
  done_at_head, dir_phase, u64, sub64, boundary_polls, boundary_blocks,
}
use pbt_devnet.Migmon.Stall.{DirState, fresh, observe}

pub record Timeline : Type 0 where
  pub node : String
  pub t : ℕ
  pub polls : ℕ
  pub istar : Option IStar
  pub is_final : Bool
  pub istar_polls : ℕ
  pub boundary_ok : Bool
  pub boundary_hit : Bool
  pub done_early : Bool
  pub binary : DirState
  pub merkle : DirState

unfoldable pub new_timeline : String → ℕ → Timeline
unfolding fresh
new_timeline node t = record {
  node = node;
  t = t;
  polls = 0;
  istar = none;
  is_final = false;
  istar_polls = 0;
  boundary_ok = false;
  boundary_hit = false;
  done_early = false;
  binary = fresh;
  merkle = fresh;
}

unfoldable pub reset_stall : Timeline → Timeline
reset_stall tl = record tl { binary = fresh; merkle = fresh }

unfoldable pub observe_istar : IStar → Timeline → Timeline × List Event
observe_istar b tl = elim tl.istar [
  | some _ ↦ (tl, [])
  | none ↦ (
    record tl { istar = some b; istar_polls = 0 },
    event istar_seen tl.node no_finding b.number b.hash no_detail ∷ [],
  )
]

unfoldable pub reorged : (now_canonical : String) → Timeline → Timeline × List Event
reorged now_canonical tl = elim tl.istar [
  | none ↦ (tl, [])
  | some old ↦ if tl.is_final then (tl, []) else (
    record tl { istar = none; istar_polls = 0; boundary_ok = false; boundary_hit = false },
    event istar_reorged tl.node no_finding old.number now_canonical (orphaned old now_canonical)
        ∷ [],
  )
]

unfoldable pub finalized : Timeline → Timeline × List Event
finalized tl = elim tl.istar [
  | none ↦ (tl, [])
  | some b ↦ if tl.is_final then (tl, []) else (
    record tl { is_final = true },
    event istar_final tl.node no_finding b.number b.hash fork_block_final ∷ [],
  )
]

abbrev is_parked : Option DirectionProgress → Bool
is_parked none = false
is_parked (some d) = elim d.phase [ parked ↦ true | _ ↦ false ]

-- After I*, the binary direction must park within the boundary window.
unfoldable pub check_boundary : MigrationProgress → (head : ℕ) → Timeline → Timeline × List Event
check_boundary p head tl = elim tl.istar [
  | none ↦ (tl, [])
  | some b ↦
      let polls = tl.istar_polls + 1 in
      if tl.boundary_ok || tl.boundary_hit
      then (tl, [])
      else if is_parked p.binary
      then (record tl { istar_polls = polls; boundary_ok = true }, [])
      else if ltb boundary_polls polls && ltb (u64 (b.number + boundary_blocks)) head
      then (
        record tl { istar_polls = polls; boundary_hit = true },
        event critical tl.node boundary b.number "" (
              boundary_expired polls (sub64 head b.number) b.number (dir_phase p.binary)
                (dir_phase p.merkle))
            ∷ [],
      )
      else (record tl { istar_polls = polls }, [])
]

abbrev is_done : ChainPhase → Bool
is_done done = true
is_done _ = false

abbrev is_inactive : ChainPhase → Bool
is_inactive inactive = true
is_inactive _ = false

-- "done" is legal only at a head strictly past I*.
unfoldable pub too_early : Option IStar → (head : ℕ) → Bool
too_early none head = true
too_early (some b) head = leb head b.number

unfoldable pub early_detail : Option IStar → (head : ℕ) → Event → Event
early_detail none head e = e
early_detail (some b) head e = record e { detail = done_at_head head b.number }

unfoldable pub check_done : MigrationProgress → (head : ℕ) → Timeline → Timeline × List Event
unfolding too_early early_detail
check_done p head tl =
    if is_done p.phase && (not tl.done_early && too_early tl.istar head)
    then (
      record tl { done_early = true },
      early_detail tl.istar head (event critical tl.node boundary 0 "" done_before_istar) ∷ [],
    )
    else (tl, [])

-- The directions' bookkeeping, binary first.
unfoldable pub observe_directions :
    MigrationProgress → (head : ℕ) → Timeline → Timeline × List Event
unfolding observe
observe_directions p head tl =
    let (binary, evs) = observe tl.node "binary" p.binary head tl.binary in
    let (merkle, more) = observe tl.node "merkle" p.merkle head tl.merkle in
    (record tl { polls = tl.polls + 1; binary = binary; merkle = merkle }, evs ++ more)

unfoldable pub armed_warning : MigrationProgress → Timeline → List Event
armed_warning p tl =
    if tl.polls == 0 && is_inactive p.phase
    then record (event warn tl.node no_finding 0 "" not_armed) { phase = p.phase } ∷ []
    else []

unfoldable pub observe_poll : MigrationProgress → (head : ℕ) → Timeline → Timeline × List Event
unfolding check_boundary check_done observe_directions armed_warning
observe_poll p head tl =
    let (t1, dirs) = observe_directions p head tl in
    let (t2, late) = check_boundary p head t1 in
    let (t3, early) = check_done p head t2 in (t3, armed_warning p tl ++ (dirs ++ (late ++ early)))

-- The calls that a caller makes, in the order that it chooses.
pub data Call : Type 0 where
  see_istar : IStar → Call
  see_reorg : String → Call
  see_final see_reset : Call
  see_poll : MigrationProgress → (head : ℕ) → Call

unfoldable pub step : Call → Timeline → Timeline × List Event
unfolding observe_istar reorged finalized reset_stall observe_poll
step (see_istar b) tl = observe_istar b tl
step (see_reorg h) tl = reorged h tl
step see_final tl = finalized tl
step see_reset tl = (reset_stall tl, [])
step (see_poll p head) tl = observe_poll p head tl

unfoldable pub run : List Call → Timeline → Timeline × List Event
unfolding step
run [] tl = (tl, [])
run (c ∷ cs) tl =
    let (next, evs) = step c tl in let (last, more) = run cs next in (last, evs ++ more)
