-- ===== src/Migmon/Stall.antt =====
-- The stall bookkeeping of one direction (internal/migmon/timeline.go: dirState).
pub mod Frozen
pub mod Latch
use pbt_devnet.Prelude.{
  ℕ, ◌+◌, String, Bool, true, false, not, ◌&&◌, ◌||◌, Option, none, some, List, [], ◌∷◌, ◌++◌, leb,
  ◌==◌, str_eq, if◌then◌else◌,
}
use pbt_devnet.Migmon.{
  DirectionProgress, DirPhase, idle, parked, stalled, Event, event, critical, stall,
  direction_stalled, cursor_frozen, u64, sub64, stall_polls, stall_head_delta,
}

pub record DirState : Type 0 where
  pub immediate_fired : Bool
  pub spanning : Bool
  pub cursor : ℕ
  pub frozen : ℕ
  pub span_head : ℕ
  pub slow_fired : Bool

-- `dirState{}`.
unfoldable pub fresh : DirState
fresh = record {
  immediate_fired = false;
  spanning = false;
  cursor = 0;
  frozen = 0;
  span_head = 0;
  slow_fired = false;
}

abbrev is_stalled : DirPhase → Bool
is_stalled stalled = true
is_stalled _ = false

abbrev is_suspended : DirPhase → Bool
is_suspended idle = true
is_suspended parked = true
is_suspended _ = false

-- A reported stall or error, latched until it clears.
unfoldable pub observe_error :
    (node dir : String) → Option DirectionProgress → DirState → DirState × List Event
observe_error node dir none s = (record s { immediate_fired = false }, [])
observe_error node dir (some d) s =
    if is_stalled d.phase || not (str_eq d.error "")
    then (
      record s { immediate_fired = true },
      if s.immediate_fired
          then []
          else event critical node stall 0 "" (direction_stalled dir d.phase d.error) ∷ [],
    )
    else (record s { immediate_fired = false }, [])

-- The span of polls that hold the cursor, while the direction is neither idle nor parked.
unfoldable pub observe_cursor :
    (node dir : String) → Option DirectionProgress → (head : ℕ) → DirState → DirState × List Event
observe_cursor node dir none head s = (record s { spanning = false }, [])
observe_cursor node dir (some d) head s =
    if is_suspended d.phase
    then (record s { spanning = false }, [])
    else if not s.spanning || not (d.cursor == s.cursor)
    then (
      record s {
        spanning = true;
        cursor = d.cursor;
        frozen = 1;
        span_head = head;
        slow_fired = false;
      },
      [],
    )
    else if not s.slow_fired
        && (leb stall_polls (s.frozen + 1) && leb (u64 (s.span_head + stall_head_delta)) head)
    then (
      record s { frozen = s.frozen + 1; slow_fired = true },
      event critical node stall d.cursor ""
            (cursor_frozen dir d.cursor (s.frozen + 1) (sub64 head s.span_head))
          ∷ [],
    )
    else (record s { frozen = s.frozen + 1 }, [])

unfoldable pub observe :
    (node dir : String) → Option DirectionProgress → (head : ℕ) → DirState → DirState × List Event
unfolding observe_error observe_cursor
observe node dir d head s =
    let (s1, evs) = observe_error node dir d s in
    let (s2, more) = observe_cursor node dir d head s1 in (s2, evs ++ more)
