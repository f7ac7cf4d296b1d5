-- ===== src/Migmon/Timeline/Boundary.antt =====
-- How often the boundary findings fire (internal/migmon/timeline.go: ObservePoll).
use pbt_devnet.Prelude.{
  ℕ, ◌+◌, ◌≤◌, ◌≡◌, refl, ap, String, Bool, true, false, Option, none, some, List, [], ◌∷◌, ◌++◌,
  arith,
}
use pbt_devnet.Migmon.{
  MigrationProgress, DirectionProgress, Event, Detail, boundary_expired, done_at_head,
  done_before_istar, orphaned,
}
use pbt_devnet.Migmon.Stall.{DirState, observe_error, observe_cursor, observe}
use pbt_devnet.Migmon.Timeline.{
  Timeline, new_timeline, check_boundary, check_done, observe_directions, armed_warning, Call,
  see_istar, see_reorg, see_final, see_reset, see_poll, step, run,
}

abbrev is_expired : Detail → Bool
is_expired (boundary_expired p b n x y) = true
is_expired _ = false

abbrev is_orphaned : Detail → Bool
is_orphaned (orphaned b h) = true
is_orphaned _ = false

abbrev is_early : Detail → Bool
is_early (done_at_head h n) = true
is_early done_before_istar = true
is_early _ = false

abbrev bit : Bool → ℕ
bit true = 1
bit false = 0

-- How many events carry a detail of one kind.
abbrev tally : (Detail → Bool) → List Event → ℕ
tally p [] = 0
tally p (e ∷ es) = bit (p e.detail) + tally p es

abbrev pub expired : List Event → ℕ
expired = tally is_expired

abbrev pub orphans : List Event → ℕ
orphans = tally is_orphaned

abbrev pub early : List Event → ℕ
early = tally is_early

tally-append :
    (p : Detail → Bool) (xs ys : List Event) → tally p (xs ++ ys) ≡ tally p xs + tally p ys
tally-append p [] ys = omega arith
tally-append p (x ∷ xs) ys = omega (arith, tally-append p xs ys)

-- The bookkeeping of the directions raises none of these.
record IsQuiet (es : List Event) : Type 0 where
  no_expired : expired es ≡ 0
  no_orphan : orphans es ≡ 0
  no_early : early es ≡ 0

IsQuiet-append : (xs ys : List Event) → IsQuiet xs → IsQuiet ys → IsQuiet (xs ++ ys)
IsQuiet-append xs ys h k = record {
  no_expired = omega (arith, tally-append is_expired xs ys, h.no_expired, k.no_expired);
  no_orphan = omega (arith, tally-append is_orphaned xs ys, h.no_orphan, k.no_orphan);
  no_early = omega (arith, tally-append is_early xs ys, h.no_early, k.no_early);
}

observe_error-IsQuiet :
    (node dir : String) (d : Option DirectionProgress) (s : DirState)
    → IsQuiet (observe_error node dir d s).1
unfolding observe_error
observe_error-IsQuiet node dir none s = ground arith
observe_error-IsQuiet node dir (some d) s = ground arith

observe_cursor-IsQuiet :
    (node dir : String) (d : Option DirectionProgress) (head : ℕ) (s : DirState)
    → IsQuiet (observe_cursor node dir d head s).1
unfolding observe_cursor
observe_cursor-IsQuiet node dir none head s = ground arith
observe_cursor-IsQuiet node dir (some d) head s = ground arith

observe-IsQuiet :
    (node dir : String) (d : Option DirectionProgress) (head : ℕ) (s : DirState)
    → IsQuiet (observe node dir d head s).1
unfolding observe
observe-IsQuiet node dir d head s =
    IsQuiet-append _ _ (observe_error-IsQuiet node dir d s)
      (observe_cursor-IsQuiet node dir d head (observe_error node dir d s).0)

observe_directions-IsQuiet :
    (p : MigrationProgress) (head : ℕ) (tl : Timeline) → IsQuiet (observe_directions p head tl).1
unfolding observe_directions
observe_directions-IsQuiet p head tl =
    IsQuiet-append _ _ (observe-IsQuiet tl.node "binary" p.binary head tl.binary)
      (observe-IsQuiet tl.node "merkle" p.merkle head tl.merkle)

armed_warning-IsQuiet : (p : MigrationProgress) (tl : Timeline) → IsQuiet (armed_warning p tl)
unfolding armed_warning
armed_warning-IsQuiet p tl = ground arith

-- What one call adds: a boundary finding raises its flag, and only an orphaned record lowers it.
record Spends (tl : Timeline) (r : Timeline × List Event) : Type 0 where
  window : expired r.1 + bit tl.boundary_hit ≤ orphans r.1 + bit r.0.boundary_hit
  phase : early r.1 + bit tl.done_early ≤ bit r.0.done_early

check_boundary-Spends :
    (p : MigrationProgress) (head : ℕ) (tl : Timeline) → Spends tl (check_boundary p head tl)
unfolding check_boundary
check_boundary-Spends p head tl = ground arith

check_done-Spends :
    (p : MigrationProgress) (head : ℕ) (tl : Timeline) → Spends tl (check_done p head tl)
unfolding check_done
check_done-Spends p head tl = ground arith

Spends-then :
    (tl : Timeline) (r : Timeline × List Event) (s : Timeline) (es : List Event)
    → Spends tl r
    → Spends r.0 (s, es)
    → Spends tl (s, r.1 ++ es)
Spends-then tl r s es h k = record {
  window =
      omega (
        arith,
        h.window,
        k.window,
        tally-append is_expired r.1 es,
        tally-append is_orphaned r.1 es,
      );
  phase = omega (arith, h.phase, k.phase, tally-append is_early r.1 es);
}

IsQuiet-Spends :
    (tl s : Timeline) (es : List Event)
    → IsQuiet es
    → s.boundary_hit ≡ tl.boundary_hit
    → s.done_early ≡ tl.done_early
    → Spends tl (s, es)
IsQuiet-Spends tl s es q h d = record {
  window = let e = ap bit h in omega (arith, q.no_expired);
  phase = let e = ap bit d in omega (arith, q.no_early);
}

directions-hit :
    (p : MigrationProgress) (head : ℕ) (tl : Timeline)
    → (observe_directions p head tl).0.boundary_hit ≡ tl.boundary_hit
unfolding observe_directions
directions-hit p head tl = refl

directions-early :
    (p : MigrationProgress) (head : ℕ) (tl : Timeline)
    → (observe_directions p head tl).0.done_early ≡ tl.done_early
unfolding observe_directions
directions-early p head tl = refl

bit-le : (b : Bool) → bit b ≤ 1
bit-le true = omega arith
bit-le false = omega arith

step-Spends : (c : Call) (tl : Timeline) → Spends tl (step c tl)
unfolding step
step-Spends (see_istar b) tl = ground arith
step-Spends (see_reorg h) tl = ground arith
step-Spends see_final tl = ground arith
step-Spends see_reset tl = ground arith
step-Spends (see_poll p head) tl =
    let dirs = observe_directions p head tl in
    let late = check_boundary p head dirs.0 in
    let done = check_done p head late.0 in
    Spends-then tl (tl, armed_warning p tl) done.0 (dirs.1 ++ (late.1 ++ done.1))
      (IsQuiet-Spends tl tl _ (armed_warning-IsQuiet p tl) refl refl)
      (Spends-then tl dirs done.0 (late.1 ++ done.1)
        (IsQuiet-Spends tl dirs.0 dirs.1 (observe_directions-IsQuiet p head tl)
          (directions-hit p head tl) (directions-early p head tl))
        (Spends-then dirs.0 late done.0 done.1 (check_boundary-Spends p head dirs.0)
          (check_done-Spends p head late.0)))

run-Spends : (cs : List Call) (tl : Timeline) → Spends tl (run cs tl)
unfolding run
run-Spends [] tl = ground arith
run-Spends (c ∷ cs) tl =
    Spends-then tl (step c tl) (run cs (step c tl).0).0 (run cs (step c tl).0).1 (step-Spends c tl)
      (run-Spends cs (step c tl).0)

-- Over any calls on a new timeline, the boundary window expires at most once for each recorded
-- fork block (the first, and one more for each that a reorg orphaned), and an early "done" is
-- reported at most once.
pub run-findings :
    (node : String) (t : ℕ) (cs : List Call)
    → let evs = (run cs (new_timeline node t)).1 in
      (expired evs ≤ orphans evs + 1) × (early evs ≤ 1)
unfolding new_timeline
run-findings node t cs =
    let r = run cs (new_timeline node t) in
    let s = run-Spends cs (new_timeline node t) in
    (
      omega (arith, s.window, bit-le r.0.boundary_hit),
      omega (arith, s.phase, bit-le r.0.done_early),
    )
