-- ===== src/Migmon/Timeline/Record.antt =====
-- The recorded fork block over every sequence of calls (internal/migmon/timeline.go: ObserveIStar,
-- IStarReorged, IStarFinalized, ObservePoll).
use pbt_devnet.Prelude.{ℕ, ◌<◌, ◌≡◌, ◌∙◌, String, true, false, none, some, List, [], ◌∷◌, arith}
use pbt_devnet.Migmon.{IStar, MigrationProgress}
use pbt_devnet.Migmon.Timeline.{
  Timeline, new_timeline, check_boundary, check_done, observe_directions, observe_poll, Call,
  see_istar, see_reorg, see_final, see_reset, see_poll, step, run,
}

-- What ties the flags to the record.
pub record IsCoherent (tl : Timeline) : Type 0 where
  pub unset :
      tl.istar ≡ none
      → (tl.istar_polls ≡ 0)
        × (tl.boundary_ok ≡ false)
        × (tl.boundary_hit ≡ false)
        × (tl.is_final ≡ false)
  pub exclusive : tl.boundary_ok ≡ true → tl.boundary_hit ≡ false
  pub waited : tl.boundary_hit ≡ true → 2 < tl.istar_polls

new_timeline-IsCoherent : (node : String) (t : ℕ) → IsCoherent (new_timeline node t)
unfolding new_timeline
new_timeline-IsCoherent node t = ground arith

observe_directions-IsCoherent :
    (p : MigrationProgress) (head : ℕ) (tl : Timeline)
    → IsCoherent tl
    → IsCoherent (observe_directions p head tl).0
unfolding observe_directions
observe_directions-IsCoherent p head tl h = record {
  unset = h.unset;
  exclusive = h.exclusive;
  waited = h.waited;
}

check_boundary-IsCoherent :
    (p : MigrationProgress) (head : ℕ) (tl : Timeline)
    → IsCoherent tl
    → IsCoherent (check_boundary p head tl).0
unfolding check_boundary
check_boundary-IsCoherent p head tl h = ground arith

check_done-IsCoherent :
    (p : MigrationProgress) (head : ℕ) (tl : Timeline)
    → IsCoherent tl
    → IsCoherent (check_done p head tl).0
unfolding check_done
check_done-IsCoherent p head tl h = ground arith

step-IsCoherent : (c : Call) (tl : Timeline) → IsCoherent tl → IsCoherent (step c tl).0
unfolding step
step-IsCoherent (see_istar b) tl h = ground arith
step-IsCoherent (see_reorg x) tl h = ground arith
step-IsCoherent see_final tl h = ground arith
step-IsCoherent see_reset tl h = ground arith
step-IsCoherent (see_poll p head) tl h =
    check_done-IsCoherent p head _
      (check_boundary-IsCoherent p head _ (observe_directions-IsCoherent p head tl h))

run_from-IsCoherent : (cs : List Call) (tl : Timeline) → IsCoherent tl → IsCoherent (run cs tl).0
unfolding run
run_from-IsCoherent [] tl h = h
run_from-IsCoherent (c ∷ cs) tl h = run_from-IsCoherent cs (step c tl).0 (step-IsCoherent c tl h)

-- After any calls on a new timeline, the flags fit the record: no record means no boundary state,
-- the boundary is never both met and missed, and a missed one took more than two polls.
pub run-IsCoherent :
    (node : String) (t : ℕ) (cs : List Call) → IsCoherent (run cs (new_timeline node t)).0
run-IsCoherent node t cs = run_from-IsCoherent cs _ (new_timeline-IsCoherent node t)

-- The fork block is settled on a record.
pub record IsSettled (b : IStar) (tl : Timeline) : Type 0 where
  pub settled : tl.is_final ≡ true
  pub recorded : tl.istar ≡ some b

check_boundary-record :
    (p : MigrationProgress) (head : ℕ) (tl : Timeline)
    → ((check_boundary p head tl).0.istar ≡ tl.istar)
      × ((check_boundary p head tl).0.is_final ≡ tl.is_final)
unfolding check_boundary
check_boundary-record p head tl = ground arith

check_done-record :
    (p : MigrationProgress) (head : ℕ) (tl : Timeline)
    → ((check_done p head tl).0.istar ≡ tl.istar)
      × ((check_done p head tl).0.is_final ≡ tl.is_final)
unfolding check_done
check_done-record p head tl = ground arith

-- A poll never moves the record.
observe_poll-record :
    (p : MigrationProgress) (head : ℕ) (tl : Timeline)
    → ((observe_poll p head tl).0.istar ≡ tl.istar)
      × ((observe_poll p head tl).0.is_final ≡ tl.is_final)
unfolding observe_poll
observe_poll-record p head tl =
    let t1 = (observe_directions p head tl).0 in
    let a = check_boundary-record p head t1 in
    let b = check_done-record p head (check_boundary p head t1).0 in (b.0 ∙ a.0, b.1 ∙ a.1)

step-IsSettled : (c : Call) (b : IStar) (tl : Timeline) → IsSettled b tl → IsSettled b (step c tl).0
unfolding step
step-IsSettled (see_istar x) b tl h = ground arith
step-IsSettled (see_reorg x) b tl h = ground arith
step-IsSettled see_final b tl h = ground arith
step-IsSettled see_reset b tl h = ground arith
step-IsSettled (see_poll p head) b tl h =
    let (i, f) = observe_poll-record p head tl in
    record { settled = f ∙ h.settled; recorded = i ∙ h.recorded }

-- A finalized record stays as it is, whatever is called afterwards.
pub run-IsSettled :
    (cs : List Call) (b : IStar) (tl : Timeline) → IsSettled b tl → IsSettled b (run cs tl).0
unfolding run
run-IsSettled [] b tl h = h
run-IsSettled (c ∷ cs) b tl h = run-IsSettled cs b (step c tl).0 (step-IsSettled c b tl h)
