-- ===== src/Migmon/Timeline/Missed.antt =====
-- A binary direction that does not park in time (internal/migmon/timeline.go: ObservePoll).
use pbt_devnet.Prelude.{
  ℕ, suc, ◌+◌, ◌≤◌, ◌<◌, ◌≡◌, ◌⊎◌, inl, inr, true, false, some, List, [], ◌∷◌, arith, length,
}
use native.Mathlib.Nat.{add-zero, add-suc, suc-add}
use pbt_devnet.Migmon.{IStar, MigrationProgress, u64}
use pbt_devnet.Migmon.Timeline.{
  Timeline, check_boundary, check_done, observe_directions, is_parked, Call, see_poll, step, run,
}

-- Polls that read no parked binary direction, each with its head.
abbrev pub polls : List (MigrationProgress × ℕ) → List Call
polls [] = []
polls ((p, head) ∷ ps) = see_poll p head ∷ polls ps

abbrev pub Unparked : (limit : ℕ) → List (MigrationProgress × ℕ) → Type 0
Unparked limit [] = Unit
Unparked limit ((p, head) ∷ ps) = (is_parked p.binary ≡ false) × (limit < head) × Unparked limit ps

-- The record is held, and the boundary is undecided after some polls, or missed.
record IsWaiting (b : IStar) (count : ℕ) (tl : Timeline) : Type 0 where
  recorded : tl.istar ≡ some b
  unmet : tl.boundary_ok ≡ false
  counted : (tl.boundary_hit ≡ true) ⊎ ((tl.istar_polls ≡ count) × (count ≤ 2))

check_boundary-IsWaiting :
    (p : MigrationProgress) (head count : ℕ) (b : IStar) (tl : Timeline)
    → is_parked p.binary ≡ false
    → u64 (b.number + 3) < head
    → IsWaiting b count tl
    → IsWaiting b (suc count) (check_boundary p head tl).0
unfolding check_boundary
check_boundary-IsWaiting p head count b tl e h w = ground arith

check_done-IsWaiting :
    (p : MigrationProgress) (head count : ℕ) (b : IStar) (tl : Timeline)
    → IsWaiting b count tl
    → IsWaiting b count (check_done p head tl).0
unfolding check_done
check_done-IsWaiting p head count b tl w = ground arith

directions-IsWaiting :
    (p : MigrationProgress) (head count : ℕ) (b : IStar) (tl : Timeline)
    → IsWaiting b count tl
    → IsWaiting b count (observe_directions p head tl).0
unfolding observe_directions
directions-IsWaiting p head count b tl w = record {
  recorded = w.recorded;
  unmet = w.unmet;
  counted = w.counted;
}

polls-IsWaiting :
    (ps : List (MigrationProgress × ℕ)) (count : ℕ) (b : IStar) (tl : Timeline)
    → Unparked (u64 (b.number + 3)) ps
    → IsWaiting b count tl
    → IsWaiting b (count + length ps) (run (polls ps) tl).0
unfolding run step
polls-IsWaiting [] count b tl u w = rw add-zero w
polls-IsWaiting ((p, head) ∷ ps) count b tl (e, h, u) w =
    rw (add-suc, ← suc-add)
      (polls-IsWaiting ps (suc count) b (step (see_poll p head) tl).0 u (
        check_done-IsWaiting p head (suc count) b _ (
          check_boundary-IsWaiting p head count b _ e h
            (directions-IsWaiting p head count b tl w))))

-- After a fork block is recorded, three or more polls past the window of blocks with a binary
-- direction that has not parked miss the boundary, whatever else they read.
pub boundary_missed :
    (b : IStar) (ps : List (MigrationProgress × ℕ)) (tl : Timeline)
    → tl.istar ≡ some b
    → tl.istar_polls ≡ 0
    → tl.boundary_ok ≡ false
    → Unparked (u64 (b.number + 3)) ps
    → 3 ≤ length ps
    → (run (polls ps) tl).0.boundary_hit ≡ true
boundary_missed b ps tl i z o u long =
    let w =
      polls-IsWaiting ps 0 b tl u
        (record { recorded = i; unmet = o; counted = inr (z, omega arith) }) in
    elim w.counted [ inl hit ↦ hit | inr few ↦ absurd (omega arith) ]
