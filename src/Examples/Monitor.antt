-- ===== src/Examples/Monitor.antt =====
-- The theorems of the monitor's state machines, at small runs.
use mathlib.Core.List.{Permᴰ}
use pbt_devnet.Prelude.{
  ℕ, ◌+◌, ◌≤◌, ◌≡◌, refl, false, Option, none, some, List, [], ◌∷◌, length, String,
}
use pbt_devnet.Migmon.{
  DirectionProgress, MigrationProgress, DirPhase, following, stalled, parked, ChainPhase, running,
  done, IStar, critical, warn, null_critical, null_warn, u64,
}
use pbt_devnet.Migmon.Stall.{fresh}
use pbt_devnet.Migmon.Stall.Frozen.{Poll}
use pbt_devnet.Migmon.Stall.Latch.{episodes, stalls, freezes, spells, observe_all, stalls-episodes}
use pbt_devnet.Migmon.Timeline.{
  Call, see_istar, see_reorg, see_final, see_poll, Timeline, new_timeline, run,
}
use pbt_devnet.Migmon.Timeline.Boundary.{expired, orphans, early, run-findings}
use pbt_devnet.Migmon.Timeline.Record.{IsSettled}
use pbt_devnet.Migmon.Quorum.{IStarQuorum, check_provisional}
use pbt_devnet.Migmon.Quorum.Order.{check_provisional-order}
use pbt_devnet.Migmon.Memory.Cap.{IsKept, after-IsKept}

abbrev block : IStar
block = record { number = 40; hash = "0xaa"; time = 1000; parent_time = 994 }

abbrev other : IStar
other = record { number = 40; hash = "0xbb"; time = 1000; parent_time = 994 }

abbrev at_cursor : DirPhase → ℕ → Option DirectionProgress
at_cursor phase c =
    some (record { phase = phase; cursor = c; cursor_hash = ""; shadow_root = ""; error = "" })

abbrev report : ChainPhase → DirPhase → ℕ → MigrationProgress
report chain phase c = record { phase = chain; binary = at_cursor phase c; merkle = none }

abbrev calls : List Call
calls =
    see_istar block
    ∷ see_poll (report running following 7) 44
    ∷ see_reorg "0xbb"
    ∷ see_istar other
    ∷ see_poll (report running parked 9) 45
    ∷ see_final
    ∷ see_poll (report done parked 9) 46
    ∷ []

run-findings_example :
    let evs = (run calls (new_timeline "node-2" 996)).1 in
    (expired evs ≤ orphans evs + 1) × (early evs ≤ 1)
run-findings_example = run-findings "node-2" 996 calls

abbrev settled : Timeline
settled = (run (see_istar block ∷ see_final ∷ []) (new_timeline "node-2" 996)).0

settled-IsSettled : IsSettled block settled
unfolding run new_timeline
settled-IsSettled = record { settled = refl; recorded = refl }

abbrev recorded : Timeline
recorded = (run (see_istar block ∷ []) (new_timeline "node-2" 996)).0

abbrev ups_and_downs : List Poll
ups_and_downs =
    (at_cursor following 7, 44)
    ∷ (at_cursor stalled 7, 45)
    ∷ (at_cursor stalled 7, 46)
    ∷ (none, 47)
    ∷ (at_cursor stalled 8, 48)
    ∷ []

stalls-episodes_example :
    let evs = observe_all "node-2" "binary" ups_and_downs fresh in
    (stalls evs ≡ episodes false ups_and_downs) × (freezes evs ≤ spells none ups_and_downs)
stalls-episodes_example = stalls-episodes "node-2" "binary" ups_and_downs

abbrev records : List (String × IStar)
records = ("node-1", block) ∷ ("node-2", other) ∷ []

abbrev split : IStarQuorum
split = record {
  t = 996;
  provisional = records;
  final = [];
  shaped = [];
  disagree_since = some 1000;
  disagree_fired = false;
}

check_provisional-order_example :
    let r = check_provisional 1361 split in
    let s =
      check_provisional 1361
        (record split { provisional = ("node-2", other) ∷ ("node-1", block) ∷ [] }) in
    (r.0.disagree_since ≡ s.0.disagree_since)
    × (r.0.disagree_fired ≡ s.0.disagree_fired)
    × (length r.1 ≡ length s.1)
check_provisional-order_example =
    check_provisional-order 1361 split (("node-2", other) ∷ ("node-1", block) ∷ [])
      (Permᴰ.swap refl refl)

abbrev samples : List (ℕ × String × ℕ)
samples = (41, "0xcc", 42) ∷ (40, "0xaa", 41) ∷ []

after-IsKept_example : IsKept (pbt_devnet.Migmon.Memory.Cap.after "node-2" samples)
after-IsKept_example = after-IsKept "node-2" samples
