-- ===== src/Examples/Watch.antt =====
-- The theorems of the verifier's checks of the chaos stream and of the monitor's stream, and of a
-- swap that its gate let through.
use pbt_devnet.Prelude.{
  ℕ, ◌≡◌, ◌≢◌, refl, ◌↔◌, inl, Result, ok, String, Bool, true, false, Option, none, some, List, [],
  ◌∷◌, ◌++◌, length, All, All-map, str_eq, if◌then◌else◌, arith, sort, insert,
}
use pbt_devnet.Schedule.{deep}
use pbt_devnet.Prelude.Maps.{lookup, store, erase}
use pbt_devnet.Lineage.Views.{str_lt}
use pbt_devnet.Dump.{DumpOp, Dump, admitted, runs, latest, gaps, heal_deadline}
use pbt_devnet.Swap.{SwapState, proceed, decide_swap, chaos_free, gap_horizon}
use pbt_devnet.Migmon.{
  ChainPhase, running, done, DirectionProgress, MigrationProgress, synced, active,
}
use pbt_devnet.Verify.{LapManifest, passed, loaded, conclude, OfflineLap}
use pbt_devnet.Verify.Serialized.{SwapWindow, op_problems}
use pbt_devnet.Verify.Serialized.Gated.{IsTimed, IsSettled, gated-op_problems}
use pbt_devnet.Verify.Offline.{check_offline_coverage}
use pbt_devnet.Verify.Offline.Unrun.{manifest_of, new_evidence-not_covered}
use pbt_devnet.Verify.Partitions.{
  schedule_dump, ChaosSeen, isolated, healed, scheduled, other_record, ChaosWindow, chaos_windows,
  attribute_windows, op_owns, judge_partitions, PartitionNote,
}
use pbt_devnet.Verify.Partitions.Spans.{spans, of_node}
use pbt_devnet.Verify.Partitions.Paired.{chaos_windows-spans}
use pbt_devnet.Verify.Partitions.Owned.{Attributed, Owns, not-Owns}
use pbt_devnet.Verify.Partitions.Healed.{IsHealed, IsLater, IsFull, note_of, judge_partitions_iff}
use pbt_devnet.Verify.Partitions.Unseen.{judge_partitions-unseen}
use pbt_devnet.Verify.Manifest.{ChaosRecord, check_lap_manifest}
use pbt_devnet.Verify.Manifest.Passing.{IsReconciled, lap_note, check_lap_manifest_iff}
use pbt_devnet.Verify.Run.{CheckResult, passes, is_open, run_code}
use pbt_devnet.Verify.Completion.{
  Watched, final_seen, progress_seen, other_watched, ClientSpec, introspecting_nodes,
  check_completion,
}
use pbt_devnet.Verify.Completion.Judged.{IsCompleted, check_completion_iff}
use pbt_devnet.Schedule
use pbt_devnet.Examples.Layout.{parts as floats}
use pbt_devnet.Examples.Lap.{manifest}
use pbt_devnet.Examples.Swap.{ready, producers, consumers, seeded, seeded-ok}

abbrev cut : ℕ → ℕ → ℕ → List ℕ → DumpOp
cut start end hold victims = record {
  name = ("cut", start);
  class = deep;
  start = start;
  end = end;
  hold_until = hold;
  victims = victims;
  mutual_islands = false;
  refused = none;
}

-- An op that ended ten seconds before the swap's gate was read, and one far ahead.
abbrev morning : Dump
morning = record {
  profile = "morning";
  genesis = 0;
  fork = 1800;
  anchor = 1;
  slot_seconds = 6;
  ops = cut 900 990 0 (2 ∷ []) ∷ cut 1400 1450 0 (3 ∷ []) ∷ [];
  failsafes = 1500 ∷ [];
  quiet = 1600;
}

abbrev calm_swap : SwapState
calm_swap = record ready { gap = 400 }

abbrev stop : SwapWindow
stop = record { node = 3; start = 1005; end = 1060 }

morning-gap : 400 ≡ chaos_free morning 1000 gap_horizon
unfolding chaos_free gaps sort insert latest admitted runs
morning-gap = refl

calm_swap-proceeds : (decide_swap str_eq calm_swap).0 ≡ proceed
unfolding decide_swap
calm_swap-proceeds = refl

morning-IsTimed : All IsTimed (admitted morning)
unfolding admitted runs latest
morning-IsTimed = ((omega arith, omega arith), ((omega arith, omega arith), tt))

gated-op_problems_example :
    (op_problems stop (admitted morning) ≡ []) ↔ All (IsSettled calm_swap stop) (admitted morning)
gated-op_problems_example =
    gated-op_problems str_eq morning calm_swap stop morning-gap calm_swap-proceeds (omega arith)
      (omega arith) (omega arith) morning-IsTimed

-- The swap went through its gate, and the check finds the op that ended shortly before.
stop-blamed : length (op_problems stop (admitted morning)) ≡ 1
unfolding op_problems admitted runs
stop-blamed = refl

-- Node b is cut off twice; a heal of every node ends the first of these and the cut of node a.
abbrev chaos : List (ChaosSeen String)
chaos =
    isolated "a" 910
    ∷ isolated "b" 915
    ∷ isolated "b" 920
    ∷ healed "" 950
    ∷ isolated "b" 960
    ∷ other_record
    ∷ healed "a" 970
    ∷ healed "b" 980
    ∷ []

chaos_windows-spans_example : of_node "b" (chaos_windows chaos) ≡ spans "b" none chaos
chaos_windows-spans_example = chaos_windows-spans "b" chaos

b-cut_twice :
    of_node "b" (chaos_windows chaos)
    ≡ record { node = "b"; from = 915; to = some 950 }
      ∷ record { node = "b"; from = 960; to = some 980 }
      ∷ []
unfolding chaos_windows lookup store erase
b-cut_twice = refl

abbrev index_of : String → Option ℕ
index_of n = if str_eq n "a" then some 2 else if str_eq n "b" then some 3 else none

abbrev has_reorg : ChaosWindow → Bool
has_reorg w = true

abbrev evening : Dump
evening = record morning { ops = cut 900 990 0 (2 ∷ 3 ∷ []) ∷ cut 1400 1450 0 (3 ∷ []) ∷ [] }

-- A partition after the schedule was quiet, and four before.
abbrev parts : List ChaosWindow
parts =
    record { node = "b"; from = 1700; to = none }
    ∷ record { node = "b"; from = 1405; to = some 1440 }
    ∷ chaos_windows chaos

abbrev full : PartitionNote
full = record { healed = 4; corroborated = 4; after_quiet = 1 }

judge_partitions_iff_example :
    (judge_partitions index_of has_reorg evening parts ≡ passed (some full)) ↔ (
      (ms : List (DumpOp × ChaosWindow)) × (us : List ChaosWindow) × Attributed index_of
        (admitted evening)
        parts
        ms
        us
      × All (IsHealed evening) ms
      × All (IsLater evening) us
      × IsFull has_reorg evening (note_of has_reorg evening ms (length us))
      × (some (note_of has_reorg evening ms (length us)) ≡ some full))
judge_partitions_iff_example = judge_partitions_iff index_of has_reorg evening parts (some full)

evening-healed : judge_partitions index_of has_reorg evening parts ≡ passed (some full)
unfolding judge_partitions attribute_windows chaos_windows admitted runs conclude heal_deadline
    latest lookup store erase
evening-healed = refl

-- An op on a node that was never cut off.
abbrev unrun : DumpOp
unrun = cut 1100 1200 0 (5 ∷ [])

unrun-free : All (λ w. op_owns index_of unrun w ≡ false) parts
unfolding op_owns chaos_windows lookup store erase
unrun-free = (refl, (refl, (refl, (refl, (refl, tt)))))

unrun-unowned : All (λ w. ¬ Owns index_of w unrun) parts
unrun-unowned = All-map _ _ (not-Owns index_of unrun) parts unrun-free

-- It stands between the two ops of the evening.
abbrev early : List DumpOp
early = cut 900 990 0 (2 ∷ 3 ∷ []) ∷ []

abbrev late : List DumpOp
late = cut 1400 1450 0 (3 ∷ []) ∷ []

judge_partitions-unseen_example :
    judge_partitions index_of has_reorg (record evening { ops = early ++ unrun ∷ late }) parts
    ≡ judge_partitions index_of has_reorg (record evening { ops = early ++ late }) parts
judge_partitions-unseen_example =
    judge_partitions-unseen index_of has_reorg evening early unrun late parts unrun-unowned

abbrev results : List CheckResult
results =
    record { id = "completion"; ruling = passes }
    ∷ record { id = "lap-manifest"; ruling = is_open }
    ∷ []

results-green : run_code results ≡ 0
unfolding run_code
results-green = refl

-- A lap of two producers and two consumers that was never run.
abbrev unrun_lap : OfflineLap
unrun_lap = record {
  enabled = true;
  margin_seconds = 60;
  producers = producers;
  consumers = consumers;
  online_only = [];
}

new_evidence-not_covered_example :
    check_offline_coverage (loaded (manifest_of manifest unrun_lap seeded)) ≢ passed []
new_evidence-not_covered_example =
    new_evidence-not_covered manifest unrun_lap seeded [] seeded-ok (inl (λ e. cc))

abbrev direction : String → Option DirectionProgress
direction shadow =
    some
      (record { phase = synced; cursor = 9; cursor_hash = "0x9"; shadow_root = shadow; error = "" })

abbrev report : ChainPhase → Option DirectionProgress → Option DirectionProgress → MigrationProgress
report phase binary merkle = record { phase = phase; binary = binary; merkle = merkle }

-- Two clients that introspect, one of which keeps both trees, and one that does not.
abbrev spec_of : String → Option ClientSpec
spec_of n =
    if str_eq n "geth"
    then some (record { introspects = true; retires_shadow = true })
    else if str_eq n "besu"
    then some (record { introspects = true; retires_shadow = false })
    else none

abbrev reports : List (Watched MigrationProgress)
reports =
    progress_seen "nimbus" 1000 (some (report running none none))
    ∷ progress_seen "geth" 1790 (some (report running (direction "0x1") none))
    ∷ progress_seen "geth" 1900 (some (report running none (direction "")))
    ∷ progress_seen "besu" 1905 (some (report running none (direction "")))
    ∷ final_seen "geth" 2000
    ∷ progress_seen "geth" 1999 (some (report done none none))
    ∷ progress_seen "besu" 2003 (some (report done (direction "0x2") none))
    ∷ final_seen "besu" 2003
    ∷ progress_seen "besu" 2005 none
    ∷ progress_seen "besu" 2007 (some (report done (direction "0x2") none))
    ∷ progress_seen "geth" 2009 (some (report done none none))
    ∷ other_watched
    ∷ []

abbrev judged : List String × List String
judged = ("besu" ∷ "geth" ∷ [], "nimbus" ∷ [])

check_completion_iff_example :
    (check_completion spec_of some 1800 reports ≡ passed judged)
    ↔ IsCompleted spec_of some 1800 reports judged
check_completion_iff_example = check_completion_iff spec_of some 1800 reports judged

reports_complete : check_completion spec_of some 1800 reports ≡ passed judged
unfolding check_completion introspecting_nodes conclude sort insert str_lt active
reports_complete = refl

-- The schedule is published, the gate hands over, and a node is cut off before the quiesce.
abbrev noted : List (ChaosRecord Dump)
noted =
    record { event = scheduled (record evening { profile = "composite" }); detail = "" }
    ∷ record { event = isolated "b" 1700; detail = "post" }
    ∷ record { event = other_record; detail = "handing disruptoor over" }
    ∷ []

abbrev read_dump : Dump → Result String Dump
read_dump d = ok d

-- `str_eq` stands for `strings.Contains`.
check_lap_manifest_iff_example :
    (check_lap_manifest read_dump str_eq noted (loaded manifest) ≡ passed (lap_note manifest)) ↔ (
      (m : LapManifest) × (loaded manifest ≡ loaded m)
      × IsReconciled read_dump str_eq noted m
      × (lap_note m ≡ lap_note manifest))
check_lap_manifest_iff_example =
    check_lap_manifest_iff read_dump str_eq noted (loaded manifest) (lap_note manifest)

manifest-reconciled :
    check_lap_manifest read_dump str_eq noted (loaded manifest)
    ≡ passed (record {
      restart = some (record { node = 4; at = 800 });
      completed = 2;
      quiesced_at = 2000;
    })
unfolding check_lap_manifest schedule_dump admitted runs conclude
manifest-reconciled = refl
