-- ===== src/Examples/Lap.antt =====
-- The theorems of the verifier's checks, at a lap with two swaps, and at a branch of two blocks.
use pbt_devnet.Prelude.{
  ℕ, ◌≡◌, ◌≢◌, ◌==◌, refl, ◌↔◌, String, true, false, Option, none, some, List, [], ◌∷◌, All, str_eq,
  ok, if◌then◌else◌,
}
use pbt_devnet.Migmon.{Header, MigrationProgress, following, running}
use pbt_devnet.Verify.{passed, OfflineLap, SwapDone, LapManifest, loaded, require_offline, conclude}
use pbt_devnet.Verify.Serialized.{judge_swaps}
use pbt_devnet.Verify.Replayed.{Seen, head_of, progress_of, other_event, check_replay_caught_up}
use pbt_devnet.Verify.Replayed.Shown.{IsReplayed, check_replay_caught_up_iff}
use pbt_devnet.Verify.Offline.{check_offline_coverage}
use pbt_devnet.Verify.Offline.Covered.{IsCovered, check_offline_coverage_iff}
use pbt_devnet.Verify.Branch.{Served, walk_orphan_branch}
use pbt_devnet.Verify.Branch.Joined.{IsJoin, walk_orphan_branch_iff}

abbrev lap : OfflineLap
lap = record {
  enabled = true;
  margin_seconds = 60;
  producers = [];
  consumers =
      record { node = 2; expected_seconds = 100; timeout_seconds = 300 }
      ∷ record { node = 3; expected_seconds = 100; timeout_seconds = 300 }
      ∷ [];
  online_only = (4, "no importer") ∷ [];
}

-- Node 2 is swapped, then node 3.
abbrev swaps : List SwapDone
swaps =
    record { node = 2; status = "ok"; stop_at = 1000; start_at = 1050; caught_up_at = 1100 }
    ∷ record { node = 3; status = "ok"; stop_at = 1100; start_at = 1150; caught_up_at = 1250 }
    ∷ []

abbrev pub manifest : LapManifest
manifest = record {
  profile = "composite";
  restart = some (record { node = 4; at = 800 });
  scenarios =
      record { name = "reorg"; outcome = "ok" } ∷ record { name = "split"; outcome = "ok" } ∷ [];
  requested = "split" ∷ "reorg" ∷ [];
  handover_expected = true;
  quiesced_at = 2000;
  offline = some lap;
  producers = [];
  swaps = swaps;
}

swaps-serialized : judge_swaps (some []) false manifest lap swaps ≡ passed (2, 0)
unfolding judge_swaps conclude
swaps-serialized = refl

check_offline_coverage_iff_example :
    (check_offline_coverage (loaded manifest) ≡ passed ((4, "no importer") ∷ []))
    ↔ IsCovered (loaded manifest) ((4, "no importer") ∷ [])
check_offline_coverage_iff_example =
    check_offline_coverage_iff (loaded manifest) ((4, "no importer") ∷ [])

lap-covered : check_offline_coverage (loaded manifest) ≡ passed ((4, "no importer") ∷ [])
unfolding check_offline_coverage require_offline conclude
lap-covered = refl

-- A binary direction whose cursor is at a block.
abbrev cursor_at : ℕ → Option MigrationProgress
cursor_at n = some (record {
  phase = running;
  binary =
      some
        (record { phase = following; cursor = n; cursor_hash = ""; shadow_root = ""; error = "" });
  merkle = none;
})

abbrev stream : List Seen
stream =
    progress_of 2 1090 (cursor_at 48)
    ∷ head_of 1 50
    ∷ other_event
    ∷ progress_of 2 1095 (cursor_at 48)
    ∷ progress_of 3 1240 (cursor_at 50)
    ∷ []

check_replay_caught_up_iff_example :
    (check_replay_caught_up 1800 stream (loaded manifest) ≡ passed tt) ↔ (
      (m : LapManifest) × (l : OfflineLap) × (loaded manifest ≡ loaded m)
      × (m.offline ≡ some l)
      × (l.enabled ≡ true)
      × (m.swaps ≢ [])
      × All (IsReplayed 1800 l.margin_seconds stream) m.swaps)
check_replay_caught_up_iff_example = check_replay_caught_up_iff 1800 stream (loaded manifest)

swaps-replayed : check_replay_caught_up 1800 stream (loaded manifest) ≡ passed tt
unfolding check_replay_caught_up require_offline conclude
swaps-replayed = refl

abbrev header : (hash parent : String) → ℕ → Header
header hash parent number = record {
  hash = hash;
  parent = parent;
  root = "0x1";
  number = number;
  time = number;
}

-- A client on the chain of c1, that still serves the branch of o2 and o1.
abbrev victim : Served
victim = record {
  by_hash = λ h.
      if str_eq h "o2"
      then ok (some (header "o2" "o1" 2))
      else if str_eq h "o1"
      then ok (some (header "o1" "g" 1))
      else if str_eq h "g"
      then ok (some (header "g" "" 0))
      else ok none;
  by_number = λ n. if n == 0 then ok (header "g" "" 0) else ok (header "c" "g" n);
}

walk_orphan_branch_iff_example :
    (walk_orphan_branch str_eq victim 5 "o2" ≡ ok (5, 0)) ↔ IsJoin str_eq victim 5 128 "o2" (5, 0)
walk_orphan_branch_iff_example = walk_orphan_branch_iff str_eq victim 5 "o2" (5, 0)

branch-joins_genesis : walk_orphan_branch str_eq victim 5 "o2" ≡ ok (5, 0)
unfolding walk_orphan_branch
branch-joins_genesis = refl
