-- ===== src/Verify/Offline.antt =====
-- Every declared producer and consumer finished (cmd/verify-migration/offline.go:
-- checkOfflineCoverage).
pub mod Covered
pub mod Unrun
use pbt_devnet.Prelude.{
  ℕ, ◌≡◌, refl, ◌↔◌, String, Bool, true, false, Option, none, some, List, [], ◌∷◌, ◌++◌, map, ◌==◌,
  ==_iff, str_eq, eq_iff, if◌then◌else◌, Bool-cases, inl, inr, All, arith,
}
use pbt_devnet.Swap.Evidence.{OfflineProducer, OfflineConsumer}
use pbt_devnet.Verify.{
  Outcome, inconclusive, failed, passed, OfflineLap, SwapDone, ProducerDone, LapManifest,
  ManifestFile, not_given, unreadable, loaded, require_offline, conclude,
}

pub data CoverageProblem : Type 0 where
  producer_status : (node : ℕ) → (kind : String) → Option String → CoverageProblem
  consumer_status : (node : ℕ) → Option String → CoverageProblem

-- The status of the first record of a node, `slices.IndexFunc`.
unfoldable pub status_of : ℕ → List (ℕ × String) → Option String
status_of node [] = none
status_of node (r ∷ rs) = let rest = status_of node rs in if r.0 == node then some r.1 else rest

unfoldable pub is_ok : Option String → Bool
is_ok none = false
is_ok (some s) = str_eq s "ok"

abbrev pub producer_rows : LapManifest → List (ℕ × String)
producer_rows m = map (λ r. (r.node, r.status)) m.producers

abbrev pub swap_rows : LapManifest → List (ℕ × String)
swap_rows m = map (λ r. (r.node, r.status)) m.swaps

unfoldable pub producer_problems : List (ℕ × String) → List OfflineProducer → List CoverageProblem
unfolding status_of is_ok
producer_problems rows [] = []
producer_problems rows (p ∷ ps) =
    (if is_ok (status_of p.node rows)
      then []
      else producer_status p.node p.kind (status_of p.node rows) ∷ [])
    ++ producer_problems rows ps

unfoldable pub consumer_problems : List (ℕ × String) → List OfflineConsumer → List CoverageProblem
unfolding status_of is_ok
consumer_problems rows [] = []
consumer_problems rows (c ∷ cs) =
    (if is_ok (status_of c.node rows)
      then []
      else consumer_status c.node (status_of c.node rows) ∷ [])
    ++ consumer_problems rows cs

-- The notes of the nodes that only follow online.
unfoldable pub judge_coverage :
    LapManifest → OfflineLap → Outcome CoverageProblem (List (ℕ × String))
unfolding producer_problems consumer_problems
judge_coverage m lap =
    conclude
      (producer_problems (producer_rows m) lap.producers
        ++ consumer_problems (swap_rows m) lap.consumers)
      (passed lap.online_only)

unfoldable pub check_offline_coverage : ManifestFile → Outcome CoverageProblem (List (ℕ × String))
unfolding judge_coverage
check_offline_coverage file = require_offline file judge_coverage
