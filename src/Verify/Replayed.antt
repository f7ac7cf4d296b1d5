-- ===== src/Verify/Replayed.antt =====
-- Every swap caught up in time (cmd/verify-migration/offline.go: checkReplayCaughtUp,
-- lifecycleCaughtUp). The decoder of a progress report and the index in a node's name are
-- parameters.
pub mod Shown
use pbt_devnet.Prelude.{
  ℕ, ◌+◌, ◌-◌, ◌≤◌, ◌≡◌, ◌≢◌, refl, ◌↔◌, ◌⊎◌, inl, inr, String, Bool, true, false, not, ◌&&◌, ◌||◌,
  Option, none, some, List, [], ◌∷◌, ◌++◌, ltb, leb, ◌==◌, if◌then◌else◌, Bool-cases, All, arith,
}
use pbt_devnet.Migmon.{DirectionProgress, MigrationProgress, u64}
use pbt_devnet.Verify.{
  no_swaps, Outcome, inconclusive, failed, passed, OfflineLap, SwapDone, LapManifest, ManifestFile,
  require_offline, conclude,
}

abbrev pub caught_up_lag : ℕ
caught_up_lag = 2

-- An event of the monitor's stream, as the check reads it.
pub data Seen : Type 0 where
  head_of : (node number : ℕ) → Seen
  progress_of : (node time : ℕ) → Option MigrationProgress → Seen
  other_event : Seen

-- A report shows a cursor within the lag of the tip.
unfoldable pub is_near : (tip : ℕ) → Option MigrationProgress → Bool
is_near tip none = false
is_near tip (some p) = elim p.binary [
  | none ↦ false
  | some d ↦ leb tip (u64 (d.cursor + caught_up_lag))
]

unfoldable pub corroborates : (node after : ℕ) → (tip : Option ℕ) → Seen → Bool
unfolding is_near
corroborates node after tip (head_of i n) = false
corroborates node after tip other_event = false
corroborates node after none (progress_of i time p) = false
corroborates node after (some tip) (progress_of i time p) =
    i == node && not (ltb time after) && is_near tip p

-- A head of node 1 moves the tip, also where node 1 is the one that is asked about.
unfoldable pub next_tip : Option ℕ → Seen → Option ℕ
next_tip tip (head_of i n) = if i == 1 then some n else tip
next_tip tip (progress_of i time p) = tip
next_tip tip other_event = tip

unfoldable pub caught_up_from : (node after : ℕ) → Option ℕ → List Seen → Bool
unfolding corroborates next_tip
caught_up_from node after tip [] = false
caught_up_from node after tip (ev ∷ evs) =
    let rest = caught_up_from node after (next_tip tip ev) evs in
    if corroborates node after tip ev then true else rest

unfoldable pub lifecycle_caught_up : (node after : ℕ) → List Seen → Bool
unfolding caught_up_from
lifecycle_caught_up node after evs = caught_up_from node after none evs

pub data ReplayProblem : Type 0 where
  never_caught_up no_corroboration : (node : ℕ) → ReplayProblem
  after_deadline : (node at : ℕ) → ReplayProblem

module _ (fork margin : ℕ) (monitor : List Seen) where
  unfoldable pub replay_problems : SwapDone → List ReplayProblem
  unfolding lifecycle_caught_up
  replay_problems s =
      if s.caught_up_at == 0
      then never_caught_up s.node ∷ []
      else (if ltb fork (s.caught_up_at + margin)
          then after_deadline s.node s.caught_up_at ∷ []
          else [])
        ++ (if lifecycle_caught_up s.node s.start_at monitor
            then []
            else no_corroboration s.node ∷ [])

  unfoldable pub all_replay_problems : List SwapDone → List ReplayProblem
  unfolding replay_problems
  all_replay_problems [] = []
  all_replay_problems (s ∷ swaps) = replay_problems s ++ all_replay_problems swaps

unfoldable pub judge_replays :
    (fork : ℕ) → List Seen → OfflineLap → List SwapDone → Outcome ReplayProblem (Unit {0})
unfolding all_replay_problems
judge_replays fork monitor lap [] = inconclusive no_swaps
judge_replays fork monitor lap (s ∷ swaps) =
    conclude (all_replay_problems fork lap.margin_seconds monitor (s ∷ swaps)) (passed tt)

unfoldable pub check_replay_caught_up :
    (fork : ℕ) → List Seen → ManifestFile → Outcome ReplayProblem (Unit {0})
unfolding judge_replays
check_replay_caught_up fork monitor file =
    require_offline file (λ m lap. judge_replays fork monitor lap m.swaps)
