-- ===== src/Verify/Serialized.antt =====
-- The swaps ran one at a time, clear of the schedule (cmd/verify-migration/offline.go:
-- checkSwapsSerialized).
pub mod Gated
pub mod Clear
pub mod Span
pub mod Orderly
pub mod Passes
use pbt_devnet.Prelude.{
  ℕ, ◌+◌, ◌-◌, ◌≤◌, ◌<◌, ◌≡◌, ◌≢◌, refl, ◌↔◌, ◌⊎◌, inl, inr, String, Bool, true, false, not, ◌&&◌,
  ◌||◌, Option, none, some, List, [], ◌∷◌, ◌++◌, map, keep, ltb, leb, ◌==◌, ==_iff, str_eq, eq_iff,
  max, length, some_of, if◌then◌else◌, Bool-cases, All, arith,
}
use pbt_devnet.Dump.{DumpOp}
use pbt_devnet.Swap.Evidence.{OfflineConsumer}
use pbt_devnet.Verify.{
  Unjudged, no_swaps, all_skipped, Outcome, inconclusive, failed, passed, OfflineLap, SwapDone,
  LapManifest, ManifestFile, require_offline, conclude,
}

pub data SwapProblem : Type 0 where
  swaps_anchor : SwapProblem
  stop_never_recorded end_never_recorded : (node : ℕ) → SwapProblem
  overlaps_op : (node : ℕ) → (op : String × ℕ) → SwapProblem
  over_timeout : (node took timeout : ℕ) → SwapProblem
  windows_overlap : (node other : ℕ) → SwapProblem
  no_schedule : SwapProblem

pub record SwapWindow : Type 0 where
  pub node : ℕ
  pub start : ℕ
  pub end : ℕ

-- `if test { problems = append(problems, p) }`
abbrev pub problem_if : {P : Type 0} → Bool → P → List P
problem_if true p = p ∷ []
problem_if false p = []

-- A window that meets an op's, a minute added on both sides.
unfoldable pub meets_op : SwapWindow → DumpOp → Bool
meets_op w o = leb w.start (o.end + 60) && leb o.start (w.end + 60)

unfoldable pub op_problems : SwapWindow → List DumpOp → List SwapProblem
unfolding meets_op
op_problems w [] = []
op_problems w (o ∷ ops) = problem_if (meets_op w o) (overlaps_op w.node o.name) ++ op_problems w ops

unfoldable pub is_late : SwapDone → OfflineConsumer → Bool
is_late s c =
    c.node == s.node
    && ltb 0 c.timeout_seconds
    && ltb c.timeout_seconds (s.caught_up_at - s.stop_at)

unfoldable pub timeout_problems : SwapDone → List OfflineConsumer → List SwapProblem
unfolding is_late
timeout_problems s [] = []
timeout_problems s (c ∷ cs) =
    problem_if (is_late s c) (over_timeout s.node (s.caught_up_at - s.stop_at) c.timeout_seconds)
    ++ timeout_problems s cs

-- When a swap was over: it had caught up, or at least started again.
unfoldable pub end_of : SwapDone → ℕ
end_of s = if ltb s.caught_up_at s.start_at then s.start_at else s.caught_up_at

abbrev pub window_of : SwapDone → SwapWindow
window_of s = record { node = s.node; start = s.stop_at; end = end_of s }

unfoldable pub is_skipped : SwapDone → Bool
is_skipped s = str_eq s.status "skipped"

-- Whether a swap leaves a window to judge.
unfoldable pub has_window : SwapDone → Bool
unfolding is_skipped end_of
has_window s = not (is_skipped s) && not (s.stop_at == 0) && not (end_of s == 0)

module _ (schedule : Option (List DumpOp)) (consumers : List OfflineConsumer) where
  -- The problems of a swap with a window.
  unfoldable pub window_problems : SwapDone → List SwapProblem
  unfolding op_problems timeout_problems
  window_problems s =
      elim schedule [ none ↦ [] | some ops ↦ op_problems (window_of s) ops ]
      ++ (if s.caught_up_at == 0 then [] else timeout_problems s consumers)

  unfoldable pub swap_problems : SwapDone → List SwapProblem
  unfolding is_skipped end_of window_problems
  swap_problems s =
      problem_if (s.node == 1) swaps_anchor
      ++ (if is_skipped s
          then []
          else if s.stop_at == 0
          then stop_never_recorded s.node ∷ []
          else if end_of s == 0
          then end_never_recorded s.node ∷ []
          else window_problems s)

  unfoldable pub all_swap_problems : List SwapDone → List SwapProblem
  unfolding swap_problems
  all_swap_problems [] = []
  all_swap_problems (s ∷ swaps) = swap_problems s ++ all_swap_problems swaps

unfoldable pub overlap : SwapWindow → SwapWindow → Bool
overlap a b = ltb a.start b.end && ltb b.start a.end

unfoldable pub overlaps_with : SwapWindow → List SwapWindow → List SwapProblem
unfolding overlap
overlaps_with w [] = []
overlaps_with w (u ∷ us) =
    problem_if (overlap w u) (windows_overlap w.node u.node) ++ overlaps_with w us

unfoldable pub pair_problems : List SwapWindow → List SwapProblem
unfolding overlaps_with
pair_problems [] = []
pair_problems (w ∷ ws) = overlaps_with w ws ++ pair_problems ws

unfoldable pub windows : List SwapDone → List SwapWindow
unfolding has_window
windows swaps = map window_of (keep has_window swaps)

-- How many swaps are in order, and how many were skipped.
abbrev pub SwapNote : Type 0
SwapNote = ℕ × ℕ

module _ (schedule : Option (List DumpOp)) (skip_chaos : Bool) where
  unfoldable pub schedule_problems : List SwapProblem
  schedule_problems = elim schedule [ none ↦ problem_if (not skip_chaos) no_schedule | some _ ↦ [] ]

  unfoldable pub judge_windows : (skipped : ℕ) → List SwapWindow → Outcome SwapProblem SwapNote
  judge_windows skipped [] = inconclusive (all_skipped skipped)
  judge_windows skipped (w ∷ ws) = passed (length (w ∷ ws), skipped)

  unfoldable pub judge_swaps :
      LapManifest → OfflineLap → List SwapDone → Outcome SwapProblem SwapNote
  unfolding all_swap_problems schedule_problems pair_problems judge_windows windows
  judge_swaps m lap [] = inconclusive no_swaps
  judge_swaps m lap (s ∷ swaps) =
      conclude
        (all_swap_problems schedule lap.consumers (s ∷ swaps)
          ++ (schedule_problems ++ pair_problems (windows (s ∷ swaps))))
        (judge_windows (length (keep is_skipped (s ∷ swaps))) (windows (s ∷ swaps)))

  unfoldable pub check_swaps_serialized : ManifestFile → Outcome SwapProblem SwapNote
  unfolding judge_swaps
  check_swaps_serialized file = require_offline file (λ m lap. judge_swaps m lap m.swaps)
