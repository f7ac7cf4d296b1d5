-- ===== src/Verify/Serialized/Passes.antt =====
-- The check of the swaps against what it stands for (offline.go: checkSwapsSerialized).
use pbt_devnet.Prelude.{◌≡◌, ◌≢◌, map, Bool, true, Option, none, List, [], All}
use pbt_devnet.Dump.{DumpOp}
use pbt_devnet.Verify.{OfflineLap, SwapDone}
use pbt_devnet.Verify.Serialized.Orderly.{IsOrderly}
use pbt_devnet.Verify.Serialized.Span.{span, ran}
use pbt_devnet.Verify.Serialized.Clear.{AreApart}

module _ (schedule : Option (List DumpOp)) (skip_chaos : Bool) where
  -- What the check stands for.
  pub record IsSerialized (lap : OfflineLap) (swaps : List SwapDone) : Type 0 where
    pub orderly : All (IsOrderly schedule lap.consumers) swaps
    pub one_by_one : AreApart (map span (ran swaps))
    pub scheduled : schedule ≡ none → skip_chaos ≡ true
    pub some_window : ran swaps ≢ []
