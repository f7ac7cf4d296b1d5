-- ===== src/Examples/Schedule.antt =====
-- The theorems of a resolved schedule, at the plan for five participants.
use pbt_devnet.Prelude.{◌≤◌, ◌≡◌, ◌≢◌, true, err, All}
use pbt_devnet.Schedule.{admitted, latest, index_out_of_range}
use pbt_devnet.Schedule.Sweeps.Clear.{Misses}
use pbt_devnet.Schedule.Resolve.{resolve}
use pbt_devnet.Schedule.Resolve.Promise.{resolve-sweeps, resolve-quiet}
use pbt_devnet.Schedule.Resolve.Indexing.{resolve-InRange}
use pbt_devnet.Examples.Layout.{parts, five, plan, plan-resolved}

resolve-sweeps_example : All (λ f. All (Misses f) plan.ops) plan.failsafes
resolve-sweeps_example = resolve-sweeps parts 1801800 five "composite" 1800000 plan plan-resolved

resolve-quiet_example :
    All (λ f. f ≤ 1802370) plan.failsafes
    × All (λ o. admitted o ≡ true → latest o ≤ 1802370) plan.ops
resolve-quiet_example = resolve-quiet parts 1801800 five "composite" 1800000 plan plan-resolved

resolve-InRange_example :
    resolve parts 1801800 five "composite-smoke" 1800000 ≢ err index_out_of_range
resolve-InRange_example = resolve-InRange parts 1801800 five "composite-smoke" 1800000
