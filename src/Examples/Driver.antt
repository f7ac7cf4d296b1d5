-- ===== src/Examples/Driver.antt =====
-- The driver's theorems at the plan for five participants, where all calls work.
use pbt_devnet.Prelude.{
  ℕ, ◌+◌, ◌≤◌, ◌≡◌, refl, true, false, [], ◌∷◌, arith, ltb, if◌then◌else◌, sort, insert,
}
use pbt_devnet.Schedule.{latest, admitted}
use pbt_devnet.Schedule.Actions.{actions, less, op_actions, stale_at}
use pbt_devnet.Driver.{
  World, Act, Trace, slept, asked_partition, asked_clear, answers, read_clock, probed, deployed,
  wrote_split, asked_repeer, logged, Flow, next, stop, stuck, log, log_all, islands, wait, now,
  clear, partition, deploy, repeer, ask_repeer, sleep_until, quit, probe, same_name,
}
use pbt_devnet.Driver.Hold.{
  has, hold, no_one, probe_answer, probe_one, probe_all, announce, is_over, sleep_slot,
}
use pbt_devnet.Driver.Execute.{
  is_applied, look_applied, set_applied, look_healed, set_healed, heal_note, skip_refused, prepare,
  write_split, isolate_op, start_op, hold_op, heal_op, end_op, report_sweep, sweep_now,
  perform_kind, perform, perform_all, finish, execute, start_run,
}
use pbt_devnet.Driver.Neutral.{Ends}
use pbt_devnet.Driver.Plan.{IsPlanned}
use pbt_devnet.Driver.Starts.{execute-IsPlanned}
use pbt_devnet.Driver.Clock.{IsClock}
use pbt_devnet.Driver.Held.{Free}
use pbt_devnet.Driver.Finish.{execute-Free}
use pbt_devnet.Examples.Layout.{parts, five, plan, plan-resolved}

-- The clock stands at the latest instant that the driver slept for.
abbrev clock_of : Trace → ℕ
clock_of [] = 0
clock_of (slept until true ∷ t) = let rest = clock_of t in if ltb rest until then until else rest
clock_of (_ ∷ t) = clock_of t

abbrev calm : World
calm = record {
  awake = λ t until. true;
  clock = clock_of;
  partitions = λ t name groups. true;
  clears = λ t. true;
  probes = λ t v. answers true;
  deploys = λ t. true;
  repeers = λ t. true;
}

calm-IsClock : IsClock calm
calm-IsClock = record { onward = onward; after_sleep = λ until t. ground arith }
  where
    onward : (a : Act) (t : Trace) → clock_of t ≤ clock_of (a ∷ t)
    onward (slept u true) t = ground arith
    onward (slept u false) t = omega arith
    onward (read_clock n) t = omega arith
    onward (asked_partition n g d) t = omega arith
    onward (asked_clear d) t = omega arith
    onward (probed v p) t = omega arith
    onward (deployed d) t = omega arith
    onward wrote_split t = omega arith
    onward (asked_repeer d) t = omega arith
    onward (logged l) t = omega arith

execute-IsPlanned_example :
    Ends Unit
      (λ r. IsPlanned 5 plan.ops r.trace)
      (λ _ r. IsPlanned 5 plan.ops r.trace)
      (execute calm 5 true 121 plan start_run)
execute-IsPlanned_example = execute-IsPlanned calm 5 true 121 plan

execute-Free_example : Ends ⊥ Free (λ _ r. Free r) (execute calm 5 true 121 plan start_run)
execute-Free_example =
    execute-Free parts 1801800 five "composite" 1800000 plan plan-resolved calm calm-IsClock
      (λ t. refl) 5 true 121 (omega arith)

program : Unit {0}
unfolding latest admitted actions less op_actions stale_at log log_all islands wait now clear
    partition deploy repeer ask_repeer sleep_until quit probe same_name has hold no_one probe_answer
    probe_one probe_all announce is_over sleep_slot is_applied look_applied set_applied look_healed
    set_healed heal_note skip_refused prepare write_split isolate_op start_op hold_op heal_op end_op
    report_sweep sweep_now perform_kind perform perform_all finish execute start_run sort insert
program = tt

-- The splits that the run asked for, and the clears.
abbrev splits : Trace → ℕ
splits [] = 0
splits (asked_partition n g d ∷ t) = splits t + 1
splits (_ ∷ t) = splits t

abbrev clears : Trace → ℕ
clears [] = 0
clears (asked_clear d ∷ t) = clears t + 1
clears (_ ∷ t) = clears t

abbrev trace_of : Flow (Unit {0}) → Trace
trace_of (next a r) = r.trace
trace_of (stop r) = r.trace
trace_of stuck = []

calm_run :
    (splits (trace_of (execute calm 5 true 121 plan start_run)) ≡ 5)
    × (clears (trace_of (execute calm 5 true 121 plan start_run)) ≡ 10)
unfolding program
calm_run = (refl, refl)
