-- ===== src/Driver/Execute.antt =====
-- The driver's loop over the actions of a schedule (cmd/migration-chaos/main.go: execute). With an
-- injector (`inject`) the straddle is prepared by a deployment and followed by a pair of writes,
-- which log by themselves.
use pbt_devnet.Prelude.{
  ℕ, ◌+◌, ◌-◌, Bool, true, false, not, ◌&&◌, Option, none, some, List, [], ◌∷◌, some_of,
  if◌then◌else◌,
}
use pbt_devnet.Schedule.{Class, Op, Schedule, admitted}
use pbt_devnet.Schedule.Actions.{ActionKind, Action, op_start, op_end, sweep, stale_at, actions}
use pbt_devnet.Schedule.Windows.{is_straddle}
use pbt_devnet.Migmon.{warn, critical, heal, isolate, skip, pause, no_finding, no_convergence}
use pbt_devnet.Driver.{
  Name, World, Run, Step, next, ◌>>=◌, ◌>>◌, give, act, log, log_all, same_name, islands, now,
  clear, partition, deploy, wait, sleep_until, halt, repeer, Note, refused, deploy_failed,
  partition_failed, heal_failed, failsafe_failed, stale, never_applied, isolated, window_closed,
  never_crossed, never_reached, outlived, swept, complete, wrote_split,
}
use pbt_devnet.Driver.Hold.{has, Hold, hold, no_one}

unfoldable pub is_applied : Name → List Name → Bool
unfolding same_name
is_applied name names = some_of (λ n. same_name n name) names

-- `applied[a.Op.Name]`, and the two assignments that follow an accepted partition.
unfoldable pub look_applied : Name → Step Bool
unfolding is_applied
look_applied name r = next (is_applied name r.applied) r

unfoldable pub set_applied : Name → Step (Unit {0})
set_applied name r = next tt (record r { applied = name ∷ r.applied; healed = false })

unfoldable pub look_healed : Step Bool
look_healed r = next r.healed r

unfoldable pub set_healed : Step (Unit {0})
set_healed r = next tt (record r { healed = true })

-- `a.Op.Victims[0]`; no op of a resolved schedule is without victims.
abbrev pub first_victim : List ℕ → Option ℕ
first_victim [] = none
first_victim (v ∷ vs) = some v

-- What the heal of an op says of a victim.
unfoldable pub heal_note : Option Hold → ℕ → Note
heal_note none v = window_closed
heal_note (some h) v =
    if not (has v h.reached)
    then never_reached
    else if not (has v h.crossed)
    then never_crossed
    else window_closed

unfoldable pub skip_refused : List Op → Step (Unit {0})
skip_refused [] = give tt
skip_refused (o ∷ os) =
    (if admitted o then give tt else log_all skip (λ v. refused o.refused) o.victims)
    >> skip_refused os

module _ (w : World) (participants : ℕ) (inject : Bool) (fuel slot_seconds : ℕ) where
  -- The deployment lands while the network is still whole.
  unfoldable pub prepare : (at : ℕ) → Class → Step (Unit {0})
  prepare at c =
      if not (inject && is_straddle c)
      then give tt
      else (wait w (at - 60) >> deploy w >>= λ done.
          if done then give tt else log warn none no_finding deploy_failed)

  unfoldable pub write_split : (at : ℕ) → Class → Step (Unit {0})
  write_split at c =
      if not (inject && is_straddle c) then give tt else (wait w (at + 15) >> act wrote_split)

  unfoldable pub isolate_op : (at : ℕ) → Op → Step (Unit {0})
  isolate_op at o = partition w o.name (islands participants o) >>= λ done.
      if not done
      then log_all warn (λ v. partition_failed) o.victims
      else (set_applied o.name
          >> log_all isolate (λ v. isolated o.class o.start o.end) o.victims
          >> write_split at o.class)

  unfoldable pub start_op : Action → Op → Step (Unit {0})
  start_op a o = (prepare a.at o.class >> wait w a.at) >> now w >>= λ t.
      if stale_at a t
      then log skip (first_victim o.victims) no_finding (stale o.name)
      else isolate_op a.at o

  -- Only an op with a latest heal waits for its islands.
  unfoldable pub hold_op : Op → Step (Option Hold)
  hold_op o = elim o.hold_until [
    | none ↦ give none
    | some t ↦ hold w fuel slot_seconds t o.victims no_one >>= λ h. give (some h)
  ]

  unfoldable pub heal_op : Op → Step (Unit {0})
  heal_op o = hold_op o >>= λ h. clear w >>= λ done.
      if not done
      then log warn none no_finding heal_failed
      else (set_healed >> log_all heal (heal_note h) o.victims >> repeer w participants)

  unfoldable pub end_op : (at : ℕ) → Op → Step (Unit {0})
  end_op at o = wait w at >> look_applied o.name >>= λ on.
      if not on then log_all skip (λ v. never_applied o.name) o.victims else heal_op o

  unfoldable pub report_sweep : (done healed : Bool) → Step (Unit {0})
  report_sweep done healed =
      if not done
      then log warn none no_finding failsafe_failed
      else if not healed
      then (log critical none no_convergence outlived >> set_healed)
      else log heal none no_finding swept

  unfoldable pub sweep_now : (at : ℕ) → Step (Unit {0})
  sweep_now at = wait w at >> clear w >>= λ done.
      look_healed >>= λ healed. report_sweep done healed >> repeer w participants

  -- The `switch a.Kind`. A start or an end always carries its op.
  unfoldable pub perform_kind : ActionKind → Option Op → Action → Step (Unit {0})
  perform_kind op_start (some o) a = start_op a o
  perform_kind op_end (some o) a = end_op a.at o
  perform_kind sweep o a = sweep_now a.at
  perform_kind _ none a = give tt

  unfoldable pub perform : Action → Step (Unit {0})
  unfolding perform_kind
  perform a = perform_kind a.kind a.op a

  unfoldable pub perform_all : List Action → Step (Unit {0})
  perform_all [] = give tt
  perform_all (a ∷ as') = perform a >> perform_all as'

unfoldable pub finish : World → (quiet : ℕ) → Step (Unit {0})
finish w quiet =
    sleep_until w quiet >>= λ awake. if awake then log pause none no_finding complete else halt w

unfoldable pub execute : World → (participants : ℕ) → Bool → (fuel : ℕ) → Schedule → Step (Unit {0})
execute w participants inject fuel s =
    (skip_refused s.ops >> perform_all w participants inject fuel s.slot_seconds (actions s))
    >> finish w s.quiet

unfoldable pub start_run : Run
start_run = record { trace = []; applied = []; healed = true }
