-- ===== src/Driver/Verdict.antt =====
-- The driver's flag `healed` at the turns of its loop (cmd/migration-chaos/main.go: execute).
use pbt_devnet.Prelude.{
  ℕ, ◌≡◌, refl, subst, Bool, true, false, not, Option, none, some, List, [], ◌∷◌, is_some,
  if◌then◌else◌, arith,
}
use pbt_devnet.Schedule.{Op, Schedule}
use pbt_devnet.Schedule.Actions.{ActionKind, Action, op_start, op_end, sweep, stale_at, actions}
use pbt_devnet.Migmon.{warn, heal, isolate, skip, pause, no_finding}
use pbt_devnet.Driver.{
  Name, World, Run, Step, ◌>>◌, log, log_all, islands, now, asked_partition, asked_clear, clear,
  partition, wait, sleep_until, repeer, partition_failed, heal_failed, failsafe_failed, stale,
  never_applied, isolated, complete,
}
use pbt_devnet.Driver.Hold.{Hold}
use pbt_devnet.Driver.Execute.{
  look_applied, set_applied, look_healed, set_healed, first_victim, heal_note, skip_refused,
  prepare, write_split, isolate_op, start_op, hold_op, heal_op, end_op, report_sweep, sweep_now,
  perform, perform_kind, perform_all, finish, execute,
}
use pbt_devnet.Driver.Neutral.{
  Ends, bind-Ends, is_verdict, bind-IsNeutral, log-IsNeutral, log_all-IsNeutral, now-IsNeutral,
  sleep_until-IsNeutral,
}
use pbt_devnet.Driver.Quiet.{wait-IsNeutral, repeer-IsNeutral}
use pbt_devnet.Driver.Parts.{
  heal_note-quiet, skip_refused-IsNeutral, prepare-IsNeutral, write_split-IsNeutral,
  hold_op-IsNeutral,
}
use pbt_devnet.Driver.Flag.{
  split, Cleared, Told, IsHonest, IsRight, Cleared-split, KeepsRight, neutral-KeepsRight,
  bind-KeepsRight,
}

-- After a request to split, and after a clear.
Cut : Name → Bool → Run → Type 0
Cut n true s = IsHonest s.trace × (split s.trace ≡ some n)
Cut n false s = IsRight s

Wiped : Bool → Run → Type 0
Wiped true s = IsHonest s.trace × Cleared (not s.healed) s.trace
Wiped false s = IsRight s

if-KeepsRight :
    {A : Type 0} (b : Bool) {m n : Step A}
    → KeepsRight m
    → KeepsRight n
    → KeepsRight (if b then m else n)
if-KeepsRight true h k = h
if-KeepsRight false h k = k

module _ (w : World) where
  partition-Cut :
      (n : Name) (g : List (List ℕ)) (r : Run)
      → IsRight r
      → Ends Unit (λ s. IsHonest s.trace) (Cut n) (partition w n g r)
  unfolding partition Cut split IsHonest
  partition-Cut n g r i = by_answer (w.partitions r.trace n g)
    where
      by_answer : (d : Bool) → Cut n d (record r { trace = asked_partition n g d ∷ r.trace })
      by_answer true = (i.honest, refl)
      by_answer false = record { honest = i.honest; flag = i.flag }

  clear-Wiped : (r : Run) → IsRight r → Ends Unit (λ s. IsHonest s.trace) Wiped (clear w r)
  unfolding clear Wiped IsHonest Cleared split
  clear-Wiped r i = by_answer (w.clears r.trace)
    where
      found : is_some (split r.trace) ≡ not r.healed
      found = by_cases (is_some (split r.trace)) r.healed i.flag
        where
          by_cases : (a b : Bool) → b ≡ not a → a ≡ not b
          by_cases a b h = ground arith

      by_answer : (d : Bool) → Wiped d (record r { trace = asked_clear d ∷ r.trace })
      by_answer true = (i.honest, found)
      by_answer false = record { honest = i.honest; flag = i.flag }

  module _ (participants : ℕ) (inject : Bool) (fuel slot : ℕ) where
    isolate_op-KeepsRight :
        (at : ℕ) (o : Op) → KeepsRight (isolate_op w participants inject fuel slot at o)
    unfolding isolate_op set_applied Cut is_verdict
    isolate_op-KeepsRight at o = record {
      ends = λ r i.
          bind-Ends Unit (λ s. IsHonest s.trace) (Cut o.name) (λ _ s. IsRight s)
            (partition w o.name (islands participants o)) _ r
            (partition-Cut o.name (islands participants o) r i)
            (elim [
              | true ↦ λ s c.
                  rest.ends (record s { applied = o.name ∷ s.applied; healed = false })
                    (record { honest = c.0; flag = rw c.1 })
              | false ↦ λ s c. failed.ends s c
            ]);
    }
      where
        rest : KeepsRight (
            log_all isolate (λ v. isolated o.class o.start o.end) o.victims
            >> write_split w participants inject fuel slot at o.class)
        rest = neutral-KeepsRight w _ (
            bind-IsNeutral (log_all isolate (λ v. isolated o.class o.start o.end) o.victims) _
              (log_all-IsNeutral isolate (λ v. isolated o.class o.start o.end) o.victims
                (λ v. refl))
              (λ _. write_split-IsNeutral w participants inject fuel slot at o.class))

        failed : KeepsRight (log_all warn (λ v. partition_failed) o.victims)
        failed =
            neutral-KeepsRight w _
              (log_all-IsNeutral warn (λ v. partition_failed) o.victims (λ v. refl))

    heal_op-KeepsRight : (o : Op) → KeepsRight (heal_op w participants inject fuel slot o)
    unfolding heal_op set_healed Wiped is_verdict
    heal_op-KeepsRight o =
        bind-KeepsRight (hold_op w participants inject fuel slot o) _
          (neutral-KeepsRight w _ (hold_op-IsNeutral w participants inject fuel slot o))
          (λ h. record {
            ends = λ r i.
                bind-Ends Unit (λ s. IsHonest s.trace) Wiped (λ _ s. IsRight s) (clear w) _ r
                  (clear-Wiped r i)
                  (elim [
                    | true ↦ λ s c.
                        (healing h).ends (record s { healed = true })
                          (record {
                            honest = c.0;
                            flag = rw (Cleared-split (not s.healed) s.trace c.1);
                          })
                    | false ↦ λ s c. failed.ends s c
                  ]);
          })
      where
        healing :
            (h : Option Hold)
            → KeepsRight (log_all heal (heal_note h) o.victims >> repeer w participants)
        healing h = neutral-KeepsRight w _ (
            bind-IsNeutral (log_all heal (heal_note h) o.victims) _
              (log_all-IsNeutral heal (heal_note h) o.victims (heal_note-quiet h))
              (λ _. repeer-IsNeutral w participants))

        failed : KeepsRight (log warn none no_finding heal_failed)
        failed = neutral-KeepsRight w _ (log-IsNeutral warn none no_finding heal_failed refl)

    report_sweep-IsRight :
        (d h : Bool) (s : Run)
        → Wiped d s
        → s.healed ≡ h
        → Ends Unit
            (λ s. IsHonest s.trace)
            (λ _ s. IsRight s)
            (report_sweep w participants inject fuel slot d h s)
    unfolding report_sweep set_healed Wiped is_verdict log IsHonest Told split
    report_sweep-IsRight false h s c e =
        (neutral-KeepsRight w _ (log-IsNeutral warn none no_finding failsafe_failed refl)).ends s c
    report_sweep-IsRight true false s c e = record {
      honest = (subst (λ b. Cleared (not b) s.trace) e c.1, c.0);
      flag = rw (Cleared-split (not s.healed) s.trace c.1);
    }
    report_sweep-IsRight true true s c e = record {
      honest = (subst (λ b. Cleared (not b) s.trace) e c.1, c.0);
      flag = rw (Cleared-split (not s.healed) s.trace c.1, e);
    }

    sweep_now-KeepsRight : (at : ℕ) → KeepsRight (sweep_now w participants inject fuel slot at)
    unfolding sweep_now look_healed
    sweep_now-KeepsRight at = record {
      ends = λ r i.
          bind-Ends Unit (λ s. IsHonest s.trace) Wiped (λ _ s. IsRight s) (wait w at >> clear w) _ r
            (bind-Ends Unit (λ s. IsHonest s.trace) (λ _ s. IsRight s) Wiped (wait w at) _ r
              ((neutral-KeepsRight w _ (wait-IsNeutral w at)).ends r i) (λ _ s e. clear-Wiped s e))
            (λ d s c.
              bind-Ends Unit (λ s. IsHonest s.trace) (λ _ s. IsRight s) (λ _ s. IsRight s)
                (report_sweep w participants inject fuel slot d s.healed) _ s
                (report_sweep-IsRight d s.healed s c refl)
                (λ _ u e. (neutral-KeepsRight w _ (repeer-IsNeutral w participants)).ends u e));
    }

    start_op-KeepsRight :
        (a : Action) (o : Op) → KeepsRight (start_op w participants inject fuel slot a o)
    unfolding start_op is_verdict
    start_op-KeepsRight a o =
        bind-KeepsRight
          ((prepare w participants inject fuel slot a.at o.class >> wait w a.at) >> now w) _
          (neutral-KeepsRight w _ (
            bind-IsNeutral (prepare w participants inject fuel slot a.at o.class >> wait w a.at) _
              (bind-IsNeutral (prepare w participants inject fuel slot a.at o.class) _
                (prepare-IsNeutral w participants inject fuel slot a.at o.class)
                (λ _. wait-IsNeutral w a.at))
              (λ _. now-IsNeutral w)))
          (λ t.
            if-KeepsRight (stale_at a t)
              (neutral-KeepsRight w _
                (log-IsNeutral skip (first_victim o.victims) no_finding (stale o.name) refl))
              (isolate_op-KeepsRight a.at o))

    end_op-KeepsRight : (at : ℕ) (o : Op) → KeepsRight (end_op w participants inject fuel slot at o)
    unfolding end_op look_applied is_verdict
    end_op-KeepsRight at o =
        bind-KeepsRight (wait w at >> look_applied o.name) _
          (bind-KeepsRight (wait w at) _ (neutral-KeepsRight w _ (wait-IsNeutral w at))
            (λ _. record { ends = λ r i. i }))
          (λ on.
            if-KeepsRight (not on)
              (neutral-KeepsRight w _
                (log_all-IsNeutral skip (λ v. never_applied o.name) o.victims (λ v. refl)))
              (heal_op-KeepsRight o))

    perform_kind-KeepsRight :
        (k : ActionKind) (o : Option Op) (a : Action)
        → KeepsRight (perform_kind w participants inject fuel slot k o a)
    unfolding perform_kind
    perform_kind-KeepsRight op_start (some o) a = start_op-KeepsRight a o
    perform_kind-KeepsRight op_end (some o) a = end_op-KeepsRight a.at o
    perform_kind-KeepsRight sweep o a = sweep_now-KeepsRight a.at
    perform_kind-KeepsRight op_start none a = record { ends = λ r i. i }
    perform_kind-KeepsRight op_end none a = record { ends = λ r i. i }

    perform_all-KeepsRight :
        (as' : List Action) → KeepsRight (perform_all w participants inject fuel slot as')
    unfolding perform_all perform
    perform_all-KeepsRight [] = record { ends = λ r i. i }
    perform_all-KeepsRight (a ∷ as') =
        bind-KeepsRight (perform w participants inject fuel slot a) _
          (perform_kind-KeepsRight a.kind a.op a) (λ _. perform_all-KeepsRight as')

  finish-KeepsRight : (quiet : ℕ) → KeepsRight (finish w quiet)
  unfolding finish is_verdict
  finish-KeepsRight quiet =
      bind-KeepsRight (sleep_until w quiet) _
        (neutral-KeepsRight w _ (sleep_until-IsNeutral w quiet))
        (λ awake.
          if-KeepsRight awake
            (neutral-KeepsRight w _ (log-IsNeutral pause none no_finding complete refl))
            (record { ends = λ r i. i.honest }))

  pub execute-KeepsRight :
      (participants : ℕ) (inject : Bool) (fuel : ℕ) (s : Schedule)
      → KeepsRight (execute w participants inject fuel s)
  unfolding execute
  execute-KeepsRight participants inject fuel s =
      bind-KeepsRight
        (skip_refused s.ops >> perform_all w participants inject fuel s.slot_seconds (actions s)) _
        (bind-KeepsRight (skip_refused s.ops) _
          (neutral-KeepsRight w _ (skip_refused-IsNeutral s.ops))
          (λ _. perform_all-KeepsRight participants inject fuel s.slot_seconds (actions s)))
        (λ _. finish-KeepsRight s.quiet)
