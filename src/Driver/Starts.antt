-- ===== src/Driver/Starts.antt =====
-- The driver's requests to split, against the schedule (cmd/migration-chaos/main.go: execute).
use pbt_devnet.Prelude.{
  ℕ, ◌≡◌, refl, sym, ap, subst, inl, inr, Bool, true, false, not, Option, none, some, List, [], ◌∷◌,
  All, Some, Some-map, All-of_members, Some-member, if◌then◌else◌, arith,
}
use pbt_devnet.Schedule.{Op, Schedule, admitted}
use pbt_devnet.Schedule.Actions.{
  ActionKind, Action, op_start, op_end, sweep, sweep_of, stale_at, actions,
}
use pbt_devnet.Schedule.Actions.Content.{OfOp, actions-Some}
use pbt_devnet.Migmon.{warn, heal, isolate, skip, pause, no_finding}
use pbt_devnet.Driver.{
  World, Run, ◌>>◌, read_clock, asked_partition, log, log_all, islands, now, clear, partition, wait,
  sleep_until, repeer, isolated, partition_failed, stale, never_applied, heal_failed, complete,
}
use pbt_devnet.Driver.Hold.{Hold}
use pbt_devnet.Driver.Execute.{
  look_applied, set_applied, look_healed, set_healed, first_victim, heal_note, skip_refused,
  prepare, write_split, isolate_op, start_op, hold_op, heal_op, end_op, report_sweep, sweep_now,
  perform, perform_kind, perform_all, finish, execute, start_run,
}
use pbt_devnet.Driver.Neutral.{
  Ends, bind-Ends, is_verdict, bind-IsNeutral, log-IsNeutral, log_all-IsNeutral,
  sleep_until-IsNeutral,
}
use pbt_devnet.Driver.Quiet.{wait-IsNeutral, repeer-IsNeutral}
use pbt_devnet.Driver.Parts.{
  heal_note-quiet, skip_refused-IsNeutral, prepare-IsNeutral, write_split-IsNeutral,
  hold_op-IsNeutral,
}
use pbt_devnet.Driver.Plan.{
  islands-IsSplit, IsFor, Asked, IsPlanned, KeepsPlan, neutral-KeepsPlan, bind-KeepsPlan,
  if-KeepsPlan, clear-KeepsPlan, Woken, Awake, wait-Awake,
}

-- A start of an op of the schedule.
abbrev StartOf : List Op → ActionKind → Option Op → ℕ → Type 0
StartOf ops op_start (some o) at = (admitted o ≡ true) × (at ≡ o.start) × Some (λ p. p ≡ o) ops
StartOf ops _ _ at = Unit

module _ (participants : ℕ) (ops : List Op) (w : World) (inject : Bool) (fuel slot : ℕ) where
  isolate_op-IsPlanned :
      (at t : ℕ) (o : Op) (r : Run)
      → Some (IsFor participants ops o.name (islands participants o) at t) ops
      → Woken participants ops at t r
      → Ends Unit
          (λ s. IsPlanned participants ops s.trace)
          (λ _ s. IsPlanned participants ops s.trace)
          (isolate_op w participants inject fuel slot at o r)
  unfolding isolate_op partition set_applied IsPlanned Asked is_verdict
  isolate_op-IsPlanned at t o r f k =
      by_answer (w.partitions r.trace o.name (islands participants o))
    where
      asked : Asked participants ops o.name (islands participants o) r.trace
      asked = subst (Asked participants ops o.name (islands participants o)) (sym k.2) f

      rest : KeepsPlan participants ops (
          log_all isolate (λ v. isolated o.class o.start o.end) o.victims
          >> write_split w participants inject fuel slot at o.class)
      rest = neutral-KeepsPlan participants ops w _ (
          bind-IsNeutral (log_all isolate (λ v. isolated o.class o.start o.end) o.victims) _
            (log_all-IsNeutral isolate (λ v. isolated o.class o.start o.end) o.victims (λ v. refl))
            (λ _. write_split-IsNeutral w participants inject fuel slot at o.class))

      failed : KeepsPlan participants ops (log_all warn (λ v. partition_failed) o.victims)
      failed =
          neutral-KeepsPlan participants ops w _
            (log_all-IsNeutral warn (λ v. partition_failed) o.victims (λ v. refl))

      by_answer :
          (d : Bool)
          → Ends Unit
              (λ s. IsPlanned participants ops s.trace)
              (λ _ s. IsPlanned participants ops s.trace)
              ((if not d
                  then log_all warn (λ v. partition_failed) o.victims
                  else (set_applied o.name
                      >> log_all isolate (λ v. isolated o.class o.start o.end) o.victims
                      >> write_split w participants inject fuel slot at o.class))
                (record r { trace = asked_partition o.name (islands participants o) d ∷ r.trace }))
      by_answer true = rest.ends _ (asked, k.0)
      by_answer false = failed.ends _ (asked, k.0)

  IsFor-member :
      (a : Action) (o : Op) (t : ℕ)
      → a.kind ≡ op_start
      → a.op ≡ some o
      → StartOf ops op_start (some o) a.at
      → stale_at a t ≡ false
      → Some (IsFor participants ops o.name (islands participants o) a.at t) ops
  unfolding stale_at
  IsFor-member a o t hk ho h f =
      Some-map (λ p. p ≡ o) _
        (λ p e.
          subst (IsFor participants ops o.name (islands participants o) a.at t) (sym e) (record {
            admitted = h.0;
            name = refl;
            groups = islands-IsSplit participants o;
            on_time = h.1;
            open_still = ground arith;
          }))
        ops h.2

  start_op-KeepsPlan :
      (a : Action) (o : Op)
      → a.kind ≡ op_start
      → a.op ≡ some o
      → StartOf ops op_start (some o) a.at
      → KeepsPlan participants ops (start_op w participants inject fuel slot a o)
  unfolding start_op now IsPlanned is_verdict
  start_op-KeepsPlan a o hk ho h = record {
    ends = λ r i.
        bind-Ends Unit (λ s. IsPlanned participants ops s.trace)
          (λ t s. Woken participants ops a.at t s) (λ _ s. IsPlanned participants ops s.trace)
          ((prepare w participants inject fuel slot a.at o.class >> wait w a.at) >> now w) _ r
          (bind-Ends Unit (λ s. IsPlanned participants ops s.trace)
            (λ _ s. Awake participants ops a.at s) (λ t s. Woken participants ops a.at t s)
            (prepare w participants inject fuel slot a.at o.class >> wait w a.at) _ r
            (bind-Ends Unit (λ s. IsPlanned participants ops s.trace)
              (λ _ s. IsPlanned participants ops s.trace) (λ _ s. Awake participants ops a.at s)
              (prepare w participants inject fuel slot a.at o.class) _ r
              ((neutral-KeepsPlan participants ops w _
                  (prepare-IsNeutral w participants inject fuel slot a.at o.class)).ends
                r i)
              (λ _ s e. wait-Awake participants ops w a.at s e))
            (λ _ s e. (e.0, e.1, ap (λ t. read_clock (w.clock s.trace) ∷ t) e.2)))
          (λ t s e. by_age t s e (stale_at a t) refl);
  }
    where
      by_age :
          (t : ℕ) (s : Run)
          → Woken participants ops a.at t s
          → (b : Bool) → stale_at a t ≡ b
          → Ends Unit
              (λ s. IsPlanned participants ops s.trace)
              (λ _ s. IsPlanned participants ops s.trace)
              ((if b
                  then log skip (first_victim o.victims) no_finding (stale o.name)
                  else isolate_op w participants inject fuel slot a.at o)
                s)
      by_age t s e true k =
          (neutral-KeepsPlan participants ops w _
              (log-IsNeutral skip (first_victim o.victims) no_finding (stale o.name) refl)).ends
            s e.0
      by_age t s e false k = isolate_op-IsPlanned a.at t o s (IsFor-member a o t hk ho h k) e

  end_op-KeepsPlan :
      (at : ℕ) (o : Op) → KeepsPlan participants ops (end_op w participants inject fuel slot at o)
  unfolding end_op look_applied heal_op set_healed is_verdict
  end_op-KeepsPlan at o =
      bind-KeepsPlan participants ops (wait w at >> look_applied o.name) _
        (bind-KeepsPlan participants ops (wait w at) _
          (neutral-KeepsPlan participants ops w _ (wait-IsNeutral w at))
          (λ _. record { ends = λ r i. i }))
        (λ on.
          if-KeepsPlan participants ops (not on)
            (neutral-KeepsPlan participants ops w _
              (log_all-IsNeutral skip (λ v. never_applied o.name) o.victims (λ v. refl)))
            healing)
    where
      healed :
          (h : Option Hold)
          → KeepsPlan participants ops
              (set_healed >> log_all heal (heal_note h) o.victims >> repeer w participants)
      healed h =
          bind-KeepsPlan participants ops (set_healed >> log_all heal (heal_note h) o.victims) _
            (bind-KeepsPlan participants ops set_healed _ (record { ends = λ r i. i })
              (λ _.
                neutral-KeepsPlan participants ops w _
                  (log_all-IsNeutral heal (heal_note h) o.victims (heal_note-quiet h))))
            (λ _. neutral-KeepsPlan participants ops w _ (repeer-IsNeutral w participants))

      healing : KeepsPlan participants ops (heal_op w participants inject fuel slot o)
      healing =
          bind-KeepsPlan participants ops (hold_op w participants inject fuel slot o) _
            (neutral-KeepsPlan participants ops w _
              (hold_op-IsNeutral w participants inject fuel slot o))
            (λ h.
              bind-KeepsPlan participants ops (clear w) _ (clear-KeepsPlan participants ops w)
                (λ done.
                  if-KeepsPlan participants ops (not done)
                    (neutral-KeepsPlan participants ops w _
                      (log-IsNeutral warn none no_finding heal_failed refl))
                    (healed h)))

  sweep_now-KeepsPlan :
      (at : ℕ) → KeepsPlan participants ops (sweep_now w participants inject fuel slot at)
  unfolding sweep_now look_healed report_sweep set_healed IsPlanned log is_verdict
  sweep_now-KeepsPlan at =
      bind-KeepsPlan participants ops (wait w at >> clear w) _
        (bind-KeepsPlan participants ops (wait w at) _
          (neutral-KeepsPlan participants ops w _ (wait-IsNeutral w at))
          (λ _. clear-KeepsPlan participants ops w))
        (λ done.
          bind-KeepsPlan participants ops look_healed _ (record { ends = λ r i. i })
            (λ healed.
              bind-KeepsPlan participants ops
                (report_sweep w participants inject fuel slot done healed) _ (reported done healed)
                (λ _. neutral-KeepsPlan participants ops w _ (repeer-IsNeutral w participants))))
    where
      reported :
          (d h : Bool)
          → KeepsPlan participants ops (report_sweep w participants inject fuel slot d h)
      reported false h = record { ends = λ r i. i }
      reported true false = record { ends = λ r i. i }
      reported true true = record { ends = λ r i. i }

  perform_kind-KeepsPlan :
      (k : ActionKind) (o : Option Op) (a : Action)
      → a.kind ≡ k
      → a.op ≡ o
      → StartOf ops k o a.at
      → KeepsPlan participants ops (perform_kind w participants inject fuel slot k o a)
  unfolding perform_kind
  perform_kind-KeepsPlan op_start (some o) a hk ho h = start_op-KeepsPlan a o hk ho h
  perform_kind-KeepsPlan op_end (some o) a hk ho h = end_op-KeepsPlan a.at o
  perform_kind-KeepsPlan sweep o a hk ho h = sweep_now-KeepsPlan a.at
  perform_kind-KeepsPlan op_start none a hk ho h = record { ends = λ r i. i }
  perform_kind-KeepsPlan op_end none a hk ho h = record { ends = λ r i. i }

  perform_all-KeepsPlan :
      (as' : List Action)
      → All (λ a. StartOf ops a.kind a.op a.at) as'
      → KeepsPlan participants ops (perform_all w participants inject fuel slot as')
  unfolding perform_all perform
  perform_all-KeepsPlan [] h = record { ends = λ r i. i }
  perform_all-KeepsPlan (a ∷ as') h =
      bind-KeepsPlan participants ops (perform w participants inject fuel slot a) _
        (perform_kind-KeepsPlan a.kind a.op a refl refl h.0) (λ _. perform_all-KeepsPlan as' h.1)

  finish-KeepsPlan : (quiet : ℕ) → KeepsPlan participants ops (finish w quiet)
  unfolding finish is_verdict
  finish-KeepsPlan quiet =
      bind-KeepsPlan participants ops (sleep_until w quiet) _
        (neutral-KeepsPlan participants ops w _ (sleep_until-IsNeutral w quiet))
        (λ awake.
          if-KeepsPlan participants ops awake
            (neutral-KeepsPlan participants ops w _
              (log-IsNeutral pause none no_finding complete refl))
            (record { ends = λ r i. i }))

actions-StartOf : (s : Schedule) → All (λ a. StartOf s.ops a.kind a.op a.at) (actions s)
actions-StartOf s =
    let Fits : Action → Type 0 = λ a. StartOf s.ops a.kind a.op a.at in
    All-of_members Fits (actions s) (λ a m. elim ((actions-Some (λ b. b ≡ a) s).0 m) [
      | inl h ↦
          let (o, n, k) = Some-member (OfOp (λ b. b ≡ a)) s.ops h in
          elim k.1 [ inl e ↦ subst Fits e (k.0, refl, n) | inr e ↦ subst Fits e tt ]
      | inr h ↦ let (f, n, e) = Some-member (λ f. sweep_of f ≡ a) s.failsafes h in subst Fits e tt
    ])

-- Every split that the driver asks for is of an admitted op of the schedule, by its name and with
-- the groups that it prescribes (the participants that are no victims, and its victims, each alone if
-- its islands are mutual), when the driver has slept until its start and has just read a
-- clock that stands before its end; whatever the answers, wherever the run stops, and unless a hold
-- has run out of fuel.
pub execute-IsPlanned :
    (w : World) (participants : ℕ) (inject : Bool) (fuel : ℕ) (s : Schedule)
    → Ends Unit
        (λ r. IsPlanned participants s.ops r.trace)
        (λ _ r. IsPlanned participants s.ops r.trace)
        (execute w participants inject fuel s start_run)
unfolding execute IsPlanned start_run
execute-IsPlanned w participants inject fuel s =
    (bind-KeepsPlan participants s.ops
        (skip_refused s.ops >> perform_all w participants inject fuel s.slot_seconds (actions s)) _
        (bind-KeepsPlan participants s.ops (skip_refused s.ops) _
          (neutral-KeepsPlan participants s.ops w _ (skip_refused-IsNeutral s.ops))
          (λ _.
            perform_all-KeepsPlan participants s.ops w inject fuel s.slot_seconds (actions s)
              (actions-StartOf s)))
        (λ _. finish-KeepsPlan participants s.ops w inject fuel s.slot_seconds s.quiet)).ends
      start_run tt
