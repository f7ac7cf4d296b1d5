-- ===== src/Driver/Running.antt =====
-- The turns of the driver's loop under a clock that goes on (cmd/migration-chaos/main.go: execute).
use pbt_devnet.Prelude.{
  ℕ, ◌≤◌, ◌≡◌, refl, subst, inl, inr, Bool, true, false, not, Option, none, some, List, [], ◌∷◌,
  arith, All, All-Some, All-of_members, Some-member, if◌then◌else◌,
}
use pbt_devnet.Schedule.{Op, Schedule}
use pbt_devnet.Schedule.Resolve.Timing.{IsTimed}
use pbt_devnet.Schedule.Actions.{
  ActionKind, Action, op_start, op_end, sweep, sweep_of, stale_at, actions,
}
use pbt_devnet.Schedule.Actions.Content.{OfOp, actions-Some}
use pbt_devnet.Migmon.{warn, heal, isolate, skip, pause, no_finding}
use pbt_devnet.Driver.{
  World, Run, Step, ◌>>=◌, ◌>>◌, give, slept, asked_clear, log, log_all, islands, now, clear,
  partition, wait, sleep_until, quit, repeer, isolated, partition_failed, stale, never_applied,
  heal_failed, complete,
}
use pbt_devnet.Driver.Hold.{Hold, hold, no_one}
use pbt_devnet.Driver.Execute.{
  look_applied, set_applied, look_healed, set_healed, first_victim, heal_note, skip_refused,
  prepare, isolate_op, start_op, hold_op, heal_op, end_op, report_sweep, sweep_now, perform,
  perform_kind, perform_all, finish, execute,
}
use pbt_devnet.Driver.Neutral.{
  Ends, bind-Ends, Ends-map, is_verdict, bind-IsNeutral, log-IsNeutral, log_all-IsNeutral,
  sleep_until-IsNeutral, now-IsNeutral,
}
use pbt_devnet.Driver.Quiet.{wait-IsNeutral, repeer-IsNeutral}
use pbt_devnet.Driver.Parts.{
  heal_note-quiet, skip_refused-IsNeutral, prepare-IsNeutral, write_split-IsNeutral,
}
use pbt_devnet.Driver.Clock.{IsClock, Anywhere, Later, Runs, neutral-Runs, bind-Runs, if-Runs}
use pbt_devnet.Driver.Crossing.{Settled, hold-Settled}

-- An end stands where its op ends, and the op is held no longer than two minutes from there.
abbrev Timely : ActionKind → Option Op → ℕ → Type 0
Timely op_end (some o) at = (at ≡ o.end) × IsTimed o
Timely _ _ at = Unit

actions-Timely : (s : Schedule) → All IsTimed s.ops → All (λ a. Timely a.kind a.op a.at) (actions s)
actions-Timely s h =
    let Fits : Action → Type 0 = λ a. Timely a.kind a.op a.at in
    All-of_members Fits (actions s) (λ a m. elim ((actions-Some (λ b. b ≡ a) s).0 m) [
      | inl k ↦
          let (o, t, n) = All-Some IsTimed (OfOp (λ b. b ≡ a)) s.ops h k in
          elim n.1 [ inl e ↦ subst Fits e tt | inr e ↦ subst Fits e (refl, t) ]
      | inr k ↦ let (f, n, e) = Some-member (λ f. sweep_of f ≡ a) s.failsafes k in subst Fits e tt
    ])

module _ (w : World) (clock : IsClock w) (participants : ℕ) (inject : Bool) (fuel slot : ℕ)
    (long : 121 ≤ fuel) (slots : 1 ≤ slot) where
  wait-Reached :
      (at : ℕ) (r : Run)
      → Ends ⊥ Anywhere (λ _ s. Later w clock r s × (at ≤ w.clock s.trace)) (wait w at r)
  unfolding wait sleep_until quit clear
  wait-Reached at r = by_answer (w.awake r.trace at)
    where
      by_answer :
          (b : Bool)
          → Ends ⊥ Anywhere
              (λ _ s. Later w clock r s × (at ≤ w.clock s.trace))
              ((if b then give tt else quit w) (record r { trace = slept at b ∷ r.trace }))
      by_answer true = (clock.onward (slept at true) r.trace, clock.after_sleep at r.trace)
      by_answer false = tt

  clear-Runs : Runs w clock (clear w)
  unfolding clear
  clear-Runs = record { ends = λ r. clock.onward (asked_clear (w.clears r.trace)) r.trace }

  isolate_op-Runs :
      (at : ℕ) (o : Op) → Runs w clock (isolate_op w participants inject fuel slot at o)
  unfolding isolate_op partition set_applied is_verdict
  isolate_op-Runs at o =
      bind-Runs w clock (partition w o.name (islands participants o)) _
        (record { ends = λ r. clock.onward _ r.trace })
        (λ done.
          if-Runs w clock (not done)
            (neutral-Runs w clock _
              (log_all-IsNeutral warn (λ v. partition_failed) o.victims (λ v. refl)))
            (bind-Runs w clock
              (set_applied o.name
                >> log_all isolate (λ v. isolated o.class o.start o.end) o.victims)
              _
              (bind-Runs w clock (set_applied o.name) _ (record { ends = λ r. omega arith })
                (λ _. neutral-Runs w clock _ (
                  log_all-IsNeutral isolate (λ v. isolated o.class o.start o.end) o.victims
                    (λ v. refl))))
              (λ _.
                neutral-Runs w clock _
                  (write_split-IsNeutral w participants inject fuel slot at o.class))))

  start_op-Runs :
      (a : Action) (o : Op) → Runs w clock (start_op w participants inject fuel slot a o)
  unfolding start_op is_verdict
  start_op-Runs a o =
      bind-Runs w clock
        ((prepare w participants inject fuel slot a.at o.class >> wait w a.at) >> now w) _
        (neutral-Runs w clock _ (
          bind-IsNeutral (prepare w participants inject fuel slot a.at o.class >> wait w a.at) _
            (bind-IsNeutral (prepare w participants inject fuel slot a.at o.class) _
              (prepare-IsNeutral w participants inject fuel slot a.at o.class)
              (λ _. wait-IsNeutral w a.at))
            (λ _. now-IsNeutral w)))
        (λ t.
          if-Runs w clock (stale_at a t)
            (neutral-Runs w clock _
              (log-IsNeutral skip (first_victim o.victims) no_finding (stale o.name) refl))
            (isolate_op-Runs a.at o))

  report_sweep-Runs : (d h : Bool) → Runs w clock (report_sweep w participants inject fuel slot d h)
  unfolding report_sweep set_healed log
  report_sweep-Runs false h = record { ends = λ r. clock.onward _ r.trace }
  report_sweep-Runs true false = record { ends = λ r. clock.onward _ r.trace }
  report_sweep-Runs true true = record { ends = λ r. clock.onward _ r.trace }

  sweep_now-Runs : (at : ℕ) → Runs w clock (sweep_now w participants inject fuel slot at)
  unfolding sweep_now look_healed
  sweep_now-Runs at =
      bind-Runs w clock (wait w at >> clear w) _
        (bind-Runs w clock (wait w at) _ (neutral-Runs w clock _ (wait-IsNeutral w at))
          (λ _. clear-Runs))
        (λ done.
          bind-Runs w clock look_healed _ (record { ends = λ r. omega arith })
            (λ healed.
              bind-Runs w clock (report_sweep w participants inject fuel slot done healed) _
                (report_sweep-Runs done healed)
                (λ _. neutral-Runs w clock _ (repeer-IsNeutral w participants))))

  hold_op-Ends :
      (o : Op) (r : Run)
      → IsTimed o
      → o.end ≤ w.clock r.trace
      → Ends ⊥ Anywhere (λ _ s. Later w clock r s) (hold_op w participants inject fuel slot o r)
  unfolding hold_op
  hold_op-Ends o r t e = by_hold o.hold_until refl
    where
      by_hold :
          (u : Option ℕ)
          → o.hold_until ≡ u
          → Ends ⊥ Anywhere
              (λ _ s. Later w clock r s)
              (let m : Step (Option Hold) = elim u [
                | none ↦ give none
                | some u ↦ hold w fuel slot u o.victims no_one >>= λ h. give (some h)
              ] in
                m r)
      by_hold none k = omega arith
      by_hold (some u) k =
          bind-Ends ⊥ Anywhere (λ h s. Later w clock r s × Settled u o.victims h s.trace)
            (λ _ s. Later w clock r s) (hold w fuel slot u o.victims no_one) _ r
            (hold-Settled w clock fuel slot u o.victims no_one r slots (omega arith)
              (omega (arith, t.held u k)))
            (λ h s l. l.0)

  heal_op-Ends :
      (o : Op) (r : Run)
      → IsTimed o
      → o.end ≤ w.clock r.trace
      → Ends ⊥ Anywhere (λ _ s. Later w clock r s) (heal_op w participants inject fuel slot o r)
  unfolding heal_op set_healed is_verdict
  heal_op-Ends o r t e =
      bind-Ends ⊥ Anywhere (λ _ s. Later w clock r s) (λ _ s. Later w clock r s)
        (hold_op w participants inject fuel slot o) _ r (hold_op-Ends o r t e)
        (λ h s l.
          Ends-map ⊥ Anywhere Anywhere (λ _ u. Later w clock s u) (λ _ u. Later w clock r u) _
            (λ _ _. tt) (λ _ u m. omega arith) ((healing h).ends s))
    where
      healing :
          (h : Option Hold)
          → Runs w clock (
              clear w >>= λ done.
              if not done
              then log warn none no_finding heal_failed
              else (set_healed >> log_all heal (heal_note h) o.victims >> repeer w participants))
      healing h = bind-Runs w clock (clear w) _ clear-Runs (λ done.
          if-Runs w clock (not done)
            (neutral-Runs w clock _ (log-IsNeutral warn none no_finding heal_failed refl))
            (bind-Runs w clock (set_healed >> log_all heal (heal_note h) o.victims) _
              (bind-Runs w clock set_healed _ (record { ends = λ r. omega arith })
                (λ _.
                  neutral-Runs w clock _
                    (log_all-IsNeutral heal (heal_note h) o.victims (heal_note-quiet h))))
              (λ _. neutral-Runs w clock _ (repeer-IsNeutral w participants))))

  end_op-Runs :
      (at : ℕ) (o : Op)
      → at ≡ o.end
      → IsTimed o
      → Runs w clock (end_op w participants inject fuel slot at o)
  unfolding end_op look_applied is_verdict
  end_op-Runs at o e t = record {
    ends = λ r.
        bind-Ends ⊥ Anywhere (λ _ s. Later w clock r s × (at ≤ w.clock s.trace))
          (λ _ s. Later w clock r s) (wait w at >> look_applied o.name) _ r
          (bind-Ends ⊥ Anywhere (λ _ s. Later w clock r s × (at ≤ w.clock s.trace))
            (λ _ s. Later w clock r s × (at ≤ w.clock s.trace)) (wait w at) _ r (wait-Reached at r)
            (λ _ s l. l))
          (λ on s l.
            Ends-map ⊥ Anywhere Anywhere (λ _ u. Later w clock s u) (λ _ u. Later w clock r u) _
              (λ _ _. tt) (λ _ u m. omega (arith, l.0)) (by_applied on s (omega (arith, l.1))));
  }
    where
      by_applied :
          (on : Bool) (s : Run)
          → o.end ≤ w.clock s.trace
          → Ends ⊥ Anywhere
              (λ _ u. Later w clock s u)
              ((if not on
                  then log_all skip (λ v. never_applied o.name) o.victims
                  else heal_op w participants inject fuel slot o)
                s)
      by_applied true s l = heal_op-Ends o s t l
      by_applied false s l =
          (neutral-Runs w clock _
              (log_all-IsNeutral skip (λ v. never_applied o.name) o.victims (λ v. refl))).ends
            s

  perform_kind-Runs :
      (k : ActionKind) (o : Option Op) (a : Action)
      → Timely k o a.at
      → Runs w clock (perform_kind w participants inject fuel slot k o a)
  unfolding perform_kind
  perform_kind-Runs op_start (some o) a h = start_op-Runs a o
  perform_kind-Runs op_end (some o) a h = end_op-Runs a.at o h.0 h.1
  perform_kind-Runs sweep o a h = sweep_now-Runs a.at
  perform_kind-Runs op_start none a h = record { ends = λ r. omega arith }
  perform_kind-Runs op_end none a h = record { ends = λ r. omega arith }

  perform_all-Runs :
      (as' : List Action)
      → All (λ a. Timely a.kind a.op a.at) as'
      → Runs w clock (perform_all w participants inject fuel slot as')
  unfolding perform_all perform
  perform_all-Runs [] h = record { ends = λ r. omega arith }
  perform_all-Runs (a ∷ as') h =
      bind-Runs w clock (perform w participants inject fuel slot a) _
        (perform_kind-Runs a.kind a.op a h.0) (λ _. perform_all-Runs as' h.1)

  finish-Runs : (quiet : ℕ) → Runs w clock (finish w quiet)
  unfolding finish is_verdict
  finish-Runs quiet =
      bind-Runs w clock (sleep_until w quiet) _
        (neutral-Runs w clock _ (sleep_until-IsNeutral w quiet))
        (λ awake.
          if-Runs w clock awake
            (neutral-Runs w clock _ (log-IsNeutral pause none no_finding complete refl))
            (record { ends = λ r. tt }))

pub execute-Runs :
    (w : World) (clock : IsClock w) (participants : ℕ) (inject : Bool) (fuel : ℕ) (s : Schedule)
    → 121 ≤ fuel
    → 1 ≤ s.slot_seconds
    → All IsTimed s.ops
    → Runs w clock (execute w participants inject fuel s)
unfolding execute
execute-Runs w clock participants inject fuel s long slots h =
    bind-Runs w clock
      (skip_refused s.ops >> perform_all w participants inject fuel s.slot_seconds (actions s)) _
      (bind-Runs w clock (skip_refused s.ops) _
        (neutral-Runs w clock _ (skip_refused-IsNeutral s.ops))
        (λ _.
          perform_all-Runs w clock participants inject fuel s.slot_seconds long slots (actions s)
            (actions-Timely s h)))
      (λ _. finish-Runs w clock participants inject fuel s.slot_seconds long slots s.quiet)
