-- ===== src/Driver/Release.antt =====
-- The split in force at the turns of the driver's loop (cmd/migration-chaos/main.go: execute).
use pbt_devnet.Prelude.{
  ℕ, ◌≡◌, refl, ap, inl, inr, Bool, true, false, not, Option, none, some, List, [], ◌∷◌, Some,
  if◌then◌else◌,
}
use pbt_devnet.Schedule.{Op, Schedule}
use pbt_devnet.Schedule.Actions.{
  ActionKind, Action, op_start, op_end, sweep, end_of, stale_at, actions,
}
use pbt_devnet.Migmon.{warn, heal, isolate, skip, pause, no_finding}
use pbt_devnet.Driver.{
  World, Run, ◌>>◌, Trace, asked_partition, log, log_all, islands, now, clear, partition, wait,
  sleep_until, repeer, isolated, partition_failed, stale, never_applied, complete,
}
use pbt_devnet.Driver.Hold.{Hold}
use pbt_devnet.Driver.Execute.{
  is_applied, look_applied, set_applied, look_healed, set_healed, first_victim, heal_note,
  skip_refused, prepare, write_split, isolate_op, start_op, hold_op, heal_op, end_op, report_sweep,
  sweep_now, perform, perform_kind, perform_all, finish, execute, start_run,
}
use pbt_devnet.Driver.Neutral.{
  Ends, bind-Ends, Ends-map, is_verdict, bind-IsNeutral, log-IsNeutral, log_all-IsNeutral,
  sleep_until-IsNeutral, now-IsNeutral,
}
use pbt_devnet.Driver.Quiet.{wait-IsNeutral, repeer-IsNeutral}
use pbt_devnet.Driver.Parts.{
  heal_note-quiet, skip_refused-IsNeutral, prepare-IsNeutral, write_split-IsNeutral,
  hold_op-IsNeutral,
}
use pbt_devnet.Driver.Flag.{split}
use pbt_devnet.Driver.Pairing.{Paired}
use pbt_devnet.Driver.Held.{
  Free, Held, Held-Free, is_applied-head, drop-Held, Frees, neutral-Frees, bind-Frees, clear-Free,
  if-Frees, freed,
}

module _ (w : World) (works : (t : Trace) → w.clears t ≡ true) where
  module _ (participants : ℕ) (inject : Bool) (fuel slot : ℕ) where
    isolate_op-Held :
        (at : ℕ) (o : Op) (rest : List Action)
        → Some (λ b. b ≡ end_of o) rest
        → Frees w works rest rest (isolate_op w participants inject fuel slot at o)
    unfolding isolate_op partition set_applied split is_verdict
    isolate_op-Held at o rest m = record {
      ends = λ r i. by_answer r i (w.partitions r.trace o.name (islands participants o));
    }
      where
        written : Frees w works rest rest (
            log_all isolate (λ v. isolated o.class o.start o.end) o.victims
            >> write_split w participants inject fuel slot at o.class)
        written = neutral-Frees w works rest _ (
            bind-IsNeutral (log_all isolate (λ v. isolated o.class o.start o.end) o.victims) _
              (log_all-IsNeutral isolate (λ v. isolated o.class o.start o.end) o.victims
                (λ v. refl))
              (λ _. write_split-IsNeutral w participants inject fuel slot at o.class))

        failed : Frees w works rest rest (log_all warn (λ v. partition_failed) o.victims)
        failed =
            neutral-Frees w works rest _
              (log_all-IsNeutral warn (λ v. partition_failed) o.victims (λ v. refl))

        by_answer :
            (r : Run)
            → Held rest r
            → (d : Bool)
            → Ends Unit Free
                (λ _ s. Held rest s)
                ((if not d
                    then log_all warn (λ v. partition_failed) o.victims
                    else (set_applied o.name
                        >> log_all isolate (λ v. isolated o.class o.start o.end) o.victims
                        >> write_split w participants inject fuel slot at o.class))
                  (record r {
                    trace = asked_partition o.name (islands participants o) d ∷ r.trace;
                  }))
        by_answer r i true = written.ends _ (
            inr (record {
              of_op = o;
              in_force = refl;
              applied = is_applied-head o.name r.applied;
              ends = m;
            }))
        by_answer r (inl f) false = failed.ends _ (inl f)
        by_answer r (inr p) false = failed.ends _ (
            inr (record {
              of_op = p.of_op;
              in_force = p.in_force;
              applied = p.applied;
              ends = p.ends;
            }))

    start_op-Frees :
        (a : Action) (o : Op) (rest : List Action)
        → Some (λ b. b ≡ end_of o) rest
        → Frees w works rest rest (start_op w participants inject fuel slot a o)
    unfolding start_op is_verdict
    start_op-Frees a o rest m =
        bind-Frees w works rest rest rest
          ((prepare w participants inject fuel slot a.at o.class >> wait w a.at) >> now w) _
          (neutral-Frees w works rest _ (
            bind-IsNeutral (prepare w participants inject fuel slot a.at o.class >> wait w a.at) _
              (bind-IsNeutral (prepare w participants inject fuel slot a.at o.class) _
                (prepare-IsNeutral w participants inject fuel slot a.at o.class)
                (λ _. wait-IsNeutral w a.at))
              (λ _. now-IsNeutral w)))
          (λ t.
            if-Frees w works rest rest (stale_at a t)
              (neutral-Frees w works rest _
                (log-IsNeutral skip (first_victim o.victims) no_finding (stale o.name) refl))
              (isolate_op-Held a.at o rest m))

    -- A heal frees, whatever was in force.
    heal_op-Frees :
        (o : Op) (before after : List Action)
        → Frees w works before after (heal_op w participants inject fuel slot o)
    unfolding heal_op set_healed is_verdict
    heal_op-Frees o before after =
        bind-Frees w works before before after (hold_op w participants inject fuel slot o) _
          (neutral-Frees w works before _ (hold_op-IsNeutral w participants inject fuel slot o))
          (λ h. record {
            ends = λ r i.
                bind-Ends Unit Free (λ d s. (d ≡ true) × Free s) (λ _ s. Held after s) (clear w) _ r
                  (clear-Free w works r)
                  (elim [
                    | true ↦ λ s e. (said h).ends (record s { healed = true }) (inl e.1)
                    | false ↦ λ s e. absurd (cc)
                  ]);
          })
      where
        said :
            (h : Option Hold)
            → Frees w works after after
                (log_all heal (heal_note h) o.victims >> repeer w participants)
        said h = neutral-Frees w works after _ (
            bind-IsNeutral (log_all heal (heal_note h) o.victims) _
              (log_all-IsNeutral heal (heal_note h) o.victims (heal_note-quiet h))
              (λ _. repeer-IsNeutral w participants))

    end_op-Frees :
        (a : Action) (o : Op) (rest : List Action)
        → a.op ≡ some o
        → Frees w works (a ∷ rest) rest (end_op w participants inject fuel slot a.at o)
    unfolding end_op look_applied is_verdict
    end_op-Frees a o rest ho = record {
      ends = λ r i.
          bind-Ends Unit Free (λ on s. Held (a ∷ rest) s × (is_applied o.name s.applied ≡ on))
            (λ _ s. Held rest s) (wait w a.at >> look_applied o.name) _ r
            (bind-Ends Unit Free (λ _ s. Held (a ∷ rest) s)
              (λ on s. Held (a ∷ rest) s × (is_applied o.name s.applied ≡ on)) (wait w a.at) _ r
              ((neutral-Frees w works (a ∷ rest) _ (wait-IsNeutral w a.at)).ends r i)
              (λ _ s e. (e, refl)))
            (λ on s e. by_applied s e.0 on e.1);
    }
      where
        skipped : Frees w works rest rest (log_all skip (λ v. never_applied o.name) o.victims)
        skipped =
            neutral-Frees w works rest _
              (log_all-IsNeutral skip (λ v. never_applied o.name) o.victims (λ v. refl))

        by_applied :
            (r : Run)
            → Held (a ∷ rest) r
            → (on : Bool) → is_applied o.name r.applied ≡ on
            → Ends Unit Free
                (λ _ s. Held rest s)
                ((if not on
                    then log_all skip (λ v. never_applied o.name) o.victims
                    else heal_op w participants inject fuel slot o)
                  r)
        by_applied r i true e = (heal_op-Frees o (a ∷ rest) rest).ends r i
        by_applied r (inl f) false e = skipped.ends r (inl f)
        by_applied r (inr p) false e = elim p.ends [
          | inl z ↦
              let q : p.of_op ≡ o = let u = ap (λ b. b.op) z in cc in
              absurd
                (let k = ap (λ (x : Op). is_applied x.name r.applied) q in let l = p.applied in cc)
          | inr m ↦ skipped.ends r (
              inr
                (record { of_op = p.of_op; in_force = p.in_force; applied = p.applied; ends = m }))
        ]

    sweep_now-Frees :
        (at : ℕ) (before after : List Action)
        → Frees w works before after (sweep_now w participants inject fuel slot at)
    unfolding sweep_now look_healed report_sweep set_healed split log
    sweep_now-Frees at before after = record {
      ends = λ r i.
          bind-Ends Unit Free (λ d s. (d ≡ true) × Free s) (λ _ s. Held after s)
            (wait w at >> clear w) _ r
            (bind-Ends Unit Free (λ _ s. Held before s) (λ d s. (d ≡ true) × Free s) (wait w at) _ r
              ((neutral-Frees w works before _ (wait-IsNeutral w at)).ends r i)
              (λ _ s e. clear-Free w works s))
            (λ d s e.
              bind-Ends Unit Free (λ _ s. Free s) (λ _ s. Held after s)
                (report_sweep w participants inject fuel slot d s.healed) _ s
                (reported d s.healed s e.1)
                (λ _ u f. freed w works after _ (repeer-IsNeutral w participants) u f));
    }
      where
        reported :
            (d h : Bool) (s : Run)
            → Free s
            → Ends Unit Free (λ _ s. Free s) (report_sweep w participants inject fuel slot d h s)
        reported false h s f = f
        reported true false s f = f
        reported true true s f = f

    perform_kind-Frees :
        (k : ActionKind) (o : Option Op) (a : Action) (rest : List Action)
        → a.kind ≡ k
        → a.op ≡ o
        → ((p : Op) → a.kind ≡ op_start → a.op ≡ some p → Some (λ b. b ≡ end_of p) rest)
        → Frees w works (a ∷ rest) rest (perform_kind w participants inject fuel slot k o a)
    unfolding perform_kind
    perform_kind-Frees op_start (some o) a rest hk ho h = record {
      ends = λ r i.
          (start_op-Frees a o rest (h o hk ho)).ends r
            (drop-Held a rest r (λ p e. let u = ap (λ b. b.kind) e in cc) i);
    }
    perform_kind-Frees op_end (some o) a rest hk ho h = end_op-Frees a o rest ho
    perform_kind-Frees sweep o a rest hk ho h = sweep_now-Frees a.at (a ∷ rest) rest
    perform_kind-Frees op_start none a rest hk ho h = record {
      ends = λ r i. drop-Held a rest r (λ p e. let u = ap (λ b. b.kind) e in cc) i;
    }
    perform_kind-Frees op_end none a rest hk ho h = record {
      ends = λ r i. drop-Held a rest r (λ p e. let u = ap (λ b. b.op) e in cc) i;
    }

    perform_all-Frees :
        (as' : List Action)
        → Paired as'
        → Frees w works as' [] (perform_all w participants inject fuel slot as')
    unfolding perform_all perform
    perform_all-Frees [] h = record { ends = λ r i. i }
    perform_all-Frees (a ∷ as') h =
        bind-Frees w works (a ∷ as') as' [] (perform w participants inject fuel slot a) _
          (perform_kind-Frees a.kind a.op a as' refl refl h.0) (λ _. perform_all-Frees as' h.1)

  finish-Frees : (quiet : ℕ) → Frees w works [] [] (finish w quiet)
  unfolding finish is_verdict
  finish-Frees quiet =
      bind-Frees w works [] [] [] (sleep_until w quiet) _
        (neutral-Frees w works [] _ (sleep_until-IsNeutral w quiet))
        (λ awake.
          if-Frees w works [] [] awake
            (neutral-Frees w works [] _ (log-IsNeutral pause none no_finding complete refl))
            (record { ends = λ r i. Held-Free r i }))

  pub execute-Frees :
      (participants : ℕ) (inject : Bool) (fuel : ℕ) (s : Schedule)
      → Paired (actions s)
      → Ends Unit Free (λ _ r. Free r) (execute w participants inject fuel s start_run)
  unfolding execute start_run split
  execute-Frees participants inject fuel s h =
      Ends-map Unit Free Free (λ _ r. Held [] r) (λ _ r. Free r)
        (execute w participants inject fuel s start_run) (λ _ e. e) (λ _ r e. Held-Free r e)
        ((bind-Frees w works (actions s) [] []
            (skip_refused s.ops
              >> perform_all w participants inject fuel s.slot_seconds (actions s))
            _
            (bind-Frees w works (actions s) (actions s) [] (skip_refused s.ops) _
              (neutral-Frees w works (actions s) _ (skip_refused-IsNeutral s.ops))
              (λ _. perform_all-Frees participants inject fuel s.slot_seconds (actions s) h))
            (λ _. finish-Frees s.quiet)).ends
          start_run (inl refl))
