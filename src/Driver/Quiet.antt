-- ===== src/Driver/Quiet.antt =====
-- The waits of the driver, its re-peering and the hold of a straddle, as calls to disruptoor
-- (cmd/migration-chaos/main.go: wait, repeer, holdUntilCrossed).
use pbt_devnet.Prelude.{
  ℕ, zero, suc, ◌+◌, refl, Bool, true, false, not, none, some, List, [], ◌∷◌, ltb, if◌then◌else◌,
}
use pbt_devnet.Migmon.{warn, heal, isolate, pause, no_finding}
use pbt_devnet.Driver.{
  World, Step, Probe, ask_repeer, log, now, wait, sleep_until, repeer, probe, unreachable, answers,
  probe_failed, crossed_fork, waiting_for, repeered, repeer_failed,
}
use pbt_devnet.Driver.Hold.{
  Hold, has, hold, probe_answer, probe_one, probe_all, announce, is_over, sleep_slot,
}
use pbt_devnet.Driver.Neutral.{
  IsNeutral, bind-IsNeutral, give-IsNeutral, log-IsNeutral, now-IsNeutral, sleep_until-IsNeutral,
  quit-IsNeutral, probe-IsNeutral, ask_repeer-IsNeutral, is_verdict,
}

pub if-IsNeutral :
    {w : World} {U A : Type 0} (b : Bool) {m n : Step A}
    → IsNeutral w U m
    → IsNeutral w U n
    → IsNeutral w U (if b then m else n)
if-IsNeutral true h k = h
if-IsNeutral false h k = k

module _ (w : World) where
  pub wait-IsNeutral : {U : Type 0} (t : ℕ) → IsNeutral w U (wait w t)
  unfolding wait
  wait-IsNeutral t =
      bind-IsNeutral (sleep_until w t) _ (sleep_until-IsNeutral w t)
        (λ awake. if-IsNeutral awake (give-IsNeutral tt) (quit-IsNeutral w (Unit {0})))

  pub repeer-IsNeutral : {U : Type 0} (participants : ℕ) → IsNeutral w U (repeer w participants)
  unfolding repeer is_verdict
  repeer-IsNeutral participants = if-IsNeutral (ltb participants 2) (give-IsNeutral tt) (
      bind-IsNeutral (ask_repeer w) _ (ask_repeer-IsNeutral w) (λ done.
        if-IsNeutral done (log-IsNeutral heal none no_finding repeered refl)
          (log-IsNeutral warn none no_finding repeer_failed refl)))

  probe_answer-IsNeutral :
      {U : Type 0} (v : ℕ) (h : Hold) (p : Probe) → IsNeutral w U (probe_answer w v h p)
  unfolding probe_answer is_verdict
  probe_answer-IsNeutral v h unreachable =
      if-IsNeutral (has v h.warned) (give-IsNeutral (h, true)) (
        bind-IsNeutral (log warn (some v) no_finding probe_failed) _
          (log-IsNeutral warn (some v) no_finding probe_failed refl)
          (λ _. give-IsNeutral (record h { warned = v ∷ h.warned }, true)))
  probe_answer-IsNeutral v h (answers true) =
      bind-IsNeutral (log isolate (some v) no_finding crossed_fork) _
        (log-IsNeutral isolate (some v) no_finding crossed_fork refl)
        (λ _. give-IsNeutral (record h { reached = v ∷ h.reached; crossed = v ∷ h.crossed }, false))
  probe_answer-IsNeutral v h (answers false) =
      give-IsNeutral (record h { reached = v ∷ h.reached }, true)

  probe_one-IsNeutral : {U : Type 0} (v : ℕ) (h : Hold) → IsNeutral w U (probe_one w v h)
  unfolding probe_one
  probe_one-IsNeutral v h = if-IsNeutral (has v h.crossed) (give-IsNeutral (h, false)) (
      bind-IsNeutral (probe w v) (probe_answer w v h) (probe-IsNeutral w v)
        (probe_answer-IsNeutral v h))

  pub probe_all-IsNeutral : {U : Type 0} (vs : List ℕ) (h : Hold) → IsNeutral w U (probe_all w vs h)
  unfolding probe_all
  probe_all-IsNeutral [] h = give-IsNeutral (h, [])
  probe_all-IsNeutral (v ∷ vs) h =
      bind-IsNeutral (probe_one w v h) _ (probe_one-IsNeutral v h) (λ r.
        bind-IsNeutral (probe_all w vs r.0) _ (probe_all-IsNeutral vs r.0)
          (λ s. give-IsNeutral (s.0, if r.1 then v ∷ s.1 else s.1)))

  pub announce-IsNeutral :
      {U : Type 0} (waiting : List ℕ) (h : Hold) → IsNeutral w U (announce w waiting h)
  unfolding announce is_verdict
  announce-IsNeutral waiting h = if-IsNeutral h.paused (give-IsNeutral h) (
      bind-IsNeutral (log pause none no_finding (waiting_for waiting)) _
        (log-IsNeutral pause none no_finding (waiting_for waiting) refl)
        (λ _. give-IsNeutral (record h { paused = true })))

  is_over-IsNeutral : {U : Type 0} (t : ℕ) (waiting : List ℕ) → IsNeutral w U (is_over w t waiting)
  unfolding is_over
  is_over-IsNeutral t [] = give-IsNeutral true
  is_over-IsNeutral t (v ∷ vs) =
      bind-IsNeutral (now w) _ (now-IsNeutral w) (λ n. give-IsNeutral (not (ltb n t)))

  sleep_slot-IsNeutral : {U : Type 0} (slot : ℕ) → IsNeutral w U (sleep_slot w slot)
  unfolding sleep_slot
  sleep_slot-IsNeutral slot = bind-IsNeutral (now w) _ (now-IsNeutral w) (λ t.
      bind-IsNeutral (sleep_until w (t + slot)) _ (sleep_until-IsNeutral w (t + slot))
        (λ awake. if-IsNeutral awake (give-IsNeutral tt) (quit-IsNeutral w (Unit {0}))))

  pub hold-IsNeutral :
      (fuel slot hold_until : ℕ) (victims : List ℕ) (h : Hold)
      → IsNeutral w Unit (hold w fuel slot hold_until victims h)
  unfolding hold
  hold-IsNeutral zero slot hold_until victims h = record { ends = λ r. tt }
  hold-IsNeutral (suc fuel) slot hold_until victims h =
      bind-IsNeutral (probe_all w victims h) _ (probe_all-IsNeutral victims h) (λ r.
        bind-IsNeutral (is_over w hold_until r.1) _ (is_over-IsNeutral hold_until r.1) (elim [
          | true ↦ give-IsNeutral r.0
          | false ↦ bind-IsNeutral (announce w r.1 r.0) _ (announce-IsNeutral r.1 r.0) (λ h'.
              bind-IsNeutral (sleep_slot w slot) _ (sleep_slot-IsNeutral slot)
                (λ _. hold-IsNeutral fuel slot hold_until victims h'))
        ]))
