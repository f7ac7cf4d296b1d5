-- ===== src/Driver/Hold.antt =====
-- The wait of a straddle's heal (cmd/migration-chaos/main.go: holdUntilCrossed).
use pbt_devnet.Prelude.{
  ℕ, zero, suc, ◌+◌, Bool, true, false, not, none, some, List, [], ◌∷◌, ltb, ◌==◌, some_of,
  if◌then◌else◌,
}
use pbt_devnet.Migmon.{warn, isolate, pause, no_finding}
use pbt_devnet.Driver.{
  World, Step, Probe, unreachable, answers, ◌>>=◌, ◌>>◌, give, log, probe, now, sleep_until, quit,
  stuck, probe_failed, crossed_fork, waiting_for,
}

unfoldable pub has : ℕ → List ℕ → Bool
has v vs = some_of (λ x. x == v) vs

-- The sets that the loop fills.
pub record Hold : Type 0 where
  pub crossed : List ℕ
  pub reached : List ℕ
  pub warned : List ℕ
  pub paused : Bool

module _ (w : World) where
  unfoldable pub probe_answer : ℕ → Hold → Probe → Step (Hold × Bool)
  unfolding log has
  probe_answer v h unreachable =
      if has v h.warned
      then give (h, true)
      else (log warn (some v) no_finding probe_failed
          >> give (record h { warned = v ∷ h.warned }, true))
  probe_answer v h (answers true) =
      log isolate (some v) no_finding crossed_fork
      >> give (record h { reached = v ∷ h.reached; crossed = v ∷ h.crossed }, false)
  probe_answer v h (answers false) = give (record h { reached = v ∷ h.reached }, true)

  -- One victim's turn in a round: the sets, and whether it still waits.
  unfoldable pub probe_one : ℕ → Hold → Step (Hold × Bool)
  unfolding probe has probe_answer
  probe_one v h = if has v h.crossed then give (h, false) else (probe w v >>= probe_answer v h)

  -- The loop over the victims, with those that still wait.
  unfoldable pub probe_all : List ℕ → Hold → Step (Hold × List ℕ)
  unfolding probe_one
  probe_all [] h = give (h, [])
  probe_all (v ∷ vs) h =
      probe_one v h >>= λ r. probe_all vs r.0 >>= λ s. give (s.0, if r.1 then v ∷ s.1 else s.1)

  unfoldable pub announce : List ℕ → Hold → Step Hold
  unfolding log
  announce waiting h =
      if h.paused
      then give h
      else (log pause none no_finding (waiting_for waiting) >> give (record h { paused = true }))

  -- `len(waiting) == 0 || !now().Before(o.HoldUntil)`; the clock is read only if some wait.
  unfoldable pub is_over : (hold_until : ℕ) → List ℕ → Step Bool
  unfolding now
  is_over hold_until [] = give true
  is_over hold_until (v ∷ vs) = now w >>= λ t. give (not (ltb t hold_until))

  -- The sleep of one slot; an interrupted hold clears and ends the run.
  unfoldable pub sleep_slot : (slot_seconds : ℕ) → Step (Unit {0})
  unfolding now sleep_until quit
  sleep_slot slot_seconds =
      now w >>= λ t. sleep_until w (t + slot_seconds) >>= λ awake. if awake then give tt else quit w

  unfoldable pub hold : (fuel slot_seconds hold_until : ℕ) → List ℕ → Hold → Step Hold
  unfolding probe_all announce is_over sleep_slot
  hold zero slot_seconds hold_until victims h = λ _. stuck
  hold (suc fuel) slot_seconds hold_until victims h = probe_all victims h >>= λ r.
      is_over hold_until r.1 >>= λ over. elim over [
        | true ↦ give r.0
        | false ↦ announce r.1 r.0 >>= λ h'.
            sleep_slot slot_seconds >>= λ _. hold fuel slot_seconds hold_until victims h'
      ]

unfoldable pub no_one : Hold
no_one = record { crossed = []; reached = []; warned = []; paused = false }
