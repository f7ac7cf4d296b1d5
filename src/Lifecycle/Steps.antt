-- ===== src/Lifecycle/Steps.antt =====
-- What a push and a poll do to a lifecycle (lifecycle.go: apply, takeReset, derive).
use pbt_devnet.Prelude.{
  ℕ, ◌≤◌, ◌≡◌, refl, String, Bool, true, false, not, ◌&&◌, ◌||◌, ltb, Result, ok, err,
  if◌then◌else◌, arith,
}
use pbt_devnet.Prelude.Maps.{nat_key}
use pbt_devnet.Lifecycle.{
  Lifecycle, Offline, Pushed, StepError, unknown_node, unknown_step, is_producer_step,
  is_consumer_step, record_step, apply, emit, text,
}

abbrev pub IsParticipant : ℕ → Offline → Type 0
IsParticipant n o = (1 ≤ n) × (n ≤ o.participants)

abbrev pub is_step : String → Bool
is_step s = is_producer_step s || is_consumer_step s

module _ (now n : ℕ) (step : String) (anchor : ℕ) (hash detail : String) (o : Offline) where
  -- The three ends of a push.
  pub data Pushes : Result StepError (Offline × Pushed) → Type 0 where
    no_such_node : ¬ IsParticipant n o → Pushes (err (unknown_node n))
    no_such_step : IsParticipant n o → is_step step ≡ false → Pushes (err (unknown_step step))
    done :
        IsParticipant n o
        → is_step step ≡ true
        → (e : Pushed) → e.node ≡ n
        → e.step ≡ step
        → Pushes (ok (record_step now n step anchor hash detail o, e))

  -- A push is refused exactly for a node that is no participant, or else for an unknown step;
  -- otherwise the step is recorded, and one event is emitted for that node and that step.
  pub apply-Pushes : Pushes (apply now n step anchor hash detail o)
  unfolding apply
  apply-Pushes = by_tests _ refl _ refl
    where
      by_tests :
          (out : Bool)
          → (ltb n 1 || ltb o.participants n) ≡ out
          → (strange : Bool)
          → (not (is_producer_step step) && not (is_consumer_step step)) ≡ strange
          → Pushes (
              if out
              then err (unknown_node n)
              else if strange
              then err (unknown_step step)
              else let next = record_step now n step anchor hash detail o in
                ok (next, emit n step (text detail) next))
      by_tests true e t et = no_such_node (λ (low, high). absurd (ground (arith, e, low, high)))
      by_tests false e true et =
          no_such_step (ground (arith, e), ground (arith, e)) (ground (arith, et))
      by_tests false e false et =
          done (ground (arith, e), ground (arith, e)) (ground (arith, et)) _ (unfold emit in refl)
            (unfold emit in refl)
