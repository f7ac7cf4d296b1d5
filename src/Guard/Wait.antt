-- ===== src/Guard/Wait.antt =====
-- The gate's waits (cmd/migration-gate/main.go: waitForDone, awaitConvergence, spreadShrinking). A
-- wait runs over its rounds, each with what it read; it has no result where the rounds end before
-- it does.
use pbt_devnet.Prelude.{
  ℕ, ◌+◌, String, Bool, true, false, not, Option, none, some, List, [], ◌∷◌, length, ltb, ◌==◌,
  str_eq, some_of, keep, if◌then◌else◌,
}
use pbt_devnet.Migmon.{ChainPhase, done}
use pbt_devnet.Guard.{View, agreed, convergence_grace, trend_shrinking}

-- A progress report that was read, or none.
abbrev pub Report : Type 0
Report = Option ChainPhase

-- What the polls of a round have found: the clients known as unreadable, those just reported as
-- such, and how many are done.
pub record Polled : Type 0 where
  pub stalled : List String
  pub reported : List String
  pub finished : ℕ

unfoldable pub poll_client : String → Report → Polled → Polled
poll_client name (some done) p = record p {
  stalled = keep (λ n. not (str_eq n name)) p.stalled;
  finished = p.finished + 1;
}
poll_client name (some phase) p = record p { stalled = keep (λ n. not (str_eq n name)) p.stalled }
poll_client name none p =
    if some_of (λ n. str_eq n name) p.stalled
    then p
    else record p { stalled = name ∷ p.stalled; reported = name ∷ p.reported }

unfoldable pub poll_clients : List (String × Report) → Polled → Polled
unfolding poll_client
poll_clients [] p = p
poll_clients (c ∷ cs) p = poll_clients cs (poll_client c.0 c.1 p)

-- A round: the reports of the watched clients, and whether the sleep after it runs to its end.
pub record DoneRound : Type 0 where
  pub reports : List (String × Report)
  pub awake : Bool

unfoldable pub wait_done : (stalled : List String) → List DoneRound → Option Bool
unfolding poll_clients
wait_done stalled [] = none
wait_done stalled (r ∷ rs) =
    let p = poll_clients r.reports (record { stalled = stalled; reported = []; finished = 0 }) in
    let rest = wait_done p.stalled rs in
    if p.finished == length r.reports then some true else if r.awake then rest else some false

-- `introspects` says which clients report; without one the wait fails at once.
unfoldable pub wait_for_done : (introspects : List Bool) → List DoneRound → Option Bool
unfolding wait_done
wait_for_done introspects rounds =
    if some_of (λ b. b) introspects then wait_done [] rounds else some false

-- The three samples of the spread, each none if a client did not answer, and the two sleeps.
pub record Samples : Type 0 where
  pub first : Option ℕ
  pub second : Option ℕ
  pub third : Option ℕ
  pub awake_first : Bool
  pub awake_second : Bool

-- None is an error.
unfoldable pub spread_shrinking : Samples → Option Bool
unfolding trend_shrinking
spread_shrinking s = elim s.first [
  | none ↦ none
  | some a ↦ if not s.awake_first then none else elim s.second [
    | none ↦ none
    | some b ↦
        if not s.awake_second
        then none
        else elim s.third [ none ↦ none | some c ↦ some (trend_shrinking a b c) ]
  ]
]

-- A round of awaitConvergence: the clock at the test of the deadline, and where its sleep or its
-- samples are over.
pub record Look : Type 0 where
  pub view : View
  pub now : ℕ
  pub later : ℕ
  pub awake : Bool
  pub samples : Samples
  pub cancelled : Bool

pub data Convergence : Type 0 where
  converged_again interrupted no_trend not_shrinking still_disagree : Convergence

abbrev pub is_agreed : View → Bool
is_agreed agreed = true
is_agreed _ = false

-- What follows once the deadline has passed: an end, or none to extend the wait.
unfoldable pub past_deadline : (extended : Bool) → Look → Option Convergence
unfolding spread_shrinking
past_deadline true l = some still_disagree
past_deadline false l = elim (spread_shrinking l.samples) [
  | none ↦ some (if l.cancelled then interrupted else no_trend)
  | some shrinking ↦ if shrinking then none else some not_shrinking
]

unfoldable pub await : (deadline : ℕ) → (extended : Bool) → List Look → Option Convergence
unfolding past_deadline
await deadline extended [] = none
await deadline extended (l ∷ ls) =
    let wait_on = await deadline extended ls in
    let wait_longer = await (l.later + convergence_grace) true ls in
    if is_agreed l.view
    then some converged_again
    else if not (ltb deadline l.now)
    then (if l.awake then wait_on else some interrupted)
    else elim (past_deadline extended l) [ some c ↦ some c | none ↦ wait_longer ]

unfoldable pub await_convergence : (now : ℕ) → List Look → Option Convergence
unfolding await
await_convergence now looks = await (now + convergence_grace) false looks
