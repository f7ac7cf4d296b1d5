-- ===== src/Examples/Guard.antt =====
-- The theorems of the gate's watches, at a client without peers, a split that outlives its window,
-- and clients that agree in the end.
use pbt_devnet.Prelude.{
  ℕ, ◌+◌, ◌≤◌, ◌<◌, ◌≡◌, refl, ◌↔◌, true, false, none, some, List, [], ◌∷◌, arith, Some, zero, suc,
}
use pbt_devnet.Migmon.{running, done}
use pbt_devnet.Guard.{
  is_held, holding, fed, starve, observe_peers, split, at_ease, dead_driver, Round, heal_kind,
  heal_split, watch_since, watch_split, watch, spread_from, head_spread, lowest, compare, converged,
}
use pbt_devnet.Guard.Wait.{
  poll_client, poll_clients, DoneRound, wait_done, wait_for_done, spread_shrinking, Look,
  past_deadline, await, await_convergence,
}
use pbt_devnet.Guard.Starved.{reports}
use pbt_devnet.Guard.Healed.{heals, heals-once}
use pbt_devnet.Guard.Held.{Reading, read_round, TornSince, IsTorn, heal-IsTorn}
use pbt_devnet.Schedule.{admitted, latest}
use pbt_devnet.Schedule.Windows.{covers, legal_windows, legal_window, in_window}
use pbt_devnet.Examples.Layout.{plan}
use pbt_devnet.Guard.Wait.{converged_again}
use pbt_devnet.Guard.Handoff.{
  PostWorld, deep_pair, over, choose, close_window, open_window, run_post_op, IsCareful,
  run_post_op-IsCareful,
}
use pbt_devnet.Guard.Patience.{Rising, Ends, await_convergence-Ends}
use pbt_devnet.Guard.Completed.{AllDone, wait_for_done_iff}

program : Unit {0}
unfolding starve observe_peers heal_kind heal_split watch_since watch_split watch spread_from
    head_spread lowest compare converged poll_client poll_clients wait_done wait_for_done
    spread_shrinking past_deadline await await_convergence read_round is_held holding covers
    legal_windows legal_window in_window admitted latest choose close_window open_window run_post_op
program = tt

reports_one : reports (100 ∷ 130 ∷ 160 ∷ 190 ∷ 220 ∷ []) fed ≡ 1
unfolding program
reports_one = refl

abbrev torn : ℕ → Round
torn now = record { now = now; view = split; held = false; parts = some 1; clears = true }

heals-once_example : heals (torn 100 ∷ torn 250 ∷ torn 280 ∷ []) at_ease ≤ 1
heals-once_example =
    heals-once (torn 100 ∷ torn 250 ∷ torn 280 ∷ []) at_ease
      ((λ e. cc), ((λ e. cc), ((λ e. cc), tt)))

-- Looks that never agree, five seconds apart, from an instant on.
abbrev looks_from : ℕ → ℕ → List Look
looks_from zero now = []
looks_from (suc n) now =
    record {
      view = split;
      now = now;
      later = now + 5;
      awake = true;
      samples = record {
        first = some 9;
        second = some 6;
        third = some 3;
        awake_first = true;
        awake_second = true;
      };
      cancelled = false;
    }
    ∷ looks_from n (now + 5)

looks_from-Rising : (n now : ℕ) → Rising now (looks_from n now)
looks_from-Rising zero now = tt
looks_from-Rising (suc n) now = (omega arith, omega arith, looks_from-Rising n (now + 5))

await_convergence-Ends_example : Ends (await_convergence 1000 (looks_from 53 1000))
await_convergence-Ends_example =
    await_convergence-Ends 1000 (looks_from 53 1000) (looks_from-Rising 53 1000) (omega arith)

abbrev rounds : List DoneRound
rounds =
    record { reports = ("a", some running) ∷ ("b", none) ∷ []; awake = true }
    ∷ record { reports = ("a", some done) ∷ ("b", some done) ∷ []; awake = true }
    ∷ []

wait_for_done_iff_example :
    (wait_for_done (true ∷ true ∷ false ∷ []) rounds ≡ some true) ↔ Some AllDone rounds
wait_for_done_iff_example =
    wait_for_done_iff (true ∷ true ∷ false ∷ []) rounds refl (refl, (refl, tt))

rounds_done : wait_for_done (true ∷ true ∷ false ∷ []) rounds ≡ some true
unfolding program
rounds_done = refl

abbrev torn_at : ℕ → Reading
torn_at now = record { now = now; view = split; own = none; parts = some 1; clears = true }

-- After the plan's last window, 1802250, and the two minutes that it is allowed.
abbrev late_readings : List Reading
late_readings =
    torn_at 1802520 ∷ torn_at 1802490 ∷ torn_at 1802460 ∷ torn_at 1802430 ∷ torn_at 1802400 ∷ []

heal-IsTorn_example :
    (t : ℕ) × TornSince plan t (torn_at 1802550 ∷ late_readings)
    × (t + 120 < 1802550)
    × IsTorn plan (torn_at 1802550)
unfolding program
heal-IsTorn_example = heal-IsTorn plan late_readings (torn_at 1802550) (dead_driver 150) refl

abbrev fair : PostWorld
fair = record {
  now = 1802600;
  containers = some 10;
  partitions = true;
  awake = true;
  clears = true;
  repeers = true;
  convergence = converged_again;
}

run_post_op-IsCareful_example : IsCareful 190 fair (run_post_op deep_pair (2 ∷ 3 ∷ 4 ∷ []) 5 fair).0
run_post_op-IsCareful_example = run_post_op-IsCareful deep_pair (2 ∷ 3 ∷ 4 ∷ []) 5 fair

fair_end : (run_post_op deep_pair (2 ∷ 3 ∷ 4 ∷ []) 5 fair).1 ≡ over converged_again
unfolding program
fair_end = refl
