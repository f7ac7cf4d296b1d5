-- ===== src/Driver/Finish.antt =====
-- The end of the driver's run (cmd/migration-chaos/main.go: execute).
use pbt_devnet.Prelude.{ℕ, ◌≤◌, ◌<◌, ◌≡◌, String, Bool, true, All-map, ok}
use pbt_devnet.Schedule.{Schedule}
use pbt_devnet.Schedule.Topology.{Float64, Topology}
use pbt_devnet.Schedule.Resolve.{resolve}
use pbt_devnet.Schedule.Resolve.Timing.{IsTimed, resolve-IsTimed, resolve-slots}
use pbt_devnet.Driver.{World, Run, Flow, next, stop, stuck, Trace}
use pbt_devnet.Driver.Execute.{execute, start_run}
use pbt_devnet.Driver.Neutral.{Ends}
use pbt_devnet.Driver.Clock.{IsClock, Anywhere, Later}
use pbt_devnet.Driver.Pairing.{actions-Paired}
use pbt_devnet.Driver.Held.{Free}
use pbt_devnet.Driver.Release.{execute-Frees}
use pbt_devnet.Driver.Running.{execute-Runs}

Ends-safe :
    {A : Type 0} (S : Run → Type 0) (P Q : A → Run → Type 0) (x : Flow A)
    → Ends Unit S P x
    → Ends ⊥ Anywhere Q x
    → Ends ⊥ S P x
Ends-safe S P Q (next a s) h k = h
Ends-safe S P Q (stop s) h k = h
Ends-safe S P Q stuck h k = k

-- On a schedule that was resolved, under a clock that goes on and with fuel for 121 rounds of a
-- hold, the driver comes to an end, complete or stopped. If disruptoor's clears work, no split is
-- in force where it ends, whatever else fails.
pub execute-Free :
    (fl : Float64) (fork : ℕ) (topo : Topology fl.F) (name : String) (genesis : ℕ) (s : Schedule)
    → resolve fl fork topo name genesis ≡ ok s
    → (w : World) → IsClock w
    → ((t : Trace) → w.clears t ≡ true)
    → (participants : ℕ) (inject : Bool) (fuel : ℕ) → 121 ≤ fuel
    → Ends ⊥ Free (λ _ r. Free r) (execute w participants inject fuel s start_run)
execute-Free fl fork topo name genesis s h w clock works participants inject fuel long =
    let timed = resolve-IsTimed fl fork topo name genesis s h in
    let paired =
      actions-Paired s (All-map IsTimed (λ o. o.start < o.end) (λ o t. t.forward) s.ops timed) in
    let freed = execute-Frees w works participants inject fuel s paired in
    let runs =
      execute-Runs w clock participants inject fuel s long
        (resolve-slots fl fork topo name genesis s h) timed in
    Ends-safe Free (λ _ r. Free r) (λ _ r. Later w clock start_run r)
      (execute w participants inject fuel s start_run) freed (runs.ends start_run)
