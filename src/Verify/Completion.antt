-- ===== src/Verify/Completion.antt =====
-- The end of the migration on each client (cmd/verify-migration/boundary.go: introspectingNodes,
-- checkCompletion; checks.go: progressNodes). The registry of the clients and the decoder of a
-- progress report are parameters.
pub mod Course
pub mod Known
pub mod Reached
pub mod Timed
pub mod Judged
use pbt_devnet.Prelude.{
  ℕ, ◌+◌, ◌≡◌, String, Bool, true, false, not, ◌&&◌, ◌||◌, Option, none, some, List, [], ◌∷◌, ◌++◌,
  keep, some_of, sort, ltb, str_eq, if◌then◌else◌,
}
use pbt_devnet.Migmon.{ChainPhase, done, MigrationProgress, active}
use pbt_devnet.Lineage.Views.{str_lt}
use pbt_devnet.Verify.{Outcome, failed, passed, conclude}

-- An event of the monitor's stream, as the check reads it; a report may be empty.
pub data Watched (Raw : Type 0) : Type 0 where
  final_seen : (node : String) (time : ℕ) → Watched Raw
  progress_seen : (node : String) (time : ℕ) → Option Raw → Watched Raw
  other_watched : Watched Raw

-- What the registry says of a client.
pub record ClientSpec : Type 0 where
  pub introspects : Bool
  pub retires_shadow : Bool

pub data CompletionProblem : Type 0 where
  no_introspecting : CompletionProblem
  undecodable merkle_early regressed active_again shadow_left :
      (node : String) (at : ℕ) → CompletionProblem
  never_done : (node : String) → CompletionProblem
  never_final done_before_final done_late : (node : String) (at : ℕ) → CompletionProblem

-- The first "done" of a node, the first finality of its fork block, and the reports after "done".
pub record Tracked : Type 0 where
  pub first_done : Option ℕ
  pub final_at : Option ℕ
  pub post_done : ℕ

abbrev pub done_deadline_after_fork : ℕ
done_deadline_after_fork = 1500

abbrev pub same_done_poll_slop : ℕ
same_done_poll_slop = 3

unfoldable pub is_done : ChainPhase → Bool
is_done done = true
is_done _ = false

-- A report after "done".
unfoldable pub after_problem :
    (retires : Bool) (node : String) (at : ℕ) → MigrationProgress → Option CompletionProblem
unfolding is_done
after_problem retires node at p =
    if not (is_done p.phase)
    then some (regressed node at)
    else if not retires
    then none
    else if active p.binary || active p.merkle
    then some (active_again node at)
    else elim p.binary [
      | none ↦ none
      | some b ↦ if str_eq b.shadow_root "" then none else some (shadow_left node at)
    ]

module _ (fork : ℕ) (retires : Bool) (node : String) where
  -- A report before "done", and one after it.
  unfoldable pub before_done :
      Tracked → (at : ℕ) → MigrationProgress → Tracked × Option CompletionProblem
  unfolding is_done
  before_done t at p =
      if active p.merkle && ltb at fork
      then (t, some (merkle_early node at))
      else (if is_done p.phase then record t { first_done = some at } else t, none)

  unfoldable pub after_done :
      Tracked → (at : ℕ) → MigrationProgress → Tracked × Option CompletionProblem
  unfolding after_problem
  after_done t at p = (record t { post_done = t.post_done + 1 }, after_problem retires node at p)

  unfoldable pub read_report :
      Tracked → (at : ℕ) → Option MigrationProgress → Tracked × Option CompletionProblem
  unfolding before_done after_done
  read_report t at none = (t, some (undecodable node at))
  read_report t at (some p) = elim t.first_done [
    | none ↦ before_done t at p
    | some _ ↦ after_done t at p
  ]

  -- What is wrong with the times of a node.
  unfoldable pub timing_problems : Tracked → List CompletionProblem
  timing_problems t = elim t.first_done [
    | none ↦ never_done node ∷ []
    | some d ↦ elim t.final_at [
      | none ↦ never_final node d ∷ []
      | some f ↦
          if ltb (d + same_done_poll_slop) f
          then done_before_final node d ∷ []
          else if ltb (fork + done_deadline_after_fork) d
          then done_late node d ∷ []
          else []
    ]
  ]

module _ {Raw : Type 0} (decode : Raw → Option MigrationProgress) (fork : ℕ) (retires : Bool)
    (node : String) where
  -- An event of the stream: what is known after it, and the problem that ends the loop.
  unfoldable pub take_event : Tracked → Watched Raw → Tracked × Option CompletionProblem
  unfolding read_report
  take_event t other_watched = (t, none)
  take_event t (final_seen m at) = (
    if str_eq m node
        then elim t.final_at [ none ↦ record t { final_at = some at } | some _ ↦ t ]
        else t,
    none,
  )
  take_event t (progress_seen m at none) = (t, none)
  take_event t (progress_seen m at (some raw)) =
      if str_eq m node then read_report fork retires node t at (decode raw) else (t, none)

  unfoldable pub scan : Tracked → List (Watched Raw) → Tracked × Option CompletionProblem
  unfolding take_event
  scan t [] = (t, none)
  scan t (ev ∷ evs) =
      let (next, stop) = take_event t ev in
      elim stop [ none ↦ scan next evs | some p ↦ (next, some p) ]

  unfoldable pub node_problems : List (Watched Raw) → List CompletionProblem
  unfolding scan timing_problems
  node_problems evs =
      let (t, stopped) = scan (record { first_done = none; final_at = none; post_done = 0 }) evs in
      elim stopped [
        | none ↦ timing_problems fork retires node t
        | some p ↦ p ∷ timing_problems fork retires node t
      ]

-- The nodes that reported progress, in the order of their first report.
unfoldable pub progress_nodes :
    {Raw : Type 0} → (seen : List String) → List (Watched Raw) → List String
progress_nodes seen [] = []
progress_nodes seen (progress_seen m at raw ∷ evs) =
    let known = progress_nodes seen evs in
    let new = m ∷ progress_nodes (m ∷ seen) evs in
    if some_of (λ x. str_eq x m) seen then known else new
progress_nodes seen (final_seen m at ∷ evs) = progress_nodes seen evs
progress_nodes seen (other_watched ∷ evs) = progress_nodes seen evs

module _ (spec_of : String → Option ClientSpec) where
  abbrev introspects_at : String → Bool
  introspects_at m = elim (spec_of m) [ none ↦ false | some s ↦ s.introspects ]

  abbrev retires_at : String → Bool
  retires_at m = elim (spec_of m) [ none ↦ false | some s ↦ s.retires_shadow ]

  -- The nodes that are judged, and those that are not.
  unfoldable pub introspecting_nodes :
      {Raw : Type 0} → List (Watched Raw) → List String × List String
  unfolding progress_nodes
  introspecting_nodes evs =
      let nodes = progress_nodes [] evs in
      (
        sort str_lt (keep introspects_at nodes),
        sort str_lt (keep (λ m. not (introspects_at m)) nodes),
      )

  module _ {Raw : Type 0} (decode : Raw → Option MigrationProgress) (fork : ℕ) where
    unfoldable pub completion_problems : List String → List (Watched Raw) → List CompletionProblem
    unfolding node_problems
    completion_problems [] evs = []
    completion_problems (m ∷ ms) evs =
        node_problems decode fork (retires_at m) m evs ++ completion_problems ms evs

    -- What a check that passes says: the nodes that were judged, and those that were not.
    unfoldable pub check_completion :
        List (Watched Raw) → Outcome CompletionProblem (List String × List String)
    unfolding introspecting_nodes completion_problems
    check_completion evs =
        let (judged, degraded) = introspecting_nodes evs in
        elim judged [
          | [] ↦ failed (no_introspecting ∷ [])
          | m ∷ ms ↦ conclude (completion_problems (m ∷ ms) evs) (passed (m ∷ ms, degraded))
        ]
