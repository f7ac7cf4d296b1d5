-- ===== src/Verify/Completion/Timed.antt =====
-- When a node has no problem at the end of the migration (cmd/verify-migration/boundary.go:
-- checkCompletion).
use pbt_devnet.Prelude.{
  ℕ, ◌+◌, ◌≤◌, ◌≡◌, refl, sym, ◌∙◌, ◌↔◌, String, Bool, Option, none, some, List, [], ◌∷◌, ltb,
  if◌then◌else◌, arith,
}
use pbt_devnet.Migmon.{MigrationProgress}
use pbt_devnet.Verify.Completion.{
  Watched, CompletionProblem, never_done, never_final, done_before_final, done_late, Tracked, scan,
  timing_problems, node_problems, done_deadline_after_fork, same_done_poll_slop,
}
use pbt_devnet.Verify.Completion.Course.{Course, first_final}
use pbt_devnet.Verify.Completion.Reached.{run_final, run-Course}

module _ {Raw : Type 0} (decode : Raw → Option MigrationProgress) (fork : ℕ) (retires : Bool)
    (node : String) where
  -- The node says "done" at a time `d` and stays done, its fork block is first known to be final
  -- at a time `f`, and these times fit.
  pub record Completes (evs : List (Watched Raw)) : Type 0 where
    pub d : ℕ
    pub f : ℕ
    pub course : Course decode fork retires node d evs
    pub is_final : first_final decode fork retires node evs ≡ some f
    pub after_final : f ≤ d + same_done_poll_slop
    pub in_time : d ≤ fork + done_deadline_after_fork

  timing_iff :
      (t : Tracked)
      → (timing_problems fork retires node t ≡ []) ↔ (
          (d : ℕ) × (f : ℕ) × (t.first_done ≡ some d)
          × (t.final_at ≡ some f)
          × (f ≤ d + same_done_poll_slop)
          × (d ≤ fork + done_deadline_after_fork))
  unfolding timing_problems
  timing_iff t = by_times t.first_done refl t.final_at refl
    where
      by_times :
          (dn : Option ℕ)
          → t.first_done ≡ dn
          → (fi : Option ℕ) → t.final_at ≡ fi
          → let it : List CompletionProblem = elim dn [
            | none ↦ never_done node ∷ []
            | some d ↦ elim fi [
              | none ↦ never_final node d ∷ []
              | some f ↦
                  if ltb (d + same_done_poll_slop) f
                  then done_before_final node d ∷ []
                  else if ltb (fork + done_deadline_after_fork) d
                  then done_late node d ∷ []
                  else []
            ]
          ] in
            (it ≡ []) ↔ (
              (d : ℕ) × (f : ℕ) × (t.first_done ≡ some d)
              × (t.final_at ≡ some f)
              × (f ≤ d + same_done_poll_slop)
              × (d ≤ fork + done_deadline_after_fork))
      by_times none e fi k = (λ h. absurd (cc), λ (d, f, is_d, _, _, _). absurd (cc))
      by_times (some d) e none k = (λ h. absurd (cc), λ (d', f, _, is_f, _, _). absurd (cc))
      by_times (some d) e (some f) k = (
        λ h. (d, f, e, k, ground (arith, h), ground (arith, h)),
        λ (d', f', is_d, is_f, fits, soon).
            let same_d : d' ≡ d = cc in
            let same_f : f' ≡ f = cc in ground (arith, same_d, same_f, fits, soon),
      )

  abbrev start : Tracked
  start = record { first_done = none; final_at = none; post_done = 0 }

  pub node_iff :
      (evs : List (Watched Raw)) → (node_problems decode fork retires node evs ≡ []) ↔ Completes evs
  unfolding node_problems
  node_iff evs =
      let r = scan decode fork retires node start evs in
      by_stop r.0 r.1 (run_final decode fork retires node start evs)
        (λ d. run-Course decode fork retires node start d evs refl)
    where
      by_stop :
          (t : Tracked) (stop : Option CompletionProblem)
          → (stop ≡ none → t.final_at ≡ first_final decode fork retires node evs)
          → ((d : ℕ)
              → ((stop ≡ none) × (t.first_done ≡ some d)) ↔ Course decode fork retires node d evs)
          → let it : List CompletionProblem = elim stop [
            | none ↦ timing_problems fork retires node t
            | some p ↦ p ∷ timing_problems fork retires node t
          ] in
            (it ≡ []) ↔ Completes evs
      by_stop t (some p) final course =
          (λ h. absurd (cc), λ c. absurd (let z = ((course c.d).1 c.course).0 in cc))
      by_stop t none final course =
          let (to, from) = timing_iff t in
          (
            λ h.
                let (d, f, is_d, is_f, fits, soon) = to h in
                record {
                  d = d;
                  f = f;
                  course = (course d).0 (refl, is_d);
                  is_final = sym (final refl) ∙ is_f;
                  after_final = fits;
                  in_time = soon;
                },
            λ c. from (
              c.d,
              c.f,
              ((course c.d).1 c.course).1,
              final refl ∙ c.is_final,
              c.after_final,
              c.in_time,
            ),
          )
