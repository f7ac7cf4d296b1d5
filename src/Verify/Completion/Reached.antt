-- ===== src/Verify/Completion/Reached.antt =====
-- What the loop of a node leaves (cmd/verify-migration/boundary.go: checkCompletion).
use pbt_devnet.Prelude.{
  ℕ, ◌≡◌, refl, sym, ◌∙◌, ◌↔◌, inl, inr, String, Bool, Option, none, some, List, [], ◌∷◌, str_eq,
  eq_iff, Bool-cases, All, arith,
}
use pbt_devnet.Migmon.{MigrationProgress}
use pbt_devnet.Verify.Completion.{
  Watched, final_seen, progress_seen, other_watched, CompletionProblem, Tracked, take_event, scan,
}
use pbt_devnet.Verify.Completion.Course.{
  IsBefore, IsAfter, IsFinish, Course, first_final, before_iff, done_iff, after_iff, report_keeps,
}

module _ {Raw : Type 0} (decode : Raw → Option MigrationProgress) (fork : ℕ) (retires : Bool)
    (node : String) where
  abbrev Step : Type 0
  Step = Tracked × Option CompletionProblem

  abbrev step : Tracked → Watched Raw → Step
  step = take_event decode fork retires node

  step-IsBefore :
      (t : Tracked) (ev : Watched Raw)
      → t.first_done ≡ none
      → (((step t ev).1 ≡ none) × ((step t ev).0.first_done ≡ none))
        ↔ IsBefore decode fork retires node ev
  unfolding take_event
  step-IsBefore t other_watched e = (λ h. tt, λ h. (refl, e))
  step-IsBefore t (final_seen m at) e = (λ h. tt, λ h. (refl, ground (arith, e)))
  step-IsBefore t (progress_seen m at none) e = (λ h. tt, λ h. (refl, e))
  step-IsBefore t (progress_seen m at (some raw)) e = elim (Bool-cases (str_eq m node)) [
    | inl is ↦
        let (to, from) = before_iff fork retires node t at (decode raw) e in
        rw is (λ h k. to h, λ h. from (h ((eq_iff m node).0 is)))
    | inr no_eq ↦ rw no_eq (λ h k. absurd (let is = (eq_iff m node).1 k in cc), λ h. (refl, e))
  ]

  step_done :
      (t : Tracked) (d : ℕ) (ev : Watched Raw)
      → t.first_done ≡ none
      → (((step t ev).1 ≡ none) × ((step t ev).0.first_done ≡ some d))
        ↔ IsFinish decode fork retires node d ev
  unfolding take_event
  step_done t d other_watched e = (λ h. absurd (let k = h.1 in cc), λ h. absurd h)
  step_done t d (final_seen m at) e =
      (λ h. absurd (let k = h.1 in ground (arith, e, k)), λ h. absurd h)
  step_done t d (progress_seen m at none) e = (λ h. absurd (let k = h.1 in cc), λ h. absurd h)
  step_done t d (progress_seen m at (some raw)) e = elim (Bool-cases (str_eq m node)) [
    | inl is ↦
        let (to, from) = done_iff fork retires node t at d (decode raw) e in
        rw is (λ h. ((eq_iff m node).0 is, (to h).0, (to h).1), λ h. from (h.1, h.2))
    | inr no_eq ↦
        rw no_eq
          (λ h. absurd (let k = h.1 in cc), λ h. absurd (let is = (eq_iff m node).1 h.0 in cc))
  ]

  step-IsAfter :
      (t : Tracked) (d : ℕ) (ev : Watched Raw)
      → t.first_done ≡ some d
      → ((step t ev).1 ≡ none) ↔ IsAfter decode fork retires node ev
  unfolding take_event
  step-IsAfter t d other_watched e = (λ h. tt, λ h. refl)
  step-IsAfter t d (final_seen m at) e = (λ h. tt, λ h. refl)
  step-IsAfter t d (progress_seen m at none) e = (λ h. tt, λ h. refl)
  step-IsAfter t d (progress_seen m at (some raw)) e = elim (Bool-cases (str_eq m node)) [
    | inl is ↦
        let (to, from) = after_iff fork retires node t at d (decode raw) e in
        rw is (λ h k. to h, λ h. from (h ((eq_iff m node).0 is)))
    | inr no_eq ↦ rw no_eq (λ h k. absurd (let is = (eq_iff m node).1 k in cc), λ h. refl)
  ]

  step_keeps :
      (t : Tracked) (d : ℕ) (ev : Watched Raw)
      → t.first_done ≡ some d
      → (step t ev).0.first_done ≡ some d
  unfolding take_event
  step_keeps t d other_watched e = e
  step_keeps t d (final_seen m at) e = ground (arith, e)
  step_keeps t d (progress_seen m at none) e = e
  step_keeps t d (progress_seen m at (some raw)) e =
      let k = (report_keeps fork retires node t at (decode raw)).1 d e in ground (arith, k, e)

  -- The finality that is known, or the first of the stream.
  abbrev pub final_after : Option ℕ → List (Watched Raw) → Option ℕ
  final_after o evs = elim o [ some f ↦ some f | none ↦ first_final decode fork retires node evs ]

  step_final :
      (t : Tracked) (ev : Watched Raw) (evs : List (Watched Raw))
      → final_after (step t ev).0.final_at evs ≡ final_after t.final_at (ev ∷ evs)
  unfolding take_event
  step_final t other_watched evs = refl
  step_final t (final_seen m at) evs = ground arith
  step_final t (progress_seen m at none) evs = refl
  step_final t (progress_seen m at (some raw)) evs =
      let k = (report_keeps fork retires node t at (decode raw)).0 in
      elim (Bool-cases (str_eq m node)) [ inl is ↦ rw (is, k) refl | inr no_eq ↦ rw no_eq refl ]

  abbrev run : Tracked → List (Watched Raw) → Step
  run = scan decode fork retires node

  abbrev go_on : Step → List (Watched Raw) → Step
  go_on s evs = elim s.1 [ none ↦ run s.0 evs | some p ↦ (s.0, some p) ]

  run-step :
      (t : Tracked) (ev : Watched Raw) (evs : List (Watched Raw))
      → run t (ev ∷ evs) ≡ go_on (step t ev) evs
  unfolding scan
  run-step t ev evs = refl

  pub run_final :
      (t : Tracked) (evs : List (Watched Raw))
      → (run t evs).1 ≡ none
      → (run t evs).0.final_at ≡ final_after t.final_at evs
  unfolding scan
  run_final t [] h = ground arith
  run_final t (ev ∷ evs) h =
      by_stop (step t ev) (run_final (step t ev).0 evs) h ∙ step_final t ev evs
    where
      by_stop :
          (s : Step)
          → ((run s.0 evs).1 ≡ none → (run s.0 evs).0.final_at ≡ final_after s.0.final_at evs)
          → (go_on s evs).1 ≡ none
          → (go_on s evs).0.final_at ≡ final_after s.0.final_at evs
      by_stop (next, none) rest k = rest k
      by_stop (next, some p) rest k = absurd (cc)

  -- A node that is done stays so, and its reports do not end the loop if they agree.
  run-IsAfter :
      (t : Tracked) (d : ℕ) (evs : List (Watched Raw))
      → t.first_done ≡ some d
      → ((run t evs).0.first_done ≡ some d)
        × (((run t evs).1 ≡ none) ↔ All (IsAfter decode fork retires node) evs)
  unfolding scan
  run-IsAfter t d [] e = (e, (λ h. tt, λ h. refl))
  run-IsAfter t d (ev ∷ evs) e =
      by_stop (step t ev) (step_keeps t d ev e) (step-IsAfter t d ev e)
        (run-IsAfter (step t ev).0 d evs (step_keeps t d ev e))
    where
      by_stop :
          (s : Step)
          → s.0.first_done ≡ some d
          → (s.1 ≡ none) ↔ IsAfter decode fork retires node ev
          → ((run s.0 evs).0.first_done ≡ some d)
            × (((run s.0 evs).1 ≡ none) ↔ All (IsAfter decode fork retires node) evs)
          → ((go_on s evs).0.first_done ≡ some d)
            × (((go_on s evs).1 ≡ none) ↔ All (IsAfter decode fork retires node) (ev ∷ evs))
      by_stop (next, none) k (to, from) (kept, (to', from')) =
          (kept, (λ h. (to refl, to' h), λ h. from' h.1))
      by_stop (next, some p) k (to, from) rest =
          (k, (λ h. cc, λ h. absurd (let z = from h.0 in cc)))

  pub run-Course :
      (t : Tracked) (d : ℕ) (evs : List (Watched Raw))
      → t.first_done ≡ none
      → (((run t evs).1 ≡ none) × ((run t evs).0.first_done ≡ some d))
        ↔ Course decode fork retires node d evs
  unfolding scan
  run-Course t d [] e = (λ h. absurd (let k = h.1 in cc), λ h. absurd h)
  run-Course t d (ev ∷ evs) e =
      by_stop (step t ev).0 (step t ev).1 (step t ev).0.first_done refl (step-IsBefore t ev e)
        (step_done t d ev e) (run-Course (step t ev).0 d evs)
        (λ d'. run-IsAfter (step t ev).0 d' evs)
    where
      by_stop :
          (next : Tracked) (stop : Option CompletionProblem) (at : Option ℕ)
          → next.first_done ≡ at
          → ((stop ≡ none) × (next.first_done ≡ none)) ↔ IsBefore decode fork retires node ev
          → ((stop ≡ none) × (next.first_done ≡ some d)) ↔ IsFinish decode fork retires node d ev
          → (next.first_done ≡ none
              → (((run next evs).1 ≡ none) × ((run next evs).0.first_done ≡ some d))
                ↔ Course decode fork retires node d evs)
          → ((d' : ℕ)
              → next.first_done ≡ some d'
              → ((run next evs).0.first_done ≡ some d')
                × (((run next evs).1 ≡ none) ↔ All (IsAfter decode fork retires node) evs))
          → (((go_on (next, stop) evs).1 ≡ none) × ((go_on (next, stop) evs).0.first_done ≡ some d))
            ↔ Course decode fork retires node d (ev ∷ evs)
      by_stop next (some p) at k (b_to, b_from) (d_to, d_from) early late = (
        λ h. absurd (let z = h.0 in cc),
        λ h. elim h [
          | inl c ↦ absurd (let z = (d_from c.0).0 in cc)
          | inr c ↦ absurd (let z = (b_from c.0).0 in cc)
        ],
      )
      by_stop next none none k (b_to, b_from) (d_to, d_from) early late =
          let (to, from) = early k in
          (
            λ h. inr (b_to (refl, k), to h),
            λ h. elim h [ inl c ↦ absurd (let z = (d_from c.0).1 in cc) | inr c ↦ from c.1 ],
          )
      by_stop next none (some d') k (b_to, b_from) (d_to, d_from) early late =
          let (kept, (to, from)) = late d' k in
          (
            λ h.
                let same : some d' ≡ some d = sym kept ∙ h.1 in inl (d_to (refl, k ∙ same), to h.0),
            λ h. elim h [
              | inl c ↦ let same = (d_from c.0).1 in (from c.1, kept ∙ (sym k ∙ same))
              | inr c ↦ absurd (let z = (b_from c.0).1 in cc)
            ],
          )
