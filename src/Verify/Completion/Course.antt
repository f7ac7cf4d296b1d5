-- ===== src/Verify/Completion/Course.antt =====
-- What a node's stream is like when it completes (cmd/verify-migration/boundary.go:
-- checkCompletion).
use pbt_devnet.Prelude.{
  ℕ, ◌≤◌, ◌≡◌, refl, ap, subst, ◌∙◌, ◌↔◌, ◌⊎◌, String, Bool, true, false, not, ◌||◌, Option, none,
  some, List, [], ◌∷◌, str_eq, eq_iff, if◌then◌else◌, All, arith,
}
use pbt_devnet.Migmon.{DirectionProgress, MigrationProgress, active}
use pbt_devnet.Verify.Completion.{
  Watched, final_seen, progress_seen, other_watched, CompletionProblem, Tracked, is_done,
  after_problem, before_done, after_done, read_report, regressed, active_again, shadow_left,
}

-- Nothing runs any more, and no shadow root is reported.
pub record IsRetired (p : MigrationProgress) : Type 0 where
  pub binary_off : active p.binary ≡ false
  pub merkle_off : active p.merkle ≡ false
  pub no_shadow : (b : DirectionProgress) → p.binary ≡ some b → b.shadow_root ≡ ""

-- A client that retires the other tree has retired it.
abbrev pub StaysDone : Bool → MigrationProgress → Type 0
StaysDone retires p = (is_done p.phase ≡ true) × (retires ≡ true → IsRetired p)

after_problem_iff :
    (retires : Bool) (node : String) (at : ℕ) (p : MigrationProgress)
    → (after_problem retires node at p ≡ none) ↔ StaysDone retires p
unfolding after_problem
after_problem_iff retires node at p =
    by_cases (is_done p.phase) refl retires refl (active p.binary || active p.merkle) refl p.binary
      refl
  where
    by_cases :
        (d : Bool)
        → is_done p.phase ≡ d
        → (r : Bool) → retires ≡ r
        → (a : Bool) → (active p.binary || active p.merkle) ≡ a
        → (o : Option DirectionProgress) → p.binary ≡ o
        → let it : Option CompletionProblem =
            if not d
            then some (regressed node at)
            else if not r
            then none
            else if a
            then some (active_again node at)
            else elim o [
              | none ↦ none
              | some b ↦ if str_eq b.shadow_root "" then none else some (shadow_left node at)
            ] in
          (it ≡ none) ↔ StaysDone retires p
    by_cases false e r er a ea o eo = (λ h. absurd (cc), λ (k, _). absurd (cc))
    by_cases true e false er a ea o eo = (λ h. (e, λ k. absurd (cc)), λ _. refl)
    by_cases true e true er true ea o eo = (
      λ h. absurd (cc),
      λ (_, k). absurd (let q = k er in ground (arith, ea, q.binary_off, q.merkle_off)),
    )
    by_cases true e true er false ea none eo = (
      λ h. (
        e,
        λ k. record {
          binary_off = ground (arith, ea);
          merkle_off = ground (arith, ea);
          no_shadow = λ b eb. absurd (cc);
        },
      ),
      λ _. refl,
    )
    by_cases true e true er false ea (some b) eo = (
      λ h. (
        e,
        λ k. record {
          binary_off = ground (arith, ea);
          merkle_off = ground (arith, ea);
          no_shadow = λ b' eb.
              let same : b' ≡ b = cc in
              ap (λ x. x.shadow_root) same ∙ (eq_iff b.shadow_root "").0 (ground (arith, h));
        },
      ),
      λ (_, k). let is = (eq_iff b.shadow_root "").1 ((k er).no_shadow b eo) in ground (arith, is),
    )

module _ (fork : ℕ) (retires : Bool) (node : String) where
  -- The merkle direction starts at the fork at the earliest.
  abbrev pub IsOnTime : MigrationProgress → (at : ℕ) → Type 0
  IsOnTime p at = active p.merkle ≡ true → fork ≤ at

  -- A report that does not end the loop, before "done" and after it.
  abbrev pub ReportBefore : Option MigrationProgress → (at : ℕ) → Type 0
  ReportBefore o at =
      (p : MigrationProgress) × (o ≡ some p) × (is_done p.phase ≡ false) × IsOnTime p at

  abbrev pub ReportAfter : Option MigrationProgress → Type 0
  ReportAfter o = (p : MigrationProgress) × (o ≡ some p) × StaysDone retires p

  -- The report that says "done".
  abbrev pub ReportDone : Option MigrationProgress → (at : ℕ) → Type 0
  ReportDone o at =
      (p : MigrationProgress) × (o ≡ some p) × (is_done p.phase ≡ true) × IsOnTime p at

  -- A report before "done": it does not end the loop, and either leaves "done" open or is "done".
  pub before_iff :
      (t : Tracked) (at : ℕ) (o : Option MigrationProgress)
      → t.first_done ≡ none
      → let (next, stop) = read_report fork retires node t at o in
        ((stop ≡ none) × (next.first_done ≡ none)) ↔ ReportBefore o at
  unfolding read_report before_done
  before_iff t at none e = (λ h. absurd (cc), λ h. absurd (let k = h.1 in cc))
  before_iff t at (some p) e = rw e (
    λ h. (p, refl, ground (arith, h, e), λ k. ground (arith, h, e, k)),
    λ (q, eq, on, time).
        let same : q ≡ p = cc in
        let on' = subst (λ x. is_done x.phase ≡ false) same on in
        let time' = subst (λ x. IsOnTime x at) same time in ground (arith, on', time', e),
  )

  pub done_iff :
      (t : Tracked) (at d : ℕ) (o : Option MigrationProgress)
      → t.first_done ≡ none
      → let (next, stop) = read_report fork retires node t at o in
        ((stop ≡ none) × (next.first_done ≡ some d)) ↔ ((at ≡ d) × ReportDone o at)
  unfolding read_report before_done
  done_iff t at d none e = (λ h. absurd (cc), λ h. absurd (let k = h.1.1 in cc))
  done_iff t at d (some p) e = rw e (
    λ h. (ground (arith, h, e), (p, refl, ground (arith, h, e), λ k. ground (arith, h, e, k))),
    λ (is_d, (q, eq, on, time)).
        let same : q ≡ p = cc in
        let on' = subst (λ x. is_done x.phase ≡ true) same on in
        let time' = subst (λ x. IsOnTime x at) same time in ground (arith, on', time', e, is_d),
  )

  -- A report after "done".
  pub after_iff :
      (t : Tracked) (at d : ℕ) (o : Option MigrationProgress)
      → t.first_done ≡ some d
      → ((read_report fork retires node t at o).1 ≡ none) ↔ ReportAfter o
  unfolding read_report after_done
  after_iff t at d none e = (λ h. absurd (cc), λ h. absurd (let k = h.1 in cc))
  after_iff t at d (some p) e =
      let (to, from) = after_problem_iff retires node at p in
      rw e (
        λ h. (p, refl, to h),
        λ (q, eq, stays). from (subst (StaysDone retires) (let same : q ≡ p = cc in same) stays),
      )

  -- What a report leaves as it was.
  pub report_keeps :
      (t : Tracked) (at : ℕ) (o : Option MigrationProgress)
      → let next = (read_report fork retires node t at o).0 in
        (next.final_at ≡ t.final_at) × ((d : ℕ) → t.first_done ≡ some d → next.first_done ≡ some d)
  unfolding read_report before_done after_done
  report_keeps t at none = (refl, λ d e. e)
  report_keeps t at (some p) = by_done t.first_done refl
    where
      by_done :
          (o : Option ℕ)
          → t.first_done ≡ o
          → let it : Tracked × Option CompletionProblem = elim o [
            | none ↦ before_done fork retires node t at p
            | some _ ↦ after_done fork retires node t at p
          ] in
            (it.0.final_at ≡ t.final_at)
            × ((d : ℕ) → t.first_done ≡ some d → it.0.first_done ≡ some d)
      by_done none e = (ground arith, λ d k. absurd (cc))
      by_done (some d) e = (refl, λ d k. k)

module _ {Raw : Type 0} (decode : Raw → Option MigrationProgress) (fork : ℕ) (retires : Bool)
    (node : String) where
  abbrev pub IsBefore : Watched Raw → Type 0
  IsBefore other_watched = Unit
  IsBefore (final_seen m at) = Unit
  IsBefore (progress_seen m at none) = Unit
  IsBefore (progress_seen m at (some raw)) =
      m ≡ node → ReportBefore fork retires node (decode raw) at

  abbrev pub IsAfter : Watched Raw → Type 0
  IsAfter other_watched = Unit
  IsAfter (final_seen m at) = Unit
  IsAfter (progress_seen m at none) = Unit
  IsAfter (progress_seen m at (some raw)) = m ≡ node → ReportAfter fork retires node (decode raw)

  abbrev pub IsFinish : ℕ → Watched Raw → Type 0
  IsFinish d other_watched = ⊥
  IsFinish d (final_seen m at) = ⊥
  IsFinish d (progress_seen m at none) = ⊥
  IsFinish d (progress_seen m at (some raw)) =
      (m ≡ node) × (at ≡ d) × ReportDone fork retires node (decode raw) at

  -- The node is on its way, says "done" at a time, and stays done.
  abbrev pub Course : ℕ → List (Watched Raw) → Type 0
  Course d [] = ⊥
  Course d (ev ∷ evs) = (IsFinish d ev × All IsAfter evs) ⊎ (IsBefore ev × Course d evs)

  -- The first finality of the node's fork block.
  abbrev pub first_final : List (Watched Raw) → Option ℕ
  first_final [] = none
  first_final (other_watched ∷ evs) = first_final evs
  first_final (progress_seen m at o ∷ evs) = first_final evs
  first_final (final_seen m at ∷ evs) =
      let rest = first_final evs in if str_eq m node then some at else rest
