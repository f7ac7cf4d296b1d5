-- ===== src/Verify/Run.antt =====
-- What a run of the verifier returns (cmd/verify-migration/main.go: Run, summarizeVerdicts,
-- anyPassed). A check is its verdict; its text is left out.
use pbt_devnet.Prelude.{
  ℕ, suc, ◌≡◌, ◌≢◌, refl, ◌↔◌, ◌⊎◌, inl, inr, String, Bool, true, false, not, ◌&&◌, List, [], ◌∷◌,
  ◌==◌, if◌then◌else◌, All, Some, arith,
}
use pbt_devnet.Verify.{Outcome, inconclusive, failed, passed}

pub data Ruling : Type 0 where
  passes fails is_open : Ruling

pub record CheckResult : Type 0 where
  pub id : String
  pub ruling : Ruling

-- The ruling of a check's outcome.
unfoldable pub ruling_of : {P N : Type 0} → Outcome P N → Ruling
ruling_of (inconclusive u) = is_open
ruling_of (failed ps) = fails
ruling_of (passed n) = passes

unfoldable pub summarize_verdicts : List CheckResult → ℕ × List String
summarize_verdicts [] = (0, [])
summarize_verdicts (r ∷ rs) =
    let (failed', ids) = summarize_verdicts rs in
    elim r.ruling [
      | fails ↦ (suc failed', ids)
      | is_open ↦ (failed', r.id ∷ ids)
      | passes ↦ (failed', ids)
    ]

unfoldable pub any_passed : List CheckResult → Bool
any_passed [] = false
any_passed (r ∷ rs) =
    let rest = any_passed rs in elim r.ruling [ passes ↦ true | fails ↦ rest | is_open ↦ rest ]

-- The exit code of a run.
unfoldable pub run_code : List CheckResult → ℕ
unfolding summarize_verdicts any_passed
run_code rs =
    let failed' = (summarize_verdicts rs).0 in
    if failed' == 0 && not (any_passed rs) then 1 else failed'

none_failed_iff :
    (rs : List CheckResult) → ((summarize_verdicts rs).0 ≡ 0) ↔ All (λ r. r.ruling ≢ fails) rs
unfolding summarize_verdicts
none_failed_iff [] = (λ h. tt, λ h. refl)
none_failed_iff (r ∷ rs) = by_ruling r.ruling (none_failed_iff rs)
  where
    by_ruling :
        (v : Ruling)
        → ((summarize_verdicts rs).0 ≡ 0) ↔ All (λ x. x.ruling ≢ fails) rs
        → let it : ℕ × List String = elim v [
          | fails ↦ (suc (summarize_verdicts rs).0, (summarize_verdicts rs).1)
          | is_open ↦ ((summarize_verdicts rs).0, r.id ∷ (summarize_verdicts rs).1)
          | passes ↦ ((summarize_verdicts rs).0, (summarize_verdicts rs).1)
        ] in
          (it.0 ≡ 0) ↔ ((v ≢ fails) × All (λ x. x.ruling ≢ fails) rs)
    by_ruling passes (to, from) = (λ h. (λ e. cc, to h), λ h. from h.1)
    by_ruling is_open (to, from) = (λ h. (λ e. cc, to h), λ h. from h.1)
    by_ruling fails (to, from) = (λ h. absurd (omega arith), λ h. absurd (h.0 refl))

any_passed_iff : (rs : List CheckResult) → (any_passed rs ≡ true) ↔ Some (λ r. r.ruling ≡ passes) rs
unfolding any_passed
any_passed_iff [] = (λ h. cc, λ h. absurd h)
any_passed_iff (r ∷ rs) = by_ruling r.ruling (any_passed_iff rs)
  where
    by_ruling :
        (v : Ruling)
        → (any_passed rs ≡ true) ↔ Some (λ x. x.ruling ≡ passes) rs
        → let it : Bool = elim v [
          | passes ↦ true
          | fails ↦ any_passed rs
          | is_open ↦ any_passed rs
        ] in
          (it ≡ true) ↔ ((v ≡ passes) ⊎ Some (λ x. x.ruling ≡ passes) rs)
    by_ruling passes (to, from) = (λ h. inl refl, λ h. refl)
    by_ruling is_open (to, from) =
        (λ h. inr (to h), λ h. elim h [ inl e ↦ absurd (cc) | inr s ↦ from s ])
    by_ruling fails (to, from) =
        (λ h. inr (to h), λ h. elim h [ inl e ↦ absurd (cc) | inr s ↦ from s ])

-- A run exits with 0 exactly if no check failed and some check passed.
pub run_code_iff :
    (rs : List CheckResult)
    → (run_code rs ≡ 0) ↔ (All (λ r. r.ruling ≢ fails) rs × Some (λ r. r.ruling ≡ passes) rs)
unfolding run_code
run_code_iff rs =
    let (f_to, f_from) = none_failed_iff rs in
    let (p_to, p_from) = any_passed_iff rs in
    (
      λ h. (f_to (ground (arith, h)), p_to (ground (arith, h))),
      λ h. let a = f_from h.0 in let b = p_from h.1 in rw (a, b) refl,
    )
