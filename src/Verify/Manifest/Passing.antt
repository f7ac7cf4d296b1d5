-- ===== src/Verify/Manifest/Passing.antt =====
-- When the check of a lap's own record passes (cmd/verify-migration/manifest.go: checkLapManifest).
use pbt_devnet.Prelude.{
  ℕ, ◌≡◌, ◌≢◌, refl, sym, ap, subst, ◌∙◌, ◌↔◌, inl, inr, String, Bool, true, false, not, some, List,
  [], ◌∷◌, ◌++◌, map, keep, some_of, some_of-Some, append-eq-nil, each-eq-nil, str_eq, eq_iff, ◌==◌,
  length, Result, if◌then◌else◌, Bool-cases, All, Some, arith,
}
use pbt_devnet.Dump.{Dump}
use pbt_devnet.Verify.{
  Scenario, LapManifest, ManifestFile, not_given, unreadable, loaded, Outcome, inconclusive, passed,
  conclude, conclude_passed, untested,
}
use pbt_devnet.Verify.Serialized.{problem_if}
use pbt_devnet.Verify.Partitions.{schedule_dump}
use pbt_devnet.Verify.Manifest.{
  ChaosRecord, ManifestProblem, LapNote, dump_problems, scenario_problems, request_problems,
  handover_text, no_handover, no_scenarios, handover_problems, quiesce_problem, quiesce_problems,
  manifest_problems, judge_manifest, check_lap_manifest,
}
use pbt_devnet.Verify.Manifest.Reconciled.{
  IsQuiet, IsQuiet-iff, Ended, scenarios_iff, HasOutcome, requests_iff, FitsDump, published_iff,
}

-- A scenario that ended ok, and one that was not tested.
tested_iff :
    (ss : List Scenario)
    → (All Ended ss × (keep (λ s. str_eq s.outcome "inconclusive") ss ≡ []))
      ↔ All (λ s. s.outcome ≡ "ok") ss
tested_iff [] = (λ h. tt, λ h. (tt, refl))
tested_iff (s ∷ ss) =
    by_test (str_eq s.outcome "inconclusive") (eq_iff s.outcome "inconclusive") (tested_iff ss)
  where
    by_test :
        (b : Bool)
        → (b ≡ true) ↔ (s.outcome ≡ "inconclusive")
        → (All Ended ss × (keep (λ x. str_eq x.outcome "inconclusive") ss ≡ []))
          ↔ All (λ x. x.outcome ≡ "ok") ss
        → ((Ended s × All Ended ss)
            × ((if b
                  then s ∷ keep (λ x. str_eq x.outcome "inconclusive") ss
                  else keep (λ x. str_eq x.outcome "inconclusive") ss)
                ≡ []))
          ↔ ((s.outcome ≡ "ok") × All (λ x. x.outcome ≡ "ok") ss)
    by_test true ib (to, from) = (
      λ h. absurd (let k = h.1 in cc),
      λ h.
          absurd
            (let z : false ≡ true = (eq_iff "ok" "inconclusive").1 (sym h.0 ∙ ib.0 refl) in cc),
    )
    by_test false ib (to, from) = (
      λ h. (elim h.0.0 [ inl e ↦ e | inr e ↦ absurd (let k = ib.1 e in cc) ], to (h.0.1, h.1)),
      λ h. let (ended, none') = from h.1 in ((inl h.0, ended), none'),
    )

-- What a check that passes tells of a lap.
abbrev pub lap_note : LapManifest → LapNote
lap_note m = record {
  restart = m.restart;
  completed = length (keep (λ s. str_eq s.outcome "ok") m.scenarios);
  quiesced_at = m.quiesced_at;
}

module _ {Raw E : Type 0} (parse : Raw → Result E Dump) (contains : String → String → Bool)
    (evs : List (ChaosRecord Raw)) where
  -- The handover is on record, and scenarios were run after it.
  abbrev pub HandedOver : LapManifest → Type 0
  HandedOver m =
      m.handover_expected ≡ true
      → Some (λ e. contains e.detail handover_text ≡ true) evs × (m.scenarios ≢ [])

  -- What a lap says that it did agrees with the run.
  pub record IsReconciled (m : LapManifest) : Type 0 where
    pub dump : Dump
    pub published : schedule_dump parse (map (λ e. e.event) evs) ≡ some dump
    pub fits : FitsDump m dump
    pub handed_over : HandedOver m
    pub scenarios_ok : All (λ s. s.outcome ≡ "ok") m.scenarios
    pub requests_met : All (HasOutcome m.scenarios) m.requested
    pub stays_quiet : m.quiesced_at ≢ 0 → All (IsQuiet m.quiesced_at) evs

  handover_iff : (m : LapManifest) → (handover_problems contains m evs ≡ []) ↔ HandedOver m
  unfolding handover_problems
  handover_iff m =
      by_expected m.handover_expected refl m.scenarios refl
        (some_of (λ e. contains e.detail handover_text) evs)
        (some_of-Some (λ e. contains e.detail handover_text) evs)
    where
      by_expected :
          (x : Bool)
          → m.handover_expected ≡ x
          → (ss : List Scenario) → m.scenarios ≡ ss
          → (b : Bool) → (b ≡ true) ↔ Some (λ e. contains e.detail handover_text ≡ true) evs
          → let none' : List ManifestProblem = elim ss [ [] ↦ no_scenarios ∷ [] | s ∷ rest ↦ [] ] in
            let it : List ManifestProblem = elim x [
              | false ↦ []
              | true ↦ problem_if (not b) no_handover ++ none'
            ] in
            (it ≡ []) ↔ HandedOver m
      by_expected false e ss k b i = (λ h z. absurd (cc), λ h. refl)
      by_expected true e [] k false i = (λ h. absurd (cc), λ f. absurd ((f e).1 k))
      by_expected true e [] k true i = (λ h. absurd (cc), λ f. absurd ((f e).1 k))
      by_expected true e (s ∷ ss) k false i =
          (λ h. absurd (cc), λ f. absurd (let z = i.1 (f e).0 in cc))
      by_expected true e (s ∷ ss) k true i = (λ h z. (i.0 refl, λ q. cc), λ f. refl)

  quiesce_iff :
      (q : ℕ)
      → ((if q == 0 then [] else quiesce_problems q evs) ≡ []) ↔ (q ≢ 0 → All (IsQuiet q) evs)
  unfolding quiesce_problems
  quiesce_iff q =
      let (to, from) =
        each-eq-nil (quiesce_problem q) (quiesce_problems q) (IsQuiet q) refl (λ e es. refl)
          (IsQuiet-iff q) evs in
      elim (Bool-cases (q == 0)) [
        | inl e ↦ rw e (λ h k. absurd (k (ground (arith, e))), λ f. refl)
        | inr e ↦ rw e (λ h k. to h, λ f. from (f (λ z. absurd (ground (arith, e, z)))))
      ]

  -- What holds of a lap whose check finds no problem, and where each scenario may be untested.
  abbrev Clear : LapManifest → Type 0
  Clear m =
      (dump_problems m (schedule_dump parse (map (λ e. e.event) evs)) ≡ [])
      × HandedOver m
      × All Ended m.scenarios
      × All (HasOutcome m.scenarios) m.requested
      × (m.quiesced_at ≢ 0 → All (IsQuiet m.quiesced_at) evs)

  Clear-iff : (m : LapManifest) → (manifest_problems parse contains evs m ≡ []) ↔ Clear m
  unfolding manifest_problems
  Clear-iff m =
      let (h_to, h_from) = handover_iff m in
      let (s_to, s_from) = scenarios_iff m.scenarios in
      let (r_to, r_from) = requests_iff m.scenarios m.requested in
      let (q_to, q_from) = quiesce_iff m.quiesced_at in
      let (split1, join1) = append-eq-nil (dump_problems m _) _ in
      let (split2, join2) = append-eq-nil (handover_problems contains m evs) _ in
      let (split3, join3) = append-eq-nil (scenario_problems m.scenarios) _ in
      let (split4, join4) = append-eq-nil (request_problems m.scenarios m.requested) _ in
      (
        λ h.
            let (d, h2) = split1 h in
            let (a, h3) = split2 h2 in
            let (b, h4) = split3 h3 in
            let (c, e) = split4 h4 in (d, h_to a, s_to b, r_to c, q_to e),
        λ (d, a, b, c, e).
            join1 (d, join2 (h_from a, join3 (s_from b, join4 (r_from c, q_from e)))),
      )

  IsReconciled-iff :
      (m : LapManifest)
      → (Clear m × (keep (λ s. str_eq s.outcome "inconclusive") m.scenarios ≡ [])) ↔ IsReconciled m
  IsReconciled-iff m =
      let (d_to, d_from) = published_iff m (schedule_dump parse (map (λ e. e.event) evs)) in
      let (t_to, t_from) = tested_iff m.scenarios in
      (
        λ ((d, a, b, c, e), none').
            let (dump', published', fits') = d_to d in
            record {
              dump = dump';
              published = published';
              fits = fits';
              handed_over = a;
              scenarios_ok = t_to (b, none');
              requests_met = c;
              stays_quiet = e;
            },
        λ is.
            let (ended, none') = t_from is.scenarios_ok in
            (
              (
                d_from (is.dump, is.published, is.fits),
                is.handed_over,
                ended,
                is.requests_met,
                is.stays_quiet,
              ),
              none',
            ),
      )

  judge_iff :
      (m : LapManifest) (n : LapNote)
      → (judge_manifest parse contains evs m ≡ passed n) ↔ (IsReconciled m × (lap_note m ≡ n))
  unfolding judge_manifest
  judge_iff m n =
      by_untested (keep (λ s. str_eq s.outcome "inconclusive") m.scenarios) (Clear-iff m)
        (IsReconciled-iff m)
    where
      by_untested :
          (us : List Scenario)
          → (manifest_problems parse contains evs m ≡ []) ↔ Clear m
          → (Clear m × (us ≡ [])) ↔ IsReconciled m
          → let it : Outcome ManifestProblem LapNote = elim us [
            | s ∷ ss ↦ inconclusive (untested (map (λ x. x.name) (s ∷ ss)))
            | [] ↦ passed (lap_note m)
          ] in
            (conclude (manifest_problems parse contains evs m) it ≡ passed n)
            ↔ (IsReconciled m × (lap_note m ≡ n))
      by_untested [] (c_to, c_from) (r_to, r_from) =
          let (split, join) =
            conclude_passed (manifest_problems parse contains evs m) (passed (lap_note m)) n in
          (
            λ h. (r_to (c_to (split h).0, refl), let z = (split h).1 in cc),
            λ (is, same). join (c_from (r_from is).0, ap passed same),
          )
      by_untested (s ∷ ss) (c_to, c_from) (r_to, r_from) =
          let (split, join) =
            conclude_passed (manifest_problems parse contains evs m)
              (inconclusive (untested (map (λ x. x.name) (s ∷ ss)))) n in
          (
            λ h. absurd (let z = (split h).1 in cc),
            λ (is, same). absurd (let z = (r_from is).1 in cc),
          )

  -- The check passes exactly if the lap's record was read and agrees with the run: a schedule is
  -- published, of the profile that the record names, if it names one; a restart was more than a
  -- minute away from every op that runs; a handover that is expected is on record, with some
  -- scenario run; every scenario ended ok, and each that was requested has an outcome; and nobody
  -- was cut off more than 30 s after the quiesce, if there was one. It tells the restart, the number
  -- of scenarios that ended ok, and the quiesce.
  pub check_lap_manifest_iff :
      (file : ManifestFile) (n : LapNote)
      → (check_lap_manifest parse contains evs file ≡ passed n)
        ↔ ((m : LapManifest) × (file ≡ loaded m) × IsReconciled m × (lap_note m ≡ n))
  unfolding check_lap_manifest
  check_lap_manifest_iff not_given n = (λ h. absurd (cc), λ h. absurd (let z = h.1 in cc))
  check_lap_manifest_iff unreadable n = (λ h. absurd (cc), λ h. absurd (let z = h.1 in cc))
  check_lap_manifest_iff (loaded m) n =
      let (to, from) = judge_iff m n in
      (
        λ h. let (is, same) = to h in (m, refl, is, same),
        λ (m', e, is, same).
            let eq : m' ≡ m = cc in
            from (subst (λ x. IsReconciled x × (lap_note x ≡ n)) eq (is, same)),
      )
