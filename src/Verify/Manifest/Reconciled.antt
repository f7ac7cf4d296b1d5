-- ===== src/Verify/Manifest/Reconciled.antt =====
-- When each part of the check of a lap's own record finds nothing (cmd/verify-migration/manifest.go: checkLapManifest).
use pbt_devnet.Prelude.{
  ℕ, ◌+◌, ◌≤◌, ◌<◌, ◌≡◌, ◌≢◌, refl, subst, ◌↔◌, ◌⊎◌, inl, inr, String, Bool, true, false, not, ◌&&◌,
  Option, none, some, List, [], ◌++◌, some_of, some_of-Some, Some-map, append-eq-nil, each-eq-nil,
  iff_trans, str_eq, eq_iff, ltb, leb, Bool-cases, All, Some, arith,
}
use pbt_devnet.Dump.{DumpOp, Dump, admitted}
use pbt_devnet.Verify.{Restarted, Scenario, LapManifest}
use pbt_devnet.Verify.Serialized.{problem_if}
use pbt_devnet.Verify.Serialized.Clear.{problem_if_iff}
use pbt_devnet.Verify.Partitions.{ChaosSeen, isolated, healed, scheduled, other_record}
use pbt_devnet.Verify.Manifest.{
  ChaosRecord, ManifestProblem, restart_problems, restart_inside, dump_problems, other_profile,
  scenario_problems, ended_with, request_problems, no_outcome, quiesce_problem, isolated_late,
}

-- The node went down more than a minute before an op, or after it.
abbrev pub IsOutside : Restarted → DumpOp → Type 0
IsOutside r o = (r.at + 60 < o.start) ⊎ (o.end + 60 < r.at)

IsOutside-iff :
    (r : Restarted) (o : DumpOp)
    → ((leb o.start (r.at + 60) && leb r.at (o.end + 60)) ≡ false) ↔ IsOutside r o
IsOutside-iff r o = (
  λ h. elim (Bool-cases (leb o.start (r.at + 60))) [
    | inl e ↦ inr (ground (arith, h))
    | inr e ↦ inl (ground (arith, h))
  ],
  λ h. elim h [ inl a ↦ ground arith | inr b ↦ ground arith ],
)

restart_iff :
    (r : Restarted) (ops : List DumpOp) → (restart_problems r ops ≡ []) ↔ All (IsOutside r) ops
unfolding restart_problems
restart_iff r =
    each-eq-nil _ (restart_problems r) (IsOutside r) refl (λ o ops. refl)
      λ o. iff_trans (problem_if_iff _ (restart_inside r o.name)) (IsOutside-iff r o)

-- Nobody is cut off more than half a minute after the quiesce.
abbrev pub IsQuiet : {Raw : Type 0} → (quiesced : ℕ) → ChaosRecord Raw → Type 0
IsQuiet q e = (n : String) (t : ℕ) → e.event ≡ isolated n t → t ≤ q + 30

pub IsQuiet-iff :
    {Raw : Type 0} (q : ℕ) (e : ChaosRecord Raw) → (quiesce_problem q e ≡ []) ↔ IsQuiet q e
unfolding quiesce_problem
IsQuiet-iff {Raw} q e = by_event e.event refl
  where
    by_event :
        (s : ChaosSeen Raw)
        → e.event ≡ s
        → let it : List ManifestProblem = elim s [
          | isolated n t ↦ problem_if (ltb (q + 30) t) (isolated_late t q)
          | _ ↦ []
        ] in
          (it ≡ []) ↔ IsQuiet q e
    by_event (isolated n t) is = (
      λ h n' t' is'. let same : t' ≡ t = cc in ground (arith, h, same),
      λ f. let le = f n t is in ground (arith, le),
    )
    by_event (healed n t) is = (λ h n' t' is'. absurd (cc), λ f. refl)
    by_event (scheduled raw) is = (λ h n' t' is'. absurd (cc), λ f. refl)
    by_event other_record is = (λ h n' t' is'. absurd (cc), λ f. refl)

-- A scenario is ok, or it was not tested.
abbrev pub Ended : Scenario → Type 0
Ended s = (s.outcome ≡ "ok") ⊎ (s.outcome ≡ "inconclusive")

pub Ended-iff :
    (s : Scenario)
    → ((not (str_eq s.outcome "ok") && not (str_eq s.outcome "inconclusive")) ≡ false) ↔ Ended s
Ended-iff s =
    by_tests (str_eq s.outcome "ok") (eq_iff s.outcome "ok") (str_eq s.outcome "inconclusive")
      (eq_iff s.outcome "inconclusive")
  where
    by_tests :
        (a : Bool)
        → (a ≡ true) ↔ (s.outcome ≡ "ok")
        → (b : Bool) → (b ≡ true) ↔ (s.outcome ≡ "inconclusive")
        → ((not a && not b) ≡ false) ↔ Ended s
    by_tests true ia b ib = (λ h. inl (ia.0 refl), λ h. refl)
    by_tests false ia true ib = (λ h. inr (ib.0 refl), λ h. refl)
    by_tests false ia false ib = (
      λ h. absurd (cc),
      λ h. elim h [ inl e ↦ absurd (let k = ia.1 e in cc) | inr e ↦ absurd (let k = ib.1 e in cc) ],
    )

pub scenarios_iff : (ss : List Scenario) → (scenario_problems ss ≡ []) ↔ All Ended ss
unfolding scenario_problems
scenarios_iff =
    each-eq-nil _ scenario_problems Ended refl (λ s ss. refl)
      λ s. iff_trans (problem_if_iff _ (ended_with s)) (Ended-iff s)

-- A scenario of that name has an outcome.
abbrev pub HasOutcome : List Scenario → String → Type 0
HasOutcome ss name = Some (λ s. s.name ≡ name) ss

HasOutcome-iff :
    (ss : List Scenario) (name : String)
    → (not (some_of (λ s. str_eq s.name name) ss) ≡ false) ↔ HasOutcome ss name
HasOutcome-iff ss name =
    let (to, from) = some_of-Some (λ s. str_eq s.name name) ss in
    (
      λ h. Some-map _ _ (λ s e. (eq_iff s.name name).0 e) ss (to (ground (arith, h))),
      λ h.
          let found = from (Some-map _ _ (λ s e. (eq_iff s.name name).1 e) ss h) in
          ground (arith, found),
    )

pub requests_iff :
    (ss : List Scenario) (names : List String)
    → (request_problems ss names ≡ []) ↔ All (HasOutcome ss) names
unfolding request_problems
requests_iff ss =
    each-eq-nil _ (request_problems ss) (HasOutcome ss) refl (λ n ns. refl)
      λ n. iff_trans (problem_if_iff _ (no_outcome n)) (HasOutcome-iff ss n)

-- The schedule is that of the lap's profile, if it names one, and the restart is outside its ops.
abbrev pub FitsDump : LapManifest → Dump → Type 0
FitsDump m d =
    (m.profile ≢ "" → d.profile ≡ m.profile)
    × ((r : Restarted) → m.restart ≡ some r → All (IsOutside r) (admitted d))

profile_iff :
    (want got : String)
    → ((not (str_eq want "") && not (str_eq got want)) ≡ false) ↔ (want ≢ "" → got ≡ want)
profile_iff want got =
    by_tests (str_eq want "") (eq_iff want "") (str_eq got want) (eq_iff got want)
  where
    by_tests :
        (a : Bool)
        → (a ≡ true) ↔ (want ≡ "")
        → (b : Bool) → (b ≡ true) ↔ (got ≡ want)
        → ((not a && not b) ≡ false) ↔ (want ≢ "" → got ≡ want)
    by_tests true ia b ib = (λ h k. absurd (k (ia.0 refl)), λ h. refl)
    by_tests false ia true ib = (λ h k. ib.0 refl, λ h. refl)
    by_tests false ia false ib =
        (λ h. absurd (cc), λ f. absurd (let k = ib.1 (f (λ e. let z = ia.1 e in cc)) in cc))

dump_iff : (m : LapManifest) (d : Dump) → (dump_problems m (some d) ≡ []) ↔ FitsDump m d
unfolding dump_problems
dump_iff m d = by_restart m.restart refl
  where
    by_restart :
        (o : Option Restarted)
        → m.restart ≡ o
        → let it : List ManifestProblem = elim o [
          | none ↦ []
          | some r ↦ restart_problems r (admitted d)
        ] in
          (problem_if
                (not (str_eq m.profile "") && not (str_eq d.profile m.profile))
                (other_profile m.profile d.profile)
              ++ it
            ≡ [])
          ↔ FitsDump m d
    by_restart none e =
        let (split, join) = append-eq-nil (problem_if _ (other_profile m.profile d.profile)) [] in
        let (to, from) = iff_trans (problem_if_iff _ _) (profile_iff m.profile d.profile) in
        (λ h. (to (split h).0, λ r k. absurd (cc)), λ h. join (from h.0, refl))
    by_restart (some r) e =
        let (split, join) =
          append-eq-nil (problem_if _ (other_profile m.profile d.profile))
            (restart_problems r (admitted d)) in
        let (to, from) = iff_trans (problem_if_iff _ _) (profile_iff m.profile d.profile) in
        let (r_to, r_from) = restart_iff r (admitted d) in
        (
          λ h. (
            to (split h).0,
            λ r' k.
                let same : r ≡ r' = cc in
                subst (λ x. All (IsOutside x) (admitted d)) same (r_to (split h).1),
          ),
          λ h. join (from h.0, r_from (h.1 r e)),
        )

pub published_iff :
    (m : LapManifest) (o : Option Dump)
    → (dump_problems m o ≡ []) ↔ ((d : Dump) × (o ≡ some d) × FitsDump m d)
published_iff m none = unfold dump_problems in (λ h. absurd (cc), λ (d, e, _). absurd (cc))
published_iff m (some d) =
    let (to, from) = dump_iff m d in
    (
      λ h. (d, refl, to h),
      λ (d', e, fits). let same : d' ≡ d = cc in from (subst (FitsDump m) same fits),
    )
