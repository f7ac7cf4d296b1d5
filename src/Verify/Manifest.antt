-- ===== src/Verify/Manifest.antt =====
-- The lap's own record of what it did, against the run's evidence (cmd/verify-migration/manifest.go:
-- checkLapManifest). The decoder of a schedule and the test for a part of a text are parameters.
pub mod Reconciled
pub mod Passing
use pbt_devnet.Prelude.{
  ℕ, ◌+◌, String, Bool, true, false, not, ◌&&◌, ◌||◌, Option, none, some, List, [], ◌∷◌, ◌++◌, map,
  keep, some_of, ltb, leb, ◌==◌, str_eq, length, Result, if◌then◌else◌,
}
use pbt_devnet.Dump.{DumpOp, Dump, admitted}
use pbt_devnet.Verify.{
  Restarted, Scenario, LapManifest, ManifestFile, not_given, unreadable, loaded, Outcome,
  inconclusive, failed, passed, conclude, no_manifest, untested,
}
use pbt_devnet.Verify.Serialized.{problem_if}
use pbt_devnet.Verify.Partitions.{
  ChaosSeen, isolated, healed, scheduled, other_record, schedule_dump,
}

-- A record of the chaos stream, with its text.
pub record ChaosRecord (Raw : Type 0) : Type 0 where
  pub event : ChaosSeen Raw
  pub detail : String

pub data ManifestProblem : Type 0 where
  manifest_error no_dump no_handover no_scenarios : ManifestProblem
  other_profile : (want got : String) → ManifestProblem
  restart_inside : Restarted → (op : String × ℕ) → ManifestProblem
  ended_with : Scenario → ManifestProblem
  no_outcome : (scenario : String) → ManifestProblem
  isolated_late : (at quiesced : ℕ) → ManifestProblem

-- What a check that passes says: the restart, the scenarios that ended ok, and the quiesce.
pub record LapNote : Type 0 where
  pub restart : Option Restarted
  pub completed : ℕ
  pub quiesced_at : ℕ

unfoldable pub restart_problems : Restarted → List DumpOp → List ManifestProblem
restart_problems r [] = []
restart_problems r (o ∷ ops) =
    problem_if (leb o.start (r.at + 60) && leb r.at (o.end + 60)) (restart_inside r o.name)
    ++ restart_problems r ops

unfoldable pub dump_problems : LapManifest → Option Dump → List ManifestProblem
unfolding restart_problems
dump_problems m none = no_dump ∷ []
dump_problems m (some d) =
    problem_if (not (str_eq m.profile "") && not (str_eq d.profile m.profile))
      (other_profile m.profile d.profile)
    ++ elim m.restart [ none ↦ [] | some r ↦ restart_problems r (admitted d) ]

unfoldable pub scenario_problems : List Scenario → List ManifestProblem
scenario_problems [] = []
scenario_problems (s ∷ ss) =
    problem_if (not (str_eq s.outcome "ok") && not (str_eq s.outcome "inconclusive")) (ended_with s)
    ++ scenario_problems ss

unfoldable pub request_problems : List Scenario → List String → List ManifestProblem
request_problems ss [] = []
request_problems ss (name ∷ names) =
    problem_if (not (some_of (λ s. str_eq s.name name) ss)) (no_outcome name)
    ++ request_problems ss names

abbrev pub handover_text : String
handover_text = "handing disruptoor over"

module _ {Raw : Type 0} (contains : String → String → Bool) where
  unfoldable pub handover_problems : LapManifest → List (ChaosRecord Raw) → List ManifestProblem
  handover_problems m evs = elim m.handover_expected [
    | false ↦ []
    | true ↦
        problem_if (not (some_of (λ e. contains e.detail handover_text) evs)) no_handover
        ++ elim m.scenarios [ [] ↦ no_scenarios ∷ [] | s ∷ ss ↦ [] ]
  ]

-- An isolation half a minute after the quiesce.
unfoldable pub quiesce_problem :
    {Raw : Type 0} → (quiesced : ℕ) → ChaosRecord Raw → List ManifestProblem
quiesce_problem q e = elim e.event [
  | isolated n t ↦ problem_if (ltb (q + 30) t) (isolated_late t q)
  | _ ↦ []
]

unfoldable pub quiesce_problems :
    {Raw : Type 0} → (quiesced : ℕ) → List (ChaosRecord Raw) → List ManifestProblem
unfolding quiesce_problem
quiesce_problems q [] = []
quiesce_problems q (e ∷ evs) = quiesce_problem q e ++ quiesce_problems q evs

module _ {Raw E : Type 0} (parse : Raw → Result E Dump) (contains : String → String → Bool)
    (evs : List (ChaosRecord Raw)) where
  unfoldable pub manifest_problems : LapManifest → List ManifestProblem
  unfolding dump_problems handover_problems scenario_problems request_problems quiesce_problems
  manifest_problems m =
      dump_problems m (schedule_dump parse (map (λ e. e.event) evs))
      ++ (handover_problems contains m evs
          ++ (scenario_problems m.scenarios
              ++ (request_problems m.scenarios m.requested
                  ++ (if m.quiesced_at == 0 then [] else quiesce_problems m.quiesced_at evs))))

  unfoldable pub judge_manifest : LapManifest → Outcome ManifestProblem LapNote
  unfolding manifest_problems
  judge_manifest m =
      conclude (manifest_problems m)
        (elim (keep (λ s. str_eq s.outcome "inconclusive") m.scenarios) [
          | s ∷ ss ↦ inconclusive (untested (map (λ x. x.name) (s ∷ ss)))
          | [] ↦ passed (record {
            restart = m.restart;
            completed = length (keep (λ s. str_eq s.outcome "ok") m.scenarios);
            quiesced_at = m.quiesced_at;
          })
        ])

  unfoldable pub check_lap_manifest : ManifestFile → Outcome ManifestProblem LapNote
  unfolding judge_manifest
  check_lap_manifest not_given = inconclusive no_manifest
  check_lap_manifest unreadable = failed (manifest_error ∷ [])
  check_lap_manifest (loaded m) = judge_manifest m
