-- ===== src/Verify.antt =====
-- The verifier of a lap (cmd/verify-migration). A check gives an outcome; the texts of problems are
-- constructors with the values that they name. Times are whole Unix seconds, and 0 is a time that
-- was never recorded.
pub mod Offline
pub mod Serialized
pub mod Replayed
pub mod Branch
pub mod Partitions
pub mod Run
pub mod Completion
pub mod Manifest
use pbt_devnet.Prelude.{
  ℕ, ◌≡◌, refl, ◌↔◌, String, Bool, true, false, Option, none, some, List, [], ◌∷◌,
}
use pbt_devnet.Swap.Evidence.{OfflineProducer, OfflineConsumer}

-- Why a check judges nothing.
pub data Unjudged : Type 0 where
  no_manifest manifest_unreadable no_offline_lap no_producer_evidence no_swaps : Unjudged
  all_skipped : ℕ → Unjudged
  too_few_partitions : (healed corroborated : ℕ) → Unjudged
  untested : List String → Unjudged

pub data Outcome (P N : Type 0) : Type 0 where
  inconclusive : Unjudged → Outcome P N
  failed : List P → Outcome P N
  passed : N → Outcome P N

pub record OfflineLap : Type 0 where
  pub enabled : Bool
  pub margin_seconds : ℕ
  pub producers : List OfflineProducer
  pub consumers : List OfflineConsumer
  pub online_only : List (ℕ × String)

-- The fields of a SwapRecord and of a ProducerRecord that the checks read.
pub record SwapDone : Type 0 where
  pub node : ℕ
  pub status : String
  pub stop_at : ℕ
  pub start_at : ℕ
  pub caught_up_at : ℕ

pub record ProducerDone : Type 0 where
  pub node : ℕ
  pub status : String

pub record Restarted : Type 0 where
  pub node : ℕ
  pub at : ℕ

pub record Scenario : Type 0 where
  pub name : String
  pub outcome : String

-- What a lap did; a quiesce at 0 never was.
pub record LapManifest : Type 0 where
  pub profile : String
  pub restart : Option Restarted
  pub scenarios : List Scenario
  pub requested : List String
  pub handover_expected : Bool
  pub quiesced_at : ℕ
  pub offline : Option OfflineLap
  pub producers : List ProducerDone
  pub swaps : List SwapDone

-- What the verifier has of a manifest: no path, a file that does not read, or the record.
pub data ManifestFile : Type 0 where
  not_given unreadable : ManifestFile
  loaded : LapManifest → ManifestFile

-- `requireOffline`, with the check that goes on from the manifest and its offline lap.
unfoldable pub require_offline :
    {P N : Type 0} → ManifestFile → (LapManifest → OfflineLap → Outcome P N) → Outcome P N
require_offline not_given check = inconclusive no_manifest
require_offline unreadable check = inconclusive manifest_unreadable
require_offline (loaded m) check = elim m.offline [
  | none ↦ inconclusive no_offline_lap
  | some lap ↦ elim lap.enabled [ true ↦ check m lap | false ↦ inconclusive no_offline_lap ]
]

-- A check fails with its problems, if it has any.
unfoldable pub conclude : {P N : Type 0} → List P → Outcome P N → Outcome P N
conclude [] pass = pass
conclude (p ∷ ps) pass = failed (p ∷ ps)

pub conclude_passed :
    {P N : Type 0} (ps : List P) (pass : Outcome P N) (n : N)
    → (conclude ps pass ≡ passed n) ↔ ((ps ≡ []) × (pass ≡ passed n))
unfolding conclude
conclude_passed [] pass n = (λ h. (refl, h), λ h. h.1)
conclude_passed (p ∷ ps) pass n = (λ h. cc, λ h. cc)

-- A check of an offline lap that passes has read an enabled lap, and passed on it.
pub require_offline_passed :
    {P N : Type 0} (file : ManifestFile) (check : LapManifest → OfflineLap → Outcome P N) (n : N)
    → (require_offline file check ≡ passed n) ↔ (
        (m : LapManifest) × (lap : OfflineLap) × (file ≡ loaded m)
        × (m.offline ≡ some lap)
        × (lap.enabled ≡ true)
        × (check m lap ≡ passed n))
unfolding require_offline
require_offline_passed not_given check n = (λ h. absurd (cc), λ (m, lap, e, _, _, _). absurd (cc))
require_offline_passed unreadable check n = (λ h. absurd (cc), λ (m, lap, e, _, _, _). absurd (cc))
require_offline_passed {P} {N} (loaded m) check n = by_lap m.offline refl
  where
    Reads : Option OfflineLap → Type 0
    Reads o =
        (m' : LapManifest) × (lap : OfflineLap) × (loaded m ≡ loaded m')
        × (m'.offline ≡ some lap)
        × (lap.enabled ≡ true)
        × (check m' lap ≡ passed n)

    by_enabled :
        (lap : OfflineLap)
        → m.offline ≡ some lap
        → (t : Bool) → lap.enabled ≡ t
        → let it : Outcome P N = elim t [
          | true ↦ check m lap
          | false ↦ inconclusive no_offline_lap
        ] in
          (it ≡ passed n) ↔ Reads (some lap)
    by_enabled lap e true t = (λ h. (m, lap, refl, e, t, h), λ (m', lap', em, e', t', h). cc)
    by_enabled lap e false t = (λ h. absurd (cc), λ (m', lap', em, e', t', h). absurd (cc))

    by_lap :
        (o : Option OfflineLap)
        → m.offline ≡ o
        → let it : Outcome P N = elim o [
          | none ↦ inconclusive no_offline_lap
          | some lap ↦ elim lap.enabled [ true ↦ check m lap | false ↦ inconclusive no_offline_lap ]
        ] in
          (it ≡ passed n) ↔ Reads o
    by_lap none e = (λ h. absurd (cc), λ (m', lap', em, e', t', h). absurd (cc))
    by_lap (some lap) e = by_enabled lap e lap.enabled refl
