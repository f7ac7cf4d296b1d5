-- ===== src/Swap/Evidence.antt =====
-- The evidence that a run starts from (cmd/migration-swap/gate.go: newEvidence;
-- internal/migmon/offline.go: Offline, ProducerRecord, SwapRecord).
pub mod Facts
use pbt_devnet.Prelude.{
  ℕ, ◌≡◌, refl, sym, ap, subst, ◌⊎◌, inl, inr, String, Bool, ◌||◌, Option, none, some, List, [],
  ◌∷◌, map, arith, ◌==◌, str_eq, Result, ok, err, ◌>>=◌, >>=-eq-ok, ok-injective, All, All-map,
  Some, Bool-cases, Option-cases, if◌then◌else◌,
}

pub record OfflineProducer : Type 0 where
  pub node : ℕ
  pub kind : String
  pub consumers : List ℕ

pub record OfflineConsumer : Type 0 where
  pub node : ℕ
  pub expected_seconds : ℕ
  pub timeout_seconds : ℕ

-- "ok", "failed", "timeout" and "skipped".
pub data Status : Type 0 where
  status_ok status_failed status_timeout status_skipped : Status

-- The fields that `newEvidence` sets; times, roots and anchors start at their zero values.
pub record ProducerRecord : Type 0 where
  pub node : ℕ
  pub kind : String
  pub status : Status
  pub detail : String
  pub consumers : List ℕ

pub record SwapRecord : Type 0 where
  pub node : ℕ
  pub producer : ℕ
  pub status : Status
  pub detail : String

pub record Evidence : Type 0 where
  pub producers : List ProducerRecord
  pub swaps : List SwapRecord

pub data EvidenceError : Type 0 where
  unknown_kind : ℕ → String → EvidenceError
  no_producer : ℕ → EvidenceError

unfoldable pub assign_all : ℕ → List ℕ → (ℕ → Option ℕ) → ℕ → Option ℕ
assign_all p [] of c = of c
assign_all p (k ∷ ks) of c = assign_all p ks (λ x. if x == k then some p else of x) c

unfoldable pub known_kind : String → Bool
known_kind k = str_eq k "geth-convert" || str_eq k "erigon-export"

-- The loop over the producers: their records, and the producer of each consumer.
unfoldable pub seed_producers :
    List OfflineProducer
    → (ℕ → Option ℕ)
    → Result EvidenceError (List ProducerRecord × (ℕ → Option ℕ))
unfolding assign_all known_kind
seed_producers [] of = ok ([], of)
seed_producers (p ∷ ps) of =
    if known_kind p.kind
    then (seed_producers ps (assign_all p.node p.consumers of) >>= λ r. ok (
      record {
        node = p.node;
        kind = p.kind;
        status = status_failed;
        detail = "not run";
        consumers = p.consumers;
      }
          ∷ r.0,
      r.1,
    ))
    else err (unknown_kind p.node p.kind)

unfoldable pub seed_swaps :
    List OfflineConsumer → (ℕ → Option ℕ) → Result EvidenceError (List SwapRecord)
seed_swaps [] of = ok []
seed_swaps (c ∷ cs) of = elim (of c.node) [
  | none ↦ err (no_producer c.node)
  | some p ↦ seed_swaps cs of >>= λ r.
      ok (
        record { node = c.node; producer = p; status = status_skipped; detail = "not reached" } ∷ r)
]

unfoldable pub new_evidence :
    List OfflineProducer → List OfflineConsumer → Result EvidenceError Evidence
unfolding seed_producers seed_swaps
new_evidence producers consumers = seed_producers producers (λ _. none) >>= λ r.
    seed_swaps consumers r.1 >>= λ swaps. ok (record { producers = r.0; swaps = swaps })
