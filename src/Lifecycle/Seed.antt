-- ===== src/Lifecycle/Seed.antt =====
-- The lifecycle that a lap starts with (lifecycle.go: parseOffline).
pub mod Refused
use pbt_devnet.Prelude.{
  ℕ, String, Bool, true, ◌||◌, Option, none, some, List, [], ◌∷◌, ◌++◌, ltb, Result, ok, err, ◌>>=◌,
  refuse_if, if◌then◌else◌,
}
use pbt_devnet.Prelude.Maps.{Map, store, nat_key}
use pbt_devnet.Swap.Evidence.{OfflineProducer, OfflineConsumer}
use pbt_devnet.Lifecycle.{node_of, Offline}

pub record OfflineConfig : Type 0 where
  pub enabled : Bool
  pub producers : List OfflineProducer
  pub consumers : List OfflineConsumer
  pub online_only : List (ℕ × String)

pub data SeedError : Type 0 where
  bad_json : SeedError
  not_participant : (node participants : ℕ) → SeedError

unfoldable pub known : ℕ → Offline → Result SeedError (Unit {0})
known n o = refuse_if (ltb n 1 || ltb o.participants n) (not_participant n o.participants)

unfoldable pub set_sources : ℕ → List ℕ → Map ℕ ℕ → Map ℕ ℕ
set_sources p [] source = source
set_sources p (c ∷ cs) source = set_sources p cs (store c p source)

unfoldable pub seed_producer : OfflineProducer → Offline → Offline
unfolding set_sources
seed_producer p o = record o {
  nodes = store p.node (record (node_of p.node o) { producer = true }) o.nodes;
  source = set_sources p.node p.consumers o.source;
}

unfoldable pub seed_consumer : OfflineConsumer → Offline → Offline
seed_consumer c o = record o {
  nodes = store c.node (record (node_of c.node o) { importer = "pending" }) o.nodes;
  swaps = o.swaps ++ c.node ∷ [];
}

unfoldable pub seed_online : ℕ × String → Offline → Offline
seed_online n o = record o {
  nodes = store n.0 (record (node_of n.0 o) { importer = "no_importer"; reason = n.1 }) o.nodes;
}

-- A loop over declared nodes, each of which has to be a participant.
unfoldable pub seed_each :
    {A : Type 0} → (A → ℕ) → (A → Offline → Offline) → List A → Offline → Result SeedError Offline
unfolding known
seed_each node seed [] o = ok o
seed_each node seed (a ∷ rest) o = elim (known (node a) o) [
  | err e ↦ err e
  | ok _ ↦ seed_each node seed rest (seed a o)
]

unfoldable pub seed : OfflineConfig → (participants : ℕ) → Result SeedError Offline
unfolding seed_producer seed_consumer seed_online seed_each
seed cfg participants =
    seed_each (λ p. p.node) seed_producer cfg.producers
      (record { participants = participants; nodes = []; swaps = []; source = []; reset = [] })
    >>= seed_each (λ c. c.node) seed_consumer cfg.consumers
    >>= seed_each (λ n. n.0) seed_online cfg.online_only

-- `parseOffline`: no text, or a lap that is not enabled, is off.
unfoldable pub parse_offline :
    {Raw : Type 0}
    → (Raw → Option OfflineConfig)
    → Option Raw
    → (participants : ℕ) → Result SeedError (Option Offline)
unfolding seed
parse_offline unmarshal none participants = ok none
parse_offline unmarshal (some raw) participants = elim (unmarshal raw) [
  | none ↦ err bad_json
  | some cfg ↦ if cfg.enabled then (seed cfg participants >>= λ o. ok (some o)) else ok none
]
