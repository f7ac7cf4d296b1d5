-- ===== src/Examples/Table.antt =====
-- The theorems of the monitor's table and of the pushed steps, at four clients and a small lap.
use pbt_devnet.Prelude.{
  ℕ, ◌+◌, ◌≡◌, refl, String, true, false, List, [], ◌∷◌, length, All, Some, map, sort, err, arith,
}
use pbt_devnet.Prelude.Maps.{lookup, store}
use pbt_devnet.Compare.{
  NodeAnswer, no_reason, lifted_at, CompareView, Against, against, judge, header_dissent, fork,
  partial, verdict_for, hash_cells, answered_cells, root_state, hash_cell, istar_cell,
}
use pbt_devnet.Compare.Cells.{IsIstarOr}
use pbt_devnet.Compare.Judged.{IsFair, judge-IsFair}
use pbt_devnet.Compare.Report.{report_rows, report_dissent}
use pbt_devnet.Compare.Once.{report_dissent_once}
use pbt_devnet.Lifecycle.{Offline, no_lifecycle}
use pbt_devnet.Lifecycle.Seed.{OfflineConfig, not_participant, seed}
use pbt_devnet.Lifecycle.Seed.Refused.{named, Seeds, seed-Seeds}

abbrev answer : ℕ → (hash root : String) → NodeAnswer
answer node hash root = record {
  node = node;
  head_number = 20 + node;
  reachable = true;
  isolated = false;
  introspects = false;
  settling = no_reason;
  phase = "converting";
  hash = hash;
  header_root = root;
  shadow_root = "";
  istar_hash = "";
}

-- Node 3 is on another branch, node 4 has another root for the anchor's block, and node 5 settles.
abbrev answers : List NodeAnswer
answers =
    answer 1 "0xaa" "0x1"
    ∷ answer 2 "0xaa" "0x1"
    ∷ answer 3 "0xbb" "0x2"
    ∷ answer 4 "0xaa" "0x3"
    ∷ record (answer 5 "0xbb" "0x2") { settling = lifted_at 7 }
    ∷ []

abbrev table : CompareView
table = judge (λ c. c) 19 answers 1

judge-IsFair_example :
    let g : Against = against (λ c. c) 19 answers 1 table.ref in
    All (λ r. (a : NodeAnswer) × Some (λ b. b ≡ a) answers × IsFair g a r) table.rows
    × (g.ref ≡ table.ref)
    × IsIstarOr 1 answers "" g.anchor_istar
judge-IsFair_example = judge-IsFair (λ c. c) 19 answers 1

table-verdicts :
    map (λ r. r.verdict) table.rows ≡ partial ∷ partial ∷ fork ∷ header_dissent ∷ fork ∷ []
unfolding judge sort verdict_for hash_cells answered_cells root_state store hash_cell lookup
    istar_cell
table-verdicts = refl

abbrev call_el : ℕ → String
call_el n = "el"

table-fired : length (report_rows call_el table table.rows ([], [])).0 ≡ 1
unfolding report_rows judge sort verdict_for hash_cells answered_cells root_state store hash_cell
    lookup istar_cell
table-fired = refl

report_dissent_once_example :
    report_dissent call_el table (report_dissent call_el table []).0
    ≡ ((report_dissent call_el table []).0, [])
report_dissent_once_example = report_dissent_once call_el table [] (omega (arith, table-fired))

-- Node 2 is swapped; node 1 exports for it.
abbrev lap : Offline
lap = record {
  participants = 3;
  nodes =
      (
        1,
        record no_lifecycle {
          producer = true;
          producer_step = "exported";
          anchor = 40;
          hash = "0xa";
        },
      )
      ∷ (2, record no_lifecycle { importer = "importing" })
      ∷ [];
  swaps = 2 ∷ [];
  source = (2, 1) ∷ [];
  reset = [];
}

-- Node 9 is swapped in a network of three.
abbrev plan : OfflineConfig
plan = record {
  enabled = true;
  producers = record { node = 1; kind = "geth-convert"; consumers = 2 ∷ 9 ∷ [] } ∷ [];
  consumers =
      record { node = 2; expected_seconds = 100; timeout_seconds = 300 }
      ∷ record { node = 9; expected_seconds = 100; timeout_seconds = 300 }
      ∷ [];
  online_only = (3, "no importer") ∷ [];
}

seed-Seeds_example : Seeds 3 (named plan) (seed plan 3)
seed-Seeds_example = seed-Seeds plan 3

plan-refused : seed plan 3 ≡ err (not_participant 9 3)
unfolding seed
plan-refused = refl
