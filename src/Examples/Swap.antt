-- ===== src/Examples/Swap.antt =====
-- The theorems of the swap driver's gates and evidence, at small states. `str_eq` stands for
-- `strings.EqualFold`.
use pbt_devnet.Prelude.{◌≡◌, refl, ◌↔◌, true, false, some, List, [], ◌∷◌, ok, str_eq}
use pbt_devnet.Swap.{applied, ExportState, no_reason, proceed, SwapState, decide_swap}
use pbt_devnet.Swap.Gate.{MaySwap, decide_swap_iff}
use pbt_devnet.Swap.Wait.{wait_gate}
use pbt_devnet.Swap.Evidence.{
  OfflineProducer, OfflineConsumer, Evidence, status_failed, status_skipped, new_evidence,
}

abbrev calm : ExportState
calm = record { now = 900; not_before = 800; partitions = applied 0; gap = 200; down = [] }

abbrev pub ready : SwapState
ready = record {
  now = 1000;
  fork = 1800;
  expected = 100;
  margin = 60;
  anchor = 20;
  anchor_hash = "0xaa";
  finalized =
      some (record { number = 24; hash = "0xcc"; parent = "0xbc"; root = "0x1"; time = 940 });
  canonical = "0xaa";
  epoch_seconds = 48;
  down = [];
  partitions = applied 0;
  gap = 300;
  prev_behind = false;
  prev_failed = false;
}

decide_swap_iff_example : ((decide_swap str_eq ready).0 ≡ proceed) ↔ MaySwap str_eq ready
decide_swap_iff_example = decide_swap_iff str_eq ready

abbrev moved : SwapState
moved = record ready { canonical = "0xbb" }

-- A round that waits for the previous swap, one that opens, and one that is too late.
abbrev rounds : List SwapState
rounds =
    record ready { prev_behind = true }
    ∷ record ready { now = 1010 }
    ∷ record ready { now = 1700 }
    ∷ []

rounds-open : wait_gate str_eq rounds ≡ some (proceed, no_reason)
unfolding wait_gate decide_swap
rounds-open = refl

abbrev pub producers : List OfflineProducer
producers =
    record { node = 2; kind = "geth-convert"; consumers = 3 ∷ 4 ∷ [] }
    ∷ record { node = 5; kind = "erigon-export"; consumers = 6 ∷ [] }
    ∷ []

abbrev pub consumers : List OfflineConsumer
consumers =
    record { node = 3; expected_seconds = 60; timeout_seconds = 300 }
    ∷ record { node = 6; expected_seconds = 90; timeout_seconds = 300 }
    ∷ []

abbrev pub seeded : Evidence
seeded = record {
  producers =
      record {
        node = 2;
        kind = "geth-convert";
        status = status_failed;
        detail = "not run";
        consumers = 3 ∷ 4 ∷ [];
      }
      ∷ record {
        node = 5;
        kind = "erigon-export";
        status = status_failed;
        detail = "not run";
        consumers = 6 ∷ [];
      }
      ∷ [];
  swaps =
      record { node = 3; producer = 2; status = status_skipped; detail = "not reached" }
      ∷ record { node = 6; producer = 5; status = status_skipped; detail = "not reached" }
      ∷ [];
}

pub seeded-ok : new_evidence producers consumers ≡ ok seeded
unfolding new_evidence
seeded-ok = refl
