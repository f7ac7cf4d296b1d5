-- ===== src/Migmon/Memory.antt =====
-- The hashes last sampled at each height (internal/migmon/sampler.go: ReorgMemory). A map that is
-- only looked up is a function; heights and heads are below 2^63.
pub mod Cap
pub mod Latest
use pbt_devnet.Prelude.{
  ℕ, suc, ◌+◌, ◌-◌, String, Bool, true, false, Option, none, some, List, [], ◌∷◌, ◌++◌, ltb, ◌==◌,
  str_eq, length, if◌then◌else◌,
}
use pbt_devnet.Migmon.{Event, event, Kind, reorg, no_finding, hash_moved}

abbrev pub reorg_memory_cap : ℕ
reorg_memory_cap = 512

pub record ReorgMemory : Type 0 where
  pub node : String
  pub hash : ℕ → Option String
  pub order : List ℕ

unfoldable pub new_memory : String → ReorgMemory
new_memory node = record { node = node; hash = λ _. none; order = [] }

-- `m[height] = hash` and `delete(m, height)`.
unfoldable pub assign : ℕ → Option String → (ℕ → Option String) → ℕ → Option String
assign height v m k = if k == height then v else m k

unfoldable pub trim : ReorgMemory → ReorgMemory
unfolding assign
trim m =
    if ltb reorg_memory_cap (length m.order)
    then elim m.order [
      | [] ↦ m
      | oldest ∷ rest ↦ record m { hash = assign oldest none m.hash; order = rest }
    ]
    else m

unfoldable pub observe :
    (height : ℕ) (hash : String) (head : ℕ) → ReorgMemory → ReorgMemory × List Event
unfolding assign trim
observe height hash head m = elim (m.hash height) [
  | some prev ↦ if str_eq prev hash then (m, []) else (
    record m { hash = assign height (some hash) m.hash },
    event reorg m.node no_finding height ""
          (hash_moved prev hash (if ltb height head then head - height else 0))
        ∷ [],
  )
  | none ↦ (
    trim (record m { hash = assign height (some hash) m.hash; order = m.order ++ height ∷ [] }),
    [],
  )
]
