-- ===== src/Swap.antt =====
-- The offline-migration swap driver (cmd/migration-swap/gate.go and swap.go). Times are Unix
-- seconds. `strings.EqualFold` is the parameter `fold_eq`; a difference below zero is 0, which
-- passes and fails the same tests.
pub mod Evidence
pub mod Chaos
pub mod Gate
pub mod Wait
use pbt_devnet.Prelude.{
  ℕ, ◌+◌, ◌-◌, ◌*◌, String, Bool, true, false, not, ◌&&◌, ◌||◌, Option, none, some, List, [], ◌∷◌,
  ltb, leb, ◌==◌, str_eq, is_some, if◌then◌else◌,
}
use pbt_devnet.Dump.{Dump, gaps}
use pbt_devnet.Migmon.{Header}

abbrev pub gap_horizon : ℕ
gap_horizon = 3600

abbrev pub export_gap : ℕ
export_gap = 180

abbrev pub swap_slack : ℕ
swap_slack = 120

-- How long from now no admitted partition occupies, capped at the horizon.
unfoldable pub chaos_free : Dump → (now horizon : ℕ) → ℕ
chaos_free d now horizon = elim (gaps d now (now + horizon)) [
  | [] ↦ 0
  | g ∷ _ ↦ if ltb now g.0 then 0 else g.1 - now
]

unfoldable pub too_late : (now fork expected margin : ℕ) → Bool
too_late now fork expected margin = ltb fork (now + expected + margin)

-- The partitions that disruptoor reports; a negative count is `unreachable`.
pub data Partitions : Type 0 where
  unreachable : Partitions
  applied : ℕ → Partitions

pub record ExportState : Type 0 where
  pub now : ℕ
  pub not_before : ℕ
  pub partitions : Partitions
  pub gap : ℕ
  pub down : List String

-- Why a gate does not open.
pub data Reason : Type 0 where
  no_reason : Reason
  export_not_before : ℕ → Reason
  disruptoor_unknown : Reason
  partitions_applied : ℕ → Reason
  chaos_soon : (gap need : ℕ) → Reason
  not_answering : List String → Reason
  started_too_late : (now expected margin fork : ℕ) → Reason
  anchor_reorged : ℕ → (canonical anchor : String) → Reason
  failed_and_stale : Reason
  finality_unknown : Reason
  anchor_not_final : (anchor finalized : ℕ) → Reason
  anchor_unknown : Reason
  finality_stale : (age : ℕ) → Reason
  previous_behind : Reason

abbrev is_reachable : Partitions → Bool
is_reachable unreachable = false
is_reachable (applied n) = true

abbrev count : Partitions → ℕ
count unreachable = 0
count (applied n) = n

abbrev nonempty : List String → Bool
nonempty [] = false
nonempty (x ∷ xs) = true

unfoldable pub export_blocker : ExportState → Reason
export_blocker s =
    if ltb s.now s.not_before
    then export_not_before s.not_before
    else if not (is_reachable s.partitions)
    then disruptoor_unknown
    else if ltb 0 (count s.partitions)
    then partitions_applied (count s.partitions)
    else if ltb s.gap export_gap
    then chaos_soon s.gap export_gap
    else if nonempty s.down
    then not_answering s.down
    else no_reason

pub data Verdict : Type 0 where
  wait proceed skip reorged : Verdict

pub record SwapState : Type 0 where
  pub now : ℕ
  pub fork : ℕ
  pub expected : ℕ
  pub margin : ℕ
  pub anchor : ℕ
  pub anchor_hash : String
  pub finalized : Option Header
  pub canonical : String
  pub epoch_seconds : ℕ
  pub down : List String
  pub partitions : Partitions
  pub gap : ℕ
  pub prev_behind : Bool
  pub prev_failed : Bool

module _ (fold_eq : String → String → Bool) where
  -- The finalized chain of node 1 holds another block at the anchor's height.
  unfoldable pub anchor_lost : SwapState → Bool
  anchor_lost s = elim s.finalized [
    | none ↦ false
    | some f ↦
        leb s.anchor f.number
        && (not (str_eq s.canonical "") && not (fold_eq s.canonical s.anchor_hash))
  ]

  unfoldable pub is_stale : SwapState → Bool
  is_stale s = elim s.finalized [
    | none ↦ false
    | some f ↦ ltb (4 * s.epoch_seconds) (s.now - f.time)
  ]

  -- The switch at the end of `decideSwap`, on a finalized block that is known.
  unfoldable pub decide_final : Header → SwapState → Verdict × Reason
  unfolding is_stale
  decide_final f s =
      if ltb f.number s.anchor
      then (wait, anchor_not_final s.anchor f.number)
      else if str_eq s.canonical ""
      then (wait, anchor_unknown)
      else if is_stale s
      then (wait, finality_stale (s.now - f.time))
      else if nonempty s.down
      then (wait, not_answering s.down)
      else if not (is_reachable s.partitions)
      then (wait, disruptoor_unknown)
      else if ltb 0 (count s.partitions)
      then (wait, partitions_applied (count s.partitions))
      else if ltb s.gap (s.expected + swap_slack)
      then (wait, chaos_soon s.gap (s.expected + swap_slack))
      else if s.prev_behind
      then (wait, previous_behind)
      else (proceed, no_reason)

  unfoldable pub decide_swap : SwapState → Verdict × Reason
  unfolding too_late anchor_lost is_stale decide_final
  decide_swap s =
      if too_late s.now s.fork s.expected s.margin
      then (skip, started_too_late s.now s.expected s.margin s.fork)
      else if anchor_lost s
      then (reorged, anchor_reorged s.anchor s.canonical s.anchor_hash)
      else if is_stale s && s.prev_failed
      then (skip, failed_and_stale)
      else elim s.finalized [ none ↦ (wait, finality_unknown) | some f ↦ decide_final f s ]
