-- ===== src/Verify/Partitions.antt =====
-- The partitions that were applied, and the schedule (cmd/verify-migration/checks.go: chaosWindows,
-- opOwns, attributeWindows, scheduleDump, checkPartitionsHealed). The index in a node's name, the
-- decoder of a schedule and the evidence of a reorg, which is read from logs, are parameters.
pub mod Spans
pub mod Paired
pub mod Owned
pub mod Healed
pub mod Unseen
pub mod Published
use pbt_devnet.Prelude.{
  ℕ, ◌+◌, String, Bool, true, false, not, ◌&&◌, ◌||◌, Option, none, some, List, [], ◌∷◌, ◌++◌, map,
  keep, some_of, ltb, leb, ◌==◌, str_eq, length, Result, ok, err, if◌then◌else◌,
}
use pbt_devnet.Prelude.Maps.{Map, lookup, store, erase, has_key, string_key}
use pbt_devnet.Dump.{DumpOp, Dump, admitted, heal_deadline}
use pbt_devnet.Verify.{Outcome, inconclusive, failed, passed, conclude, too_few_partitions}

-- A record of the chaos stream; a heal of "" is one of every node.
pub data ChaosSeen (Raw : Type 0) : Type 0 where
  isolated : (node : String) (time : ℕ) → ChaosSeen Raw
  healed : (node : String) (time : ℕ) → ChaosSeen Raw
  scheduled : Raw → ChaosSeen Raw
  other_record : ChaosSeen Raw

-- A partition of a node; one that was never healed has no end.
pub record ChaosWindow : Type 0 where
  pub node : String
  pub from : ℕ
  pub to : Option ℕ

-- The windows that are open, by node.
abbrev pub Open : Type 0
Open = Map String ℕ

abbrev pub close_all : Option ℕ → Open → List ChaosWindow
close_all to open' = map (λ e. record { node = e.0; from = e.1; to = to }) open'

-- The loop over the stream. The windows that stand open together are in the order of the map.
unfoldable pub pair_from : {Raw : Type 0} → Open → List (ChaosSeen Raw) → List ChaosWindow
pair_from open' [] = close_all none open'
pair_from open' (isolated n t ∷ evs) =
    pair_from (if has_key n open' then open' else store n t open') evs
pair_from open' (healed n t ∷ evs) = elim (str_eq n "") [
  | true ↦ close_all (some t) open' ++ pair_from [] evs
  | false ↦ elim (lookup n open') [
    | none ↦ pair_from open' evs
    | some f ↦ record { node = n; from = f; to = some t } ∷ pair_from (erase n open') evs
  ]
]
pair_from open' (scheduled raw ∷ evs) = pair_from open' evs
pair_from open' (other_record ∷ evs) = pair_from open' evs

unfoldable pub chaos_windows : {Raw : Type 0} → List (ChaosSeen Raw) → List ChaosWindow
unfolding pair_from
chaos_windows evs = pair_from [] evs

-- `scheduleDump`: the first schedule of the stream.
unfoldable pub schedule_dump :
    {Raw E : Type 0} → (Raw → Result E Dump) → List (ChaosSeen Raw) → Option Dump
schedule_dump parse [] = none
schedule_dump parse (scheduled raw ∷ evs) = elim (parse raw) [ ok d ↦ some d | err e ↦ none ]
schedule_dump parse (isolated n t ∷ evs) = schedule_dump parse evs
schedule_dump parse (healed n t ∷ evs) = schedule_dump parse evs
schedule_dump parse (other_record ∷ evs) = schedule_dump parse evs

pub data PartitionProblem : Type 0 where
  no_schedule : PartitionProblem
  stray : List String → PartitionProblem
  never_healed : (op : String × ℕ) (node : String) → PartitionProblem
  healed_late : (op : String × ℕ) (node : String) (at deadline : ℕ) → PartitionProblem
  only_healed : (healed matched : ℕ) → PartitionProblem

-- What a check that passes says: the partitions that healed in time, those that a reorg
-- corroborates, and those after the schedule was quiet.
pub record PartitionNote : Type 0 where
  pub healed : ℕ
  pub corroborated : ℕ
  pub after_quiet : ℕ

module _ (index_of : String → Option ℕ) where
  unfoldable pub op_owns : DumpOp → ChaosWindow → Bool
  op_owns o w = elim (index_of w.node) [
    | none ↦ false
    | some i ↦
        some_of (λ v. v == i) o.victims && (leb o.start (w.from + 30) && leb w.from (o.end + 30))
  ]

  -- The first op that owns a window.
  unfoldable pub owner_of : List DumpOp → ChaosWindow → Option DumpOp
  unfolding op_owns
  owner_of [] w = none
  owner_of (o ∷ ops) w = let rest = owner_of ops w in if op_owns o w then some o else rest

  unfoldable pub attribute_windows :
      List DumpOp → List ChaosWindow → List (DumpOp × ChaosWindow) × List ChaosWindow
  unfolding owner_of
  attribute_windows ops [] = ([], [])
  attribute_windows ops (w ∷ ws) =
      let (matched, unscheduled) = attribute_windows ops ws in
      elim (owner_of ops w) [
        | some o ↦ ((o, w) ∷ matched, unscheduled)
        | none ↦ (matched, w ∷ unscheduled)
      ]

-- After the quiet instant of a schedule that has one.
unfoldable pub is_after_quiet : Dump → ChaosWindow → Bool
is_after_quiet d w = not (d.quiet == 0) && ltb d.quiet w.from

unfoldable pub heal_problems : Dump → DumpOp × ChaosWindow → List PartitionProblem
heal_problems d (o, w) = elim w.to [
  | none ↦ never_healed o.name w.node ∷ []
  | some at ↦
      if ltb (heal_deadline d o) at
      then healed_late o.name w.node at (heal_deadline d o) ∷ []
      else []
]

unfoldable pub all_heal_problems : Dump → List (DumpOp × ChaosWindow) → List PartitionProblem
unfolding heal_problems
all_heal_problems d [] = []
all_heal_problems d (m ∷ ms) = heal_problems d m ++ all_heal_problems d ms

unfoldable pub in_time : Dump → DumpOp × ChaosWindow → Bool
in_time d (o, w) = elim w.to [ none ↦ false | some at ↦ not (ltb (heal_deadline d o) at) ]

-- The floors of a full run.
unfoldable pub judge_floor :
    (matched : ℕ) → PartitionNote → Outcome PartitionProblem (Option PartitionNote)
judge_floor matched n =
    if ltb n.healed matched
    then failed (only_healed n.healed matched ∷ [])
    else if ltb n.healed 4 || ltb n.corroborated 4
    then inconclusive (too_few_partitions n.healed n.corroborated)
    else passed (some n)

module _ (has_reorg : ChaosWindow → Bool) where
  unfoldable pub judge_matched :
      Dump
      → List (DumpOp × ChaosWindow)
      → (after_quiet : ℕ) → Outcome PartitionProblem (Option PartitionNote)
  unfolding judge_floor all_heal_problems in_time
  judge_matched d matched after_quiet =
      let done = keep (in_time d) matched in
      conclude (all_heal_problems d matched) (
        judge_floor (length matched) (record {
          healed = length done;
          corroborated = length (keep (λ m. has_reorg m.1) done);
          after_quiet = after_quiet;
        }))

module _ (index_of : String → Option ℕ) (has_reorg : ChaosWindow → Bool) where
  unfoldable pub judge_partitions :
      Dump → List ChaosWindow → Outcome PartitionProblem (Option PartitionNote)
  unfolding attribute_windows is_after_quiet judge_matched
  judge_partitions d windows =
      let (matched, unscheduled) = attribute_windows index_of (admitted d) windows in
      let strays = keep (λ w. not (is_after_quiet d w)) unscheduled in
      elim strays [
        | [] ↦ judge_matched has_reorg d matched (length (keep (is_after_quiet d) unscheduled))
        | w ∷ ws ↦ failed (stray (map (λ x. x.node) (w ∷ ws)) ∷ [])
      ]

  -- `none` where the chaos was skipped.
  unfoldable pub check_partitions_healed :
      {Raw E : Type 0}
      → (skip_chaos : Bool) → (Raw → Result E Dump)
      → List (ChaosSeen Raw)
      → Outcome PartitionProblem (Option PartitionNote)
  unfolding chaos_windows schedule_dump judge_partitions
  check_partitions_healed skip_chaos parse evs =
      if skip_chaos then passed none else elim (schedule_dump parse evs) [
        | none ↦ failed (no_schedule ∷ [])
        | some d ↦ judge_partitions d (chaos_windows evs)
      ]
