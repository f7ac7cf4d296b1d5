-- ===== src/Verify/Partitions/Unseen.antt =====
-- An op that was never carried out, in the check of the partitions
-- (cmd/verify-migration/checks.go: checkPartitionsHealed).
use pbt_devnet.Prelude.{
  keep-append, ℕ, ◌≡◌, refl, ap, sym, ◌∙◌, ◌++◌, if◌then◌else◌, inl, inr, String, Bool, false, not,
  Option, none, some, List, [], ◌∷◌, map, keep, length, Bool-cases, All, All-map,
}
use pbt_devnet.Verify.Partitions.Owned.{Owns, Owns-not}
use mathlib.Core.Path.{ap₂}
use pbt_devnet.Dump.{DumpOp, Dump, runs, admitted, heal_deadline}
use pbt_devnet.Verify.{Outcome, failed}
use pbt_devnet.Verify.Partitions.{
  ChaosWindow, PartitionProblem, PartitionNote, op_owns, owner_of, attribute_windows,
  is_after_quiet, heal_problems, all_heal_problems, in_time, judge_matched, judge_partitions, stray,
}

module _ (index_of : String → Option ℕ) (has_reorg : ChaosWindow → Bool) (d : Dump) where
  owner-skip :
      (pre : List DumpOp) (o : DumpOp) (post : List DumpOp) (w : ChaosWindow)
      → op_owns index_of o w ≡ false
      → owner_of index_of (pre ++ o ∷ post) w ≡ owner_of index_of (pre ++ post) w
  unfolding owner_of
  owner-skip [] o post w free = rw free
  owner-skip (p ∷ pre) o post w free =
      ap (λ r. if op_owns index_of p w then some p else r) (owner-skip pre o post w free)

  abbrev attribute_one :
      ChaosWindow
      → Option DumpOp
      → List (DumpOp × ChaosWindow) × List ChaosWindow
      → List (DumpOp × ChaosWindow) × List ChaosWindow
  attribute_one w e p = elim e [ some o ↦ ((o, w) ∷ p.0, p.1) | none ↦ (p.0, w ∷ p.1) ]

  attribute-skip :
      (pre : List DumpOp) (o : DumpOp) (post : List DumpOp) (ws : List ChaosWindow)
      → All (λ w. op_owns index_of o w ≡ false) ws
      → attribute_windows index_of (pre ++ o ∷ post) ws
        ≡ attribute_windows index_of (pre ++ post) ws
  unfolding attribute_windows
  attribute-skip pre o post [] free = refl
  attribute-skip pre o post (w ∷ ws) free =
      ap₂ (attribute_one w) (owner-skip pre o post w free.0) (attribute-skip pre o post ws free.1)

  -- The schedule with some ops in place of its own.
  abbrev with_ops : List DumpOp → Dump
  with_ops ops = record d { ops = ops }

  admitted-skip :
      (pre : List DumpOp) (o : DumpOp) (post : List DumpOp) (ws : List ChaosWindow)
      → All (λ w. op_owns index_of o w ≡ false) ws
      → attribute_windows index_of (admitted (with_ops (pre ++ o ∷ post))) ws
        ≡ attribute_windows index_of (admitted (with_ops (pre ++ post))) ws
  unfolding admitted
  admitted-skip pre o post ws free =
      rw (keep-append runs pre (o ∷ post), keep-append runs pre post)
        (elim (Bool-cases (runs o)) [
          | inr e ↦ rw e
          | inl e ↦ rw e (attribute-skip (keep runs pre) o (keep runs post) ws free)
        ])

  -- The deadlines do not depend on the ops.
  module _ (ops : List DumpOp) where
    heal_problems-ops :
        (ms : List (DumpOp × ChaosWindow))
        → all_heal_problems (record d { ops = ops }) ms ≡ all_heal_problems d ms
    unfolding all_heal_problems heal_problems heal_deadline
    heal_problems-ops [] = refl
    heal_problems-ops ((o, w) ∷ ms) = rw (heal_problems-ops ms)

    in_time-ops :
        (ms : List (DumpOp × ChaosWindow))
        → keep (in_time (record d { ops = ops })) ms ≡ keep (in_time d) ms
    unfolding in_time heal_deadline
    in_time-ops [] = refl
    in_time-ops ((o, w) ∷ ms) = rw (in_time-ops ms)

    judge_matched-ops :
        (ms : List (DumpOp × ChaosWindow)) (k : ℕ)
        → judge_matched has_reorg (record d { ops = ops }) ms k ≡ judge_matched has_reorg d ms k
    unfolding judge_matched
    judge_matched-ops ms k = rw (heal_problems-ops ms, in_time-ops ms)

    abbrev judge_parts :
        Dump
        → List (DumpOp × ChaosWindow) × List ChaosWindow
        → Outcome PartitionProblem (Option PartitionNote)
    judge_parts d' p = elim (keep (λ w. not (is_after_quiet d' w)) p.1) [
      | [] ↦ judge_matched has_reorg d' p.0 (length (keep (is_after_quiet d') p.1))
      | w ∷ rest ↦ failed (stray (map (λ x. x.node) (w ∷ rest)) ∷ [])
    ]

    judge_parts-ops :
        (p : List (DumpOp × ChaosWindow) × List ChaosWindow)
        → judge_parts (record d { ops = ops }) p ≡ judge_parts d p
    unfolding is_after_quiet
    judge_parts-ops p = by_strays (keep (λ w. not (is_after_quiet d w)) p.1)
      where
        by_strays :
            (strays : List ChaosWindow)
            → (let it : Outcome PartitionProblem (Option PartitionNote) = elim strays [
              | [] ↦
                  judge_matched has_reorg
                    (record d { ops = ops })
                    p.0
                    (length (keep (is_after_quiet d) p.1))
              | w ∷ rest ↦ failed (stray (map (λ x. x.node) (w ∷ rest)) ∷ [])
            ] in
                it)
              ≡ (let it : Outcome PartitionProblem (Option PartitionNote) = elim strays [
                | [] ↦ judge_matched has_reorg d p.0 (length (keep (is_after_quiet d) p.1))
                | w ∷ rest ↦ failed (stray (map (λ x. x.node) (w ∷ rest)) ∷ [])
              ] in
                  it)
        by_strays [] = judge_matched-ops p.0 (length (keep (is_after_quiet d) p.1))
        by_strays (w ∷ rest) = refl

  -- An op that owns no partition at all, of its victims and within half a minute of it, since it was
  -- never carried out, changes nothing wherever it stands in the schedule: the check judges the
  -- partitions that there were.
  pub judge_partitions-unseen :
      (pre : List DumpOp) (o : DumpOp) (post : List DumpOp) (ws : List ChaosWindow)
      → All (λ w. ¬ Owns index_of w o) ws
      → judge_partitions index_of has_reorg (record d { ops = pre ++ o ∷ post }) ws
        ≡ judge_partitions index_of has_reorg (record d { ops = pre ++ post }) ws
  unfolding judge_partitions
  judge_partitions-unseen pre o post ws out =
      let whole = attribute_windows index_of (admitted (with_ops (pre ++ o ∷ post))) ws in
      let less = attribute_windows index_of (admitted (with_ops (pre ++ post))) ws in
      let free = All-map _ _ (λ w. Owns-not index_of o w) ws out in
      judge_parts-ops (pre ++ o ∷ post) whole
      ∙ ap (judge_parts (pre ++ post) d) (admitted-skip pre o post ws free)
      ∙ sym (judge_parts-ops (pre ++ post) less)
