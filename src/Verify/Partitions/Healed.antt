-- ===== src/Verify/Partitions/Healed.antt =====
-- When the check of the partitions passes (cmd/verify-migration/checks.go: checkPartitionsHealed).
use pbt_devnet.Prelude.{
  ℕ, ◌≤◌, ◌<◌, ◌≡◌, ◌≢◌, refl, subst, ◌↔◌, inl, inr, String, Bool, true, not, Option, none, some,
  List, [], ◌∷◌, map, keep, ltb, length, if◌then◌else◌, Bool-cases, each-eq-nil, All, All-map,
  arith, ap, sym,
}
use pbt_devnet.Verify.Partitions.Owned.{Attributed, attribute-Attributed, Attributed-attribute}
use pbt_devnet.Dump.{DumpOp, Dump, admitted, heal_deadline}
use pbt_devnet.Verify.{Outcome, failed, passed, conclude_passed}
use pbt_devnet.Verify.Partitions.{
  ChaosWindow, PartitionProblem, PartitionNote, attribute_windows, is_after_quiet, heal_problems,
  all_heal_problems, in_time, judge_floor, judge_matched, judge_partitions, stray, never_healed,
  healed_late,
}

-- A partition of an op that was healed by the op's deadline.
abbrev pub IsHealed : Dump → DumpOp × ChaosWindow → Type 0
IsHealed d m = (at : ℕ) × (m.1.to ≡ some at) × (at ≤ heal_deadline d m.0)

-- A partition that the schedule, quiet by then, has nothing to do with.
abbrev pub IsLater : Dump → ChaosWindow → Type 0
IsLater d w = (d.quiet ≢ 0) × (d.quiet < w.from)

after_quiet_iff : (d : Dump) (w : ChaosWindow) → (is_after_quiet d w ≡ true) ↔ IsLater d w
unfolding is_after_quiet
after_quiet_iff d w = (λ h. (ground (arith, h), ground (arith, h)), λ h. ground (arith, h.0, h.1))

heal_iff : (d : Dump) (m : DumpOp × ChaosWindow) → (heal_problems d m ≡ []) ↔ IsHealed d m
unfolding heal_problems
heal_iff d (o, w) = by_end w.to refl
  where
    by_end :
        (e : Option ℕ)
        → w.to ≡ e
        → let it : List PartitionProblem = elim e [
          | none ↦ never_healed o.name w.node ∷ []
          | some at ↦
              if ltb (heal_deadline d o) at
              then healed_late o.name w.node at (heal_deadline d o) ∷ []
              else []
        ] in
          (it ≡ []) ↔ IsHealed d (o, w)
    by_end none e = (λ h. absurd (cc), λ (at, e', _). absurd (cc))
    by_end (some at) e = (
      λ h. (at, e, ground (arith, h)),
      λ (at', e', le). let same : at ≡ at' = cc in ground (arith, same, le),
    )

in_time-IsHealed : (d : Dump) (m : DumpOp × ChaosWindow) → IsHealed d m → in_time d m ≡ true
unfolding in_time
in_time-IsHealed d (o, w) (at, e, le) = rw e (ground arith)

keep_all : {A : Type 0} (p : A → Bool) (xs : List A) → All (λ x. p x ≡ true) xs → keep p xs ≡ xs
keep_all p [] h = refl
keep_all p (x ∷ xs) h = rw (h.0, keep_all p xs h.1)

floor_iff :
    (matched : ℕ) (r : PartitionNote) (n : Option PartitionNote)
    → (judge_floor matched r ≡ passed n)
      ↔ ((matched ≤ r.healed) × (4 ≤ r.healed) × (4 ≤ r.corroborated) × (some r ≡ n))
unfolding judge_floor
floor_iff matched r n = (λ h. ground (arith, h), λ h. ground (arith, h.0, h.1, h.2, h.3))

module _ (has_reorg : ChaosWindow → Bool) (d : Dump) where
  -- What the check says of the partitions of the schedule.
  abbrev pub note_of : List (DumpOp × ChaosWindow) → (after_quiet : ℕ) → PartitionNote
  note_of matched after_quiet = record {
    healed = length matched;
    corroborated = length (keep (λ m. has_reorg m.1) matched);
    after_quiet = after_quiet;
  }

  -- The floors of a full run.
  abbrev pub IsFull : PartitionNote → Type 0
  IsFull n = (4 ≤ n.healed) × (4 ≤ n.corroborated)

  all_heal_iff :
      (ms : List (DumpOp × ChaosWindow)) → (all_heal_problems d ms ≡ []) ↔ All (IsHealed d) ms
  unfolding all_heal_problems
  all_heal_iff =
      each-eq-nil (heal_problems d) (all_heal_problems d) (IsHealed d) refl (λ m ms. refl)
        (heal_iff d)

  matched_iff :
      (ms : List (DumpOp × ChaosWindow)) (k : ℕ) (n : Option PartitionNote)
      → (judge_matched has_reorg d ms k ≡ passed n)
        ↔ (All (IsHealed d) ms × IsFull (note_of ms k) × (some (note_of ms k) ≡ n))
  unfolding judge_matched
  matched_iff ms k n =
      let (split, join) = conclude_passed (all_heal_problems d ms) _ n in
      let (to, from) = all_heal_iff ms in
      (
        λ h.
            let healed = to (split h).0 in
            let (_, f, g, e) = (floor_iff (length ms) _ n).0 (rw (kept healed) at (split h).1) in
            (healed, (f, g), e),
        λ (healed, (f, g), e). join (
          from healed,
          rw (kept healed) ((floor_iff (length ms) (note_of ms k) n).1 (omega arith, f, g, e)),
        ),
      )
    where
      kept : All (IsHealed d) ms → keep (in_time d) ms ≡ ms
      kept healed =
          keep_all (in_time d) ms
            (All-map (IsHealed d) (λ m. in_time d m ≡ true) (in_time-IsHealed d) ms healed)

strays_iff :
    (d : Dump) (us : List ChaosWindow)
    → (keep (λ w. not (is_after_quiet d w)) us ≡ []) ↔ All (IsLater d) us
strays_iff d [] = (λ h. tt, λ h. refl)
strays_iff d (w ∷ us) =
    let (to, from) = strays_iff d us in
    let (late, quiet) = after_quiet_iff d w in
    elim (Bool-cases (is_after_quiet d w)) [
      | inl e ↦ rw e (λ h. (late e, to h), λ h. from h.1)
      | inr e ↦ rw e (λ h. absurd (cc), λ h. absurd (let k = quiet h.0 in cc))
    ]

late_count :
    (d : Dump) (us : List ChaosWindow)
    → All (IsLater d) us
    → length (keep (is_after_quiet d) us) ≡ length us
late_count d us later = ap length (
    keep_all (is_after_quiet d) us (
      All-map (IsLater d) (λ w. is_after_quiet d w ≡ true) (λ w. (after_quiet_iff d w).1) us later))

module _ (index_of : String → Option ℕ) (has_reorg : ChaosWindow → Bool) (d : Dump) where
  abbrev judge_parts :
      List (DumpOp × ChaosWindow) × List ChaosWindow
      → Outcome PartitionProblem (Option PartitionNote)
  judge_parts p = elim (keep (λ w. not (is_after_quiet d w)) p.1) [
    | [] ↦ judge_matched has_reorg d p.0 (length (keep (is_after_quiet d) p.1))
    | w ∷ rest ↦ failed (stray (map (λ x. x.node) (w ∷ rest)) ∷ [])
  ]

  parts_iff :
      (ms : List (DumpOp × ChaosWindow)) (us : List ChaosWindow) (n : Option PartitionNote)
      → (judge_parts (ms, us) ≡ passed n) ↔ (
          All (IsHealed d) ms
          × All (IsLater d) us
          × IsFull has_reorg d (note_of has_reorg d ms (length us))
          × (some (note_of has_reorg d ms (length us)) ≡ n))
  parts_iff ms us n = by_strays (keep (λ w. not (is_after_quiet d w)) us) (strays_iff d us)
    where
      by_strays :
          (strays : List ChaosWindow)
          → (strays ≡ []) ↔ All (IsLater d) us
          → let it : Outcome PartitionProblem (Option PartitionNote) = elim strays [
            | [] ↦ judge_matched has_reorg d ms (length (keep (is_after_quiet d) us))
            | w ∷ rest ↦ failed (stray (map (λ x. x.node) (w ∷ rest)) ∷ [])
          ] in
            (it ≡ passed n) ↔ (
              All (IsHealed d) ms
              × All (IsLater d) us
              × IsFull has_reorg d (note_of has_reorg d ms (length us))
              × (some (note_of has_reorg d ms (length us)) ≡ n))
      by_strays [] (to, from) =
          let later = to refl in
          rw (late_count d us later) (
            let (m_to, m_from) = matched_iff has_reorg d ms (length us) n in
            (
              λ h. let (healed, full, is) = m_to h in (healed, later, full, is),
              λ (healed, _, full, is). m_from (healed, full, is),
            ))
      by_strays (w ∷ rest) (to, from) =
          (λ h. absurd (cc), λ (_, later, _, _). absurd (let z = from later in cc))

  -- With the schedule read, the check passes exactly if every partition of a victim of an op that
  -- runs, and that began within half a minute of the op, was healed by the deadline of the first such
  -- op, every other one began after the schedule was quiet, and four at least of the former were
  -- healed and four have a reorg. It tells how many there are of each.
  pub judge_partitions_iff :
      (ws : List ChaosWindow) (n : Option PartitionNote)
      → (judge_partitions index_of has_reorg d ws ≡ passed n) ↔ (
          (ms : List (DumpOp × ChaosWindow)) × (us : List ChaosWindow) × Attributed index_of
            (admitted d)
            ws
            ms
            us
          × All (IsHealed d) ms
          × All (IsLater d) us
          × IsFull has_reorg d (note_of has_reorg d ms (length us))
          × (some (note_of has_reorg d ms (length us)) ≡ n))
  unfolding judge_partitions
  judge_partitions_iff ws n =
      let (ms, us) = attribute_windows index_of (admitted d) ws in
      (
        λ h.
            let (healed, later, full, is) = (parts_iff ms us n).0 h in
            (ms, us, attribute-Attributed index_of (admitted d) ws, healed, later, full, is),
        λ (ms', us', a, healed, later, full, is).
            subst (λ p. judge_parts p ≡ passed n)
              (sym (Attributed-attribute index_of (admitted d) a))
              ((parts_iff ms' us' n).1 (healed, later, full, is)),
      )
