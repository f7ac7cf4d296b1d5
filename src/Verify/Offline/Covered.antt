-- ===== src/Verify/Offline/Covered.antt =====
-- The coverage of the offline lap against what it stands for (offline.go: checkOfflineCoverage).
use pbt_devnet.Prelude.{
  ℕ, ◌≡◌, ◌≢◌, ◌⊎◌, inl, inr, ◌==◌, ==_iff, Bool-cases, refl, ap, ◌↔◌, String, Bool, true, false,
  Option, none, some, List, [], ◌∷◌, eq_iff, append-eq-nil, each-eq-nil, iff_trans, if◌then◌else◌,
  All, arith,
}
use pbt_devnet.Swap.Evidence.{OfflineProducer, OfflineConsumer}
use pbt_devnet.Verify.{
  passed, OfflineLap, LapManifest, ManifestFile, loaded, conclude_passed, require_offline_passed,
}
use pbt_devnet.Verify.Offline.{
  CoverageProblem, producer_status, consumer_status, status_of, is_ok, producer_rows, swap_rows,
  producer_problems, consumer_problems, judge_coverage, check_offline_coverage,
}

is_ok_iff : (o : Option String) → (is_ok o ≡ true) ↔ (o ≡ some "ok")
unfolding is_ok
is_ok_iff none = (λ h. cc, λ h. cc)
is_ok_iff (some s) =
    (λ h. ap some ((eq_iff s "ok").0 h), λ h. (eq_iff s "ok").1 (ground (arith, h)))

unless_iff : (t : Bool) (p : CoverageProblem) → ((if t then [] else p ∷ []) ≡ []) ↔ (t ≡ true)
unless_iff true p = (λ h. refl, λ h. refl)
unless_iff false p = (λ h. cc, λ h. cc)

-- The first record of a node says "ok": there is one, and each before it is of another node.
abbrev pub IsDone : List (ℕ × String) → ℕ → Type 0
IsDone [] node = ⊥
IsDone (r ∷ rows) node = ((r.0 ≡ node) × (r.1 ≡ "ok")) ⊎ ((r.0 ≢ node) × IsDone rows node)

status_of-IsDone :
    (rows : List (ℕ × String)) (node : ℕ) → (status_of node rows ≡ some "ok") ↔ IsDone rows node
unfolding status_of
status_of-IsDone [] node = (λ h. cc, λ h. absurd h)
status_of-IsDone (r ∷ rows) node =
    let (to, from) = status_of-IsDone rows node in
    elim (Bool-cases (r.0 == node)) [
      | inl e ↦
          let same = (==_iff r.0 node).0 e in
          rw e
            (λ h. inl (same, cc), λ h. elim h [ inl a ↦ ap some a.1 | inr b ↦ absurd (b.0 same) ])
      | inr e ↦ rw e (
        λ h. inr (λ k. let z = (==_iff r.0 node).1 k in cc, to h),
        λ h. elim h [ inl a ↦ absurd (let z = (==_iff r.0 node).1 a.0 in cc) | inr b ↦ from b.1 ],
      )
    ]

producers_iff :
    (rows : List (ℕ × String)) (ps : List OfflineProducer)
    → (producer_problems rows ps ≡ []) ↔ All (λ p. IsDone rows p.node) ps
unfolding producer_problems
producers_iff rows =
    each-eq-nil _ (producer_problems rows) (λ p. IsDone rows p.node) refl (λ p ps. refl)
      λ p.
        iff_trans (unless_iff _ (producer_status p.node p.kind (status_of p.node rows)))
          (iff_trans (is_ok_iff (status_of p.node rows)) (status_of-IsDone rows p.node))

consumers_iff :
    (rows : List (ℕ × String)) (cs : List OfflineConsumer)
    → (consumer_problems rows cs ≡ []) ↔ All (λ c. IsDone rows c.node) cs
unfolding consumer_problems
consumers_iff rows =
    each-eq-nil _ (consumer_problems rows) (λ c. IsDone rows c.node) refl (λ c cs. refl)
      λ c.
        iff_trans (unless_iff _ (consumer_status c.node (status_of c.node rows)))
          (iff_trans (is_ok_iff (status_of c.node rows)) (status_of-IsDone rows c.node))

-- A manifest with an enabled lap whose declared nodes are done; the notes are the online nodes.
abbrev pub IsCovered : ManifestFile → List (ℕ × String) → Type 0
IsCovered file notes =
    (m : LapManifest) × (lap : OfflineLap) × (file ≡ loaded m)
    × (m.offline ≡ some lap)
    × (lap.enabled ≡ true)
    × All (λ p. IsDone (producer_rows m) p.node) lap.producers
    × All (λ c. IsDone (swap_rows m) c.node) lap.consumers
    × (notes ≡ lap.online_only)

judge_iff :
    (m : LapManifest) (lap : OfflineLap) (notes : List (ℕ × String))
    → (judge_coverage m lap ≡ passed notes) ↔ (
        All (λ p. IsDone (producer_rows m) p.node) lap.producers
        × All (λ c. IsDone (swap_rows m) c.node) lap.consumers
        × (notes ≡ lap.online_only))
unfolding judge_coverage
judge_iff m lap notes =
    let (split, join) = conclude_passed _ _ notes in
    let (cut, glue) =
      append-eq-nil (producer_problems (producer_rows m) lap.producers)
        (consumer_problems (swap_rows m) lap.consumers) in
    let (p_to, p_from) = producers_iff (producer_rows m) lap.producers in
    let (c_to, c_from) = consumers_iff (swap_rows m) lap.consumers in
    (
      λ h. let clean = cut (split h).0 in (p_to clean.0, c_to clean.1, cc ((split h).1)),
      λ (ps, cs, e). join (glue (p_from ps, c_from cs), cc),
    )

-- The check of the coverage passes exactly on a manifest with an enabled offline lap in which the
-- first record of every declared producer, and of every declared consumer, says "ok". What it notes
-- are the nodes that only follow online.
pub check_offline_coverage_iff :
    (file : ManifestFile) (notes : List (ℕ × String))
    → (check_offline_coverage file ≡ passed notes) ↔ IsCovered file notes
unfolding check_offline_coverage
check_offline_coverage_iff file notes =
    let (to, from) = require_offline_passed file judge_coverage notes in
    (
      λ h.
          let (m, lap, em, el, t, done) = to h in
          let (ps, cs, n) = (judge_iff m lap notes).0 done in (m, lap, em, el, t, ps, cs, n),
      λ (m, lap, em, el, t, ps, cs, n).
          from (m, lap, em, el, t, (judge_iff m lap notes).1 (ps, cs, n)),
    )
