-- ===== src/Schedule/Windows/Laws.antt =====
-- When divergence counts as expected (internal/migsched/schedule.go: Covers, LegalWindows).
use pbt_devnet.Prelude.{
  ℕ, ◌+◌, ◌≤◌, ◌≡◌, ◌↔◌, true, keep, arith, some_of-Some, Some, Some-map, Some-keep, Some-of_map,
}
use pbt_devnet.Schedule.{Op, Schedule, admitted, latest}
use pbt_devnet.Schedule.Windows.{legal_window, in_window, legal_windows, covers}

abbrev pub IsCovered : ℕ → Op → Type 0
IsCovered t o = (admitted o ≡ true) × (o.start ≤ t) × (t ≤ latest o + 120)

-- `Covers` holds exactly inside an admitted op's span, stretched by the legal tail.
pub covers_iff : (s : Schedule) (t : ℕ) → (covers s t ≡ true) ↔ Some (IsCovered t) s.ops
unfolding covers
covers_iff s t =
    let (to, from) = some_of-Some (in_window t) (legal_windows s) in
    let (mto, mfrom) = Some-of_map (λ w. in_window t w ≡ true) legal_window (keep admitted s.ops) in
    let (kto, kfrom) = Some-keep (λ o. in_window t (legal_window o) ≡ true) admitted s.ops in
    (
      λ h.
          Some-map (λ o. (admitted o ≡ true) × (in_window t (legal_window o) ≡ true)) (IsCovered t)
            (λ o k. ground arith) s.ops (kto (mto (to h))),
      λ h. from (
          mfrom (
            kfrom (
              Some-map (IsCovered t)
                (λ o. (admitted o ≡ true) × (in_window t (legal_window o) ≡ true))
                (λ o k. ground arith) s.ops h))),
    )
