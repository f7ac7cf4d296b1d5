-- ===== src/Schedule/Windows.antt =====
-- Where divergence is expected (internal/migsched/schedule.go: LegalWindows, Covers, Straddle).
pub mod Laws
use pbt_devnet.Prelude.{
  ℕ, ◌+◌, Bool, true, false, not, ◌&&◌, Option, none, some, List, [], ◌∷◌, ltb, map, keep, some_of,
  if◌then◌else◌,
}
use pbt_devnet.Schedule.{Class, straddle, Op, Schedule, admitted, latest, legal_divergence_tail}

unfoldable pub legal_window : Op → ℕ × ℕ
legal_window o = (o.start, latest o + legal_divergence_tail)

unfoldable pub legal_windows : Schedule → List (ℕ × ℕ)
unfolding legal_window
legal_windows s = map legal_window (keep admitted s.ops)

unfoldable pub in_window : ℕ → ℕ × ℕ → Bool
in_window t w = not (ltb t w.0) && not (ltb w.1 t)

unfoldable pub covers : Schedule → ℕ → Bool
unfolding legal_windows in_window
covers s t = some_of (in_window t) (legal_windows s)

abbrev pub is_straddle : Class → Bool
is_straddle straddle = true
is_straddle _ = false

unfoldable pub first_straddle : List Op → Option Op
first_straddle [] = none
first_straddle (o ∷ os) =
    let rest = first_straddle os in if is_straddle o.class then some o else rest
