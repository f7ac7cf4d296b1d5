-- ===== src/Schedule/Topology.antt =====
-- Participants and stake (internal/migsched/schedule.go: Topology, share, Lights, Others).
pub mod Selection
use pbt_devnet.Prelude.{
  ℕ, zero, suc, ◌+◌, ◌-◌, Bool, true, false, not, List, [], ◌∷◌, ◌==◌, keep, some_of, if◌then◌else◌,
}

-- Go's float64, which the stake shares are computed in. `ratio n d` is the float64 of the
-- constant n/d.
pub record Float64 : Type 1 where
  pub F : Type 0
  pub of_nat : ℕ → F
  pub ratio : ℕ → ℕ → F
  pub add : F → F → F
  pub sub : F → F → F
  pub mul : F → F → F
  pub div : F → F → F
  pub lt : F → F → Bool
  pub le : F → F → Bool

pub record Topology (F : Type 0) : Type 0 where
  pub anchor : ℕ
  pub lights : List ℕ
  pub participants : ℕ
  pub anchor_share : F
  pub seconds_per_slot : ℕ

module _ (fl : Float64) where
  open fl use {F, of_nat, sub, div}

  unfoldable pub share : Topology F → ℕ → F
  share t participant =
      if participant == t.anchor
      then t.anchor_share
      else div (sub (of_nat 1) t.anchor_share) (of_nat (t.participants - 1))

-- `for i := from; i < from + n; i++`.
unfoldable pub indices : ℕ → ℕ → List ℕ
indices from zero = []
indices from (suc n) = from ∷ indices (suc from) n

-- Membership in the Go set that a loop filled.
unfoldable pub contains : List ℕ → ℕ → Bool
contains xs i = some_of (λ x. x == i) xs

unfoldable pub lights_of : (participants anchor : ℕ) → List ℕ → List ℕ
unfolding indices contains
lights_of participants anchor protect =
    keep (λ i. not (contains (anchor ∷ protect) i)) (indices 1 participants)

unfoldable pub others : (participants : ℕ) → List ℕ → List ℕ
unfolding indices contains
others participants victims = keep (λ i. not (contains victims i)) (indices 1 participants)
