-- ===== src/Schedule/Actions/Order.antt =====
-- The order of the driver's work (internal/migsched/schedule.go: Actions).
use pbt_devnet.Prelude.{
  ℕ, ◌≤◌, ◌<◌, ◌≡◌, ◌⊎◌, true, false, List, [], ◌∷◌, arith, ltb, ◌==◌, if◌then◌else◌, All, All-map,
  IsSorted, IsOrder, sort-IsSorted,
}
use pbt_devnet.Schedule.{Schedule}
use pbt_devnet.Schedule.Actions.{Action, rank, less, actions}

-- `a` may stand before `b`.
abbrev pub Precedes : Action → Action → Type 0
Precedes a b = (a.at < b.at) ⊎ ((a.at ≡ b.at) × (rank a.kind ≤ rank b.kind))

abbrev pub InOrder : List Action → Type 0
InOrder [] = Unit
InOrder (a ∷ rest) = All (Precedes a) rest × InOrder rest

-- `less` compares the instants, and then the ranks.
less-Precedes : (a b : Action) → less b a ≡ false → Precedes a b
unfolding less
less-Precedes a b h = compared (rank a.kind) (rank b.kind) h
  where
    compared :
        (i j : ℕ)
        → (if b.at == a.at then ltb j i else ltb b.at a.at) ≡ false
        → (a.at < b.at) ⊎ ((a.at ≡ b.at) × (i ≤ j))
    compared i j h = ground arith

less_numbers_trans :
    (x y z i j k : ℕ)
    → (if y == x then ltb j i else ltb y x) ≡ false
    → (if z == y then ltb k j else ltb z y) ≡ false
    → (if z == x then ltb k i else ltb z x) ≡ false
less_numbers_trans x y z i j k h l = ground arith

less_numbers_asym :
    (x y i j : ℕ)
    → (if x == y then ltb i j else ltb x y) ≡ true
    → (if y == x then ltb j i else ltb y x) ≡ false
less_numbers_asym x y i j h = ground arith

less-IsOrder : IsOrder less
unfolding less
less-IsOrder = record {
  asym = λ a b h. less_numbers_asym a.at b.at (rank a.kind) (rank b.kind) h;
  trans =
      λ a b c h k. less_numbers_trans a.at b.at c.at (rank a.kind) (rank b.kind) (rank c.kind) h k;
}

IsSorted-InOrder : (l : List Action) → IsSorted less l → InOrder l
IsSorted-InOrder [] h = tt
IsSorted-InOrder (a ∷ l) h = (
  All-map (λ b. less b a ≡ false) (Precedes a) (λ b. less-Precedes a b) l h.0,
  IsSorted-InOrder l h.1,
)

-- The actions come in order of time, and at one instant heals, sweeps and isolations in that order.
pub actions-InOrder : (s : Schedule) → InOrder (actions s)
unfolding actions
actions-InOrder s = IsSorted-InOrder _ (sort-IsSorted less less-IsOrder _)
