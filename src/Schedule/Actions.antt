-- ===== src/Schedule/Actions.antt =====
-- The driver's work list (internal/migsched/schedule.go: Action, StaleAt, Actions).
pub mod Order
pub mod Content
use pbt_devnet.Prelude.{
  ℕ, ◌+◌, Bool, true, false, not, ◌&&◌, Option, none, some, List, [], ◌∷◌, ◌++◌, ltb, ◌==◌, map,
  keep, sort, if◌then◌else◌,
}
use pbt_devnet.Schedule.{Op, Schedule, admitted}

-- Actions that share an instant: heal, then sweep, then isolation.
pub data ActionKind : Type 0 where
  op_end sweep op_start : ActionKind

abbrev pub rank : ActionKind → ℕ
rank op_end = 0
rank sweep = 1
rank op_start = 2

-- `op` is none for a sweep.
pub record Action : Type 0 where
  pub kind : ActionKind
  pub at : ℕ
  pub op : Option Op

unfoldable pub stale_at : Action → ℕ → Bool
stale_at (a) now = elim a.kind [
  | op_start ↦ elim a.op [ none ↦ true | some o ↦ not (ltb now o.end) ]
  | _ ↦ false
]

abbrev pub start_of : Op → Action
start_of o = record { kind = op_start; at = o.start; op = some o }

abbrev pub end_of : Op → Action
end_of o = record { kind = op_end; at = o.end; op = some o }

abbrev pub sweep_of : ℕ → Action
sweep_of f = record { kind = sweep; at = f; op = none }

unfoldable pub less : Action → Action → Bool
less a b = if a.at == b.at then ltb (rank a.kind) (rank b.kind) else ltb a.at b.at

unfoldable pub op_actions : List Op → List Action
op_actions [] = []
op_actions (o ∷ os) =
    let rest = op_actions os in if admitted o then start_of o ∷ end_of o ∷ rest else rest

unfoldable pub actions : Schedule → List Action
unfolding less op_actions
actions s = sort less (op_actions s.ops ++ map sweep_of s.failsafes)
