-- ===== src/Schedule.antt =====
-- The data of internal/migsched/schedule.go: partition windows, profiles and schedules.
-- An instant is its Unix time in whole seconds, and a zero `time.Time` is `none`. An offset
-- before the epoch stops at it: every genesis and fork time lies more than a profile after it.
-- A message that fmt formats is kept as a constructor with the values that it names.
pub mod Topology
pub mod Admission
pub mod Sweeps
pub mod Resolve
pub mod Windows
pub mod Actions
use pbt_devnet.Prelude.{
  ℕ, ◌+◌, ◌-◌, String, Bool, true, false, Option, none, some, List, [], ◌∷◌, str_eq, if◌then◌else◌,
}

-- `type Class string`: the four constants, and any other text.
pub data Class : Type 0 where
  deep short straddle window : Class
  unknown : String → Class

pub data Anchor : Type 0 where
  from_genesis from_fork : Anchor

-- Seconds relative to an anchor.
pub data Offset : Type 0 where
  before after : ℕ → Offset

-- Why admission rejected an op: it ends after the pre-fork heal deadline.
pub data Refusal : Type 0 where
  late : Class → (end deadline margin : ℕ) → Refusal

pub record Op : Type 0 where
  pub name : String × ℕ
  pub class : Class
  pub start : ℕ
  pub end : ℕ
  pub victims : List ℕ
  pub mutual_islands : Bool
  pub refused : Option Refusal
  pub hold_until : Option ℕ

unfoldable pub admitted : Op → Bool
admitted o = elim o.refused [ none ↦ true | some _ ↦ false ]

unfoldable pub latest : Op → ℕ
latest o = elim o.hold_until [ none ↦ o.end | some t ↦ t ]

pub record Schedule : Type 0 where
  pub profile : String
  pub ops : List Op
  pub failsafes : List ℕ
  pub quiet : ℕ
  pub slot_seconds : ℕ

pub record Window : Type 0 where
  pub start : Offset
  pub end : Offset
  pub anchor : Anchor
  pub class : Class

pub record Profile : Type 0 where
  pub windows : List Window
  pub pre_fork_margin : ℕ

abbrev win : Offset → Offset → Anchor → Class → Window
win s e a c = record { start = s; end = e; anchor = a; class = c }

abbrev pub composite : Profile
composite = record {
  windows =
      win (after 240) (after 430) from_genesis deep
      ∷ win (after 540) (after 730) from_genesis deep
      ∷ win (after 790) (after 940) from_genesis short
      ∷ win (before 120) (after 60) from_fork straddle
      ∷ win (after 300) (after 450) from_fork window
      ∷ [];
  pre_fork_margin = 390;
}

abbrev pub composite_smoke : Profile
composite_smoke = record {
  windows =
      win (after 220) (after 370) from_genesis short
      ∷ win (before 120) (after 60) from_fork straddle
      ∷ [];
  pre_fork_margin = 390;
}

-- The lookup in the `profiles` map.
unfoldable pub profile_of : String → Option Profile
profile_of name =
    if str_eq name "composite"
    then some composite
    else if str_eq name "composite-smoke"
    then some composite_smoke
    else none

-- `base.Add(offset * time.Second)`.
unfoldable pub shift : ℕ → Offset → ℕ
shift base (after n) = base + n
shift base (before n) = base - n

abbrev pub straddle_min_side : ℕ
straddle_min_side = 60

abbrev pub straddle_max_hold : ℕ
straddle_max_hold = 120

abbrev pub straddle_max_after : ℕ
straddle_max_after = 180

abbrev pub heal_converge_allowance : ℕ
heal_converge_allowance = 120

abbrev pub legal_divergence_tail : ℕ
legal_divergence_tail = 120

abbrev pub quiet_tail : ℕ
quiet_tail = 120

abbrev pub straddle_max_drop : ℕ
straddle_max_drop = 24

abbrev pub failsafe_repeat : ℕ
failsafe_repeat = 60

abbrev pub window_open_after : ℕ
window_open_after = 300

abbrev pub window_close_by : ℕ
window_close_by = 480

abbrev pub window_min_len : ℕ
window_min_len = 60

abbrev pub window_max_len : ℕ
window_max_len = 180

-- The errors of `Resolve`. `index_out_of_range` is Go's panic.
pub data Error : Type 0 where
  unknown_profile : String → Error
  no_anchor no_lights bad_slot : Error
  anchor_is_light : ℕ → Error
  too_few_participants deep_needs_pair unknown_class two_straddles : ℕ → Error
  deep_share straddle_victims straddle_sides straddle_hold straddle_drop : Op → Error
  anchor_heavy anchor_light : Error
  window_victim window_length window_early window_late : Op → Error
  sweep_inside : ℕ → Op → Error
  index_out_of_range : Error
