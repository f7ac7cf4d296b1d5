-- ===== src/Schedule/Resolve.antt =====
-- The resolution of a profile (internal/migsched/schedule.go: Resolve).
pub mod Placement
pub mod Stakes
pub mod Weighed
pub mod Lateness
pub mod Promise
pub mod Indexing
pub mod Timing
use pbt_devnet.Prelude.{
  ℕ, zero, suc, ◌+◌, ◌-◌, ◌%◌, String, Bool, true, false, ◌&&◌, Option, none, some, List, [], ◌∷◌,
  ◌==◌, ltb, length, get_elem?, some_of, Result, ok, err, ◌>>=◌, ◌>>◌, refuse_if, if◌then◌else◌,
}
use pbt_devnet.Schedule.{
  Class, deep, short, straddle, window, unknown, Anchor, from_genesis, from_fork, late, Op,
  Schedule, Window, Profile, Error, profile_of, shift, straddle_max_hold, unknown_profile,
  no_anchor, no_lights, bad_slot, anchor_is_light, too_few_participants, deep_needs_pair,
  unknown_class, two_straddles, index_out_of_range,
}
use pbt_devnet.Schedule.Topology.{Float64, Topology}
use pbt_devnet.Schedule.Admission.{admit_deep, admit_straddle, admit_window}
use pbt_devnet.Schedule.Sweeps.{failsafes, check_failsafes}

-- `topo.Lights[i]`.
unfoldable pub pick : List ℕ → ℕ → Result Error ℕ
pick lights i = elim (get_elem? lights i) [ none ↦ err index_out_of_range | some v ↦ ok v ]

-- The counters of the loop.
pub record Turn : Type 0 where
  pub rotation : ℕ
  pub pairs : ℕ
  pub straddles : ℕ

abbrev is_pre_fork : Class → Bool
is_pre_fork deep = true
is_pre_fork short = true
is_pre_fork _ = false

-- A pre-fork op that ends after the deadline is refused, and keeps its place.
unfoldable pub mark_late : (deadline margin : ℕ) → Op → Op
mark_late deadline margin o =
    if is_pre_fork o.class && ltb deadline o.end
    then record o { refused = some (late o.class o.end deadline margin) }
    else o

abbrev base_of : (genesis fork : ℕ) → Anchor → ℕ
base_of genesis fork from_genesis = genesis
base_of genesis fork from_fork = fork

-- The op before its class decides on its victims; the i-th window gives the i+1-th op.
unfoldable pub blank : (name : String) (genesis fork i : ℕ) → Window → Op
blank name genesis fork i w =
    let base = base_of genesis fork w.anchor in
    record {
      name = (name, i + 1);
      class = w.class;
      start = shift base w.start;
      end = shift base w.end;
      victims = [];
      mutual_islands = false;
      refused = none;
      hold_until = none;
    }

module _ (fl : Float64) (fork : ℕ) (topo : Topology fl.F) where
  open topo use {anchor, lights}

  -- The `switch w.class` of the loop's body.
  unfoldable pub place : Class → ℕ → Turn → Op → Result Error (Turn × Op)
  unfolding pick
  place deep i n o = do
    refuse_if (ltb (length lights) 2) (deep_needs_pair (i + 1))
    a ← pick lights (n.pairs % length lights)
    b ← pick lights ((n.pairs + 1) % length lights)
    admit_deep fl topo (record o { victims = a ∷ b ∷ [] })
    ok (record n { pairs = n.pairs + 1 }, record o { victims = a ∷ b ∷ [] })
  place straddle i n o =
      let held = record o {
        victims = lights;
        mutual_islands = true;
        hold_until = some (o.end + straddle_max_hold);
      } in
      do
        refuse_if (ltb 1 (n.straddles + 1)) (two_straddles (n.straddles + 1))
        admit_straddle fl fork topo held
        ok (record n { straddles = n.straddles + 1 }, held)
  place short i n o = do
    v ← pick lights (n.rotation % length lights)
    ok (record n { rotation = n.rotation + 1 }, record o { victims = v ∷ [] })
  place window i n o = do
    v ← pick lights (n.rotation % length lights)
    admit_window fork anchor (record o { victims = v ∷ [] })
    ok (record n { rotation = n.rotation + 1 }, record o { victims = v ∷ [] })
  place (unknown c) i n o = err (unknown_class (i + 1))

  -- The loop over the windows of a profile.
  unfoldable pub place_all :
      (name : String) (genesis deadline margin i : ℕ) → Turn → List Window → Result Error (List Op)
  unfolding place mark_late blank
  place_all name genesis deadline margin i n [] = ok []
  place_all name genesis deadline margin i n (w ∷ ws) =
      place w.class i n (blank name genesis fork i w) >>= λ r.
      place_all name genesis deadline margin (i + 1) r.0 ws >>= λ os.
      ok (mark_late deadline margin r.1 ∷ os)

  unfoldable pub check_topology : Result Error (Unit {0})
  check_topology = do
    refuse_if (anchor == 0) no_anchor
    refuse_if (length lights == 0) no_lights
    refuse_if (some_of (λ l. l == anchor) lights) (anchor_is_light anchor)
    refuse_if (ltb topo.participants (length lights + 1)) (too_few_participants topo.participants)
    refuse_if (topo.seconds_per_slot == 0) bad_slot

  -- What follows the guards of `Resolve`.
  unfoldable pub resolve_profile : (name : String) (genesis : ℕ) → Profile → Result Error Schedule
  unfolding place_all
  resolve_profile name genesis p =
      let deadline = fork - p.pre_fork_margin in
      do
        ops ←
            place_all name genesis deadline p.pre_fork_margin 0
              (record { rotation = 0; pairs = 0; straddles = 0 }) p.windows
        check_failsafes ops (failsafes ops deadline).0
        ok (record {
          profile = name;
          ops = ops;
          failsafes = (failsafes ops deadline).0;
          quiet = (failsafes ops deadline).1;
          slot_seconds = topo.seconds_per_slot;
        })

  unfoldable pub resolve : (name : String) (genesis : ℕ) → Result Error Schedule
  unfolding resolve_profile check_topology
  resolve name genesis = elim (profile_of name) [
    | none ↦ err (unknown_profile name)
    | some p ↦ check_topology >> resolve_profile name genesis p
  ]
