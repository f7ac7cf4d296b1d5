-- ===== src/Schedule/Admission.antt =====
-- The admission rules (internal/migsched/schedule.go: admitDeep, admitStraddle, admitWindow).
pub mod Bounds
use pbt_devnet.Prelude.{
  ℕ, zero, suc, ◌+◌, ◌-◌, ◌/◌, Bool, true, false, not, ◌&&◌, ◌||◌, List, [], ◌∷◌, ◌==◌, ltb, leb,
  length, Result, ok, err, ◌>>=◌, ◌>>◌, refuse_if, if◌then◌else◌,
}
use pbt_devnet.Schedule.{
  Op, Error, latest, straddle_min_side, straddle_max_after, straddle_max_drop, window_open_after,
  window_close_by, window_min_len, window_max_len, deep_share, straddle_victims, anchor_heavy,
  anchor_light, straddle_sides, straddle_hold, straddle_drop, window_victim, window_length,
  window_early, window_late,
}
use pbt_devnet.Schedule.Topology.{Float64, Topology, share}

-- `len(o.Victims) != 1 || o.Victims[0] == topo.Anchor`.
unfoldable pub not_single_light : List ℕ → ℕ → Bool
not_single_light (v ∷ []) anchor = v == anchor
not_single_light _ anchor = true

-- An `end - start` below zero fails both tests of its length, as 0 does.
unfoldable pub admit_window : (fork anchor : ℕ) → Op → Result Error (Unit {0})
unfolding not_single_light
admit_window fork anchor o = do
  refuse_if (not_single_light o.victims anchor) (window_victim o)
  refuse_if (ltb (o.end - o.start) window_min_len || ltb window_max_len (o.end - o.start))
      (window_length o)
  refuse_if (ltb o.start (fork + window_open_after)) (window_early o)
  refuse_if (ltb (fork + window_close_by) o.end) (window_late o)

module _ (fl : Float64) where
  open fl use {F, of_nat, ratio, add, mul, lt, le}

  -- The stake of an island, summed in the order of its victims.
  unfoldable pub island_share : Topology F → F → List ℕ → F
  island_share topo sum [] = sum
  island_share topo sum (v ∷ vs) = island_share topo (add sum (share fl topo v)) vs

  unfoldable pub admit_deep : Topology F → Op → Result Error (Unit {0})
  admit_deep topo o =
      let held = island_share topo (of_nat 0) o.victims in
      refuse_if (le held (ratio 1 3) || le (ratio 1 2) held) (deep_share o)

  unfoldable pub worst_share : Topology F → F → List ℕ → F
  worst_share topo worst [] = worst
  worst_share topo worst (v ∷ vs) =
      let s = share fl topo v in worst_share topo (if lt worst s then s else worst) vs

  -- A difference of instants below zero fails a lower bound and meets an upper one, as 0 does.
  unfoldable pub admit_straddle : (fork : ℕ) → Topology F → Op → Result Error (Unit {0})
  admit_straddle fork topo o =
      let anchor = share fl topo topo.anchor in
      let worst = worst_share topo (of_nat 0) o.victims in
      let slots = (latest o - o.start) / topo.seconds_per_slot in
      do
        refuse_if (not o.mutual_islands || length o.victims == 0) (straddle_victims o)
        refuse_if (le (ratio 2 3) anchor) anchor_heavy
        refuse_if (lt anchor (add worst (ratio 5 100))) anchor_light
        refuse_if (ltb (fork - o.start) straddle_min_side || ltb (o.end - fork) straddle_min_side)
            (straddle_sides o)
        refuse_if (ltb straddle_max_after (latest o - fork)) (straddle_hold o)
        refuse_if (lt (of_nat straddle_max_drop) (mul (of_nat slots) worst)) (straddle_drop o)
