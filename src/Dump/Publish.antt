-- ===== src/Dump/Publish.antt =====
-- The published schedule against the one that was resolved (internal/migsched/dump.go: NewDump, Gaps).
use pbt_devnet.Prelude.{
  ℕ, ◌-◌, ◌≤◌, ◌<◌, ◌≡◌, ◌≢◌, refl, ◌↔◌, String, true, Option, none, some, List, arith, ok, All,
  All-map, Some, Some-map_with, Some-of_map, map,
}
use pbt_devnet.Schedule.{Class, deep, short, straddle, window, unknown, Op, Schedule, Error}
use pbt_devnet.Schedule
use pbt_devnet.Schedule.Topology.{Float64, Topology}
use pbt_devnet.Schedule.Resolve.{resolve}
use pbt_devnet.Schedule.Resolve.Lateness.{IsResolved}
use pbt_devnet.Schedule.Resolve.Promise.{resolve-IsResolved}
use pbt_devnet.Dump.{dump_op, new_dump, latest, runs, gaps}
use pbt_devnet.Dump.Gaps.{Holds, Occupies, gaps_iff}

-- The driver keeps the op open at the instant.
abbrev pub IsOpen : ℕ → Op → Type 0
IsOpen t o = (Schedule.admitted o ≡ true) × (o.start ≤ t) × (t < Schedule.latest o)

dump_op-IsOpen : (t : ℕ) (o : Op) → o.hold_until ≢ some 0 → Occupies t (dump_op o) ↔ IsOpen t o
unfolding dump_op latest runs Schedule.latest Schedule.admitted
dump_op-IsOpen t o h = by_hold o.hold_until refl
  where
    by_hold : (u : Option ℕ) → o.hold_until ≡ u → Occupies t (dump_op o) ↔ IsOpen t o
    by_hold none e = (λ k. ground arith, λ k. ground arith)
    by_hold (some u) e = (λ k. ground arith, λ k. ground arith)

ops-IsOpen :
    (t : ℕ) (ops : List Op)
    → All (λ o. o.hold_until ≢ some 0) ops
    → Some (Occupies t) (map dump_op ops) ↔ Some (IsOpen t) ops
ops-IsOpen t ops h =
    let (to, from) = Some-of_map (Occupies t) dump_op ops in
    (
      λ k.
          Some-map_with (λ o. o.hold_until ≢ some 0) (λ o. Occupies t (dump_op o)) (IsOpen t)
            (λ o c. (dump_op-IsOpen t o c).0) ops h (to k),
      λ k. from (
          Some-map_with (λ o. o.hold_until ≢ some 0) (IsOpen t) (λ o. Occupies t (dump_op o))
            (λ o c. (dump_op-IsOpen t o c).1) ops h k),
    )

-- A resolved op never holds until 0: a straddle holds past its end, and no other op holds.
resolved-hold :
    {fork : ℕ} {lights : List ℕ} {anchor deadline : ℕ} (o : Op)
    → IsResolved fork lights anchor deadline o
    → o.hold_until ≢ some 0
resolved-hold o r e = by_class o.class refl
  where
    by_class : (c : Class) → o.class ≡ c → ⊥
    by_class straddle k = let h = r.placed.held_straddle k in ground arith
    by_class window k = let h = r.placed.unheld (λ q. cc) in cc
    by_class deep k = let h = r.placed.unheld (λ q. cc) in cc
    by_class short k = let h = r.placed.unheld (λ q. cc) in cc
    by_class (unknown x) k = let h = r.placed.unheld (λ q. cc) in cc

-- Of a resolved schedule's dump, an instant lies in a gap exactly if it is in the range and the
-- driver keeps no admitted op open at it, from the op's start to its latest heal.
pub publish-gaps :
    (fl : Float64) (fork : ℕ) (topo : Topology fl.F) (name : String) (genesis : ℕ) (s : Schedule)
    → resolve fl fork topo name genesis ≡ ok s
    → (from to t : ℕ)
    → Some (Holds t) (gaps (new_dump s genesis fork topo.anchor) from to)
      ↔ ((from ≤ t) × (t < to) × (¬ Some (IsOpen t) s.ops))
unfolding new_dump
publish-gaps fl fork topo name genesis s h from to t =
    let (gto, gfrom) = gaps_iff (new_dump s genesis fork topo.anchor) from to t in
    let held =
      All-map (IsResolved fork topo.lights topo.anchor (fork - 390)) (λ o. o.hold_until ≢ some 0)
        resolved-hold s.ops (resolve-IsResolved fl fork topo name genesis s h).0 in
    let (oto, ofrom) = ops-IsOpen t s.ops held in
    (
      λ k. let (a, b, c) = gto k in (a, b, λ m. c (ofrom m)),
      λ k. gfrom (k.0, k.1, λ m. k.2 (oto m)),
    )
