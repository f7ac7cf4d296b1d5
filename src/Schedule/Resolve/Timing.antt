-- ===== src/Schedule/Resolve/Timing.antt =====
-- The times of a resolved schedule's ops and slots (internal/migsched/schedule.go: Resolve).
use pbt_devnet.Prelude.{
  ℕ, ◌+◌, ◌-◌, ◌≤◌, ◌<◌, ◌≡◌, refl, subst, String, some, List, [], ◌∷◌, arith, ok, >>=-eq-ok,
  ok-injective, All, All-both, str_eq, Bool, true, false, none, if◌then◌else◌,
}
use pbt_devnet.Schedule.{
  Class, deep, short, straddle, window, unknown, Op, Window, Profile, Schedule, shift, profile_of,
  composite, composite_smoke,
}
use pbt_devnet.Schedule.Topology.{Float64, Topology}
use pbt_devnet.Schedule.Resolve.{
  Turn, place, place_all, mark_late, blank, base_of, check_topology, resolve,
}
use pbt_devnet.Schedule.Resolve.Placement.{place-Placed}
use pbt_devnet.Schedule.Resolve.Lateness.{IsResolved}
use pbt_devnet.Schedule.Resolve.Promise.{resolve-inversion, resolve-IsResolved}

-- An op that opens before it ends, and is held for two minutes at most.
pub record IsTimed (o : Op) : Type 0 where
  pub forward : o.start < o.end
  pub held : (t : ℕ) → o.hold_until ≡ some t → t ≤ o.end + 120

IsForward : Op → Type 0
IsForward o = o.start < o.end

-- A window is open for some time, wherever its anchor is.
HasLength : Window → Type 0
HasLength w = (base : ℕ) → shift base w.start < shift base w.end

mark_late-IsForward :
    (deadline margin : ℕ) (o : Op) → IsForward o → IsForward (mark_late deadline margin o)
unfolding mark_late IsForward
mark_late-IsForward deadline margin o h = ground arith

module _ (fl : Float64) (fork : ℕ) (topo : Topology fl.F) where
  place_all-IsForward :
      (name : String) (genesis deadline margin i : ℕ) (n : Turn) (ws : List Window) (ops : List Op)
      → All HasLength ws
      → place_all fl fork topo name genesis deadline margin i n ws ≡ ok ops
      → All IsForward ops
  unfolding place_all blank HasLength IsForward
  place_all-IsForward name genesis deadline margin i n [] ops l h =
      subst (All IsForward) (ok-injective h) tt
  place_all-IsForward name genesis deadline margin i n (w ∷ ws) ops l h =
      let o = blank name genesis fork i w in
      let (r, hr, h1) = >>=-eq-ok (place fl fork topo w.class i n o) _ h in
      let (os, hos, h2) =
        >>=-eq-ok (place_all fl fork topo name genesis deadline margin (i + 1) r.0 ws) _ h1 in
      let (_, _, _, _, st, en) = place-Placed fl fork topo w.class i n o r refl refl hr in
      subst (All IsForward) (ok-injective h2) (
        mark_late-IsForward deadline margin r.1
            (omega (arith, l.0 (base_of genesis fork w.anchor), st, en)),
        place_all-IsForward name genesis deadline margin (i + 1) r.0 ws os l.1 hos,
      )

  profile_of-HasLength :
      (name : String) (p : Profile) → profile_of name ≡ some p → All HasLength p.windows
  unfolding profile_of HasLength shift
  profile_of-HasLength name p h =
      by_name (str_eq name "composite") (str_eq name "composite-smoke") h
    where
      by_name :
          (a b : Bool)
          → (if a then some composite else if b then some composite_smoke else none) ≡ some p
          → All HasLength p.windows
      by_name true b k =
          let e : composite ≡ p = cc in
          subst (λ (q : Profile). All HasLength q.windows) e
            (
              λ base. omega arith,
              (
                λ base. omega arith,
                (λ base. omega arith, (λ base. omega arith, (λ base. omega arith, tt))),
              ),
            )
      by_name false true k =
          let e : composite_smoke ≡ p = cc in
          subst (λ (q : Profile). All HasLength q.windows) e
            (λ base. omega arith, (λ base. omega arith, tt))
      by_name false false k = cc

  hold-bound :
      (o : Op) (c : Class) (t : ℕ)
      → o.class ≡ c
      → IsResolved fork topo.lights topo.anchor (fork - 390) o
      → o.hold_until ≡ some t
      → t ≤ o.end + 120
  hold-bound o straddle t e r h = let k = r.placed.held_straddle e in ground arith
  hold-bound o deep t e r h = let k = r.placed.unheld (λ x. cc) in ground arith
  hold-bound o short t e r h = let k = r.placed.unheld (λ x. cc) in ground arith
  hold-bound o window t e r h = let k = r.placed.unheld (λ x. cc) in ground arith
  hold-bound o (unknown x) t e r h = let k = r.placed.unheld (λ x. cc) in ground arith

  -- Every op of a resolved schedule opens before it ends, and is held for two minutes at most.
  pub resolve-IsTimed :
      (name : String) (genesis : ℕ) (s : Schedule)
      → resolve fl fork topo name genesis ≡ ok s
      → All IsTimed s.ops
  unfolding IsForward
  resolve-IsTimed name genesis s h =
      let (p, e, _, r) = resolve-inversion fl fork topo name genesis s h in
      let forward =
        place_all-IsForward name genesis (fork - p.pre_fork_margin) p.pre_fork_margin 0 _ p.windows
          s.ops (profile_of-HasLength name p e) r.placed in
      All-both IsForward (IsResolved fork topo.lights topo.anchor (fork - 390)) IsTimed
        (λ o f i. record { forward = f; held = λ t. hold-bound o o.class t refl i }) s.ops forward
        (resolve-IsResolved fl fork topo name genesis s h).0

  -- A slot lasts a second at least.
  pub resolve-slots :
      (name : String) (genesis : ℕ) (s : Schedule)
      → resolve fl fork topo name genesis ≡ ok s
      → 1 ≤ s.slot_seconds
  unfolding check_topology
  resolve-slots name genesis s h =
      let (p, e, top, r) = resolve-inversion fl fork topo name genesis s h in
      let k = r.slots in ground arith
