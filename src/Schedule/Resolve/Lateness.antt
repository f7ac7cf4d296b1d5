-- ===== src/Schedule/Resolve/Lateness.antt =====
-- Which ops of a profile are refused, and what the others satisfy
-- (internal/migsched/schedule.go: Resolve).
use pbt_devnet.Prelude.{
  ℕ, ◌+◌, ◌≤◌, ◌≡◌, refl, ◌≢◌, subst, ◌∙◌, String, Bool, true, false, ◌&&◌, Option, some, List, [],
  ◌∷◌, arith, ltb, ok, >>=-eq-ok, ok-injective, All, if◌then◌else◌,
}
use pbt_devnet.Schedule.{
  Refusal, late, Class, deep, short, straddle, window, unknown, Op, Window, admitted, latest,
}
use pbt_devnet.Schedule.Topology.{Float64, Topology}
use pbt_devnet.Schedule.Resolve.{Turn, place, place_all, is_pre_fork, mark_late, blank}
use pbt_devnet.Schedule.Resolve.Placement.{IsPlaced, place-Placed}

-- An op of a resolved schedule: as placed, and healed by the deadline if it runs before the fork.
pub record IsResolved (fork : ℕ) (lights : List ℕ) (anchor deadline : ℕ) (o : Op) : Type 0 where
  pub placed : IsPlaced fork lights anchor o
  pub pre_fork : o.class ≢ straddle → o.class ≢ window → admitted o ≡ true → o.end ≤ deadline

mark_late-class : (deadline margin : ℕ) (o : Op) → (mark_late deadline margin o).class ≡ o.class
unfolding mark_late
mark_late-class deadline margin o = ground arith

mark_late-end : (deadline margin : ℕ) (o : Op) → (mark_late deadline margin o).end ≡ o.end
unfolding mark_late
mark_late-end deadline margin o = ground arith

mark_late-pre_fork :
    (deadline margin : ℕ) (o : Op)
    → ((x : String) → o.class ≢ unknown x)
    → o.class ≢ straddle
    → o.class ≢ window
    → admitted (mark_late deadline margin o) ≡ true
    → o.end ≤ deadline
unfolding mark_late admitted
mark_late-pre_fork deadline margin o known s w a = by_class o.class refl
  where
    by_class : (c : Class) → o.class ≡ c → o.end ≤ deadline
    by_class deep e = ground arith
    by_class short e = ground arith
    by_class straddle e = absurd (s e)
    by_class window e = absurd (w e)
    by_class (unknown x) e = absurd (known x e)

-- A refusal changes nothing else of an op.
refuse-IsPlaced :
    {fork : ℕ} {lights : List ℕ} {anchor : ℕ} {o : Op} (x : Option Refusal)
    → IsPlaced fork lights anchor o
    → IsPlaced fork lights anchor (record o { refused = x })
unfolding latest
refuse-IsPlaced x p = record {
  victims_lights = p.victims_lights;
  known = p.known;
  some_victim = p.some_victim;
  held_straddle = p.held_straddle;
  unheld = p.unheld;
  straddle_bounds = λ e.
      let b = p.straddle_bounds e in
      record {
        islands = b.islands;
        some_island = b.some_island;
        sets_up = b.sets_up;
        crosses = b.crosses;
        released = b.released;
      };
  straddle_all = p.straddle_all;
  window_bounds = λ e.
      let b = p.window_bounds e in
      record {
        victim = b.victim;
        single = b.single;
        not_anchor = b.not_anchor;
        long_enough = b.long_enough;
        short_enough = b.short_enough;
        opens = b.opens;
        closes = b.closes;
      };
}

mark_late-IsResolved :
    (fork : ℕ) (lights : List ℕ) (anchor deadline margin : ℕ) (o : Op)
    → IsPlaced fork lights anchor o
    → IsResolved fork lights anchor deadline (mark_late deadline margin o)
unfolding mark_late
mark_late-IsResolved fork lights anchor deadline margin o p = record {
  placed = ite_Placed (is_pre_fork o.class && ltb deadline o.end);
  pre_fork = λ s w a.
      let e = mark_late-class deadline margin o in
      omega (
        arith,
        mark_late-pre_fork deadline margin o p.known (λ k. s (e ∙ k)) (λ k. w (e ∙ k)) a,
        mark_late-end deadline margin o,
      );
}
  where
    ite_Placed :
        (b : Bool)
        → IsPlaced fork lights anchor
            (if b then record o { refused = some (late o.class o.end deadline margin) } else o)
    ite_Placed true = refuse-IsPlaced _ p
    ite_Placed false = p

module _ (fl : Float64) (fork : ℕ) (topo : Topology fl.F) where
  open topo use {anchor, lights}

  pub place_all-IsResolved :
      (name : String) (genesis deadline margin i : ℕ) (n : Turn) (ws : List Window) (ops : List Op)
      → place_all fl fork topo name genesis deadline margin i n ws ≡ ok ops
      → All (IsResolved fork lights anchor deadline) ops
  unfolding place_all blank
  place_all-IsResolved name genesis deadline margin i n [] ops h =
      subst (All (IsResolved fork lights anchor deadline)) (ok-injective h) tt
  place_all-IsResolved name genesis deadline margin i n (w ∷ ws) ops h =
      let o = blank name genesis fork i w in
      let (r, hr, h1) = >>=-eq-ok (place fl fork topo w.class i n o) _ h in
      let (os, hos, h2) =
        >>=-eq-ok (place_all fl fork topo name genesis deadline margin (i + 1) r.0 ws) _ h1 in
      subst (All (IsResolved fork lights anchor deadline)) (ok-injective h2) (
        mark_late-IsResolved fork lights anchor deadline margin r.1
            (place-Placed fl fork topo w.class i n o r refl refl hr).0,
        place_all-IsResolved name genesis deadline margin (i + 1) r.0 ws os hos,
      )
