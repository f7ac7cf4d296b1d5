-- ===== src/Schedule/Resolve/Weighed.antt =====
-- The ops whose stakes `Resolve` weighs (internal/migsched/schedule.go: Resolve).
use pbt_devnet.Prelude.{
  ℕ, ◌+◌, ◌-◌, ◌/◌, ◌%◌, ◌≡◌, refl, ◌≢◌, subst, String, Bool, true, false, ◌&&◌, some, List, [],
  ◌∷◌, arith, ltb, length, ◌==◌, ok, refuse_if, >>=-eq-ok, ok-injective, All, All-Some,
  if◌then◌else◌,
}
use pbt_devnet.Schedule.{
  Class, late, deep, short, straddle, window, unknown, Op, Window, latest, straddle_max_drop,
}
use pbt_devnet.Schedule.Topology.{Float64, Topology}
use pbt_devnet.Schedule.Admission.{worst_share, admit_deep, admit_straddle, admit_window}
use pbt_devnet.Schedule.Admission.Bounds.{admit_straddle-IsStraddle}
use pbt_devnet.Schedule.Resolve.{Turn, pick, place, place_all, is_pre_fork, mark_late, blank}
use pbt_devnet.Schedule.Resolve.Placement.{IsLight, pick-IsLight}
use pbt_devnet.Schedule.Resolve.Stakes.{
  IsWeighed, share-anchor, island-pair, worst-lights, admit_straddle-stakes,
}

module _ (fl : Float64) (topo : Topology fl.F) where
  open fl use {F, of_nat, ratio, add, sub, mul, div, lt, le}

  abbrev IsApart : List ℕ → Type 0
  IsApart = All (λ l. (l == topo.anchor) ≡ false)

  light-IsApart : (l : ℕ) → IsApart topo.lights → IsLight topo.lights l → (l == topo.anchor) ≡ false
  light-IsApart l apart m =
      let (v, f, e) = All-Some (λ l. (l == topo.anchor) ≡ false) (λ v. v ≡ l) topo.lights apart m in
      subst (λ v. (v == topo.anchor) ≡ false) e f

  -- An op of a class whose stakes are not weighed.
  other-IsWeighed : (o : Op) → o.class ≢ deep → o.class ≢ straddle → IsWeighed fl topo o
  other-IsWeighed o d s = record {
    deep_pair = λ k. absurd (d k);
    deep_more = λ k. absurd (d k);
    deep_less = λ k. absurd (d k);
    anchor_less = λ k. absurd (s k);
    anchor_more = λ k. absurd (s k);
    drops = λ k. absurd (s k);
  }

  deep-IsWeighed :
      (o : Op) (a b : ℕ)
      → o.class ≡ deep
      → (a == topo.anchor) ≡ false
      → (b == topo.anchor) ≡ false
      → admit_deep fl topo (record o { victims = a ∷ b ∷ [] }) ≡ ok tt
      → IsWeighed fl topo (record o { victims = a ∷ b ∷ [] })
  unfolding admit_deep
  deep-IsWeighed o a b e fa fb h =
      let same = island-pair fl topo a b fa fb in
      record {
        deep_pair = λ k. refl;
        deep_more = λ k. subst (λ x. le x (ratio 1 3) ≡ false) same (ground arith);
        deep_less = λ k. subst (λ x. le (ratio 1 2) x ≡ false) same (ground arith);
        anchor_less = λ k. cc;
        anchor_more = λ k. cc;
        drops = λ k. cc;
      }

  abbrev isolate : Op → Op
  isolate o = record o {
    victims = topo.lights;
    mutual_islands = true;
    hold_until = some (o.end + 120);
  }

  straddle-IsWeighed :
      (fork : ℕ) (o : Op)
      → o.class ≡ straddle
      → IsApart topo.lights
      → admit_straddle fl fork topo (isolate o) ≡ ok tt
      → IsWeighed fl topo (isolate o)
  unfolding latest
  straddle-IsWeighed fork o e apart h =
      let bounds = admit_straddle-IsStraddle fl fork topo (isolate o) h in
      let (heavy, light, drop) = admit_straddle-stakes fl topo fork (isolate o) h in
      let same = worst-lights fl topo topo.lights bounds.some_island apart in
      record {
        deep_pair = λ k. cc;
        deep_more = λ k. cc;
        deep_less = λ k. cc;
        anchor_less = λ k. subst (λ x. le (ratio 2 3) x ≡ false) (share-anchor fl topo) heavy;
        anchor_more = λ k.
            subst (λ x. lt topo.anchor_share (add x (ratio 5 100)) ≡ false) same
              (subst
                (λ x. lt x (add (worst_share fl topo (of_nat 0) topo.lights) (ratio 5 100)) ≡ false)
                (share-anchor fl topo) light);
        drops = λ k.
            subst
              (λ x.
                lt (of_nat straddle_max_drop)
                  (mul (of_nat ((o.end + 120 - o.start) / topo.seconds_per_slot)) x)
                ≡ false)
              same drop;
      }

  place-IsWeighed :
      (fork : ℕ) (c : Class) (i : ℕ) (n : Turn) (o : Op) (r : Turn × Op)
      → IsApart topo.lights
      → o.class ≡ c
      → place fl fork topo c i n o ≡ ok r
      → IsWeighed fl topo r.1
  unfolding place
  place-IsWeighed fork deep i n o r apart e h =
      let lights = topo.lights in
      let (_, _, h1) = >>=-eq-ok (refuse_if (ltb (length lights) 2) _) _ h in
      let (a, ha, h2) = >>=-eq-ok (pick lights (n.pairs % length lights)) _ h1 in
      let (b, hb, h3) = >>=-eq-ok (pick lights ((n.pairs + 1) % length lights)) _ h2 in
      let (_, hd, h4) = >>=-eq-ok (admit_deep fl topo (record o { victims = a ∷ b ∷ [] })) _ h3 in
      subst (λ (r : Turn × Op). IsWeighed fl topo r.1) (ok-injective h4)
        (deep-IsWeighed o a b e (light-IsApart a apart (pick-IsLight lights _ ha))
          (light-IsApart b apart (pick-IsLight lights _ hb)) hd)
  place-IsWeighed fork short i n o r apart e h =
      let (v, hv, h1) = >>=-eq-ok (pick topo.lights (n.rotation % length topo.lights)) _ h in
      subst (λ (r : Turn × Op). IsWeighed fl topo r.1) (ok-injective h1)
        (other-IsWeighed (record o { victims = v ∷ [] }) (λ k. cc) (λ k. cc))
  place-IsWeighed fork straddle i n o r apart e h =
      let (_, _, h1) = >>=-eq-ok (refuse_if (ltb 1 (n.straddles + 1)) _) _ h in
      let (_, ha, h2) = >>=-eq-ok (admit_straddle fl fork topo (isolate o)) _ h1 in
      subst (λ (r : Turn × Op). IsWeighed fl topo r.1) (ok-injective h2)
        (straddle-IsWeighed fork o e apart ha)
  place-IsWeighed fork window i n o r apart e h =
      let (v, hv, h1) = >>=-eq-ok (pick topo.lights (n.rotation % length topo.lights)) _ h in
      let (_, ha, h2) =
        >>=-eq-ok (admit_window fork topo.anchor (record o { victims = v ∷ [] })) _ h1 in
      subst (λ (r : Turn × Op). IsWeighed fl topo r.1) (ok-injective h2)
        (other-IsWeighed (record o { victims = v ∷ [] }) (λ k. cc) (λ k. cc))
  place-IsWeighed fork (unknown x) i n o r apart e h = absurd (cc)

  mark_late-IsWeighed :
      (deadline margin : ℕ) (o : Op)
      → IsWeighed fl topo o
      → IsWeighed fl topo (mark_late deadline margin o)
  unfolding mark_late
  mark_late-IsWeighed deadline margin o w = either (is_pre_fork o.class && ltb deadline o.end)
    where
      either :
          (b : Bool)
          → IsWeighed fl topo
              (if b then record o { refused = some (late o.class o.end deadline margin) } else o)
      either false = w
      either true = record {
        deep_pair = w.deep_pair;
        deep_more = w.deep_more;
        deep_less = w.deep_less;
        anchor_less = w.anchor_less;
        anchor_more = w.anchor_more;
        drops = w.drops;
      }

  pub place_all-IsWeighed :
      (fork : ℕ) (name : String) (genesis deadline margin i : ℕ) (n : Turn) (ws : List Window)
      (ops : List Op)
      → IsApart topo.lights
      → place_all fl fork topo name genesis deadline margin i n ws ≡ ok ops
      → All (IsWeighed fl topo) ops
  unfolding place_all blank
  place_all-IsWeighed fork name genesis deadline margin i n [] ops apart h =
      subst (All (IsWeighed fl topo)) (ok-injective h) tt
  place_all-IsWeighed fork name genesis deadline margin i n (w ∷ ws) ops apart h =
      let o = blank name genesis fork i w in
      let (r, hr, h1) = >>=-eq-ok (place fl fork topo w.class i n o) _ h in
      let (os, hos, h2) =
        >>=-eq-ok (place_all fl fork topo name genesis deadline margin (i + 1) r.0 ws) _ h1 in
      subst (All (IsWeighed fl topo)) (ok-injective h2) (
        mark_late-IsWeighed deadline margin r.1
            (place-IsWeighed fork w.class i n o r apart refl hr),
        place_all-IsWeighed fork name genesis deadline margin (i + 1) r.0 ws os apart hos,
      )
