-- ===== src/Schedule/Resolve/Placement.antt =====
-- What the loop of `Resolve` gives for each window of a profile (internal/migsched/schedule.go:
-- Resolve).
use pbt_devnet.Prelude.{
  ℕ, zero, suc, ◌+◌, ◌%◌, ◌≡◌, refl, ◌≢◌, subst, inl, inr, String, true, none, some, List, [], ◌∷◌,
  arith, ltb, length, get_elem?, ok, refuse_if, >>=-eq-ok, ok-injective, All, All-map, Some,
}
use pbt_devnet.Schedule.{Class, deep, short, straddle, window, unknown, Op}
use pbt_devnet.Schedule.Topology.{Float64, Topology}
use pbt_devnet.Schedule.Admission.{admit_deep, admit_straddle, admit_window}
use pbt_devnet.Schedule.Admission.Bounds.{
  IsWindow, IsStraddle, admit_window-IsWindow, admit_straddle-IsStraddle,
}
use pbt_devnet.Schedule.Resolve.{Turn, pick, place}

abbrev pub IsLight : List ℕ → ℕ → Type 0
IsLight lights v = Some (λ l. l ≡ v) lights

get_elem?-IsLight : (lights : List ℕ) (i v : ℕ) → get_elem? lights i ≡ some v → IsLight lights v
get_elem?-IsLight [] i v h = cc
get_elem?-IsLight (l ∷ ls) zero v h = inl (cc)
get_elem?-IsLight (l ∷ ls) (suc i) v h = inr (get_elem?-IsLight ls i v h)

pub pick-IsLight : (lights : List ℕ) (i : ℕ) {v : ℕ} → pick lights i ≡ ok v → IsLight lights v
unfolding pick
pick-IsLight lights i {v} h = get_elem?-IsLight lights i v (ground arith)

All-lights : (lights : List ℕ) → All (IsLight lights) lights
All-lights [] = tt
All-lights (l ∷ ls) =
    (inl refl, All-map (IsLight ls) (IsLight (l ∷ ls)) (λ v k. inr k) ls (All-lights ls))

module _ (fork : ℕ) (lights : List ℕ) (anchor : ℕ) where
  -- What the switch of the loop's body makes of a blank op.
  pub record IsPlaced (o : Op) : Type 0 where
    pub victims_lights : All (IsLight lights) o.victims
    pub known : (x : String) → o.class ≢ unknown x
    pub some_victim : o.victims ≢ []
    pub held_straddle : o.class ≡ straddle → o.hold_until ≡ some (o.end + 120)
    pub unheld : o.class ≢ straddle → o.hold_until ≡ none
    pub straddle_bounds : o.class ≡ straddle → IsStraddle fork o
    pub straddle_all : o.class ≡ straddle → o.victims ≡ lights
    pub window_bounds : o.class ≡ window → IsWindow fork anchor o

module _ (fl : Float64) (fork : ℕ) (topo : Topology fl.F) where
  open topo use {anchor, lights}

  abbrev pub Placed : Op → Op → Type 0
  Placed o o' =
      IsPlaced fork lights anchor o'
      × (o'.class ≡ o.class)
      × (o'.refused ≡ o.refused)
      × (o'.name ≡ o.name)
      × (o'.start ≡ o.start)
      × (o'.end ≡ o.end)

  place_deep :
      (i : ℕ) (n : Turn) (o : Op) (r : Turn × Op)
      → o.class ≡ deep
      → o.hold_until ≡ none
      → place fl fork topo deep i n o ≡ ok r
      → Placed o r.1
  unfolding place
  place_deep i n o r e u h =
      let (_, _, h1) = >>=-eq-ok (refuse_if (ltb (length lights) 2) _) _ h in
      let (a, ha, h2) = >>=-eq-ok (pick lights (n.pairs % length lights)) _ h1 in
      let (b, hb, h3) = >>=-eq-ok (pick lights ((n.pairs + 1) % length lights)) _ h2 in
      let (_, _, h4) = >>=-eq-ok (admit_deep fl topo (record o { victims = a ∷ b ∷ [] })) _ h3 in
      subst (λ (r : Turn × Op). Placed o r.1) (ok-injective h4)
        (
          record {
            victims_lights = (pick-IsLight lights _ ha, (pick-IsLight lights _ hb, tt));
            known = λ x k. cc;
            some_victim = λ k. cc;
            held_straddle = λ k. cc;
            unheld = λ k. u;
            straddle_bounds = λ k. absurd (cc);
            straddle_all = λ k. cc;
            window_bounds = λ k. absurd (cc);
          },
          refl,
          refl,
          refl,
          refl,
          refl,
        )

  place_short :
      (i : ℕ) (n : Turn) (o : Op) (r : Turn × Op)
      → o.class ≡ short
      → o.hold_until ≡ none
      → place fl fork topo short i n o ≡ ok r
      → Placed o r.1
  unfolding place
  place_short i n o r e u h =
      let (v, hv, h1) = >>=-eq-ok (pick lights (n.rotation % length lights)) _ h in
      subst (λ (r : Turn × Op). Placed o r.1) (ok-injective h1)
        (
          record {
            victims_lights = (pick-IsLight lights _ hv, tt);
            known = λ x k. cc;
            some_victim = λ k. cc;
            held_straddle = λ k. cc;
            unheld = λ k. u;
            straddle_bounds = λ k. absurd (cc);
            straddle_all = λ k. cc;
            window_bounds = λ k. absurd (cc);
          },
          refl,
          refl,
          refl,
          refl,
          refl,
        )

  place_window :
      (i : ℕ) (n : Turn) (o : Op) (r : Turn × Op)
      → o.class ≡ window
      → o.hold_until ≡ none
      → place fl fork topo window i n o ≡ ok r
      → Placed o r.1
  unfolding place
  place_window i n o r e u h =
      let (v, hv, h1) = >>=-eq-ok (pick lights (n.rotation % length lights)) _ h in
      let (_, ha, h2) = >>=-eq-ok (admit_window fork anchor (record o { victims = v ∷ [] })) _ h1 in
      subst (λ (r : Turn × Op). Placed o r.1) (ok-injective h2)
        (
          record {
            victims_lights = (pick-IsLight lights _ hv, tt);
            known = λ x k. cc;
            some_victim = λ k. cc;
            held_straddle = λ k. cc;
            unheld = λ k. u;
            straddle_bounds = λ k. absurd (cc);
            straddle_all = λ k. cc;
            window_bounds =
                λ k. admit_window-IsWindow fork anchor (record o { victims = v ∷ [] }) ha;
          },
          refl,
          refl,
          refl,
          refl,
          refl,
        )

  place_straddle :
      (i : ℕ) (n : Turn) (o : Op) (r : Turn × Op)
      → o.class ≡ straddle
      → place fl fork topo straddle i n o ≡ ok r
      → Placed o r.1
  unfolding place
  place_straddle i n o r e h =
      let held : Op = record o {
        victims = lights;
        mutual_islands = true;
        hold_until = some (o.end + 120);
      } in
      let (_, _, h1) = >>=-eq-ok (refuse_if (ltb 1 (n.straddles + 1)) _) _ h in
      let (_, ha, h2) = >>=-eq-ok (admit_straddle fl fork topo held) _ h1 in
      let bounds = admit_straddle-IsStraddle fl fork topo held ha in
      subst (λ (r : Turn × Op). Placed o r.1) (ok-injective h2)
        (
          record {
            victims_lights = All-lights lights;
            known = λ x k. cc;
            some_victim = bounds.some_island;
            held_straddle = λ k. refl;
            unheld = λ k. absurd (k e);
            straddle_bounds = λ k. bounds;
            straddle_all = λ k. refl;
            window_bounds = λ k. absurd (cc);
          },
          refl,
          refl,
          refl,
          refl,
          refl,
        )

  pub place-Placed :
      (c : Class) (i : ℕ) (n : Turn) (o : Op) (r : Turn × Op)
      → o.class ≡ c
      → o.hold_until ≡ none
      → place fl fork topo c i n o ≡ ok r
      → Placed o r.1
  unfolding place
  place-Placed deep i n o r e u h = place_deep i n o r e u h
  place-Placed short i n o r e u h = place_short i n o r e u h
  place-Placed straddle i n o r e u h = place_straddle i n o r e h
  place-Placed window i n o r e u h = place_window i n o r e u h
  place-Placed (unknown x) i n o r e u h = absurd (cc)
