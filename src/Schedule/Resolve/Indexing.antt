-- ===== src/Schedule/Resolve/Indexing.antt =====
-- The indices of the rotation over the lights (internal/migsched/schedule.go: Resolve).
use pbt_devnet.Prelude.{
  ℕ, ◌+◌, ◌%◌, ◌<◌, ◌≡◌, refl, ◌≢◌, String, Bool, true, false, Option, none, some, List, [], ◌∷◌,
  arith, ltb, length, get_elem?-total, Result, ok, err, refuse_if, ◌>>◌, ◌>>=◌,
}
use pbt_devnet.Schedule.{
  Class, deep, short, straddle, window, unknown, Op, Window, Profile, Error, profile_of,
  unknown_profile, index_out_of_range,
}
use pbt_devnet.Schedule.Topology.{Float64, Topology}
use pbt_devnet.Schedule.Admission.{admit_deep, admit_straddle, admit_window}
use pbt_devnet.Schedule.Sweeps.{check_failsafes, check_sweep, inside}
use pbt_devnet.Schedule.Resolve.{
  Turn, pick, place, place_all, blank, check_topology, resolve_profile, resolve,
}

abbrev InRange : {A : Type 0} → Result Error A → Type 0
InRange r = r ≢ err index_out_of_range

bind-InRange :
    {A B : Type 0} (m : Result Error A) (f : A → Result Error B)
    → InRange m
    → ((a : A) → InRange (f a))
    → InRange (m >>= f)
bind-InRange (ok a) f hm hf = hf a
bind-InRange (err e) f hm hf = λ h. hm (cc)

refuse_if-InRange : (b : Bool) (e : Error) → e ≢ index_out_of_range → InRange (refuse_if b e)
refuse_if-InRange true e h = λ k. h (cc)
refuse_if-InRange false e h = λ k. cc

pick-InRange : (lights : List ℕ) (i : ℕ) → i < length lights → InRange (pick lights i)
unfolding pick
pick-InRange lights i h = let (v, e) = get_elem?-total lights i h in rw (e, pick) (λ k. cc)

check_sweep-InRange : (f : ℕ) (ops : List Op) → InRange (check_sweep f ops)
unfolding check_sweep
check_sweep-InRange f [] = λ k. cc
check_sweep-InRange f (o ∷ os) =
    bind-InRange (refuse_if (inside f o) _) _ (refuse_if-InRange _ _ (λ k. cc))
      (λ _. check_sweep-InRange f os)

check_failsafes-InRange : (ops : List Op) (fs : List ℕ) → InRange (check_failsafes ops fs)
unfolding check_failsafes
check_failsafes-InRange ops [] = λ k. cc
check_failsafes-InRange ops (f ∷ fs) =
    bind-InRange (check_sweep f ops) _ (check_sweep-InRange f ops)
      (λ _. check_failsafes-InRange ops fs)

admit_window-InRange : (fork anchor : ℕ) (o : Op) → InRange (admit_window fork anchor o)
unfolding admit_window
admit_window-InRange fork anchor o = λ k. ground arith

mod-in_range : (i n : ℕ) → n ≢ 0 → i % n < n
mod-in_range i n h = grind arith

module _ (fl : Float64) (fork : ℕ) (topo : Topology fl.F) where
  open topo use {anchor, lights}

  admit_deep-InRange : (o : Op) → InRange (admit_deep fl topo o)
  unfolding admit_deep
  admit_deep-InRange o = refuse_if-InRange _ _ (λ k. cc)

  admit_straddle-InRange : (o : Op) → InRange (admit_straddle fl fork topo o)
  unfolding admit_straddle
  admit_straddle-InRange o = λ k. ground arith

  module _ (lit : length lights ≢ 0) where
    place-InRange : (c : Class) (i : ℕ) (n : Turn) (o : Op) → InRange (place fl fork topo c i n o)
    unfolding place
    place-InRange deep i n o =
        bind-InRange (refuse_if (ltb (length lights) 2) _) _ (refuse_if-InRange _ _ (λ k. cc)) λ _.
          bind-InRange (pick lights (n.pairs % length lights)) _
            (pick-InRange lights _ (mod-in_range _ _ lit))
            λ a.
              bind-InRange (pick lights ((n.pairs + 1) % length lights)) _
                (pick-InRange lights _ (mod-in_range _ _ lit))
                λ b.
                  bind-InRange (admit_deep fl topo (record o { victims = a ∷ b ∷ [] })) _
                    (admit_deep-InRange _) λ _ k. cc
    place-InRange short i n o =
        bind-InRange (pick lights (n.rotation % length lights)) _
          (pick-InRange lights _ (mod-in_range _ _ lit)) λ v k. cc
    place-InRange straddle i n o =
        bind-InRange (refuse_if (ltb 1 (n.straddles + 1)) _) _ (refuse_if-InRange _ _ (λ k. cc))
          λ _. bind-InRange (admit_straddle fl fork topo _) _ (admit_straddle-InRange _) λ _ k. cc
    place-InRange window i n o =
        bind-InRange (pick lights (n.rotation % length lights)) _
          (pick-InRange lights _ (mod-in_range _ _ lit))
          λ v.
            bind-InRange (admit_window fork anchor (record o { victims = v ∷ [] })) _
              (admit_window-InRange fork anchor _) λ _ k. cc
    place-InRange (unknown x) i n o = λ k. cc

    place_all-InRange :
        (name : String) (genesis deadline margin i : ℕ) (n : Turn) (ws : List Window)
        → InRange (place_all fl fork topo name genesis deadline margin i n ws)
    unfolding place_all
    place_all-InRange name genesis deadline margin i n [] = λ k. cc
    place_all-InRange name genesis deadline margin i n (w ∷ ws) =
        bind-InRange (place fl fork topo w.class i n (blank name genesis fork i w)) _
          (place-InRange w.class i n _)
          λ r.
            bind-InRange (place_all fl fork topo name genesis deadline margin (i + 1) r.0 ws) _
              (place_all-InRange name genesis deadline margin (i + 1) r.0 ws) λ _ k. cc

    resolve_profile-InRange :
        (name : String) (genesis : ℕ) (p : Profile)
        → InRange (resolve_profile fl fork topo name genesis p)
    unfolding resolve_profile
    resolve_profile-InRange name genesis p =
        bind-InRange (place_all fl fork topo name genesis _ _ 0 _ p.windows) _
          (place_all-InRange name genesis _ _ 0 _ p.windows)
          λ ops. bind-InRange (check_failsafes ops _) _ (check_failsafes-InRange ops _) λ _ k. cc

  check_topology-lit : check_topology fl fork topo ≡ ok tt → length lights ≢ 0
  unfolding check_topology
  check_topology-lit h = ground arith

  check_topology-InRange : InRange (check_topology fl fork topo)
  unfolding check_topology
  check_topology-InRange = λ k. ground arith

  -- No index into the lights is out of range while a profile is resolved.
  pub resolve-InRange :
      (name : String) (genesis : ℕ) → resolve fl fork topo name genesis ≢ err index_out_of_range
  unfolding resolve
  resolve-InRange name genesis = by_profile (profile_of name)
    where
      guarded :
          (p : Profile) (t : Result Error (Unit {0}))
          → check_topology fl fork topo ≡ t
          → InRange (t >> resolve_profile fl fork topo name genesis p)
      guarded p (ok tt) e = resolve_profile-InRange (check_topology-lit e) name genesis p
      guarded p (err x) e = λ k. check_topology-InRange (cc)

      by_profile :
          (q : Option Profile)
          → InRange (elim q [
            | none ↦ err (unknown_profile name)
            | some p ↦ check_topology fl fork topo >> resolve_profile fl fork topo name genesis p
          ])
      by_profile none = λ k. cc
      by_profile (some p) = guarded p (check_topology fl fork topo) refl
