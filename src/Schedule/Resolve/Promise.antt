-- ===== src/Schedule/Resolve/Promise.antt =====
-- What a resolved schedule promises (internal/migsched/schedule.go: Resolve).
use pbt_devnet.Prelude.{
  ℕ, ◌-◌, ◌≤◌, ◌≡◌, refl, ◌≢◌, subst, String, true, false, Option, none, some, arith, ◌==◌, ok, err,
  ◌>>◌, >>=-eq-ok, ok-injective, All, All-map, All-Some, some_of-All,
}
use pbt_devnet.Schedule.{Op, Profile, Schedule, admitted, latest, profile_of, unknown_profile}
use pbt_devnet.Schedule.Topology.{Float64, Topology}
use pbt_devnet.Schedule.Sweeps.{failsafes, check_failsafes}
use pbt_devnet.Schedule.Sweeps.Clear.{Misses, IsBounded, failsafes-quiet, check_failsafes-ok}
use pbt_devnet.Schedule.Resolve.{place_all, check_topology, resolve_profile, resolve}
use pbt_devnet.Schedule.Resolve.Placement.{IsLight}
use pbt_devnet.Schedule.Resolve.Stakes.{IsWeighed}
use pbt_devnet.Schedule.Resolve.Weighed.{place_all-IsWeighed}
use pbt_devnet.Schedule.Resolve.Lateness.{IsResolved, place_all-IsResolved}

module _ (fl : Float64) (fork : ℕ) (topo : Topology fl.F) where
  open topo use {anchor, lights}

  -- The parts of a successful resolution.
  pub record IsResolution (name : String) (genesis : ℕ) (p : Profile) (s : Schedule) : Type 0 where
    pub placed :
        place_all fl fork topo name genesis
          (fork - p.pre_fork_margin)
          p.pre_fork_margin
          0
          (record { rotation = 0; pairs = 0; straddles = 0 })
          p.windows
        ≡ ok s.ops
    pub swept : check_failsafes s.ops s.failsafes ≡ ok tt
    pub sweeps : s.failsafes ≡ (failsafes s.ops (fork - p.pre_fork_margin)).0
    pub quiet : s.quiet ≡ (failsafes s.ops (fork - p.pre_fork_margin)).1
    pub slots : s.slot_seconds ≡ topo.seconds_per_slot
    pub titled : s.profile ≡ name

  resolve_profile-IsResolution :
      (name : String) (genesis : ℕ) (p : Profile) (s : Schedule)
      → resolve_profile fl fork topo name genesis p ≡ ok s
      → IsResolution name genesis p s
  unfolding resolve_profile
  resolve_profile-IsResolution name genesis p s h =
      let deadline = fork - p.pre_fork_margin in
      let (ops, h0, h1) =
        >>=-eq-ok
          (place_all fl fork topo name genesis deadline p.pre_fork_margin 0
            (record { rotation = 0; pairs = 0; straddles = 0 }) p.windows)
          _ h in
      let (u, h2, h3) = >>=-eq-ok (check_failsafes ops (failsafes ops deadline).0) _ h1 in
      subst (IsResolution name genesis p) (ok-injective h3) (record {
        placed = h0;
        swept = h2;
        sweeps = refl;
        quiet = refl;
        slots = refl;
        titled = refl;
      })

  pub resolve-inversion :
      (name : String) (genesis : ℕ) (s : Schedule)
      → resolve fl fork topo name genesis ≡ ok s
      → (p : Profile) × (profile_of name ≡ some p)
        × (check_topology fl fork topo ≡ ok tt)
        × IsResolution name genesis p s
  unfolding resolve
  resolve-inversion name genesis s h = by_profile (profile_of name) refl h
    where
      by_profile :
          (q : Option Profile)
          → profile_of name ≡ q
          → elim q [
            | none ↦ err (unknown_profile name)
            | some p ↦ check_topology fl fork topo >> resolve_profile fl fork topo name genesis p
          ]
            ≡ ok s
          → (p : Profile) × (profile_of name ≡ some p)
            × (check_topology fl fork topo ≡ ok tt)
            × IsResolution name genesis p s
      by_profile none e k = absurd (cc)
      by_profile (some p) e k =
          let (u, k1, k2) = >>=-eq-ok (check_topology fl fork topo) _ k in
          (p, e, k1, resolve_profile-IsResolution name genesis p s k2)

  resolution-IsResolved :
      (name : String) (genesis : ℕ) (p : Profile) (s : Schedule)
      → IsResolution name genesis p s
      → All (IsResolved fork lights anchor (fork - p.pre_fork_margin)) s.ops
  resolution-IsResolved name genesis p s r =
      place_all-IsResolved fl fork topo name genesis (fork - p.pre_fork_margin) p.pre_fork_margin 0
        _ p.windows s.ops r.placed

  -- Both profiles have a margin of 390 s.
  profile_of-margin :
      (name : String) (p : Profile) → profile_of name ≡ some p → p.pre_fork_margin ≡ 390
  unfolding profile_of
  profile_of-margin name p h = ground arith

  check_topology-anchor :
      check_topology fl fork topo ≡ ok tt → All (λ l. (l == anchor) ≡ false) lights
  unfolding check_topology
  check_topology-anchor h = (some_of-All (λ l. l == anchor) lights).0 (ground arith)

  pub resolve-IsResolved :
      (name : String) (genesis : ℕ) (s : Schedule)
      → resolve fl fork topo name genesis ≡ ok s
      → All (IsResolved fork lights anchor (fork - 390)) s.ops × All (IsWeighed fl topo) s.ops
  resolve-IsResolved name genesis s h =
      let (p, e, top, r) = resolve-inversion name genesis s h in
      (
        subst (λ k. All (IsResolved fork lights anchor (fork - k)) s.ops)
            (profile_of-margin name p e) (resolution-IsResolved name genesis p s r),
        place_all-IsWeighed fl topo fork name genesis (fork - p.pre_fork_margin) p.pre_fork_margin 0
            _ p.windows s.ops (check_topology-anchor top) r.placed,
      )

  -- The anchor is never a victim, and every victim is a light.
  pub resolve-victims :
      (name : String) (genesis : ℕ) (s : Schedule)
      → resolve fl fork topo name genesis ≡ ok s
      → All (λ o. All (λ v. (v ≢ anchor) × IsLight lights v) o.victims) s.ops
  resolve-victims name genesis s h =
      let (p, e, top, r) = resolve-inversion name genesis s h in
      let apart = check_topology-anchor top in
      All-map (IsResolved fork lights anchor (fork - p.pre_fork_margin))
        (λ o. All (λ v. (v ≢ anchor) × IsLight lights v) o.victims)
        (λ o k.
          All-map (IsLight lights) (λ v. (v ≢ anchor) × IsLight lights v)
            (λ v m. (
              let (l, f, e) = All-Some (λ l. (l == anchor) ≡ false) (λ l. l ≡ v) lights apart m in
                  ground arith,
              m,
            ))
            o.victims k.placed.victims_lights)
        s.ops (resolution-IsResolved name genesis p s r)

  -- Every sweep of a resolved schedule comes before an op that is not refused starts, or when it is
  -- healed: at its end, or for an op that is held, at the end of its hold.
  pub resolve-sweeps :
      (name : String) (genesis : ℕ) (s : Schedule)
      → resolve fl fork topo name genesis ≡ ok s
      → All (λ f. All (Misses f) s.ops) s.failsafes
  resolve-sweeps name genesis s h =
      let (p, e, _, r) = resolve-inversion name genesis s h in
      check_failsafes-ok s.ops s.failsafes r.swept

  resolved-IsBounded :
      (deadline : ℕ) (o : Op) → IsResolved fork lights anchor deadline o → IsBounded deadline o
  unfolding latest
  resolved-IsBounded deadline o r = record {
    window_unheld = λ w. let u = r.placed.unheld (λ k. cc) in ground arith;
    pre_fork_healed =
        λ s w a. let u = r.placed.unheld s in let e = r.pre_fork s w a in ground arith;
  }

  -- The driver's last act: sweeps and heals of admitted ops all come by the quiet instant.
  pub resolve-quiet :
      (name : String) (genesis : ℕ) (s : Schedule)
      → resolve fl fork topo name genesis ≡ ok s
      → All (λ f. f ≤ s.quiet) s.failsafes × All (λ o. admitted o ≡ true → latest o ≤ s.quiet) s.ops
  resolve-quiet name genesis s h =
      let (p, e, _, r) = resolve-inversion name genesis s h in
      let deadline = fork - p.pre_fork_margin in
      let (_, fs, os) = failsafes-quiet s.ops deadline (
        All-map (IsResolved fork lights anchor deadline) (IsBounded deadline)
          (resolved-IsBounded deadline) s.ops (resolution-IsResolved name genesis p s r)) in
      rw (r.sweeps, r.quiet) (fs, os)
