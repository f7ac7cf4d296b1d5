-- ===== src/Dump/Deadline.antt =====
-- The deadline of a pre-fork heal (internal/migsched/dump.go: HealDeadline).
use pbt_devnet.Prelude.{
  ℕ, ◌+◌, ◌≤◌, ◌<◌, ◌≡◌, ◌≢◌, refl, sym, subst, ◌⊎◌, inl, inr, false, ◌&&◌, ◌||◌, List, [], ◌∷◌,
  arith, ltb, leb, ◌==◌, IsSorted, All, All-map, Some, Bool-cases, if◌then◌else◌,
}
use pbt_devnet.Schedule.{Class, deep, short, straddle, window, unknown}
use pbt_devnet.Dump.{Dump, DumpOp, latest, last_sweep, heal_deadline, is_post_fork}

-- `r` is the last of `sweeps` at or before the fork, or the fork where there is none.
pub record IsLastSweep (fork : ℕ) (sweeps : List ℕ) (r : ℕ) : Type 0 where
  pub by_fork : r ≤ fork
  pub last : All (λ f. f ≤ fork → f ≤ r) sweeps
  pub found : Some (λ f. f ≡ r) sweeps ⊎ ((r ≡ fork) × All (λ f. fork < f) sweeps)

-- Once a sweep `d` was found, the later ones only move it up.
record Moves (fork d : ℕ) (sweeps : List ℕ) (r : ℕ) : Type 0 where
  up : d ≤ r
  by_fork : r ≤ fork
  last : All (λ f. f ≤ fork → f ≤ r) sweeps
  from_sweeps : (r ≡ d) ⊎ Some (λ f. f ≡ r) sweeps

abbrev next : (fork d f : ℕ) → ℕ
next fork d f = if leb f fork && ltb d f || d == fork && leb f fork then f else d

next_early : (fork d f : ℕ) → d ≤ f → f ≤ fork → next fork d f ≡ f
next_early fork d f h k = ground arith

next_late : (fork d f : ℕ) → fork < f → next fork d f ≡ d
next_late fork d f h = ground arith

last_sweep-Moves :
    (fork d : ℕ) (fs : List ℕ)
    → d ≤ fork
    → All (λ f. ltb f d ≡ false) fs
    → IsSorted ltb fs
    → Moves fork d fs (last_sweep fork d fs)
unfolding last_sweep
last_sweep-Moves fork d [] le lo s = record {
  up = omega arith;
  by_fork = le;
  last = tt;
  from_sweeps = inl refl;
}
last_sweep-Moves fork d (f ∷ fs) le lo s = elim (Bool-cases (leb f fork)) [
  | inl e ↦
      let k = next_early fork d f (ground arith) (ground arith) in
      let m = last_sweep-Moves fork f fs (ground arith) s.0 s.1 in
      subst (λ x. Moves fork d (f ∷ fs) (last_sweep fork x fs)) (sym k)
        (record {
          up = let low : d ≤ f = ground arith in omega (arith, m.up);
          by_fork = m.by_fork;
          last = (λ _. m.up, m.last);
          from_sweeps = elim m.from_sweeps [ inl a ↦ inr (inl (sym a)) | inr b ↦ inr (inr b) ];
        })
  | inr e ↦
      let k = next_late fork d f (ground arith) in
      let m = last_sweep-Moves fork d fs le lo.1 s.1 in
      subst (λ x. Moves fork d (f ∷ fs) (last_sweep fork x fs)) (sym k)
        (record {
          up = m.up;
          by_fork = m.by_fork;
          last = (λ h. ground arith, m.last);
          from_sweeps = elim m.from_sweeps [ inl a ↦ inl a | inr b ↦ inr (inr b) ];
        })
]

none_before : (fork : ℕ) (fs : List ℕ) → All (λ f. fork < f) fs → last_sweep fork fork fs ≡ fork
unfolding last_sweep
none_before fork [] h = refl
none_before fork (f ∷ fs) h = ground (arith, none_before fork fs h.1)

last_sweep-IsLastSweep :
    (fork : ℕ) (fs : List ℕ) → IsSorted ltb fs → IsLastSweep fork fs (last_sweep fork fork fs)
unfolding last_sweep
last_sweep-IsLastSweep fork [] s = record {
  by_fork = omega arith;
  last = tt;
  found = inr (refl, tt);
}
last_sweep-IsLastSweep fork (f ∷ fs) s = elim (Bool-cases (leb f fork)) [
  | inl e ↦
      let k : next fork fork f ≡ f = ground arith in
      let m = last_sweep-Moves fork f fs (ground arith) s.0 s.1 in
      subst (λ x. IsLastSweep fork (f ∷ fs) (last_sweep fork x fs)) (sym k)
        (record {
          by_fork = m.by_fork;
          last = (λ _. m.up, m.last);
          found = elim m.from_sweeps [ inl a ↦ inl (inl (sym a)) | inr b ↦ inl (inr b) ];
        })
  | inr e ↦
      let late : All (λ g. fork < g) (f ∷ fs) = (
        ground arith,
        All-map (λ g. ltb g f ≡ false) (λ g. fork < g) (λ g h. ground arith) fs s.0,
      ) in
      let r = none_before fork (f ∷ fs) late in
      subst (IsLastSweep fork (f ∷ fs)) (sym r) (record {
        by_fork = omega arith;
        last = All-map (λ g. fork < g) (λ g. g ≤ fork → g ≤ fork) (λ g _ h. h) (f ∷ fs) late;
        found = inr (refl, late);
      })
]

-- The deadline of an op that is neither a straddle nor a window: the last sweep at or before the
-- fork, for a dump with ascending sweeps; the fork itself where no sweep comes by then.
pub heal_deadline-IsLastSweep :
    (d : Dump) (o : DumpOp)
    → o.class ≢ straddle
    → o.class ≢ window
    → IsSorted ltb d.failsafes
    → IsLastSweep d.fork d.failsafes (heal_deadline d o)
unfolding heal_deadline
heal_deadline-IsLastSweep d o s w h = by_class o.class refl
  where
    by_class :
        (c : Class)
        → o.class ≡ c
        → IsLastSweep d.fork d.failsafes
            (if is_post_fork c then latest o + 120 else last_sweep d.fork d.fork d.failsafes)
    by_class straddle e = absurd (s e)
    by_class window e = absurd (w e)
    by_class deep e = last_sweep-IsLastSweep d.fork d.failsafes h
    by_class short e = last_sweep-IsLastSweep d.fork d.failsafes h
    by_class (unknown x) e = last_sweep-IsLastSweep d.fork d.failsafes h
