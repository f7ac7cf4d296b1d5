-- ===== src/Schedule/Sweeps/Clear.antt =====
-- The sweeps and the quiet instant against the ops
-- (internal/migsched/schedule.go: failsafes, checkFailsafes).
use pbt_devnet.Prelude.{
  ℕ, ◌+◌, ◌≤◌, ◌<◌, ◌≡◌, ◌⊎◌, refl, inl, inr, Bool, true, false, Option, none, some, List, [], ◌∷◌,
  ◌++◌, arith, ltb, ok, Bool-cases, if◌then◌else◌, >>-eq-ok, All, All-append, All-map, Some,
  sort-All, sort-Some, sort-IsSorted, IsSorted, IsOrder,
}
use pbt_devnet.Schedule.{Class, deep, short, straddle, window, unknown, Op, admitted, latest}
use pbt_devnet.Schedule.Sweeps.{
  Sweep, stretch, sweep_op, sweep_ops, early_sweep, failsafes, inside, check_sweep, check_failsafes,
}

-- An op is healed by an instant: its end, or the end of its hold, has come.
abbrev pub IsHealedBy : ℕ → Op → Type 0
IsHealedBy f o = (o.hold_until ≡ none → o.end ≤ f) × ((t : ℕ) → o.hold_until ≡ some t → t ≤ f)

-- A sweep finds no partition of an op that is not refused.
abbrev pub Misses : ℕ → Op → Type 0
Misses f o = o.refused ≡ none → (f < o.start) ⊎ IsHealedBy f o

inside-Misses : (f : ℕ) (o : Op) → inside f o ≡ false → Misses f o
unfolding inside admitted latest
inside-Misses f o h runs = elim (Bool-cases (ltb f o.start)) [
  | inl early ↦ inl (ground arith)
  | inr late ↦ inr (λ e. ground arith, λ t e. ground arith)
]

check_sweep-ok : (f : ℕ) (ops : List Op) → check_sweep f ops ≡ ok tt → All (Misses f) ops
unfolding check_sweep
check_sweep-ok f [] h = tt
check_sweep-ok f (o ∷ os) h = elim (Bool-cases (inside f o)) [
  | inl e ↦ absurd (let h' = rw e at h in cc)
  | inr e ↦ (inside-Misses f o e, check_sweep-ok f os (rw e at h))
]

-- An accepted list of sweeps meets no admitted op between its start and its latest heal.
pub check_failsafes-ok :
    (ops : List Op) (fs : List ℕ)
    → check_failsafes ops fs ≡ ok tt
    → All (λ f. All (Misses f) ops) fs
unfolding check_failsafes
check_failsafes-ok ops [] h = tt
check_failsafes-ok ops (f ∷ fs) h =
    let (here, rest) = >>-eq-ok (check_sweep f ops) h in
    (check_sweep-ok f ops here, check_failsafes-ok ops fs rest)

pub ltb-IsOrder : IsOrder ltb
ltb-IsOrder = record { asym = λ a b h. ground arith; trans = λ a b c h k. ground arith }

pub failsafes-IsSorted : (ops : List Op) (deadline : ℕ) → IsSorted ltb (failsafes ops deadline).0
unfolding failsafes
failsafes-IsSorted ops deadline = sort-IsSorted ltb ltb-IsOrder _

Some-last : (x : ℕ) (xs : List ℕ) → Some (λ f. f ≡ x) (xs ++ x ∷ [])
Some-last x [] = inl refl
Some-last x (y ∷ xs) = inr (Some-last x xs)

-- The pre-fork deadline always sweeps.
pub failsafes-deadline :
    (ops : List Op) (deadline : ℕ) → Some (λ f. f ≡ deadline) (failsafes ops deadline).0
unfolding failsafes
failsafes-deadline ops deadline =
    let s = sweep_ops ops (record { out = []; last_pre = none; quiet = deadline }) in
    (sort-Some ltb (λ f. f ≡ deadline) _).1
      (Some-last deadline (s.out ++ early_sweep s.last_pre deadline))

-- What an op needs so that its sweeps and its heal come before the quiet instant.
pub record IsBounded (deadline : ℕ) (o : Op) : Type 0 where
  pub window_unheld : o.class ≡ window → latest o ≡ o.end
  pub pre_fork_healed :
      (o.class ≡ straddle → ⊥) → (o.class ≡ window → ⊥) → admitted o ≡ true → latest o ≤ deadline

abbrev Settled : Sweep → Type 0
Settled s = All (λ f. f ≤ s.quiet) s.out

stretch-bounds :
    (quiet : ℕ) (o : Op) → (quiet ≤ stretch quiet o) × (latest o + 120 ≤ stretch quiet o)
unfolding stretch
stretch-bounds quiet o = ground arith

All-raise : (xs : List ℕ) (a b : ℕ) → a ≤ b → All (λ f. f ≤ a) xs → All (λ f. f ≤ b) xs
All-raise xs a b le h = All-map (λ f. f ≤ a) (λ f. f ≤ b) (λ f k. omega arith) xs h

record Advances (deadline : ℕ) (ops : List Op) (s t : Sweep) : Type 0 where
  grows : s.quiet ≤ t.quiet
  settled : Settled t
  outlasts : All (λ o. admitted o ≡ true → latest o ≤ t.quiet) ops

-- A pre-fork op only updates `last_pre`.
pre_fork-Advances :
    (deadline : ℕ) (o : Op) (s : Sweep) (test : Bool) (last : Option ℕ)
    → (admitted o ≡ true → latest o ≤ deadline)
    → deadline ≤ s.quiet
    → Settled s
    → Advances deadline (o ∷ []) s (if test then record s { last_pre = last } else s)
pre_fork-Advances deadline o s true last k le h = record {
  grows = omega arith;
  settled = h;
  outlasts = (λ a. omega (arith, k a), tt);
}
pre_fork-Advances deadline o s false last k le h = record {
  grows = omega arith;
  settled = h;
  outlasts = (λ a. omega (arith, k a), tt);
}

sweep_op-Advances :
    (deadline : ℕ) (o : Op) (s : Sweep)
    → IsBounded deadline o
    → deadline ≤ s.quiet
    → Settled s
    → Advances deadline (o ∷ []) s (sweep_op o.class o s)
unfolding sweep_op
sweep_op-Advances deadline o s b le h = by_class o.class refl
  where
    open o use {class, end}

    raised : Settled (record s { quiet = stretch s.quiet o })
    raised = All-raise s.out s.quiet _ (stretch-bounds s.quiet o).0 h

    by_class : (c : Class) → class ≡ c → Advances deadline (o ∷ []) s (sweep_op c o s)
    by_class straddle e = record {
      grows = omega (arith, stretch-bounds s.quiet o);
      settled =
          All-append (λ f. f ≤ stretch s.quiet o) s.out _ raised
            (omega (arith, stretch-bounds s.quiet o));
      outlasts = (λ _. omega (arith, stretch-bounds s.quiet o), tt);
    }
    by_class window e = record {
      grows = omega (arith, stretch-bounds s.quiet o);
      settled =
          All-append (λ f. f ≤ stretch s.quiet o) s.out _ raised
            (omega (arith, stretch-bounds s.quiet o, b.window_unheld e));
      outlasts = (λ _. omega (arith, stretch-bounds s.quiet o), tt);
    }
    by_class deep e =
        pre_fork-Advances deadline o s _ _ (b.pre_fork_healed (λ k. cc) (λ k. cc)) le h
    by_class short e =
        pre_fork-Advances deadline o s _ _ (b.pre_fork_healed (λ k. cc) (λ k. cc)) le h
    by_class (unknown x) e =
        pre_fork-Advances deadline o s _ _ (b.pre_fork_healed (λ k. cc) (λ k. cc)) le h

sweep_ops-Advances :
    (deadline : ℕ) (ops : List Op) (s : Sweep)
    → All (IsBounded deadline) ops
    → deadline ≤ s.quiet
    → Settled s
    → Advances deadline ops s (sweep_ops ops s)
unfolding sweep_ops
sweep_ops-Advances deadline [] s b le h = record { grows = omega arith; settled = h; outlasts = tt }
sweep_ops-Advances deadline (o ∷ os) s b le h =
    let s' = sweep_op o.class o s in
    let first = sweep_op-Advances deadline o s b.0 le h in
    let rest = sweep_ops-Advances deadline os s' b.1 (omega (arith, first.grows)) first.settled in
    record {
      grows = omega (arith, first.grows, rest.grows);
      settled = rest.settled;
      outlasts = (λ a. omega (arith, first.outlasts.0 a, rest.grows), rest.outlasts);
    }

early_sweep-le :
    (last : Option ℕ) (deadline quiet : ℕ)
    → deadline ≤ quiet
    → All (λ f. f ≤ quiet) (early_sweep last deadline)
unfolding early_sweep
early_sweep-le none deadline quiet le = tt
early_sweep-le (some last) deadline quiet le = elim (Bool-cases (ltb last deadline)) [
  | inl e ↦ rw e (ground arith, tt)
  | inr e ↦ rw e tt
]

-- Every sweep, and the heal of every admitted op, comes by the quiet instant.
pub failsafes-quiet :
    (ops : List Op) (deadline : ℕ)
    → All (IsBounded deadline) ops
    → let (sweeps, quiet) = failsafes ops deadline in
      (deadline ≤ quiet)
      × All (λ f. f ≤ quiet) sweeps
      × All (λ o. admitted o ≡ true → latest o ≤ quiet) ops
unfolding failsafes
failsafes-quiet ops deadline b =
    let s = sweep_ops ops (record { out = []; last_pre = none; quiet = deadline }) in
    let a = sweep_ops-Advances deadline ops _ b (omega arith) tt in
    let early = early_sweep-le s.last_pre deadline s.quiet a.grows in
    (
      a.grows,
      sort-All ltb (λ f. f ≤ s.quiet) _
          (All-append (λ f. f ≤ s.quiet) (s.out ++ early_sweep s.last_pre deadline) (deadline ∷ [])
            (All-append (λ f. f ≤ s.quiet) s.out _ a.settled early) (a.grows, tt)),
      a.outlasts,
    )
