-- ===== src/Migmon/Nulls/Streak.antt =====
-- What a missing-root finding means, over the samples seen so far, newest first
-- (internal/migmon/sampler.go: NullTracker.Observe).
use pbt_devnet.Prelude.{
  ℕ, ◌+◌, ◌≤◌, ◌<◌, ◌≡◌, refl, sym, subst, ◌⊎◌, inl, inr, String, Bool, true, false, List, [], ◌∷◌,
  ◌++◌, arith, Some, length, length-append,
}
use pbt_devnet.Migmon.{Event, Kind, critical, warn, Finding, null_critical, null_warn}
use pbt_devnet.Migmon.Nulls.{NullTracker, new_tracker, activate, escalate, observe}

-- The time of a sample, whether the node was active, and whether its root was missing.
abbrev pub Sample : Type 0
Sample = ℕ × Bool × Bool

unfoldable pub after : (node : String) → List Sample → NullTracker
unfolding new_tracker observe
after node [] = new_tracker node
after node ((now, active, null) ∷ hist) = (observe now active null (after node hist)).0

-- The node has been active since t, and every sample after the one at t missed its root.
abbrev pub NullSince : ℕ → List Sample → Type 0
NullSince t [] = ⊥
NullSince t ((now, active, null) ∷ hist) =
    (active ≡ true) × ((now ≡ t) ⊎ (null ≡ true) × NullSince t hist)

abbrev Tracks : List Sample → NullTracker → Type 0
Tracks hist n = n.active ≡ true → NullSince n.last_non_null hist

escalate-keeps :
    (now : ℕ) (n : NullTracker)
    → ((escalate now n).0.active ≡ n.active) × ((escalate now n).0.last_non_null ≡ n.last_non_null)
unfolding escalate
escalate-keeps now n = ground arith

activate-last :
    (now : ℕ) (n : NullTracker)
    → (n.active ≡ true) × ((activate now n).last_non_null ≡ n.last_non_null)
      ⊎ ((activate now n).last_non_null ≡ now)
unfolding activate
activate-last now n = ground arith

-- A missing root extends the streak, or starts one at the first active sample.
activate-NullSince :
    (now : ℕ) (n : NullTracker) (hist : List Sample)
    → Tracks hist n
    → NullSince (activate now n).last_non_null ((now, true, true) ∷ hist)
activate-NullSince now n hist t = elim (activate-last now n) [
  | inl (live, e) ↦ (refl, inr (refl, subst (λ x. NullSince x hist) (sym e) (t live)))
  | inr e ↦ (refl, inl (sym e))
]

observe-Tracks :
    (now : ℕ) (active null : Bool) (n : NullTracker) (hist : List Sample)
    → Tracks hist n
    → Tracks ((now, active, null) ∷ hist) (observe now active null n).0
unfolding observe
observe-Tracks now false null n hist t = λ h. absurd (cc)
observe-Tracks now true false n hist t = λ h. (refl, inl refl)
observe-Tracks now true true n hist t = λ h.
    let (_, last) = escalate-keeps now (activate now n) in
    subst (λ x. NullSince x ((now, true, true) ∷ hist)) (sym last) (activate-NullSince now n hist t)

after-Tracks : (node : String) (hist : List Sample) → Tracks hist (after node hist)
unfolding after
after-Tracks node [] = λ h. absurd (cc)
after-Tracks node ((now, active, null) ∷ hist) =
    observe-Tracks now active null (after node hist) hist (after-Tracks node hist)

-- A finding of a kind, at a sample.
abbrev pub Says : Kind → Finding → Event → Type 0
Says k f e = (e.kind ≡ k) × (e.finding ≡ f)

escalate-Says :
    (now : ℕ) (n : NullTracker)
    → (Some (Says critical null_critical) (escalate now n).1 → n.last_non_null + 600 < now)
      × (Some (Says warn null_warn) (escalate now n).1 → n.last_non_null + 300 < now)
unfolding escalate
escalate-Says now n = (λ h. ground arith, λ h. ground arith)

-- A null-critical finding means that the node has been active with its root missing at every
-- sample after some instant, which lies more than ten minutes back.
pub null_critical_finding :
    (node : String) (now : ℕ) (active null : Bool) (hist : List Sample)
    → Some (Says critical null_critical) (observe now active null (after node hist)).1
    → (t : ℕ) × NullSince t ((now, active, null) ∷ hist) × (null ≡ true) × (t + 600 < now)
unfolding observe
null_critical_finding node now false null hist h = absurd h
null_critical_finding node now true false hist h = absurd h
null_critical_finding node now true true hist h =
    let n = activate now (after node hist) in
    let streak = activate-NullSince now (after node hist) hist (after-Tracks node hist) in
    (n.last_non_null, streak, refl, (escalate-Says now n).0 h)

-- A null-warn finding means the same of more than five minutes.
pub null_warn_finding :
    (node : String) (now : ℕ) (active null : Bool) (hist : List Sample)
    → Some (Says warn null_warn) (observe now active null (after node hist)).1
    → (t : ℕ) × NullSince t ((now, active, null) ∷ hist) × (null ≡ true) × (t + 300 < now)
unfolding observe
null_warn_finding node now false null hist h = absurd h
null_warn_finding node now true false hist h = absurd h
null_warn_finding node now true true hist h =
    let n = activate now (after node hist) in
    let streak = activate-NullSince now (after node hist) hist (after-Tracks node hist) in
    (n.last_non_null, streak, refl, (escalate-Says now n).1 h)

-- A node that stays active and keeps missing its root, at these times, oldest first.
unfoldable pub observe_nulls : List ℕ → NullTracker → NullTracker × List Event
observe_nulls [] n = (n, [])
observe_nulls (now ∷ times) n =
    let (next, evs) = observe now true true n in
    let (last, more) = observe_nulls times next in (last, evs ++ more)

abbrev bit : Bool → ℕ
bit true = 1
bit false = 0

abbrev given : NullTracker → ℕ
given n = bit n.warn_fired + bit n.crit_fired

activate-given : (now : ℕ) (n : NullTracker) → given (activate now n) ≡ given n
unfolding activate
activate-given now n = ground arith

escalate-given :
    (now : ℕ) (n : NullTracker) → length (escalate now n).1 + given n ≤ given (escalate now n).0
unfolding escalate
escalate-given now n = ground arith

observe_nulls-given :
    (times : List ℕ) (n : NullTracker)
    → length (observe_nulls times n).1 + given n ≤ given (observe_nulls times n).0
unfolding observe_nulls observe
observe_nulls-given [] n = omega arith
observe_nulls-given (now ∷ times) n =
    let (next, evs) = escalate now (activate now n) in
    omega (
      arith,
      escalate-given now (activate now n),
      activate-given now n,
      observe_nulls-given times next,
      length-append evs (observe_nulls times next).1,
    )

bit-le : (b : Bool) → bit b ≤ 1
bit-le true = omega arith
bit-le false = omega arith

-- While a node stays active and keeps missing its root, it gets at most two findings, however
-- many samples are read.
pub streak_findings : (times : List ℕ) (n : NullTracker) → length (observe_nulls times n).1 ≤ 2
streak_findings times n =
    let last = (observe_nulls times n).0 in
    omega (arith, observe_nulls-given times n, bit-le last.warn_fired, bit-le last.crit_fired)
