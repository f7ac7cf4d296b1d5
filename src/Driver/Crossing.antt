-- ===== src/Driver/Crossing.antt =====
-- The end of a straddle's hold (cmd/migration-chaos/main.go: holdUntilCrossed).
use pbt_devnet.Prelude.{
  ℕ, zero, suc, ◌+◌, ◌≤◌, ◌<◌, ◌≡◌, refl, ◌⊎◌, inl, inr, Bool, true, false, not, List, [], ◌∷◌,
  arith, ltb, ◌==◌, ==_iff, All, All-map, Some, Bool-cases, if◌then◌else◌, some, subst,
}
use pbt_devnet.Migmon.{warn, no_finding}
use pbt_devnet.Driver.{
  World, Run, ◌>>=◌, ◌>>◌, give, Trace, read_clock, slept, Probe, unreachable, answers, log, probe,
  now, sleep_until, quit, clear, probe_failed,
}
use pbt_devnet.Driver.Hold.{
  Hold, has, hold, probe_answer, probe_one, probe_all, announce, is_over, sleep_slot,
}
use pbt_devnet.Driver.Neutral.{Ends, bind-Ends, Ends-map}
use pbt_devnet.Driver.Quiet.{probe_all-IsNeutral, announce-IsNeutral}
use pbt_devnet.Driver.Clock.{IsClock, Ends-both, Anywhere, Later, neutral-Runs}

abbrev Grows : Hold → Hold → Type 0
Grows h h' = (u : ℕ) → has u h.crossed ≡ true → has u h'.crossed ≡ true

-- A victim that waits no more has crossed.
abbrev Turned : ℕ → Hold → Hold × Bool → Type 0
Turned v h x = (x.1 ≡ false → has v x.0.crossed ≡ true) × Grows h x.0

has-head : (v : ℕ) (vs : List ℕ) → has v (v ∷ vs) ≡ true
unfolding has
has-head v vs = rw ((==_iff v v).1 refl) refl

has-tail : (u v : ℕ) (vs : List ℕ) → has u vs ≡ true → has u (v ∷ vs) ≡ true
unfolding has
has-tail u v vs h = elim (Bool-cases (v == u)) [ inl e ↦ rw e refl | inr e ↦ rw e h ]

-- After a round, the victims that have not crossed are those that still wait.
abbrev Rounded : List ℕ → Hold → Hold × List ℕ → Type 0
Rounded vs h x = All (λ v. (has v x.0.crossed ≡ true) ⊎ Some (λ u. u ≡ v) x.1) vs × Grows h x.0

module _ (w : World) where
  probe_answer-Turned :
      (v : ℕ) (h : Hold) (p : Probe) (r : Run)
      → Ends Unit Anywhere (λ x _. Turned v h x) (probe_answer w v h p r)
  unfolding probe_answer log
  probe_answer-Turned v h unreachable r = by_warned (has v h.warned)
    where
      by_warned :
          (b : Bool)
          → Ends Unit Anywhere
              (λ x _. Turned v h x)
              ((if b
                  then give (h, true)
                  else (log warn (some v) no_finding probe_failed
                      >> give (record h { warned = v ∷ h.warned }, true)))
                r)
      by_warned true = (λ e. cc, λ u k. k)
      by_warned false = (λ e. cc, λ u k. k)
  probe_answer-Turned v h (answers true) r =
      (λ _. has-head v h.crossed, λ u k. has-tail u v h.crossed k)
  probe_answer-Turned v h (answers false) r = (λ e. cc, λ u k. k)

  probe_one-Turned :
      (v : ℕ) (h : Hold) (r : Run) → Ends Unit Anywhere (λ x _. Turned v h x) (probe_one w v h r)
  unfolding probe_one
  probe_one-Turned v h r = by_crossed (has v h.crossed) refl
    where
      by_crossed :
          (b : Bool)
          → has v h.crossed ≡ b
          → Ends Unit Anywhere
              (λ x _. Turned v h x)
              ((if b then give (h, false) else (probe w v >>= probe_answer w v h)) r)
      by_crossed true e = (λ _. e, λ u k. k)
      by_crossed false e = probe_answer-Turned v h (w.probes r.trace v) _

  probe_all-Rounded :
      (vs : List ℕ) (h : Hold) (r : Run)
      → Ends Unit Anywhere (λ x _. Rounded vs h x) (probe_all w vs h r)
  unfolding probe_all
  probe_all-Rounded [] h r = (tt, λ u k. k)
  probe_all-Rounded (v ∷ vs) h r =
      bind-Ends Unit Anywhere (λ x _. Turned v h x) (λ x _. Rounded (v ∷ vs) h x) (probe_one w v h)
        _ r (probe_one-Turned v h r)
        (λ x s e.
          bind-Ends Unit Anywhere (λ y _. Rounded vs x.0 y) (λ y _. Rounded (v ∷ vs) h y)
            (probe_all w vs x.0) _ s (probe_all-Rounded vs x.0 s) (λ y t f. joined x.0 x.1 y e f))
    where
      joined :
          (h' : Hold) (b : Bool) (y : Hold × List ℕ)
          → Turned v h (h', b)
          → Rounded vs h' y
          → Rounded (v ∷ vs) h (y.0, if b then v ∷ y.1 else y.1)
      joined h' true y e f = (
        (
          inr (inl refl),
          All-map (λ v. (has v y.0.crossed ≡ true) ⊎ Some (λ u. u ≡ v) y.1) _
              (λ u k. elim k [ inl a ↦ inl a | inr b ↦ inr (inr b) ]) vs f.0,
        ),
        λ u k. f.1 u (e.1 u k),
      )
      joined h' false y e f = ((inl (f.1 v (e.0 refl)), f.0), λ u k. f.1 u (e.1 u k))

-- The clock was read last, and stood at or after an instant.
abbrev pub Reached : ℕ → Trace → Type 0
Reached at t = (n : ℕ) × (rest : Trace) × (t ≡ read_clock n ∷ rest) × (at ≤ n)

-- Every victim has crossed, or the hold has lasted as long as it may.
abbrev pub Settled : (hold_until : ℕ) → List ℕ → Hold → Trace → Type 0
Settled hold_until victims h t = All (λ v. has v h.crossed ≡ true) victims ⊎ Reached hold_until t

All-crossed :
    (vs ws : List ℕ) (h h' : Hold)
    → Rounded vs h (h', ws)
    → ws ≡ []
    → All (λ v. has v h'.crossed ≡ true) vs
All-crossed vs ws h h' f e =
    All-map (λ v. (has v h'.crossed ≡ true) ⊎ Some (λ u. u ≡ v) ws) _
      (λ v k. elim k [ inl a ↦ a | inr b ↦ absurd (subst (Some (λ u. u ≡ v)) e b) ]) vs f.0

module _ (w : World) (clock : IsClock w) where
  -- What a look at the clock says of the hold.
  Over : (hold_until : ℕ) → List ℕ → Run → Bool → Run → Type 0
  Over hold_until waiting r true s =
      Later w clock r s × ((waiting ≡ []) ⊎ Reached hold_until s.trace)
  Over hold_until waiting r false s = Later w clock r s × (w.clock r.trace < hold_until)

  is_over-Over :
      (hold_until : ℕ) (waiting : List ℕ) (r : Run)
      → Ends ⊥ Anywhere (Over hold_until waiting r) (is_over w hold_until waiting r)
  unfolding is_over now Over
  is_over-Over hold_until [] r = (omega arith, inl refl)
  is_over-Over hold_until (v ∷ vs) r = by_time (ltb (w.clock r.trace) hold_until) refl
    where
      by_time :
          (b : Bool)
          → ltb (w.clock r.trace) hold_until ≡ b
          → Over hold_until
              (v ∷ vs)
              r
              (not b)
              (record r { trace = read_clock (w.clock r.trace) ∷ r.trace })
      by_time true e = (clock.onward (read_clock (w.clock r.trace)) r.trace, ground arith)
      by_time false e = (
        clock.onward (read_clock (w.clock r.trace)) r.trace,
        inr (w.clock r.trace, r.trace, refl, ground arith),
      )

  sleep_slot-Later :
      (slot : ℕ) (r : Run)
      → Ends ⊥ Anywhere (λ _ s. w.clock r.trace + slot ≤ w.clock s.trace) (sleep_slot w slot r)
  unfolding sleep_slot now sleep_until quit clear
  sleep_slot-Later slot r = by_answer (w.awake looked (w.clock r.trace + slot))
    where
      looked : Trace
      looked = read_clock (w.clock r.trace) ∷ r.trace

      by_answer :
          (b : Bool)
          → Ends ⊥ Anywhere
              (λ _ s. w.clock r.trace + slot ≤ w.clock s.trace)
              ((if b then give tt else quit w)
                (record r { trace = slept (w.clock r.trace + slot) b ∷ looked }))
      by_answer true = clock.after_sleep (w.clock r.trace + slot) looked
      by_answer false = tt

  pub hold-Settled :
      (fuel slot hold_until : ℕ) (victims : List ℕ) (h : Hold) (r : Run)
      → 1 ≤ slot
      → 1 ≤ fuel
      → hold_until < w.clock r.trace + fuel
      → Ends ⊥ Anywhere
          (λ h' s. Later w clock r s × Settled hold_until victims h' s.trace)
          (hold w fuel slot hold_until victims h r)
  unfolding hold Over
  hold-Settled zero slot hold_until victims h r s1 f1 b = absurd (omega arith)
  hold-Settled (suc fuel) slot hold_until victims h r s1 f1 b =
      bind-Ends ⊥ Anywhere (λ x s. Later w clock r s × Rounded victims h x) Post
        (probe_all w victims h) _ r
        (Ends-both ⊥ Unit Anywhere Anywhere (λ _ s. Later w clock r s) (λ x _. Rounded victims h x)
          (probe_all w victims h r)
          ((neutral-Runs w clock _ (probe_all-IsNeutral w victims h)).ends r)
          (probe_all-Rounded w victims h r))
        (λ x s e.
          bind-Ends ⊥ Anywhere (Over hold_until x.1 s) Post (is_over w hold_until x.1) _ s
            (is_over-Over hold_until x.1 s)
            (elim [
              | true ↦ λ t o. (omega (arith, e.0, o.0), settled x t e.1 o.1)
              | false ↦ λ t o. next_round x t (omega (arith, e.0, o.0)) (λ h' v l.
                  let late : w.clock r.trace < hold_until = omega (arith, e.0, o.1) in
                  hold-Settled fuel slot hold_until victims h' v s1 (omega arith) (omega arith))
            ]))
    where
      Post : Hold → Run → Type 0
      Post h' s = Later w clock r s × Settled hold_until victims h' s.trace

      settled :
          (x : Hold × List ℕ) (t : Run)
          → Rounded victims h x
          → (x.1 ≡ []) ⊎ Reached hold_until t.trace
          → Settled hold_until victims x.0 t.trace
      settled x t e (inl k) = inl (All-crossed victims x.1 h x.0 e k)
      settled x t e (inr k) = inr k

      next_round :
          (x : Hold × List ℕ) (t : Run)
          → Later w clock r t
          → ((h' : Hold) (v : Run)
              → w.clock r.trace + slot ≤ w.clock v.trace
              → Ends ⊥ Anywhere
                  (λ h'' s. Later w clock v s × Settled hold_until victims h'' s.trace)
                  (hold w fuel slot hold_until victims h' v))
          → Ends ⊥ Anywhere Post (
              (announce w x.1 x.0 >>= λ h'.
              sleep_slot w slot >>= λ _. hold w fuel slot hold_until victims h')
                t)
      next_round x t l again =
          bind-Ends ⊥ Anywhere (λ _ u. Later w clock t u) Post (announce w x.1 x.0) _ t
            ((neutral-Runs w clock _ (announce-IsNeutral w x.1 x.0)).ends t)
            (λ h' u m.
              bind-Ends ⊥ Anywhere (λ _ v. w.clock u.trace + slot ≤ w.clock v.trace) Post
                (sleep_slot w slot) _ u (sleep_slot-Later slot u)
                (λ _ v n.
                  Ends-map ⊥ Anywhere Anywhere
                    (λ h'' s. Later w clock v s × Settled hold_until victims h'' s.trace) Post
                    (hold w fuel slot hold_until victims h' v) (λ _ _. tt)
                    (λ h'' s q. (omega (arith, q.0), q.1)) (again h' v (omega (arith, m, n, l)))))
