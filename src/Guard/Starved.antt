-- ===== src/Guard/Starved.antt =====
-- The starvation finding of the peer watch (cmd/migration-gate/main.go: starvation.observe).
use pbt_devnet.Prelude.{
  ℕ, suc, ◌+◌, ◌-◌, ◌≤◌, ◌≡◌, refl, ◌⊎◌, inl, inr, Bool, true, false, ◌||◌, Option, none, some,
  List, [], ◌∷◌, arith, ltb, if◌then◌else◌, Bool-cases,
}
use pbt_devnet.Guard.{Starvation, fed, starve, observe_peers, peer_starved_after}

-- A poll: its time, the peers that were read, and whether a partition is held.
abbrev pub Poll : Type 0
Poll = ℕ × Option ℕ × Bool

-- The state after polls, the newest first.
abbrev pub after : List Poll → Starvation
after [] = fed
after (p ∷ hist) = (observe_peers p.0 p.1 p.2 (after hist)).0

abbrev pub Starving : Poll → Type 0
Starving p = (p.1 ≡ some 0) × (p.2 ≡ false)

-- Every poll from one at `t` on has read no peers while no partition was held.
abbrev pub StarvedSince : ℕ → List Poll → Type 0
StarvedSince t [] = ⊥
StarvedSince t (p ∷ hist) = Starving p × ((p.0 ≡ t) ⊎ StarvedSince t hist)

-- One poll from a state whose start is known.
Noted : (s : Starvation) → List Poll → Type 0
Noted s hist = (t : ℕ) → s.since ≡ some t → StarvedSince t hist

observe-Noted :
    (now : ℕ) (peers : Option ℕ) (held : Bool) (s : Starvation) (hist : List Poll)
    → Noted s hist
    → Noted (observe_peers now peers held s).0 ((now, peers, held) ∷ hist)
      × ((observe_peers now peers held s).1 ≡ true
          → (t : ℕ) × StarvedSince t ((now, peers, held) ∷ hist) × (t + 90 ≤ now))
unfolding observe_peers starve Noted
observe-Noted now none held s hist h = (λ t e. cc, λ e. cc)
observe-Noted now (some peers) held s hist h = by_test (ltb 0 peers || held) refl
  where
    Goal : Starvation × Bool → Type 0
    Goal x =
        Noted x.0 ((now, some peers, held) ∷ hist)
        × (x.1 ≡ true → (t : ℕ) × StarvedSince t ((now, some peers, held) ∷ hist) × (t + 90 ≤ now))

    by_fire :
        (t : ℕ) (b : Bool)
        → s.since ≡ some t
        → Starving (now, some peers, held)
        → (s.fired || ltb (now - t) peer_starved_after) ≡ b
        → Goal (if b then (s, false) else (record s { fired = true }, true))
    by_fire t true e st k = (λ u l. (st, inr (h u l)), λ l. cc)
    by_fire t false e st k = (λ u l. (st, inr (h u l)), λ _. (t, (st, inr (h t e)), ground arith))

    by_since :
        (o : Option ℕ) → s.since ≡ o → Starving (now, some peers, held) → Goal (starve now s o)
    by_since none e st = (λ t k. (st, inl (cc)), λ k. cc)
    by_since (some t) e st = by_fire t (s.fired || ltb (now - t) peer_starved_after) e st refl

    by_test :
        (b : Bool)
        → (ltb 0 peers || held) ≡ b
        → Goal (if b then (fed, false) else starve now s s.since)
    by_test true e = (λ t k. cc, λ k. cc)
    by_test false e = by_since s.since refl (ground arith, ground arith)

after-Noted : (hist : List Poll) → Noted (after hist) hist
unfolding Noted
after-Noted [] = λ t e. cc
after-Noted (p ∷ hist) = (observe-Noted p.0 p.1 p.2 (after hist) hist (after-Noted hist)).0

-- A client is reported as starved only where every poll from one on, at least 90 s back, has read
-- no peers while no partition was held.
pub starved_finding :
    (hist : List Poll) (now : ℕ) (peers : Option ℕ) (held : Bool)
    → (observe_peers now peers held (after hist)).1 ≡ true
    → (t : ℕ) × StarvedSince t ((now, peers, held) ∷ hist) × (t + 90 ≤ now)
starved_finding hist now peers held e =
    (observe-Noted now peers held (after hist) hist (after-Noted hist)).1 e

-- The reports of polls that all read no peers while nothing was held, at the given times.
abbrev pub reports : List ℕ → Starvation → ℕ
reports [] s = 0
reports (now ∷ times) s =
    let x = observe_peers now (some 0) false s in
    let rest = reports times x.0 in if x.1 then suc rest else rest

starve-fired :
    (now : ℕ) (s : Starvation) (o : Option ℕ)
    → s.fired ≡ true
    → ((starve now s o).1 ≡ false) × ((starve now s o).0.fired ≡ true)
unfolding starve
starve-fired now s none e = (refl, e)
starve-fired now s (some t) e = rw e (refl, refl)

starve-report :
    (now : ℕ) (s : Starvation) (o : Option ℕ)
    → (starve now s o).1 ≡ true
    → (starve now s o).0.fired ≡ true
unfolding starve
starve-report now s none e = cc
starve-report now s (some t) e = by_test (s.fired || ltb (now - t) peer_starved_after) e
  where
    by_test :
        (b : Bool)
        → (let x : Starvation × Bool =
              if b then (s, false) else (record s { fired = true }, true) in
            x.1)
          ≡ true
        → (let x : Starvation × Bool =
              if b then (s, false) else (record s { fired = true }, true) in
            x.0.fired)
          ≡ true
    by_test true k = cc
    by_test false k = refl

reports-fired : (times : List ℕ) (s : Starvation) → s.fired ≡ true → reports times s ≡ 0
unfolding observe_peers
reports-fired [] s e = refl
reports-fired (now ∷ times) s e =
    let (silent, fired) = starve-fired now s s.since e in
    rw silent (reports-fired times (starve now s s.since).0 fired)

-- While a client stays without peers and no partition is held, it is reported once at most,
-- whatever came before.
pub reports-once : (times : List ℕ) (s : Starvation) → reports times s ≤ 1
unfolding observe_peers
reports-once [] s = omega arith
reports-once (now ∷ times) s = elim (Bool-cases (starve now s s.since).1) [
  | inl e ↦
      let k = reports-fired times (starve now s s.since).0 (starve-report now s s.since e) in
      rw e (omega (arith, k))
  | inr e ↦ rw e (reports-once times (starve now s s.since).0)
]
