-- ===== src/Guard/Healed.antt =====
-- The heals of the watchdog (cmd/migration-gate/main.go: watchdog).
use pbt_devnet.Prelude.{
  ℕ, suc, ◌+◌, ◌-◌, ◌≤◌, ◌<◌, ◌≡◌, refl, ◌⊎◌, inl, inr, Bool, true, false, ◌||◌, Option, none, some,
  List, [], ◌∷◌, arith, leb, if◌then◌else◌, Option-cases, ◌≢◌, All,
}
use pbt_devnet.Guard.{
  Watch, at_ease, View, unreadable, agreed, split, Round, Heal, heal_split, watch_split,
  watch_since, watch, convergence_grace,
}

abbrev pub after : List Round → Watch
after [] = at_ease
after (r ∷ hist) = (watch r (after hist)).0

-- Every round from one at `t` on has read a split while nothing was held, or could not read.
abbrev pub SplitSince : ℕ → List Round → Type 0
SplitSince t [] = ⊥
SplitSince t (r ∷ hist) =
    ((r.view ≡ unreadable) × SplitSince t hist)
    ⊎ ((r.view ≡ split) × (r.held ≡ false) × ((r.now ≡ t) ⊎ SplitSince t hist))

-- A heal, at a split outside any held partition, which says how long it has lasted.
pub record IsHealed (r : Round) (h : Heal) (t : ℕ) : Type 0 where
  pub view : r.view ≡ split
  pub held : r.held ≡ false
  pub heal : h ≡ heal_split r t

Noted : Watch → List Round → Type 0
Noted w hist = (t : ℕ) → w.since ≡ some t → SplitSince t hist

watch-Noted :
    (r : Round) (w : Watch) (hist : List Round)
    → Noted w hist
    → Noted (watch r w).0 (r ∷ hist)
      × ((h : Heal)
          → (watch r w).1 ≡ some h
          → (t : ℕ) × SplitSince t (r ∷ hist) × (t + 120 < r.now) × IsHealed r h t)
unfolding watch Noted watch_split watch_since
watch-Noted r w hist n = by_view r.view refl
  where
    by_view :
        (v : View)
        → r.view ≡ v
        → let x : Watch × Option Heal = elim v [
          | unreadable ↦ (w, none)
          | agreed ↦ (at_ease, none)
          | split ↦ watch_split r w
        ] in
          Noted x.0 (r ∷ hist)
          × ((h : Heal)
              → x.1 ≡ some h
              → (t : ℕ) × SplitSince t (r ∷ hist) × (t + 120 < r.now) × IsHealed r h t)
    by_view unreadable e = (λ t k. inl (e, n t k), λ h k. cc)
    by_view agreed e = (λ t k. cc, λ h k. cc)
    by_view split e = by_held r.held refl
      where
        Goal : Watch × Option Heal → Type 0
        Goal x =
            Noted x.0 (r ∷ hist)
            × ((h : Heal)
                → x.1 ≡ some h
                → (t : ℕ) × SplitSince t (r ∷ hist) × (t + 120 < r.now) × IsHealed r h t)

        by_fire :
            (t : ℕ) (b : Bool)
            → w.since ≡ some t
            → r.held ≡ false
            → (w.fired || leb (r.now - t) convergence_grace) ≡ b
            → Goal (if b then (w, none) else (record w { fired = true }, some (heal_split r t)))
        by_fire t true k u l = (λ u' k'. inr (e, u, inr (n u' k')), λ h k'. cc)
        by_fire t false k u l = (
          λ u' k'. inr (e, u, inr (n u' k')),
          λ h k'.
              (t, inr (e, u, inr (n t k)), ground arith, record { view = e; held = u; heal = cc }),
        )

        by_since : (o : Option ℕ) → w.since ≡ o → r.held ≡ false → Goal (watch_since r w o)
        by_since none k u = (λ t l. inr (e, u, inl (cc)), λ h l. cc)
        by_since (some t) k u = by_fire t (w.fired || leb (r.now - t) convergence_grace) k u refl

        by_held :
            (b : Bool)
            → r.held ≡ b
            → Goal (if b then (record w { since = none }, none) else watch_since r w w.since)
        by_held true k = (λ t l. cc, λ h l. cc)
        by_held false k = by_since w.since refl k

after-Noted : (hist : List Round) → Noted (after hist) hist
unfolding Noted
after-Noted [] = λ t e. cc
after-Noted (r ∷ hist) = (watch-Noted r (after hist) hist (after-Noted hist)).0

-- The watchdog heals only where every round from one on, more than 120 s back, has read a split
-- outside any held partition, or could not read; and it says for how long.
pub heal_finding :
    (hist : List Round) (r : Round) (h : Heal)
    → (watch r (after hist)).1 ≡ some h
    → (t : ℕ) × SplitSince t (r ∷ hist) × (t + 120 < r.now) × IsHealed r h t
heal_finding hist r h e = (watch-Noted r (after hist) hist (after-Noted hist)).1 h e

-- The heals of some rounds, the oldest round first.
abbrev pub heals : List Round → Watch → ℕ
heals [] w = 0
heals (r ∷ rs) w =
    let x = watch r w in let rest = heals rs x.0 in elim x.1 [ none ↦ rest | some h ↦ suc rest ]

abbrev Disagrees : Round → Type 0
Disagrees r = r.view ≢ agreed

watch_since-fired :
    (r : Round) (w : Watch) (o : Option ℕ)
    → w.fired ≡ true
    → ((watch_since r w o).1 ≡ none) × ((watch_since r w o).0.fired ≡ true)
unfolding watch_since
watch_since-fired r w none e = (refl, e)
watch_since-fired r w (some t) e = rw e (refl, refl)

-- Until the clients agree, the latch stays set, and is set by a heal.
watch-fired :
    (r : Round) (w : Watch)
    → Disagrees r
    → w.fired ≡ true
    → ((watch r w).1 ≡ none) × ((watch r w).0.fired ≡ true)
unfolding watch watch_split
watch-fired r w d e = by_view r.view refl
  where
    by_held :
        (b : Bool)
        → let x : Watch × Option Heal =
            if b then (record w { since = none }, none) else watch_since r w w.since in
          (x.1 ≡ none) × (x.0.fired ≡ true)
    by_held true = (refl, e)
    by_held false = watch_since-fired r w w.since e

    by_view :
        (v : View)
        → r.view ≡ v
        → let x : Watch × Option Heal = elim v [
          | unreadable ↦ (w, none)
          | agreed ↦ (at_ease, none)
          | split ↦ watch_split r w
        ] in
          (x.1 ≡ none) × (x.0.fired ≡ true)
    by_view unreadable k = (refl, e)
    by_view agreed k = absurd (d k)
    by_view split k = by_held r.held

watch-heal :
    (r : Round) (w : Watch) (h : Heal) → (watch r w).1 ≡ some h → (watch r w).0.fired ≡ true
unfolding watch watch_split watch_since
watch-heal r w h e = by_view r.view e
  where
    by_fire :
        (t : ℕ) (b : Bool)
        → (let x : Watch × Option Heal =
              if b then (w, none) else (record w { fired = true }, some (heal_split r t)) in
            (x.1 ≡ some h) → (x.0.fired ≡ true))
    by_fire t true k = cc
    by_fire t false k = refl

    by_since : (o : Option ℕ) → (watch_since r w o).1 ≡ some h → (watch_since r w o).0.fired ≡ true
    by_since none k = cc
    by_since (some t) k = by_fire t (w.fired || leb (r.now - t) convergence_grace) k

    by_held :
        (b : Bool)
        → (let x : Watch × Option Heal =
              if b then (record w { since = none }, none) else watch_since r w w.since in
            (x.1 ≡ some h) → (x.0.fired ≡ true))
    by_held true k = cc
    by_held false k = by_since w.since k

    by_view :
        (v : View)
        → (let x : Watch × Option Heal = elim v [
          | unreadable ↦ (w, none)
          | agreed ↦ (at_ease, none)
          | split ↦ watch_split r w
        ] in
            (x.1 ≡ some h) → (x.0.fired ≡ true))
    by_view unreadable k = cc
    by_view agreed k = cc
    by_view split k = by_held r.held k

heals-fired : (rs : List Round) (w : Watch) → All Disagrees rs → w.fired ≡ true → heals rs w ≡ 0
heals-fired [] w d e = refl
heals-fired (r ∷ rs) w d e =
    let (silent, fired) = watch-fired r w d.0 e in
    rw (heals, silent) (heals-fired rs (watch r w).0 d.1 fired)

-- From one agreement of the clients to the next the watchdog heals once at most.
pub heals-once : (rs : List Round) (w : Watch) → All Disagrees rs → heals rs w ≤ 1
heals-once [] w d = omega arith
heals-once (r ∷ rs) w d = elim (Option-cases (watch r w).1) [
  | inl e ↦ rw (heals, e) (heals-once rs (watch r w).0 d.1)
  | inr (h, e) ↦
      let k = heals-fired rs (watch r w).0 d.1 (watch-heal r w h e) in
      rw (heals, e) (omega (arith, k))
]
