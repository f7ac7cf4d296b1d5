-- ===== src/Lifecycle/Seed/Refused.antt =====
-- Which laps are refused (cmd/migration-monitor/lifecycle.go: parseOffline).
use pbt_devnet.Prelude.{
  ℕ, ◌≤◌, ◌≡◌, refl, sym, subst, ◌∙◌, ◌⊎◌, inl, inr, ◌||◌, List, [], ◌∷◌, ◌++◌, map, ltb, Result,
  ok, err, ◌>>=◌, Bool-cases, arith,
}
use pbt_devnet.Lifecycle.{Offline}
use pbt_devnet.Lifecycle.Seed.{
  OfflineConfig, SeedError, not_participant, known, seed_producer, seed_consumer, seed_online,
  seed_each, seed,
}

-- A number from 1 to the count of the participants.
abbrev pub IsNumber : (participants n : ℕ) → Type 0
IsNumber participants n = (1 ≤ n) × (n ≤ participants)

-- The nodes that a lap names, in the order in which they are read.
abbrev pub named : OfflineConfig → List ℕ
named cfg =
    (map (λ p. p.node) cfg.producers ++ map (λ c. c.node) cfg.consumers)
    ++ map (λ n. n.0) cfg.online_only

-- The first name that is no participant refuses the lap; without one it is taken.
pub data Seeds (participants : ℕ) : List ℕ → Result SeedError Offline → Type 0 where
  taken : {o : Offline} → o.participants ≡ participants → Seeds participants [] (ok o)
  refused :
      {n : ℕ} {rest : List ℕ}
      → ¬ IsNumber participants n
      → Seeds participants (n ∷ rest) (err (not_participant n participants))
  goes_on :
      {n : ℕ} {rest : List ℕ} {r : Result SeedError Offline}
      → IsNumber participants n
      → Seeds participants rest r
      → Seeds participants (n ∷ rest) r

known-cases :
    (n : ℕ) (o : Offline)
    → ((known n o ≡ ok tt) × IsNumber o.participants n)
      ⊎ ((known n o ≡ err (not_participant n o.participants)) × (¬ IsNumber o.participants n))
unfolding known
known-cases n o = elim (Bool-cases (ltb n 1 || ltb o.participants n)) [
  | inl e ↦ inr (rw e refl, λ (low, high). absurd (ground (arith, e, low, high)))
  | inr e ↦ inl (rw e refl, (ground (arith, e), ground (arith, e)))
]

module _ {A : Type 0} (node : A → ℕ) (step : A → Offline → Offline)
    (same : (a : A) (o : Offline) → (step a o).participants ≡ o.participants) where
  seed_each-Seeds :
      (as' : List A) (k : ℕ) (o : Offline)
      → o.participants ≡ k
      → Seeds k (map node as') (seed_each node step as' o)
  unfolding seed_each
  seed_each-Seeds [] k o e = taken e
  seed_each-Seeds (a ∷ rest) k o e = elim (known-cases (node a) o) [
    | inl (is, number) ↦
        rw (is, seed_each)
          (goes_on (subst (λ p. IsNumber p (node a)) e number)
            (seed_each-Seeds rest k (step a o) (same a o ∙ e)))
    | inr (is, bad) ↦
        rw (is, seed_each)
          (subst (λ p. Seeds k (node a ∷ map node rest) (err (not_participant (node a) p))) (sym e)
            (refused (subst (λ p. ¬ IsNumber p (node a)) e bad)))
  ]

chain-Seeds :
    {k : ℕ} {xs : List ℕ} (ys : List ℕ) {r : Result SeedError Offline}
    (f : Offline → Result SeedError Offline)
    → Seeds k xs r
    → ((o : Offline) → o.participants ≡ k → Seeds k ys (f o))
    → Seeds k (xs ++ ys) (r >>= f)
chain-Seeds ys f (taken {o} e) next = next o e
chain-Seeds ys f (refused bad) next = refused bad
chain-Seeds ys f (goes_on number more) next = goes_on number (chain-Seeds ys f more next)

-- A lap is refused for the first node that it names, among the producers, then the consumers, then
-- the nodes that only follow online, which is no participant; it is taken if all of them are.
pub seed-Seeds :
    (cfg : OfflineConfig) (participants : ℕ)
    → Seeds participants (named cfg) (seed cfg participants)
unfolding seed seed_producer seed_consumer seed_online
seed-Seeds cfg participants =
    chain-Seeds _ _
      (chain-Seeds _ _
        (seed_each-Seeds (λ p. p.node) seed_producer (λ p o. refl) cfg.producers participants _
          refl)
        (seed_each-Seeds (λ c. c.node) seed_consumer (λ c o. refl) cfg.consumers participants))
      (seed_each-Seeds (λ n. n.0) seed_online (λ n o. refl) cfg.online_only participants)
