-- ===== src/Swap/Evidence/Facts.antt =====
-- What the seeded evidence says (cmd/migration-swap/gate.go: newEvidence).
use pbt_devnet.Prelude.{
  ℕ, ◌≡◌, refl, sym, ap, subst, ◌⊎◌, inl, inr, Option, none, some, List, [], ◌∷◌, map, arith, ◌==◌,
  ok, >>=-eq-ok, ok-injective, All, All-map, Some, Bool-cases, Option-cases, if◌then◌else◌,
}
use pbt_devnet.Swap.Evidence.{
  OfflineProducer, OfflineConsumer, status_failed, status_skipped, ProducerRecord, SwapRecord,
  Evidence, assign_all, known_kind, seed_producers, seed_swaps, new_evidence,
}

-- The producer serves the consumer, as the plan says.
abbrev pub Serves : ℕ → ℕ → OfflineProducer → Type 0
Serves p c x = (x.node ≡ p) × Some (λ k. k ≡ c) x.consumers

assign_all-cases :
    (p : ℕ) (ks : List ℕ) (of : ℕ → Option ℕ) (c q : ℕ)
    → assign_all p ks of c ≡ some q
    → ((q ≡ p) × Some (λ k. k ≡ c) ks) ⊎ (of c ≡ some q)
unfolding assign_all
assign_all-cases p [] of c q h = inr h
assign_all-cases p (k ∷ ks) of c q h =
    elim (assign_all-cases p ks (λ x. if x == k then some p else of x) c q h) [
      | inl (e, s) ↦ inl (e, inr s)
      | inr f ↦ ground arith
    ]

-- Seeding the producers keeps their order, and every entry of the map comes from a producer.
seed_producers-facts :
    (ps : List OfflineProducer) (of : ℕ → Option ℕ) (r : List ProducerRecord × (ℕ → Option ℕ))
    → seed_producers ps of ≡ ok r
    → (map (λ (x : ProducerRecord). x.node) r.0 ≡ map (λ (x : OfflineProducer). x.node) ps)
      × All (λ (x : ProducerRecord). x.status ≡ status_failed) r.0
      × ((c q : ℕ) → r.1 c ≡ some q → Some (Serves q c) ps ⊎ (of c ≡ some q))
unfolding seed_producers
seed_producers-facts [] of r h =
    subst
      (λ (r : List ProducerRecord × (ℕ → Option ℕ)).
        (map (λ (x : ProducerRecord). x.node) r.0 ≡ [])
        × All (λ (x : ProducerRecord). x.status ≡ status_failed) r.0
        × ((c q : ℕ) → r.1 c ≡ some q → ⊥ ⊎ (of c ≡ some q)))
      (ok-injective h) (refl, tt, λ c q e. inr e)
seed_producers-facts (p ∷ ps) of r h = elim (Bool-cases (known_kind p.kind)) [
  | inr bad ↦ absurd (let k = rw bad at h in cc)
  | inl good ↦
      let (s, hs, h1) =
        >>=-eq-ok (seed_producers ps (assign_all p.node p.consumers of)) _ (rw good at h) in
      let (names, failed, served) =
        seed_producers-facts ps (assign_all p.node p.consumers of) s hs in
      subst
        (λ (r : List ProducerRecord × (ℕ → Option ℕ)).
          (map (λ (x : ProducerRecord). x.node) r.0
            ≡ map (λ (x : OfflineProducer). x.node) (p ∷ ps))
          × All (λ (x : ProducerRecord). x.status ≡ status_failed) r.0
          × ((c q : ℕ) → r.1 c ≡ some q → Some (Serves q c) (p ∷ ps) ⊎ (of c ≡ some q)))
        (ok-injective h1)
        (
          ap (λ l. p.node ∷ l) names,
          (refl, failed),
          λ c q e. elim (served c q e) [
            | inl a ↦ inl (inr a)
            | inr b ↦ elim (assign_all-cases p.node p.consumers of c q b) [
              | inl (e, k) ↦ inl (inl (sym e, k))
              | inr k ↦ inr k
            ]
          ],
        )
]

-- A skipped record for each consumer, in order, with the producer of the map.
abbrev IsSeeded : List OfflineConsumer → (ℕ → Option ℕ) → List SwapRecord → Type 0
IsSeeded cs of swaps =
    (map (λ (x : SwapRecord). x.node) swaps ≡ map (λ (x : OfflineConsumer). x.node) cs)
    × All (λ (x : SwapRecord). (x.status ≡ status_skipped) × (of x.node ≡ some x.producer)) swaps

seed_swaps-facts :
    (cs : List OfflineConsumer) (of : ℕ → Option ℕ) (swaps : List SwapRecord)
    → seed_swaps cs of ≡ ok swaps
    → IsSeeded cs of swaps
unfolding seed_swaps
seed_swaps-facts [] of swaps h = subst (IsSeeded [] of) (ok-injective h) (refl, tt)
seed_swaps-facts (c ∷ cs) of swaps h = elim (Option-cases (of c.node)) [
  | inl missing ↦ absurd (let k = rw (missing, seed_swaps) at h in cc)
  | inr (p, e) ↦
      let (l, hl, h1) = >>=-eq-ok (seed_swaps cs of) _ (rw (e, seed_swaps) at h) in
      let (names, facts) = seed_swaps-facts cs of l hl in
      subst (IsSeeded (c ∷ cs) of) (ok-injective h1)
        (ap (λ l. c.node ∷ l) names, ((refl, e), facts))
]

-- The evidence of a valid plan reads as if nothing had run: a failed record for each producer and
-- a skipped one for each consumer, in the order of the plan, where each swap's producer is one
-- that the plan gives that consumer.
pub new_evidence-facts :
    (producers : List OfflineProducer) (consumers : List OfflineConsumer) (ev : Evidence)
    → new_evidence producers consumers ≡ ok ev
    → (map (λ (x : ProducerRecord). x.node) ev.producers
        ≡ map (λ (x : OfflineProducer). x.node) producers)
      × All (λ (x : ProducerRecord). x.status ≡ status_failed) ev.producers
      × (map (λ (x : SwapRecord). x.node) ev.swaps
          ≡ map (λ (x : OfflineConsumer). x.node) consumers)
      × All
          (λ (x : SwapRecord).
            (x.status ≡ status_skipped) × Some (Serves x.producer x.node) producers)
          ev.swaps
unfolding new_evidence
new_evidence-facts producers consumers ev h =
    let (r, hr, h1) = >>=-eq-ok (seed_producers producers (λ _. none)) _ h in
    let (swaps, hs, h2) = >>=-eq-ok (seed_swaps consumers r.1) _ h1 in
    let (names, failed, served) = seed_producers-facts producers (λ _. none) r hr in
    let (order, facts) = seed_swaps-facts consumers r.1 swaps hs in
    let found : All
        (λ (x : SwapRecord).
          (x.status ≡ status_skipped) × Some (Serves x.producer x.node) producers)
        swaps =
      All-map (λ (x : SwapRecord). (x.status ≡ status_skipped) × (r.1 x.node ≡ some x.producer))
        (λ (x : SwapRecord).
          (x.status ≡ status_skipped) × Some (Serves x.producer x.node) producers)
        (λ x (s, e). (s, elim (served x.node x.producer e) [ inl a ↦ a | inr b ↦ absurd (cc) ]))
        swaps facts in
    let e = ok-injective h2 in
    subst
      (λ (ev : Evidence).
        (map (λ (x : ProducerRecord). x.node) ev.producers
          ≡ map (λ (x : OfflineProducer). x.node) producers)
        × All (λ (x : ProducerRecord). x.status ≡ status_failed) ev.producers
        × (map (λ (x : SwapRecord). x.node) ev.swaps
            ≡ map (λ (x : OfflineConsumer). x.node) consumers)
        × All
            (λ (x : SwapRecord).
              (x.status ≡ status_skipped) × Some (Serves x.producer x.node) producers)
            ev.swaps)
      e (names, failed, order, found)
