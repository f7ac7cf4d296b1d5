-- ===== src/Verify/Offline/Unrun.antt =====
-- The coverage of a run that did nothing: the evidence that the swap driver starts from
-- (cmd/migration-swap/gate.go: newEvidence), as the verifier reads it.
use pbt_devnet.Prelude.{
  ℕ, ◌≡◌, ◌≢◌, refl, sym, ap, subst, ◌∙◌, String, some, List, [], ◌∷◌, map, ok, ◌⊎◌, inl, inr, All,
  All-map,
}
use pbt_devnet.Swap.Evidence.{
  Status, status_ok, status_failed, status_timeout, status_skipped, ProducerRecord, SwapRecord,
  Evidence, new_evidence,
}
use pbt_devnet.Swap.Evidence.Facts.{new_evidence-facts}
use pbt_devnet.Verify.{OfflineLap, SwapDone, ProducerDone, LapManifest, loaded, passed}
use pbt_devnet.Verify.Offline.{producer_rows, swap_rows, check_offline_coverage}
use pbt_devnet.Verify.Offline.Covered.{IsDone, check_offline_coverage_iff}

-- The words of the records.
unfoldable pub status_text : Status → String
status_text status_ok = "ok"
status_text status_failed = "failed"
status_text status_timeout = "timeout"
status_text status_skipped = "skipped"

-- The evidence as the lap's manifest holds it, beside what else the lap did. Of a swap that was not reached no time is recorded.
unfoldable pub producer_done : ProducerRecord → ProducerDone
unfolding status_text
producer_done r = record { node = r.node; status = status_text r.status }

unfoldable pub swap_done : SwapRecord → SwapDone
unfolding status_text
swap_done r = record {
  node = r.node;
  status = status_text r.status;
  stop_at = 0;
  start_at = 0;
  caught_up_at = 0;
}

unfoldable pub manifest_of : LapManifest → OfflineLap → Evidence → LapManifest
unfolding producer_done swap_done
manifest_of base lap ev = record base {
  offline = some lap;
  producers = map producer_done ev.producers;
  swaps = map swap_done ev.swaps;
}

abbrev AreBad : List (ℕ × String) → Type 0
AreBad rows = All (λ r. r.1 ≢ "ok") rows

-- A node is not done where no record says so.
not-IsDone : (rows : List (ℕ × String)) (node : ℕ) → AreBad rows → ¬ IsDone rows node
not-IsDone [] node h e = e
not-IsDone (r ∷ rows) node h (inl e) = h.0 e.1
not-IsDone (r ∷ rows) node h (inr e) = not-IsDone rows node h.1 e.1

text_differs : (status_text status_failed ≢ "ok") × (status_text status_skipped ≢ "ok")
unfolding status_text
text_differs = (λ e. cc, λ e. cc)

producers-not_ok :
    (rs : List ProducerRecord)
    → All (λ r. r.status ≡ status_failed) rs
    → AreBad (map (λ r. (r.node, r.status)) (map producer_done rs))
unfolding producer_done
producers-not_ok [] h = tt
producers-not_ok (r ∷ rs) h =
    (λ e. text_differs.0 (sym (ap status_text h.0) ∙ e), producers-not_ok rs h.1)

swaps-not_ok :
    (rs : List SwapRecord)
    → All (λ r. r.status ≡ status_skipped) rs
    → AreBad (map (λ r. (r.node, r.status)) (map swap_done rs))
unfolding swap_done
swaps-not_ok [] h = tt
swaps-not_ok (r ∷ rs) h = (λ e. text_differs.1 (sym (ap status_text h.0) ∙ e), swaps-not_ok rs h.1)

none_done :
    {A : Type 0} (rows : List (ℕ × String)) (node : A → ℕ) (xs : List A)
    → AreBad rows
    → All (λ x. IsDone rows (node x)) xs
    → xs ≡ []
none_done rows node [] bad h = refl
none_done rows node (x ∷ xs) bad h = absurd (not-IsDone rows (node x) bad h.0)

-- What the seed covers is nothing.
new_evidence-covers_none :
    (base : LapManifest) (lap : OfflineLap) (ev : Evidence) (notes : List (ℕ × String))
    → new_evidence lap.producers lap.consumers ≡ ok ev
    → check_offline_coverage (loaded (manifest_of base lap ev)) ≡ passed notes
    → (lap.producers ≡ []) × (lap.consumers ≡ [])
new_evidence-covers_none base lap ev notes seeded covered =
    let (m, l, em, el, _, ps, cs, _) =
      (check_offline_coverage_iff (loaded (manifest_of base lap ev)) notes).0 covered in
    let (_, failed, _, skipped) = new_evidence-facts lap.producers lap.consumers ev seeded in
    let is : manifest_of base lap ev ≡ m = cc in
    let same : l ≡ lap = unfold manifest_of in cc in
    (
      none_done (producer_rows m) (λ p. p.node) lap.producers
          (subst (λ x. AreBad (producer_rows x)) is
            (unfold manifest_of in producers-not_ok ev.producers failed))
          (subst (λ x. All (λ p. IsDone (producer_rows m) p.node) x.producers) same ps),
      none_done (swap_rows m) (λ c. c.node) lap.consumers
          (subst (λ x. AreBad (swap_rows x)) is
            (unfold manifest_of in
              swaps-not_ok ev.swaps
                (All-map _ (λ r. r.status ≡ status_skipped) (λ r h. h.0) ev.swaps skipped)))
          (subst (λ x. All (λ c. IsDone (swap_rows m) c.node) x.consumers) same cs),
    )

-- The evidence that a run of the swap driver starts from, left as it is, does not pass the
-- verifier's check of the coverage, if the lap has a producer or a consumer.
pub new_evidence-not_covered :
    (base : LapManifest) (lap : OfflineLap) (ev : Evidence) (notes : List (ℕ × String))
    → new_evidence lap.producers lap.consumers ≡ ok ev
    → (lap.producers ≢ []) ⊎ (lap.consumers ≢ [])
    → check_offline_coverage (loaded (manifest_of base lap ev)) ≢ passed notes
new_evidence-not_covered base lap ev notes seeded (inl some_producer) covered =
    some_producer (new_evidence-covers_none base lap ev notes seeded covered).0
new_evidence-not_covered base lap ev notes seeded (inr some_consumer) covered =
    some_consumer (new_evidence-covers_none base lap ev notes seeded covered).1
