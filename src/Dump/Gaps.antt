-- ===== src/Dump/Gaps.antt =====
-- The instants of the gaps, and the free ones (internal/migsched/dump.go: Gaps, Contains).
use pbt_devnet.Prelude.{
  ℕ, ◌≤◌, ◌<◌, ◌≡◌, ◌↔◌, inl, inr, true, false, not, ◌&&◌, List, [], ◌∷◌, arith, ltb, leb, map,
  sort, IsSorted, IsOrder, sort-Some, sort-IsSorted, All, All-map, Some, Some-map, Some-append,
  Some-of_map, Some-keep, some_of-Some, All-not-Some, Bool-cases, if◌then◌else◌,
}
use pbt_devnet.Dump.{
  Dump, DumpOp, runs, admitted, busy_of, starts_before, free_before, gaps_from, gaps, contains,
}

abbrev pub Holds : ℕ → ℕ × ℕ → Type 0
Holds t g = (g.0 ≤ t) × (t < g.1)

free_before-Holds :
    (to cursor start t : ℕ)
    → Some (Holds t) (free_before to cursor start) ↔ ((cursor ≤ t) × (t < to) × (t < start))
unfolding free_before
free_before-Holds to cursor start t = (λ h. ground arith, λ h. ground arith)

abbrev Clear : ℕ → List (ℕ × ℕ) → Type 0
Clear t busy = All (λ b. ¬ Holds t b) busy

-- The intervals that start after the instant do not hold it.
later-Clear :
    (t : ℕ) (b : ℕ × ℕ) (bs : List (ℕ × ℕ))
    → t < b.0
    → All (λ c. starts_before c b ≡ false) bs
    → Clear t bs
later-Clear t b bs h s =
    All-map (λ c. starts_before c b ≡ false) (λ c. ¬ Holds t c) (λ c k m. ground arith) bs s

past : (t : ℕ) (b : ℕ × ℕ) → (¬ Holds t b) → b.0 ≤ t → b.1 ≤ t
past t b h k = elim (Bool-cases (leb b.1 t)) [
  | inl e ↦ ground arith
  | inr e ↦ absurd (h (k, ground arith))
]

-- Stopping at a cursor past the range loses nothing.
stop_iff :
    (to cursor t : ℕ) (g : List (ℕ × ℕ)) {C : Type 0}
    → Some (Holds t) g ↔ ((cursor ≤ t) × (t < to) × C)
    → Some (Holds t) (if not (ltb cursor to) then [] else g) ↔ ((cursor ≤ t) × (t < to) × C)
stop_iff to cursor t g h = elim (Bool-cases (ltb cursor to)) [
  | inl e ↦ rw e h
  | inr e ↦ rw e (λ m. absurd m, λ k. absurd (let (a, b, c) = k in ground arith))
]

gaps_from_iff :
    (to cursor t : ℕ) (busy : List (ℕ × ℕ))
    → IsSorted starts_before busy
    → Some (Holds t) (gaps_from to cursor busy) ↔ ((cursor ≤ t) × (t < to) × Clear t busy)
unfolding gaps_from
gaps_from_iff to cursor t [] s = (λ h. ground arith, λ h. ground arith)
gaps_from_iff to cursor t (b ∷ bs) s = elim (Bool-cases (ltb cursor b.1)) [
  | inr e ↦
      let (to', from') = gaps_from_iff to cursor t bs s.1 in
      rw e
        (λ h. let k = to' h in (k.0, k.1, (λ m. ground arith, k.2)), λ h. from' (h.0, h.1, h.2.1))
  | inl e ↦
      let (bto, bfrom) = gaps_from_iff to b.1 t bs s.1 in
      let (fto, ffrom) = free_before-Holds to cursor b.0 t in
      let rest = if not (ltb b.1 to) then [] else gaps_from to b.1 bs in
      let (rto, rfrom) = stop_iff to b.1 t (gaps_from to b.1 bs) (bto, bfrom) in
      let (ato, afrom) = Some-append (Holds t) (free_before to cursor b.0) rest in
      rw e (
        λ h. elim (ato h) [
          | inl a ↦ let k = fto a in (k.0, k.1, (λ m. omega arith, later-Clear t b bs k.2 s.0))
          | inr r ↦ let k = rto r in (ground arith, k.1, (λ m. omega arith, k.2))
        ],
        λ h. elim (Bool-cases (ltb t b.0)) [
          | inl early ↦ afrom (inl (ffrom (h.0, h.1, ground arith)))
          | inr late ↦ afrom (inr (rfrom (past t b h.2.0 (ground arith), h.1, h.2.1)))
        ],
      )
]

starts_before-IsOrder : IsOrder starts_before
starts_before-IsOrder = record { asym = λ a b h. ground arith; trans = λ a b c h k. ground arith }

-- An op of the dump that runs occupies the instant.
abbrev pub Occupies : ℕ → DumpOp → Type 0
Occupies t o = (runs o ≡ true) × Holds t (busy_of o)

busy-Occupies :
    (d : Dump) (t : ℕ)
    → Some (Holds t) (sort starts_before (map busy_of (admitted d))) ↔ Some (Occupies t) d.ops
unfolding admitted
busy-Occupies d t =
    let (sto, sfrom) = sort-Some starts_before (Holds t) (map busy_of (admitted d)) in
    let (mto, mfrom) = Some-of_map (Holds t) busy_of (admitted d) in
    let (kto, kfrom) = Some-keep (λ o. Holds t (busy_of o)) runs d.ops in
    (λ h. kto (mto (sto h)), λ h. sfrom (mfrom (kfrom h)))

-- An instant lies in a gap exactly if it is in the range and no op that runs occupies it.
pub gaps_iff :
    (d : Dump) (from to t : ℕ)
    → Some (Holds t) (gaps d from to) ↔ ((from ≤ t) × (t < to) × (¬ Some (Occupies t) d.ops))
unfolding gaps
gaps_iff d from to t =
    let busy = sort starts_before (map busy_of (admitted d)) in
    let (gto, gfrom) =
      gaps_from_iff to from t busy (sort-IsSorted starts_before starts_before-IsOrder _) in
    let (nto, nfrom) = All-not-Some (Holds t) busy in
    let (bto, bfrom) = busy-Occupies d t in
    (
      λ h. let k = gto h in (k.0, k.1, λ m. nto k.2 (bfrom m)),
      λ h. gfrom (h.0, h.1, nfrom (λ m. h.2 (bto m))),
    )

-- A span that fits inside a gap lies in the range, and no op that runs touches it.
pub contains-free :
    (d : Dump) (from to start end t : ℕ)
    → contains (gaps d from to) start end ≡ true
    → start ≤ t
    → t < end
    → (from ≤ t) × (t < to) × (¬ Some (Occupies t) d.ops)
unfolding contains
contains-free d from to start end t h a b =
    let spans = λ (g : ℕ × ℕ). not (ltb start g.0) && not (ltb g.1 end) in
    (gaps_iff d from to t).0 (
      Some-map (λ g. spans g ≡ true) (Holds t) (λ g k. ground arith) (gaps d from to)
        ((some_of-Some spans (gaps d from to)).0 h))
