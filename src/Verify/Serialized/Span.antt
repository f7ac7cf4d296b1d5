-- ===== src/Verify/Serialized/Span.antt =====
-- The time that a swap takes, from the stop to the catch-up (cmd/verify-migration/offline.go:
-- checkSwapsSerialized).
use pbt_devnet.Prelude.{
  ℕ, ◌≡◌, ◌≢◌, refl, sym, ap, subst, ◌↔◌, inl, inr, true, false, not, List, [], ◌∷◌, map, keep,
  ◌==◌, ==_iff, str_eq, eq_iff, max, Bool-cases, All, arith, length, ◌∙◌,
}
use mathlib.Core.Path.{ap₂}
use pbt_devnet.Verify.{SwapDone}
use pbt_devnet.Verify.Serialized.{
  SwapWindow, end_of, window_of, is_skipped, has_window, SwapNote, windows,
}

-- From the stop to the later of the start and the catch-up.
abbrev pub span : SwapDone → SwapWindow
span s = record { node = s.node; start = s.stop_at; end = max s.start_at s.caught_up_at }

-- The swaps of a lap that ran, and those that did not.
abbrev pub ran : List SwapDone → List SwapDone
ran = keep (λ s. not (str_eq s.status "skipped"))

abbrev pub unran : List SwapDone → List SwapDone
unran = keep (λ s. str_eq s.status "skipped")

pub skipped_iff : (s : SwapDone) → (is_skipped s ≡ true) ↔ (s.status ≡ "skipped")
unfolding is_skipped
skipped_iff s = eq_iff s.status "skipped"

end_of-max : (s : SwapDone) → end_of s ≡ max s.start_at s.caught_up_at
unfolding end_of
end_of-max s = ground arith

pub window_of-span : (s : SwapDone) → window_of s ≡ span s
window_of-span s =
    ap (λ e. let w : SwapWindow = record { node = s.node; start = s.stop_at; end = e } in w)
      (end_of-max s)

-- A swap that ran, with a stop and an end.
abbrev pub IsBounded : SwapDone → Type 0
IsBounded s = (s.stop_at ≢ 0) × ((span s).end ≢ 0)

some_number : (n : ℕ) → n ≢ 0 → (n == 0) ≡ false
some_number n h = elim (Bool-cases (n == 0)) [ inl e ↦ absurd (h ((==_iff n 0).0 e)) | inr e ↦ e ]

windows-one :
    (s : SwapDone) (rest : List SwapDone)
    → (s.status ≢ "skipped" → IsBounded s)
    → windows rest ≡ map span (ran rest)
    → windows (s ∷ rest) ≡ map span (ran (s ∷ rest))
unfolding windows has_window is_skipped
windows-one s rest bounded e = elim (Bool-cases (str_eq s.status "skipped")) [
  | inl k ↦ rw k e
  | inr k ↦
      let is = bounded (λ z. cc (k, (eq_iff s.status "skipped").1 z)) in
      let ends : end_of s ≢ 0 = subst (λ n. n ≢ 0) (sym (end_of-max s)) is.1 in
      rw (k, some_number s.stop_at is.0, some_number (end_of s) ends)
        (ap₂ (λ w ws. w ∷ ws) (window_of-span s) e)
]

pub windows-span :
    (swaps : List SwapDone)
    → All (λ s. s.status ≢ "skipped" → IsBounded s) swaps
    → windows swaps ≡ map span (ran swaps)
unfolding windows
windows-span [] bounded = refl
windows-span (s ∷ rest) bounded = windows-one s rest bounded.0 (windows-span rest bounded.1)

module _ {A B : Type 0} (f : A → B) where
  pub map-eq-nil : (xs : List A) → map f xs ≡ [] → xs ≡ []
  map-eq-nil [] e = refl
  map-eq-nil (x ∷ xs) e = absurd (cc)

  length-map : (xs : List A) → length (map f xs) ≡ length xs
  length-map [] = refl
  length-map (x ∷ xs) = rw (length-map xs)

pub note_of :
    (swaps : List SwapDone)
    → windows swaps ≡ map span (ran swaps)
    → let run : SwapNote = (length (windows swaps), length (keep is_skipped swaps)) in
      run ≡ (length (ran swaps), length (unran swaps))
unfolding is_skipped
note_of swaps same =
    ap (λ k. let run : SwapNote = (k, length (unran swaps)) in run)
      (ap length same ∙ length-map span (ran swaps))
