-- ===== src/Swap/Wait.antt =====
-- The poll loop of a swap's gate (cmd/migration-swap/swap.go: waitSwapGate). What each round reads
-- is an item of a list; the result is none while the gate still waits.
use pbt_devnet.Prelude.{
  ◌+◌, ◌<◌, ◌≡◌, ◌≢◌, sym, ◌∙◌, ap, Some-map, ◌⊎◌, inl, inr, String, Bool, Option, none, some, List,
  [], ◌∷◌, arith, Some,
}
use pbt_devnet.Swap.{Reason, Verdict, wait, proceed, skip, reorged, SwapState, decide_swap}
use pbt_devnet.Swap.Gate.{MaySwap, decide_swap_iff}

module _ (fold_eq : String → String → Bool) where
  unfoldable pub wait_gate : List SwapState → Option (Verdict × Reason)
  wait_gate [] = none
  wait_gate (s ∷ rounds) =
      let later = wait_gate rounds in
      elim (decide_swap fold_eq s).0 [
        | wait ↦ later
        | proceed ↦ some (decide_swap fold_eq s)
        | skip ↦ some (decide_swap fold_eq s)
        | reorged ↦ some (decide_swap fold_eq s)
      ]

  wait_gate-cases :
      (s : SwapState) (rounds : List SwapState)
      → ((decide_swap fold_eq s).0 ≡ wait) × (wait_gate (s ∷ rounds) ≡ wait_gate rounds)
        ⊎ ((decide_swap fold_eq s).0 ≢ wait)
          × (wait_gate (s ∷ rounds) ≡ some (decide_swap fold_eq s))
  unfolding wait_gate
  wait_gate-cases s rounds = ground arith

  ended_by :
      (rounds : List SwapState) (r : Verdict × Reason)
      → wait_gate rounds ≡ some r
      → Some (λ s. decide_swap fold_eq s ≡ r) rounds
  unfolding wait_gate
  ended_by [] r h = absurd (cc)
  ended_by (s ∷ rounds) r h = elim (wait_gate-cases s rounds) [
    | inl (e, k) ↦ inr (ended_by rounds r (sym k ∙ h))
    | inr (e, k) ↦ inl (let q = sym k ∙ h in cc)
  ]

  -- If the loop lets the swap proceed, every swap condition held in one of its rounds.
  pub wait_gate_opens :
      (rounds : List SwapState) (r : Verdict × Reason)
      → wait_gate rounds ≡ some r
      → r.0 ≡ proceed
      → Some (MaySwap fold_eq) rounds
  wait_gate_opens rounds r h p =
      Some-map (λ s. decide_swap fold_eq s ≡ r) (MaySwap fold_eq)
        (λ s e. (decide_swap_iff fold_eq s).0 (ap (λ (x : Verdict × Reason). x.0) e ∙ p)) rounds
        (ended_by rounds r h)

  late-skip :
      (s : SwapState) → s.fork < s.now + s.expected + s.margin → (decide_swap fold_eq s).0 ≡ skip
  unfolding decide_swap
  late-skip s h = ground arith

  -- The loop ends: once a round reads a time too late for the swap, it has a verdict.
  pub wait_gate_ends :
      (rounds : List SwapState)
      → Some (λ s. s.fork < s.now + s.expected + s.margin) rounds
      → (r : Verdict × Reason) × (wait_gate rounds ≡ some r) × (r.0 ≢ wait)
  wait_gate_ends [] h = absurd h
  wait_gate_ends (s ∷ rounds) h = elim (wait_gate-cases s rounds) [
    | inr (e, k) ↦ (decide_swap fold_eq s, k, e)
    | inl (e, k) ↦ elim h [
      | inl late ↦ absurd (let q = late-skip s late in cc)
      | inr more ↦ let (r, f, w) = wait_gate_ends rounds more in (r, k ∙ f, w)
    ]
  ]
