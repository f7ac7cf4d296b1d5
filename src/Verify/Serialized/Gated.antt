-- ===== src/Verify/Serialized/Gated.antt =====
-- A swap that its gate let through (cmd/migration-swap/gate.go: decideSwap, chaosFree), before the
-- check of its window against the schedule (cmd/verify-migration/offline.go: checkSwapsSerialized).
use pbt_devnet.Prelude.{
  ℕ, ◌+◌, ◌≤◌, ◌<◌, ◌≡◌, ◌↔◌, ◌⊎◌, inl, inr, String, Bool, List, [], ◌∷◌, keep, iff_trans,
  Bool-cases, All, All-both, All-iff, Some, arith, ltb, ltb→lt, ltb→ge,
}
use pbt_devnet.Dump.{DumpOp, Dump, latest, runs, admitted}
use pbt_devnet.Dump.Gaps.{Occupies}
use pbt_devnet.Swap.{SwapState, proceed, decide_swap, chaos_free, gap_horizon}
use pbt_devnet.Swap.Gate.{decide_swap_iff}
use pbt_devnet.Swap.Chaos.{chaos_free-clear}
use pbt_devnet.Verify.Serialized.{SwapWindow, op_problems}
use pbt_devnet.Verify.Serialized.Clear.{IsClear, op_problems_iff}

-- An op opens before it ends, and holds its victims until its end at least.
abbrev pub IsTimed : DumpOp → Type 0
IsTimed o = (o.start < o.end) × (o.end ≤ latest o)

-- An op is over by an instant, or starts when so much time has gone by.
abbrev IsOver : (now gap : ℕ) → DumpOp → Type 0
IsOver now gap o = (latest o ≤ now) ⊎ (now + gap ≤ o.start)

-- An op that occupies no instant of a span is over before it, or starts after it.
one-IsOver :
    (now gap : ℕ) (o : DumpOp)
    → o.start < latest o
    → 0 < gap
    → ((t : ℕ) → now ≤ t → t < now + gap → ¬ ((o.start ≤ t) × (t < latest o)))
    → IsOver now gap o
one-IsOver now gap o timed wide free = elim (Bool-cases (ltb now (latest o))) [
  | inr over ↦ inl (ltb→ge _ _ over)
  | inl runs_on ↦ elim (Bool-cases (ltb o.start (now + gap))) [
    | inr later ↦ inr (ltb→ge _ _ later)
    | inl soon ↦
        let ends = ltb→lt _ _ runs_on in
        let starts = ltb→lt _ _ soon in
        elim (Bool-cases (ltb now o.start)) [
          | inl ahead ↦
              absurd (free o.start (omega (arith, ltb→lt _ _ ahead)) starts (omega arith, timed))
          | inr open' ↦
              absurd
                (free now (omega arith) (omega (arith, ltb→ge _ _ open')) (ltb→ge _ _ open', ends))
        ]
  ]
]

ops-IsOver :
    (now gap : ℕ) (ops : List DumpOp)
    → 0 < gap
    → ((t : ℕ) → now ≤ t → t < now + gap → ¬ Some (Occupies t) ops)
    → All IsTimed (keep runs ops)
    → All (IsOver now gap) (keep runs ops)
ops-IsOver now gap [] wide free timed = tt
ops-IsOver now gap (o ∷ ops) wide free timed = elim (Bool-cases (runs o)) [
  | inr refused ↦
      rw refused (ops-IsOver now gap ops wide (λ t a b h. free t a b (inr h)) (rw refused at timed))
  | inl admits ↦
      let timed' : IsTimed o × All IsTimed (keep runs ops) = rw admits at timed in
      rw admits (
        one-IsOver now gap o (omega (arith, timed'.0.0, timed'.0.1)) wide
            (λ t a b h. free t a b (inl (admits, h))),
        ops-IsOver now gap ops wide (λ t a b h. free t a b (inr h)) timed'.1,
      )
]

module _ (s : SwapState) (w : SwapWindow) where
  -- The op ended a minute before the swap stopped its node, if it was over when the gate opened.
  abbrev pub IsSettled : DumpOp → Type 0
  IsSettled o = latest o ≤ s.now → o.end + 60 < w.start

  IsSettled-iff :
      s.now ≤ w.start
      → w.start ≤ w.end
      → w.end ≤ s.now + s.expected
      → s.expected + 120 ≤ s.gap
      → (o : DumpOp) → IsTimed o
      → IsOver s.now s.gap o
      → IsClear w o ↔ IsSettled o
  IsSettled-iff after ordered ends calm o timed (inl over) = (
    λ c _. elim c [ inl a ↦ a | inr b ↦ absurd (omega (arith, timed.0, timed.1)) ],
    λ f. inl (f over),
  )
  IsSettled-iff after ordered ends calm o timed (inr later) =
      (λ c e. absurd (omega (arith, timed.0, timed.1)), λ _. inr (omega arith))

module _ (fold_eq : String → String → Bool) (d : Dump) (s : SwapState) (w : SwapWindow) where
  -- If the gate lets a swap go on, by the dump's own chaos-free time, and the swap stops its node
  -- from then on and is done within its expected time, then the verifier's check against the ops
  -- that run finds no problem exactly if each of them that was over when the gate opened had ended
  -- more than a minute before the stop.
  pub gated-op_problems :
      s.gap ≡ chaos_free d s.now gap_horizon
      → (decide_swap fold_eq s).0 ≡ proceed
      → s.now ≤ w.start
      → w.start ≤ w.end
      → w.end ≤ s.now + s.expected
      → All IsTimed (admitted d)
      → (op_problems w (admitted d) ≡ []) ↔ All (IsSettled s w) (admitted d)
  unfolding admitted
  gated-op_problems gap opens after ordered ends timed =
      let may = (decide_swap_iff fold_eq s).0 opens in
      let over : All (IsOver s.now s.gap) (keep runs d.ops) =
        ops-IsOver s.now s.gap d.ops (omega (arith, may.calm))
          (λ t a b. (chaos_free-clear d s.now gap_horizon t a (omega (arith, gap))).1) timed in
      iff_trans (op_problems_iff w (keep runs d.ops)) (
        All-iff (IsClear w) (IsSettled s w) _ (
          All-both _ _ _ (λ o t r. IsSettled-iff s w after ordered ends may.calm o t r) _ timed
            over))
