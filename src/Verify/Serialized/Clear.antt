-- ===== src/Verify/Serialized/Clear.antt =====
-- When a swap adds no problem against the ops, the timeouts and the other swaps (checkSwapsSerialized of
-- cmd/verify-migration/offline.go).
use pbt_devnet.Prelude.{
  ◌+◌, ◌-◌, ◌≤◌, ◌<◌, ◌≡◌, refl, ◌↔◌, ◌⊎◌, inl, inr, Bool, true, false, List, [], ◌∷◌, ltb, leb,
  append-eq-nil, each-eq-nil, iff_trans, Bool-cases, All, arith,
}
use pbt_devnet.Dump.{DumpOp}
use pbt_devnet.Swap.Evidence.{OfflineConsumer}
use pbt_devnet.Verify.{SwapDone}
use pbt_devnet.Verify.Serialized.{
  SwapWindow, problem_if, meets_op, op_problems, is_late, timeout_problems, overlap, overlaps_with,
  pair_problems, overlaps_op, over_timeout, windows_overlap,
}

pub problem_if_iff : {P : Type 0} (t : Bool) (p : P) → (problem_if t p ≡ []) ↔ (t ≡ false)
problem_if_iff true p = (λ h. cc, λ h. cc)
problem_if_iff false p = (λ h. refl, λ h. refl)

-- A minute at least between a window and an op.
abbrev pub IsClear : SwapWindow → DumpOp → Type 0
IsClear w o = (o.end + 60 < w.start) ⊎ (w.end + 60 < o.start)

op_iff : (w : SwapWindow) (o : DumpOp) → (meets_op w o ≡ false) ↔ IsClear w o
unfolding meets_op
op_iff w o = (
  λ h. elim (Bool-cases (leb w.start (o.end + 60))) [
    | inl e ↦ inr (ground (arith, h))
    | inr e ↦ inl (ground (arith, h))
  ],
  λ h. elim h [ inl a ↦ ground arith | inr b ↦ ground arith ],
)

pub op_problems_iff :
    (w : SwapWindow) (ops : List DumpOp) → (op_problems w ops ≡ []) ↔ All (IsClear w) ops
unfolding op_problems
op_problems_iff w =
    each-eq-nil _ (op_problems w) (IsClear w) refl (λ o ops. refl)
      λ o. iff_trans (problem_if_iff _ (overlaps_op w.node o.name)) (op_iff w o)

-- A consumer's own timeout, where it has one.
abbrev pub IsTimely : SwapDone → OfflineConsumer → Type 0
IsTimely s c =
    c.node ≡ s.node → 0 < c.timeout_seconds → s.caught_up_at - s.stop_at ≤ c.timeout_seconds

late_iff : (s : SwapDone) (c : OfflineConsumer) → (is_late s c ≡ false) ↔ IsTimely s c
unfolding is_late
late_iff s c = (
  λ h e p. ground (arith, h),
  λ h. elim (Bool-cases (is_late s c)) [
    | inr e ↦ unfold is_late in e
    | inl e ↦
        let same : c.node ≡ s.node = ground (arith, e) in
        let bounded : 0 < c.timeout_seconds = ground (arith, e) in
        let over : c.timeout_seconds < s.caught_up_at - s.stop_at = ground (arith, e) in
        absurd (omega (arith, h same bounded))
  ],
)

pub timeout_problems_iff :
    (s : SwapDone) (cs : List OfflineConsumer) → (timeout_problems s cs ≡ []) ↔ All (IsTimely s) cs
unfolding timeout_problems
timeout_problems_iff s =
    each-eq-nil _ (timeout_problems s) (IsTimely s) refl (λ c cs. refl)
      λ c.
        iff_trans
          (problem_if_iff _ (over_timeout s.node (s.caught_up_at - s.stop_at) c.timeout_seconds))
          (late_iff s c)

abbrev pub IsApart : SwapWindow → SwapWindow → Type 0
IsApart w u = (u.end ≤ w.start) ⊎ (w.end ≤ u.start)

abbrev pub AreApart : List SwapWindow → Type 0
AreApart [] = Unit
AreApart (w ∷ ws) = All (IsApart w) ws × AreApart ws

IsApart-iff : (w u : SwapWindow) → (overlap w u ≡ false) ↔ IsApart w u
unfolding overlap
IsApart-iff w u = (
  λ h. elim (Bool-cases (ltb w.start u.end)) [
    | inl e ↦ inr (ground (arith, h))
    | inr e ↦ inl (ground (arith, h))
  ],
  λ h. elim h [ inl a ↦ ground arith | inr b ↦ ground arith ],
)

overlaps_with_iff :
    (w : SwapWindow) (us : List SwapWindow) → (overlaps_with w us ≡ []) ↔ All (IsApart w) us
unfolding overlaps_with
overlaps_with_iff w =
    each-eq-nil _ (overlaps_with w) (IsApart w) refl (λ u us. refl)
      λ u. iff_trans (problem_if_iff _ (windows_overlap w.node u.node)) (IsApart-iff w u)

pub pair_problems_iff : (ws : List SwapWindow) → (pair_problems ws ≡ []) ↔ AreApart ws
unfolding pair_problems
pair_problems_iff [] = (λ h. tt, λ h. refl)
pair_problems_iff (w ∷ ws) =
    let (split, join) = append-eq-nil (overlaps_with w ws) (pair_problems ws) in
    let (to, from) = pair_problems_iff ws in
    let (c_to, c_from) = overlaps_with_iff w ws in
    (λ h. (c_to (split h).0, to (split h).1), λ h. join (c_from h.0, from h.1))
