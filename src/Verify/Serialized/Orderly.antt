-- ===== src/Verify/Serialized/Orderly.antt =====
-- When a swap has no problem of its own (cmd/verify-migration/offline.go: checkSwapsSerialized).
use pbt_devnet.Prelude.{
  ℕ, ◌≡◌, ◌≢◌, refl, sym, ap, ◌∙◌, subst, ◌↔◌, inl, inr, Bool, true, false, Option, none, some,
  List, [], ◌∷◌, ◌==◌, ==_iff, append-eq-nil, each-eq-nil, if◌then◌else◌, Bool-cases, All,
}
use pbt_devnet.Dump.{DumpOp}
use pbt_devnet.Swap.Evidence.{OfflineConsumer}
use pbt_devnet.Verify.{SwapDone}
use pbt_devnet.Verify.Serialized.{
  SwapProblem, problem_if, op_problems, timeout_problems, end_of, window_of, is_skipped,
  window_problems, swap_problems, all_swap_problems, swaps_anchor, stop_never_recorded,
  end_never_recorded,
}
use pbt_devnet.Verify.Serialized.Span.{span, IsBounded, skipped_iff, window_of-span}
use pbt_devnet.Verify.Serialized.Clear.{
  problem_if_iff, op_problems_iff, IsClear, IsTimely, timeout_problems_iff,
}

-- A swap that was not skipped stopped and ended, clear of the ops by a minute, within its timeout.
pub record IsOrderly (schedule : Option (List DumpOp)) (consumers : List OfflineConsumer)
    (s : SwapDone) : Type 0 where
  pub off_anchor : s.node ≢ 1
  pub bounded : s.status ≢ "skipped" → IsBounded s
  pub clear :
      s.status ≢ "skipped" → (ops : List DumpOp) → schedule ≡ some ops → All (IsClear (span s)) ops
  pub timely : s.status ≢ "skipped" → s.caught_up_at ≢ 0 → All (IsTimely s) consumers

module _ (schedule : Option (List DumpOp)) (consumers : List OfflineConsumer) where
  window_problems_iff :
      (s : SwapDone)
      → (window_problems schedule consumers s ≡ []) ↔ (
          ((ops : List DumpOp) → schedule ≡ some ops → All (IsClear (window_of s)) ops)
          × (s.caught_up_at ≢ 0 → All (IsTimely s) consumers))
  unfolding window_problems
  window_problems_iff s =
      let (split, join) = append-eq-nil (of_ops schedule) (of_time (s.caught_up_at == 0)) in
      (
        λ h. (ops_to schedule (split h).0, λ late. time_to _ refl (split h).1 late),
        λ h. join (ops_from schedule h.0, time_from _ refl h.1),
      )
    where
      of_ops : Option (List DumpOp) → List SwapProblem
      of_ops o = elim o [ none ↦ [] | some ops ↦ op_problems (window_of s) ops ]

      of_time : Bool → List SwapProblem
      of_time t = if t then [] else timeout_problems s consumers

      ops_to :
          (o : Option (List DumpOp))
          → of_ops o ≡ []
          → (ops : List DumpOp) → o ≡ some ops
          → All (IsClear (window_of s)) ops
      ops_to none h ops e = absurd (cc)
      ops_to (some xs) h ops e =
          subst (λ z. All (IsClear (window_of s)) z) (cc) ((op_problems_iff (window_of s) xs).0 h)

      ops_from :
          (o : Option (List DumpOp))
          → ((ops : List DumpOp) → o ≡ some ops → All (IsClear (window_of s)) ops)
          → of_ops o ≡ []
      ops_from none h = refl
      ops_from (some xs) h = (op_problems_iff (window_of s) xs).1 (h xs refl)

      time_to :
          (t : Bool)
          → (s.caught_up_at == 0) ≡ t
          → of_time t ≡ []
          → s.caught_up_at ≢ 0
          → All (IsTimely s) consumers
      time_to true e h late = absurd (late ((==_iff s.caught_up_at 0).0 e))
      time_to false e h late = (timeout_problems_iff s consumers).0 h

      time_from :
          (t : Bool)
          → (s.caught_up_at == 0) ≡ t
          → (s.caught_up_at ≢ 0 → All (IsTimely s) consumers)
          → of_time t ≡ []
      time_from true e h = refl
      time_from false e h =
          (timeout_problems_iff s consumers).1 (h (λ z. cc (e, (==_iff s.caught_up_at 0).1 z)))

  pub swap_problems_iff :
      (s : SwapDone) → (swap_problems schedule consumers s ≡ []) ↔ IsOrderly schedule consumers s
  unfolding swap_problems
  swap_problems_iff s =
      let (split, join) =
        append-eq-nil (problem_if (s.node == 1) swaps_anchor)
          (rest (is_skipped s) (s.stop_at == 0) (end_of s == 0)) in
      (
        λ h. to_parts _ refl _ refl _ refl (split h).1 (λ e.
            cc ((problem_if_iff (s.node == 1) swaps_anchor).0 (split h).0, (==_iff s.node 1).1 e)),
        λ o. join (
          (problem_if_iff (s.node == 1) swaps_anchor).1 (not_eq s.node 1 o.off_anchor),
          from_parts o _ refl _ refl _ refl,
        ),
      )
    where
      not_eq : (a b : ℕ) → a ≢ b → (a == b) ≡ false
      not_eq a b h = elim (Bool-cases (a == b)) [
        | inl e ↦ absurd (h ((==_iff a b).0 e))
        | inr e ↦ e
      ]

      not_skipped : is_skipped s ≡ false → s.status ≢ "skipped"
      not_skipped e z = let k = (skipped_iff s).1 z in cc

      rest : (skip no_stop no_end : Bool) → List SwapProblem
      rest skip no_stop no_end =
          if skip
          then []
          else if no_stop
          then stop_never_recorded s.node ∷ []
          else if no_end
          then end_never_recorded s.node ∷ []
          else window_problems schedule consumers s

      to_parts :
          (skip : Bool)
          → is_skipped s ≡ skip
          → (no_stop : Bool) → (s.stop_at == 0) ≡ no_stop
          → (no_end : Bool) → (end_of s == 0) ≡ no_end
          → rest skip no_stop no_end ≡ []
          → s.node ≢ 1
          → IsOrderly schedule consumers s
      to_parts true ek _ es _ ee h off =
          let status = (skipped_iff s).0 ek in
          record {
            off_anchor = off;
            bounded = λ k. absurd (k status);
            clear = λ k. absurd (k status);
            timely = λ k. absurd (k status);
          }
      to_parts false ek true es _ ee h off = absurd (cc)
      to_parts false ek false es true ee h off = absurd (cc)
      to_parts false ek false es false ee h off =
          let (clear_of, timely_of) = (window_problems_iff s).0 h in
          let same = window_of-span s in
          record {
            off_anchor = off;
            bounded = λ k. (
              λ z. cc (es, (==_iff s.stop_at 0).1 z),
              λ z. cc (ee, (==_iff (end_of s) 0).1 (ap (λ w. w.end) same ∙ z)),
            );
            clear = λ k ops e. subst (λ w. All (IsClear w) ops) same (clear_of ops e);
            timely = λ k. timely_of;
          }

      from_parts :
          IsOrderly schedule consumers s
          → (skip : Bool) → is_skipped s ≡ skip
          → (no_stop : Bool) → (s.stop_at == 0) ≡ no_stop
          → (no_end : Bool) → (end_of s == 0) ≡ no_end
          → rest skip no_stop no_end ≡ []
      from_parts o true ek _ es _ ee = refl
      from_parts o false ek true es _ ee =
          absurd ((o.bounded (not_skipped ek)).0 ((==_iff s.stop_at 0).0 es))
      from_parts o false ek false es true ee = absurd (
          (o.bounded (not_skipped ek)).1
            (ap (λ w. w.end) (sym (window_of-span s)) ∙ (==_iff (end_of s) 0).0 ee))
      from_parts o false ek false es false ee = (window_problems_iff s).1 (
        λ ops e.
            subst (λ w. All (IsClear w) ops) (sym (window_of-span s))
              (o.clear (not_skipped ek) ops e),
        o.timely (not_skipped ek),
      )

  pub all_swap_problems_iff :
      (swaps : List SwapDone)
      → (all_swap_problems schedule consumers swaps ≡ []) ↔ All (IsOrderly schedule consumers) swaps
  unfolding all_swap_problems
  all_swap_problems_iff =
      each-eq-nil (swap_problems schedule consumers) (all_swap_problems schedule consumers)
        (IsOrderly schedule consumers) refl (λ s swaps. refl) swap_problems_iff
