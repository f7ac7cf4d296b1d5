-- ===== src/Verify/Completion/Judged.antt =====
-- When the check of the completion passes (cmd/verify-migration/boundary.go: checkCompletion).
use pbt_devnet.Prelude.{
  ℕ, ◌≡◌, ◌≢◌, refl, sym, ap, subst, inl, inr, false, All-of_members, ◌↔◌, String, Bool, Option,
  none, some, List, [], ◌∷◌, All, each-eq-nil,
}
use pbt_devnet.Migmon.{MigrationProgress}
use pbt_devnet.Verify.{Outcome, failed, passed, conclude, conclude_passed}
use pbt_devnet.Verify.Completion.{
  Watched, ClientSpec, CompletionProblem, node_problems, completion_problems, introspecting_nodes,
  check_completion, retires_at, no_introspecting,
}
use pbt_devnet.Verify.Completion.Known.{
  IsMember, IsJudged, IsDegraded, IsJudged-iff, IsDegraded-iff,
}
use pbt_devnet.Verify.Completion.Timed.{Completes, node_iff}

All-at : (P : String → Type 0) (ms : List String) → All P ms → (m : String) → IsMember m ms → P m
All-at P (x ∷ ms) all m (inl e) = subst P e all.0
All-at P (x ∷ ms) all m (inr k) = All-at P ms all.1 m k
All-at P [] all m h = absurd h

module _ (spec_of : String → Option ClientSpec) {Raw : Type 0}
    (decode : Raw → Option MigrationProgress) (fork : ℕ) where
  abbrev pub CompletesAs : List (Watched Raw) → String → Type 0
  CompletesAs evs m = Completes decode fork (retires_at spec_of m) m evs

  all_iff :
      (evs : List (Watched Raw)) (ms : List String)
      → (completion_problems spec_of decode fork ms evs ≡ []) ↔ All (CompletesAs evs) ms
  unfolding completion_problems
  all_iff evs =
      each-eq-nil (λ m. node_problems decode fork (retires_at spec_of m) m evs)
        (λ ms. completion_problems spec_of decode fork ms evs) (CompletesAs evs) refl (λ m ms. refl)
        (λ m. node_iff decode fork (retires_at spec_of m) m evs)

  -- What the check stands for.
  pub record IsCompleted (evs : List (Watched Raw)) (n : List String × List String) : Type 0 where
    pub some_judged : (m : String) × (s : ClientSpec) × IsJudged spec_of evs m s
    pub completes :
        (m : String) (s : ClientSpec)
        → IsJudged spec_of evs m s
        → Completes decode fork s.retires_shadow m evs
    pub told : introspecting_nodes spec_of evs ≡ n
    pub judged : (m : String) → IsMember m n.0 ↔ ((s : ClientSpec) × IsJudged spec_of evs m s)
    pub degraded : (m : String) → IsMember m n.1 ↔ IsDegraded spec_of evs m

  -- The nodes of the list complete exactly if every node that is judged does.
  listed_complete :
      (evs : List (Watched Raw))
      → All (CompletesAs evs) (introspecting_nodes spec_of evs).0 ↔ (
          (m : String) (s : ClientSpec)
          → IsJudged spec_of evs m s
          → Completes decode fork s.retires_shadow m evs)
  listed_complete evs = (
    λ all m s j.
        subst (λ b. Completes decode fork b m evs) (retires_at-of j)
          (All-at (CompletesAs evs) _ all m ((IsJudged-iff spec_of evs m).1 (s, j))),
    λ each. All-of_members (CompletesAs evs) _ λ m k.
        let (s, j) = (IsJudged-iff spec_of evs m).0 k in
        subst (λ b. Completes decode fork b m evs) (sym (retires_at-of j)) (each m s j),
  )
    where
      retires_at-of :
          {m : String} {s : ClientSpec}
          → IsJudged spec_of evs m s
          → retires_at spec_of m ≡ s.retires_shadow
      retires_at-of {m} {s} (_, e, _) =
          ap (λ x. let b : Bool = elim x [ none ↦ false | some c ↦ c.retires_shadow ] in b) e

  -- The check passes exactly if some node that reported progress has a client that introspects, and
  -- each such node completes: its reports decode, its merkle direction is not active before the
  -- fork, it says "done" at most 1500 s after the fork and at most 3 s before its fork block is first
  -- known to be final, and stays done, with nothing active and no shadow root if its client retires
  -- the other tree. The check tells the nodes that were judged, which are these, and those that were
  -- not, which are the others that reported.
  pub check_completion_iff :
      (evs : List (Watched Raw)) (n : List String × List String)
      → (check_completion spec_of decode fork evs ≡ passed n) ↔ IsCompleted evs n
  unfolding check_completion
  check_completion_iff evs n =
      let (to, from) =
        by_judged (introspecting_nodes spec_of evs).0 (introspecting_nodes spec_of evs).1 in
      let (each, all) = listed_complete evs in
      (
        λ h.
            let (some_one, complete, told) = to h in
            record {
              some_judged =
                  let (m, k) = first (introspecting_nodes spec_of evs).0 some_one in
                  let (s, j) = (IsJudged-iff spec_of evs m).0 k in (m, s, j);
              completes = each complete;
              told = told;
              judged = λ m.
                  subst (λ z. IsMember m z ↔ ((s : ClientSpec) × IsJudged spec_of evs m s))
                    (ap (λ p. p.0) told) (IsJudged-iff spec_of evs m);
              degraded = λ m.
                  subst (λ z. IsMember m z ↔ IsDegraded spec_of evs m) (ap (λ p. p.1) told)
                    (IsDegraded-iff spec_of evs m);
            },
        λ c. from (
          λ e.
              let (m, s, j) = c.some_judged in
              absurd (subst (IsMember m) e ((IsJudged-iff spec_of evs m).1 (s, j))),
          all c.completes,
          c.told,
        ),
      )
    where
      first : (ms : List String) → ms ≢ [] → (m : String) × IsMember m ms
      first [] h = absurd (h refl)
      first (m ∷ ms) h = (m, inl refl)

      by_judged :
          (judged degraded : List String)
          → let it : Outcome CompletionProblem (List String × List String) = elim judged [
            | [] ↦ failed (no_introspecting ∷ [])
            | m ∷ ms ↦
                conclude
                  (completion_problems spec_of decode fork (m ∷ ms) evs)
                  (passed (m ∷ ms, degraded))
          ] in
            (it ≡ passed n)
            ↔ ((judged ≢ []) × All (CompletesAs evs) judged × ((judged, degraded) ≡ n))
      by_judged [] degraded = (λ h. absurd (cc), λ h. absurd (h.0 refl))
      by_judged (m ∷ ms) degraded =
          let (split, join) =
            conclude_passed (completion_problems spec_of decode fork (m ∷ ms) evs)
              (passed (m ∷ ms, degraded)) n in
          let (to, from) = all_iff evs (m ∷ ms) in
          (
            λ h. (λ e. cc, to (split h).0, let z = (split h).1 in cc),
            λ (_, all, is). join (from all, ap passed is),
          )
