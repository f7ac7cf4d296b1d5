-- ===== src/Verify/Completion/Known.antt =====
-- The nodes that the check of the completion judges (cmd/verify-migration/boundary.go:
-- introspectingNodes; checks.go: progressNodes).
use pbt_devnet.Prelude.{
  ◌≡◌, refl, sym, ◌∙◌, ◌↔◌, ◌⊎◌, inl, inr, String, Bool, true, false, not, Option, none, some, List,
  [], ◌∷◌, keep, some_of, some_of-Some, str_eq, eq_iff, Some, Some-map, Some-member, subst,
  Some-keep, sort-Some, sort, Bool-cases, arith, if◌then◌else◌,
}
use pbt_devnet.Lineage.Views.{str_lt}
use pbt_devnet.Verify.Completion.{
  Watched, final_seen, progress_seen, other_watched, ClientSpec, progress_nodes, introspects_at,
  introspecting_nodes,
}

abbrev pub IsMember : String → List String → Type 0
IsMember m = Some (λ x. x ≡ m)

module _ {Raw : Type 0} (m : String) where
  -- A report of a node's progress.
  abbrev pub IsReport : Watched Raw → Type 0
  IsReport (final_seen n at) = ⊥
  IsReport (progress_seen n at raw) = n ≡ m
  IsReport other_watched = ⊥

  nodes_to :
      (seen : List String) (evs : List (Watched Raw))
      → IsMember m (progress_nodes seen evs)
      → Some IsReport evs
  unfolding progress_nodes
  nodes_to seen [] h = h
  nodes_to seen (final_seen n at ∷ evs) h = inr (nodes_to seen evs h)
  nodes_to seen (other_watched ∷ evs) h = inr (nodes_to seen evs h)
  nodes_to seen (progress_seen n at raw ∷ evs) h =
      by_known (some_of (λ x. str_eq x n) seen) (nodes_to seen evs) (nodes_to (n ∷ seen) evs) h
    where
      by_known :
          (known : Bool)
          → (IsMember m (progress_nodes seen evs) → Some IsReport evs)
          → (IsMember m (progress_nodes (n ∷ seen) evs) → Some IsReport evs)
          → IsMember m
              (if known then progress_nodes seen evs else n ∷ progress_nodes (n ∷ seen) evs)
          → (n ≡ m) ⊎ Some IsReport evs
      by_known true old new k = inr (old k)
      by_known false old new (inl e) = inl e
      by_known false old new (inr k) = inr (new k)

  nodes_from :
      (seen : List String) (evs : List (Watched Raw))
      → Some IsReport evs
      → IsMember m (progress_nodes seen evs) ⊎ IsMember m seen
  unfolding progress_nodes
  nodes_from seen [] h = inl h
  nodes_from seen (final_seen n at ∷ evs) (inr h) = nodes_from seen evs h
  nodes_from seen (final_seen n at ∷ evs) (inl h) = absurd h
  nodes_from seen (other_watched ∷ evs) (inr h) = nodes_from seen evs h
  nodes_from seen (other_watched ∷ evs) (inl h) = absurd h
  nodes_from seen (progress_seen n at raw ∷ evs) h =
      by_known (some_of (λ x. str_eq x n) seen) (some_of-Some (λ x. str_eq x n) seen).0
        (nodes_from seen evs) (nodes_from (n ∷ seen) evs) h
    where
      by_known :
          (known : Bool)
          → (known ≡ true → Some (λ x. str_eq x n ≡ true) seen)
          → (Some IsReport evs → IsMember m (progress_nodes seen evs) ⊎ IsMember m seen)
          → (Some IsReport evs → IsMember m (progress_nodes (n ∷ seen) evs) ⊎ IsMember m (n ∷ seen))
          → (n ≡ m) ⊎ Some IsReport evs
          → IsMember m
              (if known then progress_nodes seen evs else n ∷ progress_nodes (n ∷ seen) evs)
            ⊎ IsMember m seen
      by_known true found old new (inl e) =
          inr (Some-map _ _ (λ x k. (eq_iff x n).0 k ∙ e) seen (found refl))
      by_known true found old new (inr k) = old k
      by_known false found old new (inl e) = inl (inl e)
      by_known false found old new (inr k) = elim (new k) [
        | inl a ↦ inl (inr a)
        | inr (inl e) ↦ inl (inl e)
        | inr (inr b) ↦ inr b
      ]

module _ (spec_of : String → Option ClientSpec) {Raw : Type 0} (evs : List (Watched Raw)) where
  -- A node that reported progress, whose client `s` tells of its migration.
  abbrev pub IsJudged : String → ClientSpec → Type 0
  IsJudged m s = Some (IsReport m) evs × (spec_of m ≡ some s) × (s.introspects ≡ true)

  -- A node that reported progress, of another client or of one that is not in the registry.
  abbrev pub IsDegraded : String → Type 0
  IsDegraded m = Some (IsReport m) evs × ((s : ClientSpec) → ¬ IsJudged m s)

  introspects_iff :
      (m : String)
      → (introspects_at spec_of m ≡ true)
        ↔ ((s : ClientSpec) × (spec_of m ≡ some s) × (s.introspects ≡ true))
  introspects_iff m = by_spec (spec_of m) refl
    where
      by_spec :
          (x : Option ClientSpec)
          → spec_of m ≡ x
          → let it : Bool = elim x [ none ↦ false | some s ↦ s.introspects ] in
            (it ≡ true) ↔ ((s : ClientSpec) × (spec_of m ≡ some s) × (s.introspects ≡ true))
      by_spec none e = (λ h. absurd (cc), λ (s, e', _). absurd (cc))
      by_spec (some s) e = (λ h. (s, e, h), λ (s', e', h). let same : s' ≡ s = cc in cc)

  listed_iff :
      (p : String → Bool) (m : String)
      → IsMember m (sort str_lt (keep p (progress_nodes [] evs)))
        ↔ (Some (IsReport m) evs × (p m ≡ true))
  listed_iff p m =
      let (s_to, s_from) = sort-Some str_lt (λ x. x ≡ m) (keep p (progress_nodes [] evs)) in
      let (k_to, k_from) = Some-keep (λ x. x ≡ m) p (progress_nodes [] evs) in
      (
        λ h.
            let (n, is, (e, k)) = Some-member _ _ (k_to (s_to h)) in
            (nodes_to m [] evs (Some-map _ _ (λ x z. z ∙ k) _ is), subst (λ x. p x ≡ true) k e),
        λ (r, e). elim (nodes_from m [] evs r) [
          | inl k ↦
              s_from (k_from (Some-map _ _ (λ x z. (subst (λ y. p y ≡ true) (sym z) e, z)) _ k))
          | inr none' ↦ absurd none'
        ],
      )

  pub IsJudged-iff :
      (m : String)
      → IsMember m (introspecting_nodes spec_of evs).0 ↔ ((s : ClientSpec) × IsJudged m s)
  unfolding introspecting_nodes
  IsJudged-iff m =
      let (to, from) = listed_iff (introspects_at spec_of) m in
      let (i_to, i_from) = introspects_iff m in
      (
        λ h. let (r, i) = to h in let (s, e, k) = i_to i in (s, (r, e, k)),
        λ (s, (r, e, k)). from (r, i_from (s, e, k)),
      )

  pub IsDegraded-iff : (m : String) → IsMember m (introspecting_nodes spec_of evs).1 ↔ IsDegraded m
  unfolding introspecting_nodes
  IsDegraded-iff m =
      let (to, from) = listed_iff (λ x. not (introspects_at spec_of x)) m in
      let (i_to, i_from) = introspects_iff m in
      (
        λ h.
            let (r, n) = to h in
            (r, λ s (_, e, k). let i = i_from (s, e, k) in absurd (ground (arith, i, n))),
        λ (r, other). from (
          r,
          elim (Bool-cases (introspects_at spec_of m)) [
            | inl e ↦ let (s, e', k) = i_to e in absurd (other s (r, e', k))
            | inr e ↦ rw e refl
          ],
        ),
      )
