-- ===== src/Verify/Partitions/Paired.antt =====
-- The windows of one node (cmd/verify-migration/checks.go: chaosWindows).
use pbt_devnet.Prelude.{
  ℕ, ◌≡◌, ◌≢◌, refl, sym, ap, subst, ◌∙◌, String, Bool, true, false, Option, none, some, List, [],
  ◌∷◌, ◌++◌, keep-append, str_eq, eq_iff, if◌then◌else◌, Bool-cases, is_some, inl, inr,
}
use mathlib.Core.Path.{ap₂}
use pbt_devnet.Prelude.Maps.{lookup, store, erase, has_key, lookup-store, lookup-erase, string_key}
use pbt_devnet.Verify.Partitions.{
  ChaosSeen, isolated, healed, scheduled, other_record, ChaosWindow, Open, close_all, pair_from,
  chaos_windows,
}
use pbt_devnet.Verify.Partitions.Spans.{
  spans, of_node, held, IsSingle, close_all-held, store-IsSingle, erase-IsSingle,
}

-- What an isolation leaves of a node's state.
abbrev cut : Bool → ℕ → Option ℕ → Option ℕ
cut same t none = if same then some t else none
cut same t (some f) = some f

spans-isolated :
    {Raw : Type 0} (n m : String) (t : ℕ) (s : Option ℕ) (evs : List (ChaosSeen Raw))
    → spans n s (isolated m t ∷ evs) ≡ spans n (cut (str_eq m n) t s) evs
unfolding spans
spans-isolated n m t none evs = refl
spans-isolated n m t (some f) evs = refl

cut_held : (same : Bool) (t : ℕ) (s : Option ℕ) → (same ≡ true → s ≢ none) → s ≡ cut same t s
cut_held true t none known = absurd (known refl refl)
cut_held false t none known = refl
cut_held same t (some f) known = refl

cut_new :
    (same : Bool) (t : ℕ) (s : Option ℕ)
    → (same ≡ true → s ≡ none)
    → (if same then some t else s) ≡ cut same t s
cut_new true t none free = refl
cut_new true t (some f) free = absurd (let h = free refl in cc)
cut_new false t none free = refl
cut_new false t (some f) free = refl

isolate-cut :
    (n m : String) (t : ℕ) (o : Open)
    → IsSingle n o
    → let next = if has_key m o then o else store m t o in
      IsSingle n next × (lookup n next ≡ cut (str_eq m n) t (lookup n o))
isolate-cut n m t o single = by_entry (lookup m o) refl
  where
    by_entry :
        (e : Option ℕ)
        → lookup m o ≡ e
        → let next = if is_some e then o else store m t o in
          IsSingle n next × (lookup n next ≡ cut (str_eq m n) t (lookup n o))
    by_entry (some g) e = (
      single,
      cut_held (str_eq m n) t (lookup n o)
          (λ h k. let same = (eq_iff m n).0 h in cc (ap (λ x. lookup x o) same)),
    )
    by_entry none e = (
      store-IsSingle n m t o e single,
      rw lookup-store (
          cut_new (str_eq m n) t (lookup n o)
            (λ h. let same = (eq_iff m n).0 h in cc (ap (λ x. lookup x o) same))),
    )

open_end :
    (Raw : Type 0) (n : String) (s : Option ℕ)
    → close_all none (held n s) ≡ spans {Raw = Raw} n s []
unfolding spans
open_end Raw n none = refl
open_end Raw n (some f) = refl

-- A heal of every node.
spans-healed_all :
    {Raw : Type 0} (n m : String) (t : ℕ) (s : Option ℕ) (evs : List (ChaosSeen Raw))
    → str_eq m "" ≡ true
    → close_all (some t) (held n s) ++ spans n none evs ≡ spans n s (healed m t ∷ evs)
unfolding spans
spans-healed_all n m t none evs e = refl
spans-healed_all n m t (some f) evs e = rw (e, spans)

-- A heal of another node, or of this one.
spans-healed_other :
    {Raw : Type 0} (n m : String) (t : ℕ) (s : Option ℕ) (evs : List (ChaosSeen Raw))
    → str_eq m "" ≡ false
    → str_eq m n ≡ false
    → spans n s evs ≡ spans n s (healed m t ∷ evs)
unfolding spans
spans-healed_other n m t none evs all other = refl
spans-healed_other n m t (some f) evs all other = rw (all, other, spans)

spans-healed_it :
    {Raw : Type 0} (n m : String) (t : ℕ) (s : Option ℕ) (evs : List (ChaosSeen Raw))
    → str_eq m n ≡ true
    → close_all (some t) (held n s) ++ spans n none evs ≡ spans n s (healed m t ∷ evs)
unfolding spans
spans-healed_it n m t none evs e = refl
spans-healed_it n m t (some f) evs e = elim (Bool-cases (str_eq m "")) [
  | inl all ↦ rw (all, spans)
  | inr one ↦ rw (one, e, spans)
]

heal_one :
    {Raw : Type 0} (n m : String) (t : ℕ) (o : Open) (evs : List (ChaosSeen Raw))
    → IsSingle n o
    → str_eq m "" ≡ false
    → (e : Option ℕ) → lookup m o ≡ e
    → ((o' : Open) → IsSingle n o' → of_node n (pair_from o' evs) ≡ spans n (lookup n o') evs)
    → let it : List ChaosWindow = elim e [
      | none ↦ pair_from o evs
      | some f ↦ record { node = m; from = f; to = some t } ∷ pair_from (erase m o) evs
    ] in
      of_node n it ≡ spans n (lookup n o) (healed m t ∷ evs)
heal_one n m t o evs single one none e rec = elim (Bool-cases (str_eq m n)) [
  | inl it ↦
      let z : lookup n o ≡ none = subst (λ k. lookup k o ≡ none) ((eq_iff m n).0 it) e in
      rec o single
      ∙ ap (λ s. spans n s evs) z
      ∙ subst (λ s. spans n none evs ≡ spans n s (healed m t ∷ evs)) (sym z)
          (spans-healed_it n m t none evs it)
  | inr other ↦ rec o single ∙ spans-healed_other n m t (lookup n o) evs one other
]
heal_one n m t o evs single one (some f) e rec = elim (Bool-cases (str_eq m n)) [
  | inl it ↦
      let same = (eq_iff m n).0 it in
      let z : lookup n o ≡ some f = subst (λ k. lookup k o ≡ some f) same e in
      rw it (
        ap₂ (λ k l. close_all (some t) ((k, f) ∷ []) ++ l) same
          (rec (erase m o) (erase-IsSingle n m o single)
            ∙ ap (λ s. spans n s evs) (rw (lookup-erase, it)))
        ∙ subst
            (λ s.
              close_all (some t) (held n (some f)) ++ spans n none evs
              ≡ spans n s (healed m t ∷ evs))
            (sym z) (spans-healed_it n m t (some f) evs it))
  | inr other ↦ rw other (
      rec (erase m o) (erase-IsSingle n m o single)
      ∙ ap (λ s. spans n s evs) (rw (lookup-erase, other))
      ∙ spans-healed_other n m t (lookup n o) evs one other)
]

heal_any :
    {Raw : Type 0} (n m : String) (t : ℕ) (o : Open) (evs : List (ChaosSeen Raw))
    → IsSingle n o
    → (all : Bool) → str_eq m "" ≡ all
    → ((o' : Open) → IsSingle n o' → of_node n (pair_from o' evs) ≡ spans n (lookup n o') evs)
    → let it : List ChaosWindow = elim all [
      | true ↦ close_all (some t) o ++ pair_from [] evs
      | false ↦ elim (lookup m o) [
        | none ↦ pair_from o evs
        | some f ↦ record { node = m; from = f; to = some t } ∷ pair_from (erase m o) evs
      ]
    ] in
      of_node n it ≡ spans n (lookup n o) (healed m t ∷ evs)
unfolding lookup
heal_any n m t o evs single true all rec =
    keep-append (λ w. str_eq w.node n) (close_all (some t) o) (pair_from [] evs)
    ∙ ap₂ ◌++◌ (close_all-held (some t) n o ∙ ap (close_all (some t)) single) (rec [] refl)
    ∙ spans-healed_all n m t (lookup n o) evs all
heal_any n m t o evs single false one rec = heal_one n m t o evs single one (lookup m o) refl rec

module _ {Raw : Type 0} (n : String) where
  pair_from-spans :
      (evs : List (ChaosSeen Raw)) (o : Open)
      → IsSingle n o
      → of_node n (pair_from o evs) ≡ spans n (lookup n o) evs
  unfolding pair_from
  pair_from-spans [] o single =
      close_all-held none n o ∙ ap (close_all none) single ∙ open_end Raw n (lookup n o)
  pair_from-spans (isolated m t ∷ evs) o single =
      let (next, is) = isolate-cut n m t o single in
      pair_from-spans evs (if has_key m o then o else store m t o) next
      ∙ ap (λ s. spans n s evs) is
      ∙ sym (spans-isolated n m t (lookup n o) evs)
  pair_from-spans (healed m t ∷ evs) o single =
      heal_any n m t o evs single (str_eq m "") refl (pair_from-spans evs)
  pair_from-spans (scheduled raw ∷ evs) o single =
      pair_from-spans evs o single ∙ unfold spans in refl
  pair_from-spans (other_record ∷ evs) o single =
      pair_from-spans evs o single ∙ unfold spans in refl

  -- The windows that the stream gives a node are those of the node alone, in their order, whatever
  -- the other nodes go through between.
  pub chaos_windows-spans :
      (evs : List (ChaosSeen Raw)) → of_node n (chaos_windows evs) ≡ spans n none evs
  unfolding chaos_windows lookup
  chaos_windows-spans evs = pair_from-spans evs [] refl
