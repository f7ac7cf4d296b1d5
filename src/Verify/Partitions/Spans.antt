-- ===== src/Verify/Partitions/Spans.antt =====
-- One node's part of the windows that are open (cmd/verify-migration/checks.go: chaosWindows).
use pbt_devnet.Prelude.{
  ℕ, ◌≡◌, refl, ap, subst, ◌∙◌, String, Bool, true, false, ◌||◌, Option, none, some, List, [], ◌∷◌,
  ◌++◌, keep-append, keep, str_eq, eq_iff, if◌then◌else◌, Bool-cases, inl, inr, arith,
}
use mathlib.Core.List.{append-nil}
use pbt_devnet.Prelude.Maps.{lookup, store, erase, lookup-store, lookup-erase, string_key}
use pbt_devnet.Verify.Partitions.{
  ChaosSeen, isolated, healed, scheduled, other_record, ChaosWindow, Open, close_all,
}

-- A node alone: whether it is cut off, and since when. An isolation of a node that is cut off
-- already says nothing new; a heal of the node or of every node ends its partition.
unfoldable pub spans :
    {Raw : Type 0} → (n : String) → (since : Option ℕ) → List (ChaosSeen Raw) → List ChaosWindow
spans n none [] = []
spans n (some f) [] = record { node = n; from = f; to = none } ∷ []
spans n none (isolated m t ∷ evs) = spans n (if str_eq m n then some t else none) evs
spans n (some f) (isolated m t ∷ evs) = spans n (some f) evs
spans n none (healed m t ∷ evs) = spans n none evs
spans n (some f) (healed m t ∷ evs) = elim (str_eq m "" || str_eq m n) [
  | true ↦ record { node = n; from = f; to = some t } ∷ spans n none evs
  | false ↦ spans n (some f) evs
]
spans n s (scheduled raw ∷ evs) = spans n s evs
spans n s (other_record ∷ evs) = spans n s evs

abbrev pub of_node : String → List ChaosWindow → List ChaosWindow
of_node n ws = keep (λ w. str_eq w.node n) ws

-- What is open of a node.
abbrev pub held : String → Option ℕ → Open
held n none = []
held n (some f) = (n, f) ∷ []

-- A node has one entry at most.
abbrev pub IsSingle : String → Open → Type 0
IsSingle n o = keep (λ e. str_eq e.0 n) o ≡ held n (lookup n o)

pub close_all-held :
    (to : Option ℕ) (n : String) (o : Open)
    → of_node n (close_all to o) ≡ close_all to (keep (λ e. str_eq e.0 n) o)
close_all-held to n [] = refl
close_all-held to n ((k, f) ∷ o) = elim (Bool-cases (str_eq k n)) [
  | inl e ↦ rw e (rw (close_all-held to n o))
  | inr e ↦ rw e (close_all-held to n o)
]

keep-erase :
    (n k : String) (o : Open)
    → keep (λ e. str_eq e.0 n) (erase k o) ≡ (if str_eq k n then [] else keep (λ e. str_eq e.0 n) o)
unfolding erase
keep-erase n k [] = ground arith
keep-erase n k ((j, f) ∷ o) = ground (arith, eq_iff j k, eq_iff k n, eq_iff j n, keep-erase n k o)

store-absent : (k : String) (t : ℕ) (o : Open) → lookup k o ≡ none → store k t o ≡ o ++ (k, t) ∷ []
unfolding lookup store
store-absent k t [] absent = refl
store-absent k t ((j, f) ∷ o) absent = ground (arith, store-absent k t o)

pub store-IsSingle :
    (n k : String) (t : ℕ) (o : Open) → lookup k o ≡ none → IsSingle n o → IsSingle n (store k t o)
store-IsSingle n k t o absent single =
    ap (keep (λ e. str_eq e.0 n)) (store-absent k t o absent)
    ∙ keep-append (λ e. str_eq e.0 n) o ((k, t) ∷ [])
    ∙ ap (λ l. l ++ keep (λ e. str_eq e.0 n) ((k, t) ∷ [])) single
    ∙ rw lookup-store (by_key (str_eq k n) refl)
  where
    by_key :
        (b : Bool)
        → str_eq k n ≡ b
        → held n (lookup n o) ++ (if b then (k, t) ∷ [] else [])
          ≡ held n (if b then some t else lookup n o)
    by_key true e =
        let same : k ≡ n = (eq_iff k n).0 e in
        let free : lookup n o ≡ none = subst (λ x. lookup x o ≡ none) same absent in rw free (cc)
    by_key false e = append-nil _

pub erase-IsSingle : (n k : String) (o : Open) → IsSingle n o → IsSingle n (erase k o)
erase-IsSingle n k o single = keep-erase n k o ∙ elim (Bool-cases (str_eq k n)) [
  | inl e ↦ rw (lookup-erase, e)
  | inr e ↦ rw (lookup-erase, e) single
]
