-- ===== src/Lineage/Segments/Retired.antt =====
-- Retiring a record keeps the blocks, the heads and the filing (lineage.go: recompute).
use pbt_devnet.Prelude.{
  ℕ, ◌<◌, ◌≡◌, refl, sym, ap, subst, ◌∙◌, ◌⊎◌, inl, inr, String, Bool, true, false, none, some,
  List, [], ◌∷◌, ◌==◌, ==_iff, str_eq, eq_iff, if◌then◌else◌, Bool-cases, All, map, arith,
}
use pbt_devnet.Prelude.Maps.{Map, lookup, store, erase, has_key, nat_key, string_key, lookup-erase}
use pbt_devnet.Lineage.{Lineage, Segment, orphaned}
use pbt_devnet.Lineage.Walk.{contains}
use pbt_devnet.Lineage.Segments.{first_of, retire, is_live, adopt}
use pbt_devnet.Lineage.Segments.Filed.{IsFiled, Grows, Grows-refl, Grows-of_store}

first_of-erase :
    (id : ℕ) (first : String) (m : Map String ℕ)
    → str_eq first (first_of id m) ≡ false
    → first_of id (erase first m) ≡ first_of id m
unfolding first_of erase
first_of-erase id first [] h = refl
first_of-erase id first ((k, v) ∷ m) h = elim (Bool-cases (v == id)) [
  | inl here ↦
      let apart : str_eq first k ≡ false = rw here at h in
      ground (arith, eq_iff first k, eq_iff k first)
  | inr there ↦ let rec = first_of-erase id first m (rw there at h) in ground (arith, rec)
]

fresh-erase :
    (h : String) (n : ℕ) (m : Map String ℕ) → All (λ e. e.1 < n) m → All (λ e. e.1 < n) (erase h m)
unfolding erase
fresh-erase h n [] low = tt
fresh-erase h n ((k, v) ∷ m) low = elim (Bool-cases (str_eq k h)) [
  | inl e ↦ rw e (fresh-erase h n m low.1)
  | inr e ↦ rw e (low.0, fresh-erase h n m low.1)
]

not_erased :
    (k h : String) (id : ℕ) (m : Map String ℕ)
    → lookup h (erase k m) ≡ some id
    → (str_eq k h ≡ false) × (lookup h m ≡ some id)
not_erased k h id m e = elim (Bool-cases (str_eq k h)) [
  | inl same ↦
      let gone : none ≡ some id =
        subst (λ b. (if b then none else lookup h m) ≡ some id) same
          (sym (lookup-erase k h m) ∙ e) in
      absurd (cc)
  | inr other ↦ (
    other,
    subst (λ b. (if b then none else lookup h m) ≡ some id) other (sym (lookup-erase k h m) ∙ e),
  )
]

-- A branch that the anchor adopted leaves the files with its record.
adopted-IsFiled :
    (id : ℕ) (l l' : Lineage)
    → l'.recs ≡ erase id l.recs
    → l'.by_first ≡ erase (first_of id l.by_first) l.by_first
    → l'.next_id ≡ l.next_id
    → IsFiled l
    → IsFiled l'
adopted-IsFiled id l l' er ef en f =
    let first = first_of id l.by_first in
    let old = λ (h : String) (j : ℕ) (e : lookup h l'.by_first ≡ some j).
      not_erased first h j l.by_first (subst (λ m. lookup h m ≡ some j) ef e) in
    record {
      filed = λ h j e.
          let (apart, was) = old h j e in
          subst (λ m. has_key j m ≡ true) (sym er)
            (other_key h j apart was (f.filed h j was) (Bool-cases (id == j)));
      matched = λ h j e.
          let (apart, was) = old h j e in
          subst (λ m. first_of j m ≡ h) (sym ef)
            (first_of-erase j first l.by_first
                (subst (λ x. str_eq first x ≡ false) (sym (f.matched h j was)) apart)
              ∙ f.matched h j was);
      fresh =
          subst (λ n. All (λ e. e.1 < n) l'.by_first) (sym en)
            (subst (λ m. All (λ e. e.1 < l.next_id) m) (sym ef)
              (fresh-erase first l.next_id l.by_first f.fresh));
    }
  where
    other_key :
        (h : String) (j : ℕ)
        → str_eq (first_of id l.by_first) h ≡ false
        → lookup h l.by_first ≡ some j
        → has_key j l.recs ≡ true
        → ((id == j) ≡ true) ⊎ ((id == j) ≡ false)
        → has_key j (erase id l.recs) ≡ true
    other_key h j apart was there (inr other) = rw lookup-erase (rw other there)
    other_key h j apart was there (inl same) =
        let one : first_of j l.by_first ≡ h = f.matched h j was in
        let is_id : id ≡ j = (==_iff id j).0 same in
        absurd (
          cc (
            apart,
            (eq_iff (first_of id l.by_first) h).1 (ap (λ i. first_of i l.by_first) is_id ∙ one),
          ))

-- Steps that keep the store, the heads and the filing.
pub record Retires (l l' : Lineage) : Type 0 where
  pub same_blocks : l'.by_hash ≡ l.by_hash
  pub same_heads : l'.heads ≡ l.heads
  pub files : IsFiled l → IsFiled l'

pub Retires-of_Grows : {l l' : Lineage} → Grows l l' → Retires l l'
Retires-of_Grows g = record {
  same_blocks = g.same_blocks;
  same_heads = g.same_heads;
  files = g.files;
}

pub Retires-trans : {l m n : Lineage} → Retires l m → Retires m n → Retires l n
Retires-trans r q = record {
  same_blocks = q.same_blocks ∙ r.same_blocks;
  same_heads = q.same_heads ∙ r.same_heads;
  files = λ f. q.files (r.files f);
}

pub retire-Retires :
    (canonical : List String) (id : ℕ) (rec : Segment) (l : Lineage)
    → Retires l (retire canonical id rec l)
unfolding retire
retire-Retires canonical id rec l =
    by_tests (contains (first_of id l.by_first) canonical) (is_live rec.state)
  where
    by_tests :
        (adopted alive : Bool)
        → Retires l (
            if adopted
            then record l {
              reorgs = map (adopt id) l.reorgs;
              recs = erase id l.recs;
              by_first = erase (first_of id l.by_first) l.by_first;
            }
            else if alive
            then record l {
              recs =
                  store id
                    (record rec { state = orphaned; lost_by = rec.holders; holders = [] })
                    l.recs;
            }
            else l)
    by_tests true _ = record {
      same_blocks = refl;
      same_heads = refl;
      files = adopted-IsFiled id l _ refl refl refl;
    }
    by_tests false true = Retires-of_Grows (Grows-of_store l _ id _ refl refl refl refl refl)
    by_tests false false = Retires-of_Grows (Grows-refl l)
