-- ===== src/Lineage/Segments/Filed.antt =====
-- The records and the first blocks of the branches (lineage.go: recs, byFirst and nextID): what a
-- segment id stands for, through segmentID and through the deletions of recompute.
use pbt_devnet.Prelude.{
  ℕ, suc, ◌<◌, ◌≡◌, refl, sym, subst, ◌∙◌, inl, inr, String, true, false, Option, none, some, [],
  ◌∷◌, ◌==◌, ==_iff, str_eq, if◌then◌else◌, Bool-cases, All, All-map, arith,
}
use pbt_devnet.Prelude.Maps.{
  Map, lookup, store, has_key, nat_key, string_key, lookup-store, store_inv,
}
use pbt_devnet.Lineage.{Lineage, Segment}
use pbt_devnet.Lineage.Segments.{segment_id, new_segment, first_of}

-- Every branch has a record, its id names its first block alone, and no id is used again.
pub record IsFiled (l : Lineage) : Type 0 where
  pub filed : (h : String) (id : ℕ) → lookup h l.by_first ≡ some id → has_key id l.recs ≡ true
  pub matched : (h : String) (id : ℕ) → lookup h l.by_first ≡ some id → first_of id l.by_first ≡ h
  pub fresh : All (λ e. e.1 < l.next_id) l.by_first

has_key-store :
    {V : Type 0} (id j : ℕ) (v : V) (m : Map ℕ V)
    → has_key id m ≡ true
    → has_key id (store j v m) ≡ true
has_key-store id j v m h = elim (Bool-cases (j == id)) [
  | inl e ↦ rw lookup-store (rw e refl)
  | inr e ↦ rw lookup-store (rw e h)
]

pub has_key-store_self :
    {V : Type 0} (id : ℕ) (v : V) (m : Map ℕ V) → has_key id (store id v m) ≡ true
has_key-store_self id v m = rw lookup-store (rw ((==_iff id id).1 refl) refl)

-- Steps that leave the store and the heads alone, and keep every record and the filing.
pub record Grows (l l' : Lineage) : Type 0 where
  pub same_blocks : l'.by_hash ≡ l.by_hash
  pub same_heads : l'.heads ≡ l.heads
  pub keeps : (id : ℕ) → has_key id l.recs ≡ true → has_key id l'.recs ≡ true
  pub files : IsFiled l → IsFiled l'

pub Grows-refl : (l : Lineage) → Grows l l
Grows-refl l = record { same_blocks = refl; same_heads = refl; keeps = λ id h. h; files = λ f. f }

pub Grows-trans : {l m n : Lineage} → Grows l m → Grows m n → Grows l n
Grows-trans g h = record {
  same_blocks = h.same_blocks ∙ g.same_blocks;
  same_heads = h.same_heads ∙ g.same_heads;
  keeps = λ id k. h.keeps id (g.keeps id k);
  files = λ f. h.files (g.files f);
}

-- A step that files nothing new and at most replaces or adds one record.
pub Grows-of_store :
    (l l' : Lineage) (id : ℕ) (r : Segment)
    → l'.by_hash ≡ l.by_hash
    → l'.heads ≡ l.heads
    → l'.by_first ≡ l.by_first
    → l'.next_id ≡ l.next_id
    → l'.recs ≡ store id r l.recs
    → Grows l l'
Grows-of_store l l' id r eb eh ef en er = record {
  same_blocks = eb;
  same_heads = eh;
  keeps = keep_key;
  files = λ f. record {
    filed = λ h j e. keep_key j (f.filed h j (cc));
    matched = λ h j e. subst (λ m. first_of j m ≡ h) (sym ef) (f.matched h j (cc));
    fresh =
        subst (λ n. All (λ e. e.1 < n) l'.by_first) (sym en)
          (subst (λ m. All (λ e. e.1 < l.next_id) m) (sym ef) f.fresh);
  };
}
  where
    keep_key : (j : ℕ) → has_key j l.recs ≡ true → has_key j l'.recs ≡ true
    keep_key j h = subst (λ m. has_key j m ≡ true) (sym er) (has_key-store j id r l.recs h)

-- An id that no entry has.
first_of-store :
    (id j : ℕ) (h : String) (m : Map String ℕ)
    → lookup h m ≡ none
    → All (λ e. e.1 < j) m
    → first_of id (store h j m) ≡ (if id == j then h else first_of id m)
unfolding first_of store lookup
first_of-store id j h [] none_there low = ground (arith, ==_iff j id, ==_iff id j)
first_of-store id j h ((k, v) ∷ m) none_there low = elim (Bool-cases (str_eq k h)) [
  | inl e ↦ absurd (cc (rw e at none_there))
  | inr e ↦
      let rec = first_of-store id j h m (rw e at none_there) low.1 in rw e (ground (arith, rec))
]

fresh-store :
    (h : String) (j : ℕ) (m : Map String ℕ)
    → All (λ e. e.1 < j) m
    → All (λ e. e.1 < suc j) (store h j m)
unfolding store
fresh-store h j [] low = (omega arith, tt)
fresh-store h j ((k, v) ∷ m) low = elim (Bool-cases (str_eq k h)) [
  | inl e ↦ rw e (omega arith, All-map _ _ (λ e' b. omega arith) m low.1)
  | inr e ↦ rw e (omega arith, fresh-store h j m low.1)
]

below_fresh :
    (h : String) (id n : ℕ) (m : Map String ℕ)
    → All (λ e. e.1 < n) m
    → lookup h m ≡ some id
    → id < n
unfolding lookup
below_fresh h id n [] low e = absurd (cc)
below_fresh h id n ((k, v) ∷ m) low e = elim (Bool-cases (str_eq k h)) [
  | inl same ↦ let found = rw same at e in ground (arith, found)
  | inr other ↦ below_fresh h id n m low.1 (rw other at e)
]

new_segment-IsFiled :
    (first : String) (l : Lineage)
    → lookup first l.by_first ≡ none
    → IsFiled l
    → IsFiled (new_segment first l)
unfolding new_segment
new_segment-IsFiled first l absent f = record {
  filed = λ h id e. elim (store_inv first h l.next_id id l.by_first e) [
    | inl (_, same) ↦
        subst (λ j. has_key j (new_segment first l).recs ≡ true) same
          (has_key-store_self l.next_id _ l.recs)
    | inr (_, old) ↦ has_key-store id l.next_id _ l.recs (f.filed h id old)
  ];
  matched = λ h id e.
      rw (first_of-store id l.next_id first l.by_first absent f.fresh)
        (elim (store_inv first h l.next_id id l.by_first e) [
          | inl (same, new) ↦ rw ((==_iff id l.next_id).1 (sym new)) same
          | inr (_, old) ↦
              let low = below_fresh h id l.next_id l.by_first f.fresh old in
              rw (not_equal id l.next_id low) (f.matched h id old)
        ]);
  fresh = fresh-store first l.next_id l.by_first f.fresh;
}
  where
    not_equal : (a b : ℕ) → a < b → (a == b) ≡ false
    not_equal a b h = ground arith

-- `segmentID` keeps the filing, and the id that it gives has a record.
pub segment_id-Grows :
    (first : String) (l : Lineage)
    → IsFiled l
    → Grows l (segment_id first l).1
      × (has_key (segment_id first l).0 (segment_id first l).1.recs ≡ true)
unfolding segment_id
segment_id-Grows first l f = by_read (lookup first l.by_first) refl
  where
    by_read :
        (o : Option ℕ)
        → lookup first l.by_first ≡ o
        → let it : ℕ × Lineage = elim o [
          | some id ↦ (id, l)
          | none ↦ (l.next_id, new_segment first l)
        ] in
          Grows l it.1 × (has_key it.0 it.1.recs ≡ true)
    by_read (some id) e = (Grows-refl l, f.filed first id e)
    by_read none e = (
      unfold new_segment in
          record {
            same_blocks = refl;
            same_heads = refl;
            keeps = λ id h. has_key-store id l.next_id _ l.recs h;
            files = new_segment-IsFiled first l e;
          },
      unfold new_segment in has_key-store_self l.next_id _ l.recs,
    )
