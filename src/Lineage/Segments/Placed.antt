-- ===== src/Lineage/Segments/Placed.antt =====
-- Placing the heads keeps blocks, heads and records, and files what it adds (lineage.go: recompute).
use pbt_devnet.Prelude.{
  ℕ, ◌≡◌, refl, sym, ap, subst, String, Bool, true, false, Option, none, some, List, [], ◌∷◌,
  is_some, if◌then◌else◌,
}
use pbt_devnet.Prelude.Maps.{Map, lookup, store, has_key, get_or, nat_key, string_key, ◌>>=◌}
use pbt_devnet.Prelude.Int.{pos}
use pbt_devnet.Lineage.{Lineage, Segment, live}
use pbt_devnet.Lineage.Walk.{walk_to}
use pbt_devnet.Lineage.Walk.Ancestry.{IsLinked}
use pbt_devnet.Lineage.Walk.Ends.{walk_to-IsSuffix}
use pbt_devnet.Lineage.Segments.{
  last_of, segment_id, ensure_spine, set_spine, hold_on, join_rec, join, place_branch, hold_spine,
  place_head, place_heads, blank_segment,
}
use pbt_devnet.Lineage.Segments.Filed.{
  IsFiled, Grows, Grows-refl, Grows-trans, Grows-of_store, has_key-store_self, segment_id-Grows,
}

-- A step that is done, from a lineage to one that has grown.
abbrev RunsPair : Lineage → Option (Lineage × List ℕ) → Type 0
RunsPair l o = (p : Lineage × List ℕ) × (o ≡ some p) × Grows l p.0

pub ensure_spine-Grows :
    (l : Lineage) → Grows l (ensure_spine l) × (has_key 0 (ensure_spine l).recs ≡ true)
unfolding ensure_spine
ensure_spine-Grows l = by_read (lookup 0 l.recs) refl
  where
    by_read :
        (o : Option Segment)
        → lookup 0 l.recs ≡ o
        → let it : Lineage = elim o [
          | none ↦ record l { recs = store 0 (blank_segment 0 (pos 0) 0) l.recs }
          | some _ ↦ l
        ] in
          Grows l it × (has_key 0 it.recs ≡ true)
    by_read none e =
        (Grows-of_store l _ 0 _ refl refl refl refl refl, has_key-store_self 0 _ l.recs)
    by_read (some r) e = (Grows-refl l, ap is_some e)

hold_on-Grows :
    (n : ℕ) (h first : String) (branch : List String) (id : ℕ) (rec : Segment) (l : Lineage)
    (seen : List ℕ)
    → Grows l (hold_on n h first branch id rec l seen).0
unfolding hold_on
hold_on-Grows n h first branch id rec l seen = Grows-of_store l _ id _ refl refl refl refl refl

join_rec-Grows :
    (n : ℕ) (h first : String) (branch : List String) (id : ℕ) (rec : Segment) (l : Lineage)
    (seen : List ℕ)
    → Grows l (join_rec n h first branch id rec l seen).0
unfolding join_rec
join_rec-Grows n h first branch id rec l seen = by_tests _ _
  where
    by_tests :
        (alive parked : Bool)
        → Grows l
            (if alive
              then hold_on n h first branch id rec l seen
              else if parked
              then (l, seen)
              else hold_on n h first branch id (record rec { state = live; lost_by = [] }) l seen).0
    by_tests true _ = hold_on-Grows n h first branch id rec l seen
    by_tests false true = Grows-refl l
    by_tests false false = hold_on-Grows n h first branch id _ l seen

join-RunsPair :
    (n : ℕ) (h first : String) (branch : List String) (id : ℕ) (l : Lineage) (seen : List ℕ)
    → has_key id l.recs ≡ true
    → RunsPair l (join n h first branch (id, l) seen)
unfolding join
join-RunsPair n h first branch id l seen known = by_read (lookup id l.recs) known
  where
    by_read :
        (o : Option Segment)
        → is_some o ≡ true
        → let it : Option (Lineage × List ℕ) = elim o [
          | none ↦ none
          | some rec ↦ some (join_rec n h first branch id rec l seen)
        ] in
          RunsPair l it
    by_read none e = absurd (cc)
    by_read (some rec) e = (
      join_rec n h first branch id rec l seen,
      refl,
      join_rec-Grows n h first branch id rec l seen,
    )

join_new-RunsPair :
    (n : ℕ) (h first : String) (branch : List String) (l : Lineage) (seen : List ℕ)
    → IsFiled l
    → RunsPair l (join n h first branch (segment_id first l) seen)
join_new-RunsPair n h first branch l seen f =
    let (grown, known) = segment_id-Grows first l f in
    let (id, m) = segment_id first l in
    let (p, e, more) = join-RunsPair n h first branch id m seen known in
    (p, e, Grows-trans grown more)

-- A change of the ticks alone.
aged-Grows : (l : Lineage) (off : Map ℕ ℕ) → Grows l (record l { off = off })
aged-Grows l off = record {
  same_blocks = refl;
  same_heads = refl;
  keeps = λ id h. h;
  files = λ f. record { filed = f.filed; matched = f.matched; fresh = f.fresh };
}

place_branch-RunsPair :
    (n : ℕ) (h : String) (branch : List String) (l : Lineage) (seen : List ℕ)
    → IsFiled l
    → RunsPair l (place_branch n h branch l seen)
unfolding place_branch
place_branch-RunsPair n h [] l seen f = ((l, seen), refl, Grows-refl l)
place_branch-RunsPair n h (b ∷ bs) l seen f = by_tests _ _ (aged-Grows l _)
  where
    by_tests :
        (old young : Bool) {aged : Lineage}
        → Grows l aged
        → RunsPair l (
            if old
            then join n h (last_of b bs) (b ∷ bs) (segment_id (last_of b bs) l) seen
            else if young
            then some (aged, seen)
            else join n h (last_of b bs) (b ∷ bs) (segment_id (last_of b bs) aged) seen)
    by_tests true _ g = join_new-RunsPair n h (last_of b bs) (b ∷ bs) l seen f
    by_tests false true {aged} g = ((aged, seen), refl, g)
    by_tests false false {aged} g =
        let (p, e, more) = join_new-RunsPair n h (last_of b bs) (b ∷ bs) aged seen (g.files f) in
        (p, e, Grows-trans g more)

hold_spine-Grows : (n : ℕ) (s0 : Segment) (l : Lineage) → Grows l (hold_spine n s0 l)
unfolding hold_spine
hold_spine-Grows n s0 l = Grows-of_store l _ 0 _ refl refl refl refl refl

pub set_spine-Grows :
    (tip first : String) (canonical : List String) (s0 : Segment) (l : Lineage)
    → Grows l (set_spine tip first canonical s0 l)
unfolding set_spine
set_spine-Grows tip first canonical s0 l = Grows-of_store l _ 0 _ refl refl refl refl refl

place_head-RunsPair :
    (canonical : List String) (n : ℕ) (h : String) (l : Lineage) (seen : List ℕ)
    → IsLinked l.by_hash
    → IsFiled l
    → has_key 0 l.recs ≡ true
    → RunsPair l (place_head canonical n h l seen)
unfolding place_head
place_head-RunsPair canonical n h l seen k f known = by_test _
  where
    on_record :
        (o : Option Segment)
        → is_some o ≡ true
        → let it : Option (Lineage × List ℕ) = elim o [
          | none ↦ none
          | some s0 ↦ some (hold_spine n s0 l, seen)
        ] in
          RunsPair l it
    on_record none e = absurd (cc)
    on_record (some s0) e = ((hold_spine n s0 l, seen), refl, hold_spine-Grows n s0 l)

    by_test :
        (t : Bool)
        → let on_spine : Option (Lineage × List ℕ) = elim (lookup 0 l.recs) [
          | none ↦ none
          | some s0 ↦ some (hold_spine n s0 l, seen)
        ] in
          RunsPair l (
            if t
            then on_spine
            else (walk_to l.by_hash canonical h >>= λ branch. place_branch n h branch l seen))
    by_test true = on_record (lookup 0 l.recs) known
    by_test false =
        let (branch, e, _) = walk_to-IsSuffix k canonical h in
        rw (e, ◌>>=◌) (place_branch-RunsPair n h branch l seen f)

pub place_heads-RunsPair :
    (canonical : List String) (heads : Map ℕ String) (ns : List ℕ) (l : Lineage) (seen : List ℕ)
    → IsLinked l.by_hash
    → IsFiled l
    → has_key 0 l.recs ≡ true
    → RunsPair l (place_heads canonical heads ns l seen)
unfolding place_heads
place_heads-RunsPair canonical heads [] l seen k f known = ((l, seen), refl, Grows-refl l)
place_heads-RunsPair canonical heads (n ∷ ns) l seen k f known =
    let h = get_or "" (lookup n heads) in
    let (p, e, g) = place_head-RunsPair canonical n h l seen k f known in
    let (q, e', g') =
      place_heads-RunsPair canonical heads ns p.0 p.1 (subst IsLinked (sym g.same_blocks) k)
        (g.files f) (g.keeps 0 known) in
    (q, rw (e, ◌>>=◌) e', Grows-trans g g')
