-- ===== src/Lineage/Segments/Total.antt =====
-- The segments are rebuilt on any linked store (lineage.go: recompute): every walk ends, every id
-- that is read has a record, and the filing is kept.
use pbt_devnet.Prelude.{
  ℕ, ◌≡◌, refl, sym, ap, subst, String, Bool, true, false, Option, none, some, List, [], ◌∷◌, ◌==◌,
  is_some, some_of, if◌then◌else◌, Bool-cases, inl, inr,
}
use pbt_devnet.Prelude.Maps.{Map, lookup, has_key, keys, nat_key, string_key, ◌>>=◌}
use pbt_devnet.Lineage.{Lineage, Block, Segment}
use pbt_devnet.Lineage.Walk.{walk_to, spine}
use pbt_devnet.Lineage.Walk.Ancestry.{IsLinked}
use pbt_devnet.Lineage.Walk.Ends.{walk_to-IsSuffix, spine-IsSpine}
use pbt_devnet.Lineage.Segments.{
  last_of, ints, spine_tip, segment_id, orphan_suffix, abandon_as, abandon, leave_old, ensure_spine,
  set_spine, place_heads, retire, retire_all, settle_spine, recompute,
}
use pbt_devnet.Lineage.Segments.Filed.{
  IsFiled, Grows, Grows-refl, Grows-trans, Grows-of_store, segment_id-Grows,
}
use pbt_devnet.Lineage.Segments.Retired.{Retires, Retires-of_Grows, Retires-trans, retire-Retires}
use pbt_devnet.Lineage.Segments.Placed.{ensure_spine-Grows, set_spine-Grows, place_heads-RunsPair}

-- A step that is done, from a filed lineage to one that has grown.
abbrev Runs : Lineage → Option Lineage → Type 0
Runs l o = (l' : Lineage) × (o ≡ some l') × Grows l l'

abandon_as-Runs :
    (moved : Map ℕ String) (old first : String) (suffix : List String) (id : ℕ) (l : Lineage)
    → has_key id l.recs ≡ true
    → Runs l (abandon_as moved old first suffix (id, l))
unfolding abandon_as
abandon_as-Runs moved old first suffix id l known = by_read (lookup id l.recs) known
  where
    by_read :
        (o : Option Segment)
        → is_some o ≡ true
        → let it : Option Lineage = elim o [
          | none ↦ none
          | some rec ↦ some (orphan_suffix moved old first suffix id rec l)
        ] in
          Runs l it
    by_read none h = absurd (cc)
    by_read (some rec) h = (
      orphan_suffix moved old first suffix id rec l,
      refl,
      unfold orphan_suffix in Grows-of_store l _ id _ refl refl refl refl refl,
    )

abandon-Runs :
    (moved : Map ℕ String) (old : String) (suffix : List String) (l : Lineage)
    → IsFiled l
    → Runs l (abandon moved old suffix l)
unfolding abandon
abandon-Runs moved old [] l f = (l, refl, Grows-refl l)
abandon-Runs moved old (h ∷ hs) l f =
    let (grown, known) = segment_id-Grows (last_of h hs) l f in
    let (id, m) = segment_id (last_of h hs) l in
    let (l', e, more) = abandon_as-Runs moved old (last_of h hs) (h ∷ hs) id m known in
    (l', e, Grows-trans grown more)

leave_old-Runs :
    (moved : Map ℕ String) (canonical : List String) (old : String) (l : Lineage)
    → IsLinked l.by_hash
    → IsFiled l
    → Runs l (leave_old moved canonical old l)
unfolding leave_old
leave_old-Runs moved canonical old l k f = by_test _
  where
    by_test :
        (t : Bool)
        → Runs l (
            if t
            then (walk_to l.by_hash canonical old >>= λ suffix. abandon moved old suffix l)
            else some l)
    by_test false = (l, refl, Grows-refl l)
    by_test true =
        let (suffix, e, _) = walk_to-IsSuffix k canonical old in
        rw (e, ◌>>=◌) (abandon-Runs moved old suffix l f)

retire_all-Retires :
    (canonical : List String) (seen : List ℕ) (recs : Map ℕ Segment) (l : Lineage)
    → Retires l (retire_all canonical seen recs l)
unfolding retire_all
retire_all-Retires canonical seen [] l = Retires-of_Grows (Grows-refl l)
retire_all-Retires canonical seen ((id, rec) ∷ rest) l =
    elim (Bool-cases (some_of (λ s. s == id) seen)) [
      | inl skip ↦ rw skip (retire_all-Retires canonical seen rest l)
      | inr out ↦ rw out (
          Retires-trans (retire-Retires canonical id rec l)
            (retire_all-Retires canonical seen rest (retire canonical id rec l)))
    ]

-- A tick that is done, with the store and the heads as they were and the filing kept.
abbrev pub Rebuilds : Lineage → Option Lineage → Type 0
Rebuilds l o = (l' : Lineage) × (o ≡ some l') × Retires l l'

settle_spine-Rebuilds :
    (moved : Map ℕ String) (tip : String) (canonical : List String) (l : Lineage)
    → IsLinked l.by_hash
    → IsFiled l
    → Rebuilds l (settle_spine moved tip canonical l)
unfolding settle_spine
settle_spine-Rebuilds moved tip canonical l k f =
    let (g0, known) = ensure_spine-Grows l in
    let k0 = subst IsLinked (sym g0.same_blocks) k in
    let (left, e1, g1) =
      leave_old-Runs moved canonical (spine_tip (ensure_spine l)) (ensure_spine l) k0
        (g0.files f) in
    rw (e1, ◌>>=◌) (after left (Grows-trans g0 g1) (g1.keeps 0 known) (lookup 0 left.recs) refl)
  where
    after :
        (left : Lineage)
        → Grows l left
        → has_key 0 left.recs ≡ true
        → (o : Option Segment) → lookup 0 left.recs ≡ o
        → Rebuilds l (
            o >>= λ s0.
            place_heads canonical left.heads
              (ints (keys left.heads))
              (set_spine tip (last_of tip canonical) canonical s0 left)
              (0 ∷ [])
            >>= λ p. some (retire_all canonical p.1 p.0.recs p.0))
    after left g known none e = absurd (cc (ap is_some e, known))
    after left g known (some s0) e =
        let m = set_spine tip (last_of tip canonical) canonical s0 left in
        let spined = set_spine-Grows tip (last_of tip canonical) canonical s0 left in
        let whole = Grows-trans g spined in
        let (p, done, g') =
          place_heads-RunsPair canonical left.heads (ints (keys left.heads)) m (0 ∷ [])
            (subst IsLinked (sym whole.same_blocks) k) (whole.files f) (spined.keeps 0 known) in
        (
          retire_all canonical p.1 p.0.recs p.0,
          rw (done, ◌>>=◌) refl,
          Retires-trans (Retires-of_Grows (Grows-trans whole g'))
              (retire_all-Retires canonical p.1 p.0.recs p.0),
        )

pub recompute-Rebuilds :
    (moved : Map ℕ String) (l : Lineage)
    → IsLinked l.by_hash
    → IsFiled l
    → Rebuilds l (recompute moved l)
unfolding recompute
recompute-Rebuilds moved l k f = by_tip (lookup l.anchor l.heads)
  where
    as_it_is : Rebuilds l (some l)
    as_it_is = (l, refl, Retires-of_Grows (Grows-refl l))

    by_block :
        (tip : String) (o : Option Block)
        → lookup tip l.by_hash ≡ o
        → Rebuilds l (
            if is_some o
            then (spine l.by_hash tip >>= λ canonical. settle_spine moved tip canonical l)
            else some l)
    by_block tip none e = as_it_is
    by_block tip (some b) e =
        let (canonical, found, _) = spine-IsSpine k tip b e in
        rw (found, ◌>>=◌) (settle_spine-Rebuilds moved tip canonical l k f)

    by_tip :
        (o : Option String)
        → let it : Option Lineage = elim o [
          | none ↦ some l
          | some tip ↦
              if has_key tip l.by_hash
              then (spine l.by_hash tip >>= λ canonical. settle_spine moved tip canonical l)
              else some l
        ] in
          Rebuilds l it
    by_tip none = as_it_is
    by_tip (some tip) = by_block tip (lookup tip l.by_hash) refl
