-- ===== src/Lineage/Views/Pruned.antt =====
-- Pruning against what the page still needs (lineage.go: prune).
use pbt_devnet.Prelude.{
  ℕ, ◌-◌, ◌≤◌, ◌<◌, ◌≡◌, refl, subst, ◌∙◌, ◌+◌, ◌⊎◌, inl, inr, String, true, false, ◌||◌, Option,
  none, some, List, [], ◌∷◌, ltb, str_eq, eq_iff, Bool-cases, Some, Some-map, some_of-Some, leb,
  All, All-keep, arith,
}
use pbt_devnet.Prelude.Maps.{Map, lookup, erase, string_key, lookup-erase}
use pbt_devnet.Lineage.{Lineage, Block, Segment}
use pbt_devnet.Lineage.Views.{is_pointed, is_stale, drop_stale, prune}
use pbt_devnet.Lineage.Walk.Ancestry.{IsLinked}

-- A segment's tip, the block that it forked from, or a node's head.
abbrev pub IsPointed : Lineage → String → Type 0
IsPointed l h = Some (λ e. (e.1.tip ≡ h) ⊎ (e.1.ancestor ≡ h)) l.recs ⊎ Some (λ e. e.1 ≡ h) l.heads

is_pointed_complete : (l : Lineage) (h : String) → IsPointed l h → is_pointed l h ≡ true
unfolding is_pointed
is_pointed_complete l h (inl at_rec) =
    let found =
      (some_of-Some (λ (e : ℕ × Segment). str_eq e.1.tip h || str_eq e.1.ancestor h) l.recs).1
        (Some-map _ _ test l.recs at_rec) in
    rw found refl
  where
    test :
        (e : ℕ × Segment)
        → (e.1.tip ≡ h) ⊎ (e.1.ancestor ≡ h)
        → (str_eq e.1.tip h || str_eq e.1.ancestor h) ≡ true
    test e p = ground (arith, eq_iff e.1.tip h, eq_iff e.1.ancestor h)
is_pointed_complete l h (inr at_head) =
    let found =
      (some_of-Some (λ (e : ℕ × String). str_eq e.1 h) l.heads).1
        (Some-map _ _ (λ e. (eq_iff e.1 h).1) l.heads at_head) in
    ground (arith, found)

-- An entry of the store that is older than the slots to retain.
abbrev pub IsOld : (now : ℕ) → Lineage → String → Type 0
IsOld now l h = Some (λ e. (e.0 ≡ h) × (l.slot_of e.1.time + l.retain_slots < now)) l.by_hash

abbrev Dropped : Lineage → (cutoff : ℕ) → String → List (String × Block) → Type 0
Dropped l cutoff h es =
    (is_pointed l h ≡ false) × Some (λ e. (e.0 ≡ h) × (l.slot_of e.1.time < cutoff)) es

module _ {V : Type 0} (l : Lineage) (cutoff : ℕ) (h : String) where
  abbrev Outcome : Option V → Option V → List (String × Block) → Type 0
  Outcome before after es = (after ≡ before) ⊎ ((after ≡ none) × Dropped l cutoff h es)

  later :
      (e : String × Block) (es : List (String × Block)) (before after : Option V)
      → Outcome before after es
      → Outcome before after (e ∷ es)
  later e es before after (inl same) = inl same
  later e es before after (inr (gone, (p, old))) = inr (gone, (p, inr old))

  erased :
      (e : String × Block) (es : List (String × Block)) (m : Map String V) (after : Option V)
      → is_stale l cutoff e ≡ true
      → Outcome (lookup h (erase e.0 m)) after es
      → Outcome (lookup h m) after (e ∷ es)
  unfolding is_stale
  erased e es m after stale (inr (gone, (p, old))) = inr (gone, (p, inr old))
  erased e es m after stale (inl same) = elim (Bool-cases (str_eq e.0 h)) [
    | inl eq ↦
        let one = (eq_iff e.0 h).0 eq in
        let not_pointed : is_pointed l e.0 ≡ false = ground arith in
        inr (
          same ∙ (rw lookup-erase (rw eq refl)),
          (subst (λ k. is_pointed l k ≡ false) one not_pointed, inl (one, ground arith)),
        )
    | inr ne ↦ inl (same ∙ (rw lookup-erase (rw ne refl)))
  ]

  drop_stale-Outcome :
      (es : List (String × Block)) (m : Map String V)
      → Outcome (lookup h m) (lookup h (drop_stale l cutoff es m)) es
  unfolding drop_stale
  drop_stale-Outcome [] m = inl refl
  drop_stale-Outcome (e ∷ es) m = elim (Bool-cases (is_stale l cutoff e)) [
    | inr fresh ↦ rw fresh (later e es _ _ (drop_stale-Outcome es m))
    | inl stale ↦ rw stale (erased e es m _ stale (drop_stale-Outcome es (erase e.0 m)))
  ]

-- Pruning leaves the block of a hash as it was, unless it takes it away, and then it is older than
-- the slots to retain and no segment's tip, no segment's ancestor and no head. Of the reorgs it
-- keeps only those within the slots to retain.
pub prune_keeps :
    (now : ℕ) (l : Lineage) (h : String)
    → ((lookup h (prune now l).by_hash ≡ lookup h l.by_hash)
        ⊎ ((lookup h (prune now l).by_hash ≡ none) × (¬ IsPointed l h) × IsOld now l h))
      × (l.retain_slots ≤ now → All (λ r. now ≤ r.slot + l.retain_slots) (prune now l).reorgs)
unfolding prune
prune_keeps now l h = elim (Bool-cases (ltb now l.retain_slots)) [
  | inl early ↦ rw early (inl refl, λ le. absurd (ground arith))
  | inr due ↦ rw due (
    elim (drop_stale-Outcome l (now - l.retain_slots) h l.by_hash l.by_hash) [
      | inl same ↦ inl same
      | inr (gone, (p, old)) ↦ inr (
        gone,
        λ pointed. absurd (cc (p, is_pointed_complete l h pointed)),
        Some-map _ _ (λ e (one, older). (one, omega arith)) l.by_hash old,
      )
    ],
    λ le. All-keep _ (λ r. leb (now - l.retain_slots) r.slot) l.reorgs (λ r e. ground arith),
  )
]

-- What is linked stays linked.
pub IsLinked-of_part :
    (s t : Map String Block)
    → ((h : String) → (lookup h t ≡ lookup h s) ⊎ (lookup h t ≡ none))
    → IsLinked s
    → IsLinked t
IsLinked-of_part s t part k = record {
  named = λ h b e. k.named h b (back h b e);
  linked = λ h b p e e'. k.linked h b p (back h b e) (back b.parent p e');
}
  where
    back : (h : String) (b : Block) → lookup h t ≡ some b → lookup h s ≡ some b
    back h b e = elim (part h) [ inl same ↦ cc | inr gone ↦ absurd (cc) ]

pub prune-IsLinked : (now : ℕ) (l : Lineage) → IsLinked l.by_hash → IsLinked (prune now l).by_hash
prune-IsLinked now l k =
    IsLinked-of_part l.by_hash (prune now l).by_hash
      (λ h. elim (prune_keeps now l h).0 [ inl same ↦ inl same | inr (gone, _, _) ↦ inr gone ]) k
