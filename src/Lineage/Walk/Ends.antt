-- ===== src/Lineage/Walk/Ends.antt =====
-- The walks off and along the canonical chain end (lineage.go: walkTo, and the first loop of
-- recompute).
use pbt_devnet.Prelude.{
  ℕ, zero, suc, ◌<◌, ◌≡◌, refl, String, Bool, true, false, Option, none, some, List, [], ◌∷◌,
  is_some, if◌then◌else◌, arith,
}
use pbt_devnet.Prelude.Maps.{lookup, has_key, string_key, get_or, ◌>>=◌}
use pbt_devnet.Lineage.{Block, Store, block_at}
use pbt_devnet.Lineage.Walk.{contains, walk, walk_to, descend, spine}
use pbt_devnet.Lineage.Walk.Ancestry.{IsLinked}

-- The blocks from a hash down to the first that is canonical or unknown, which is not among them.
pub data IsSuffix (s : Store) (canonical : List String) : String → List String → Type 0 where
  unknown : {h : String} → lookup h s ≡ none → IsSuffix s canonical h []
  meets : {h : String} → contains h canonical ≡ true → IsSuffix s canonical h []
  leads :
      {h : String} {older : List String} (b : Block)
      → lookup h s ≡ some b
      → contains h canonical ≡ false
      → IsSuffix s canonical b.parent older
      → IsSuffix s canonical h (h ∷ older)

module _ {s : Store} (k : IsLinked s) (canonical : List String) where
  abbrev WalkEnds : ℕ → String → Type 0
  WalkEnds n h =
      (out : List String) × (walk n s canonical h ≡ some out) × IsSuffix s canonical h out

  walk_step :
      (n : ℕ) (h : String)
      → ((b : Block) → lookup h s ≡ some b → WalkEnds n b.parent)
      → WalkEnds (suc n) h
  unfolding walk
  walk_step n h rec = by_read (lookup h s) refl (contains h canonical) refl
    where
      by_read :
          (o : Option Block)
          → lookup h s ≡ o
          → (c : Bool) → contains h canonical ≡ c
          → let it : Option (List String) = elim o [
            | none ↦ some []
            | some b ↦
                let older = walk n s canonical b.parent in
                if c then some [] else (older >>= λ xs. some (h ∷ xs))
          ] in
            (out : List String) × (it ≡ some out) × IsSuffix s canonical h out
      by_read none e c ec = ([], refl, unknown e)
      by_read (some b) e true ec = ([], refl, meets ec)
      by_read (some b) e false ec =
          let (older, ends, is) = rec b e in (h ∷ older, rw (ends, ◌>>=◌), leads b e ec is)

  walk-WalkEnds :
      (n : ℕ) (h : String) → ((b : Block) → lookup h s ≡ some b → b.number < n) → WalkEnds (suc n) h
  walk-WalkEnds zero h low = walk_step zero h (λ b e. absurd (omega (arith, low b e)))
  walk-WalkEnds (suc n) h low =
      walk_step (suc n) h
        λ b e. walk-WalkEnds n b.parent λ p e'. omega (arith, low b e, k.linked h b p e e')

  -- In a linked store `walkTo` ends, with the blocks from a hash down to the canonical chain.
  pub walk_to-IsSuffix :
      (h : String)
      → (out : List String) × (walk_to s canonical h ≡ some out) × IsSuffix s canonical h out
  unfolding walk_to
  walk_to-IsSuffix h =
      walk-WalkEnds (suc (block_at s h).number) h (λ b e. rw (e, get_or) (omega arith))

-- A known block and its known ancestors, down to one whose parent is not known.
pub data IsSpine (s : Store) : String → List String → Type 0 where
  root :
      {h : String} (b : Block)
      → lookup h s ≡ some b
      → has_key b.parent s ≡ false
      → IsSpine s h (h ∷ [])
  above :
      {h : String} {older : List String} (b : Block)
      → lookup h s ≡ some b
      → has_key b.parent s ≡ true
      → IsSpine s b.parent older
      → IsSpine s h (h ∷ older)

module _ {s : Store} (k : IsLinked s) where
  abbrev SpineEnds : ℕ → String → Type 0
  SpineEnds n h = (out : List String) × (descend n s h ≡ some out) × IsSpine s h out

  spine_step :
      (n : ℕ) (h : String) (b : Block)
      → lookup h s ≡ some b
      → ((p : Block) → lookup b.parent s ≡ some p → SpineEnds n b.parent)
      → SpineEnds (suc n) h
  unfolding descend
  spine_step n h b e rec = rw (e, get_or) (by_parent (lookup b.parent s) refl)
    where
      by_parent :
          (o : Option Block)
          → lookup b.parent s ≡ o
          → let it : Option (List String) =
              (let older = descend n s b.parent in
                if is_some o then (older >>= λ xs. some (h ∷ xs)) else some (h ∷ [])) in
            (out : List String) × (it ≡ some out) × IsSpine s h out
      by_parent none ep = (h ∷ [], refl, root b e (rw (ep, is_some) refl))
      by_parent (some p) ep =
          let (older, ends, is) = rec p ep in
          (h ∷ older, rw (ends, ◌>>=◌), above b e (rw (ep, is_some) refl) is)

  descend-SpineEnds :
      (n : ℕ) (h : String) (b : Block) → lookup h s ≡ some b → b.number < n → SpineEnds (suc n) h
  descend-SpineEnds zero h b e low = absurd (omega arith)
  descend-SpineEnds (suc n) h b e low =
      spine_step (suc n) h b e
        λ p ep. descend-SpineEnds n b.parent p ep (omega (arith, k.linked h b p e ep))

  -- In a linked store the canonical chain of a known head is found.
  pub spine-IsSpine :
      (h : String) (b : Block)
      → lookup h s ≡ some b
      → (out : List String) × (spine s h ≡ some out) × IsSpine s h out
  unfolding spine
  spine-IsSpine h b e =
      descend-SpineEnds (suc (block_at s h).number) h b e (rw (e, get_or) (omega arith))
