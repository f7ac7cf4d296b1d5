-- ===== src/Lineage/Walk.antt =====
-- The walks of the store along parents (lineage.go: isAncestor, commonAncestor, walkTo, and the
-- canonical chain of recompute). A walk takes fuel, and `none` is a loop that does not end; the fuel
-- is the number of the first block and two more, one round for each block below it.
pub mod Ancestry
pub mod Common
pub mod Ends
use pbt_devnet.Prelude.{
  ℕ, zero, suc, String, Bool, true, false, Option, none, some, List, [], ◌∷◌, ltb, str_eq, some_of,
  if◌then◌else◌,
}
use pbt_devnet.Prelude.Maps.{lookup, has_key, get_or, string_key, ◌>>=◌}
use pbt_devnet.Lineage.{Block, Store, block_at}

-- `for ok && cur.Number > floor { cur, ok = l.byHash[cur.Parent] }`
unfoldable pub climb : ℕ → Store → (floor : ℕ) → Option Block → Option (Option Block)
climb zero s floor cur = none
climb (suc n) s floor none = some none
climb (suc n) s floor (some b) =
    let rest = climb n s floor (lookup b.parent s) in
    if ltb floor b.number then rest else some (some b)

abbrev pub fuel_of : Block → ℕ
fuel_of b = suc (suc b.number)

unfoldable pub has_hash : String → Option Block → Bool
has_hash a none = false
has_hash a (some b) = str_eq b.hash a

-- `isAncestor`, whether `a` is `b` or one of its known ancestors.
unfoldable pub is_ancestor : Store → (a b : String) → Option Bool
unfolding climb has_hash
is_ancestor s a b = elim (lookup a s) [
  | none ↦ some false
  | some low ↦ elim (lookup b s) [
    | none ↦ some false
    | some high ↦ climb (fuel_of high) s low.number (some high) >>= λ cur. some (has_hash a cur)
  ]
]

-- The last loop of `commonAncestor`, from two blocks.
unfoldable pub meet : ℕ → Store → (x y : Block) → Option (Option Block)
meet zero s x y = none
meet (suc n) s x y =
    let rest : Option (Option Block) = elim (lookup x.parent s) [
      | none ↦ some none
      | some px ↦ elim (lookup y.parent s) [ none ↦ some none | some py ↦ meet n s px py ]
    ] in
    if str_eq x.hash y.hash then some (some x) else rest

-- `commonAncestor` after its loop on the second block, and after the loop on the first.
unfoldable pub meet_lowered : Store → Block → Option Block → Option (Option Block)
unfolding meet
meet_lowered s x none = some none
meet_lowered s x (some y) = meet (fuel_of x) s x y

unfoldable pub lower_second : Store → Block → Option Block → Option (Option Block)
unfolding climb meet_lowered
lower_second s y none = some none
lower_second s y (some x) = climb (fuel_of y) s x.number (some y) >>= meet_lowered s x

unfoldable pub level : Store → (x y : Block) → Option (Option Block)
unfolding climb lower_second
level s x y = climb (fuel_of x) s y.number (some x) >>= lower_second s y

unfoldable pub common_ancestor : Store → (x y : String) → Option (Option Block)
unfolding level
common_ancestor s x y = elim (lookup x s) [
  | none ↦ some none
  | some bx ↦ elim (lookup y s) [ none ↦ some none | some by ↦ level s bx by ]
]

abbrev pub contains : String → List String → Bool
contains h canonical = some_of (λ c. str_eq c h) canonical

unfoldable pub walk : ℕ → Store → List String → String → Option (List String)
walk zero s canonical cur = none
walk (suc n) s canonical cur = elim (lookup cur s) [
  | none ↦ some []
  | some b ↦
      let rest = walk n s canonical b.parent in
      if contains cur canonical then some [] else (rest >>= λ older. some (cur ∷ older))
]

-- `walkTo`, newest first.
unfoldable pub walk_to : Store → List String → String → Option (List String)
unfolding walk
walk_to s canonical h = walk (fuel_of (block_at s h)) s canonical h

unfoldable pub descend : ℕ → Store → String → Option (List String)
descend zero s cur = none
descend (suc n) s cur =
    let rest = descend n s (block_at s cur).parent in
    if has_key (block_at s cur).parent s
    then (rest >>= λ older. some (cur ∷ older))
    else some (cur ∷ [])

-- The canonical blocks that `recompute` collects from the anchor's head, newest first.
unfoldable pub spine : Store → String → Option (List String)
unfolding descend
spine s tip = descend (fuel_of (block_at s tip)) s tip
