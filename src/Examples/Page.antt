-- ===== src/Examples/Page.antt =====
-- The theorems of the monitor's lineage, at a store of seven blocks: a chain of four, and two
-- branches off its second block.
use pbt_devnet.Prelude.{
  ℕ, suc, ◌+◌, ◌≤◌, ◌≡◌, refl, sym, subst, String, Bool, true, ◌&&◌, ◌↔◌, ◌⊎◌, Option, none, some,
  List, [], ◌∷◌, ◌++◌, ◌==◌, ==_iff, str_eq, All, map, sort, arith,
}
use pbt_devnet.Prelude.Maps.{lookup, store, keys, string_key}
use text.Mathlib.TextEquality.{eq_iff}
use pbt_devnet.Migmon.{Header}
use pbt_devnet.Lineage.{
  Block, Store, Reorg, Lineage, new_lineage, Fetch, missing, found, extend, block_of,
}
use pbt_devnet.Lineage.Walk.{is_ancestor, common_ancestor, spine}
use pbt_devnet.Lineage.Walk.Ancestry.{IsLinked, HasAncestor, is_ancestor_iff}
use pbt_devnet.Lineage.Walk.Common.{Answer, common_ancestor-Answer}
use pbt_devnet.Lineage.Extend.{Tree, Extends, extend-Extends}
use pbt_devnet.Lineage.Segments.{ints, recompute}
use pbt_devnet.Lineage.Segments.Filed.{IsFiled}
use pbt_devnet.Lineage.Settle.{settle}
use pbt_devnet.Lineage.Settle.Judged.{Accounts, settle-Accounts}
use pbt_devnet.Lineage.Views.{prune}
use pbt_devnet.Lineage.Views.Pruned.{IsPointed, IsOld, prune_keeps}

-- A test for the parts of `IsLinked`.
abbrev links : Store → Block → Bool
links s b = elim (lookup b.parent s) [ none ↦ true | some p ↦ b.number == suc p.number ]

abbrev all_links : Store → Store → Bool
all_links s [] = true
all_links s ((j, v) ∷ m) = str_eq v.hash j && links s v && all_links s m

linked_at :
    (s m : Store) (h : String) (b : Block)
    → all_links s m ≡ true
    → lookup h m ≡ some b
    → (b.hash ≡ h) × (links s b ≡ true)
unfolding lookup
linked_at s [] h b t e = absurd (cc)
linked_at s ((j, v) ∷ m) h b t e = ground (arith, eq_iff j h, eq_iff v.hash j, linked_at s m h b)

IsLinked-of_test : (s : Store) → all_links s s ≡ true → IsLinked s
IsLinked-of_test s t = record {
  named = λ h b e. (linked_at s s h b t e).0;
  linked = λ h b p e e'.
      let test = (linked_at s s h b t e).1 in
      (==_iff b.number (suc p.number)).0
        (subst (λ o. (elim o [ none ↦ true | some q ↦ b.number == suc q.number ]) ≡ true) e' test);
}

abbrev block : (hash parent : String) → ℕ → Block
block hash parent number = record {
  hash = hash;
  parent = parent;
  root = "0x1";
  number = number;
  time = number;
}

abbrev blocks_seen : Store
blocks_seen =
    ("g", block "g" "" 0)
    ∷ ("a1", block "a1" "g" 1)
    ∷ ("a2", block "a2" "a1" 2)
    ∷ ("a3", block "a3" "a2" 3)
    ∷ ("b2", block "b2" "a1" 2)
    ∷ ("b3", block "b3" "b2" 3)
    ∷ ("c2", block "c2" "a1" 2)
    ∷ []

blocks_seen-IsLinked : IsLinked blocks_seen
unfolding lookup
blocks_seen-IsLinked = IsLinked-of_test blocks_seen refl

is_ancestor_iff_example :
    (r : Bool) × (is_ancestor blocks_seen "a1" "b3" ≡ some r)
    × ((r ≡ true) ↔ HasAncestor blocks_seen "a1" "b3")
is_ancestor_iff_example = is_ancestor_iff blocks_seen-IsLinked "a1" "b3"

common_ancestor-Answer_example :
    (r : Option Block) × (common_ancestor blocks_seen "b3" "c2" ≡ some r)
    × Answer blocks_seen "b3" "c2" r
common_ancestor-Answer_example = common_ancestor-Answer blocks_seen blocks_seen-IsLinked "b3" "c2"

meets-at_a1 : common_ancestor blocks_seen "b3" "c2" ≡ some (some (block "a1" "g" 1))
unfolding common_ancestor lookup
meets-at_a1 = refl

-- Node 2 comes back from the branch of b3 to the anchor's chain.
abbrev network : Lineage
network = record (new_lineage 2 (λ t. t) 100 1) {
  by_hash = blocks_seen;
  heads = (1, "a3") ∷ (2, "a3") ∷ [];
  moved = (2, "b3") ∷ [];
}

network-IsFiled : IsFiled network
unfolding lookup new_lineage
network-IsFiled = record {
  filed = λ h id e. absurd (cc);
  matched = λ h id e. absurd (cc);
  fresh = tt;
}

settle-Accounts_example :
    (m : Lineage) × (l' : Lineage) × (out : List Reorg) × (t : ℕ) × (recompute network.moved
        (record network { moved = [] })
      ≡ some m)
    × (settle 30 network ≡ some (l', out))
    × (l'.reorgs ≡ m.reorgs ++ out)
    × (l'.truncated ≡ m.truncated + t)
    × (l'.by_hash ≡ network.by_hash)
    × (l'.heads ≡ network.heads)
    × IsFiled l'
    × Accounts network.by_hash network.heads network.moved 30 (ints (keys network.moved)) out t
settle-Accounts_example = settle-Accounts 30 network blocks_seen-IsLinked network-IsFiled

abbrev depths : Option (Lineage × List Reorg) → List ℕ
depths none = []
depths (some (l, out)) = map (λ r. r.depth) out

settle-depth : depths (settle 30 network) ≡ 2 ∷ []
unfolding settle new_lineage lookup store sort recompute spine is_ancestor common_ancestor
settle-depth = refl

prune_keeps_example :
    ((lookup "c2" (prune 200 network).by_hash ≡ lookup "c2" network.by_hash)
      ⊎ ((lookup "c2" (prune 200 network).by_hash ≡ none)
          × (¬ IsPointed network "c2")
          × IsOld 200 network "c2"))
    × (network.retain_slots ≤ 200
        → All (λ r. 200 ≤ r.slot + network.retain_slots) (prune 200 network).reorgs)
prune_keeps_example = prune_keeps 200 network "c2"

-- A client that serves the store's blocks, and the tree of just them.
abbrev header_of : Block → Header
header_of b = record {
  number = b.number;
  hash = b.hash;
  parent = b.parent;
  root = b.root;
  time = b.time;
}

abbrev tree : Tree
tree h = lookup h blocks_seen

abbrev served : Option Block → Fetch
served none = missing
served (some b) = found (header_of b)

abbrev ask : List Header → String → Fetch
ask got h = served (lookup h blocks_seen)

served_block : (o : Option Block) (h : Header) → served o ≡ found h → o ≡ some (block_of h)
served_block none h e = absurd (cc)
served_block (some b) h e = cc

abbrev head_b3 : Header
head_b3 = header_of (block "b3" "b2" 3)

extend-Extends_example : Extends tree [] 4 (extend ask head_b3 3 [])
unfolding lookup
extend-Extends_example =
    extend-Extends tree ask
      (λ got p h e.
        subst (λ x. lookup x blocks_seen ≡ some (block_of h))
          (sym
            (linked_at blocks_seen blocks_seen p (block_of h) refl
              (served_block (lookup p blocks_seen) h e)).0)
          (served_block (lookup p blocks_seen) h e))
      head_b3 3 [] refl (λ h b e. absurd (cc))
