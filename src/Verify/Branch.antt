-- ===== src/Verify/Branch.antt =====
-- The orphaned branch of a victim (cmd/verify-migration/boundary.go: walkOrphanBranch, victimTip).
-- What the victim serves, the folding of hashes and the index in a name are parameters.
pub mod Joined
use pbt_devnet.Prelude.{
  ℕ, zero, suc, ◌+◌, ◌-◌, ◌≤◌, ◌<◌, ◌≡◌, refl, ◌⊎◌, inl, inr, String, Bool, true, false, not, ◌&&◌,
  ◌||◌, Option, none, some, List, [], ◌∷◌, ltb, leb, ◌==◌, Result, ok, err, if◌then◌else◌,
  Bool-cases, Some, All, arith,
}
use pbt_devnet.Migmon.{Header}

pub data BranchError : Type 0 where
  call_failed : BranchError
  not_served : (hash : String) → BranchError
  tip_below : (tip ancestor : ℕ) → BranchError
  no_join : BranchError

-- What a client answers to a hash and to a number: an error, nothing, or a block.
pub record Served : Type 0 where
  pub by_hash : String → Result BranchError (Option Header)
  pub by_number : ℕ → Result BranchError Header

-- Where a branch joined the canonical chain: its depth below the tip, and the height.
abbrev pub Join : Type 0
Join = ℕ × ℕ

module _ (fold_eq : String → String → Bool) (client : Served) (tip : ℕ) where
  unfoldable pub join_at : (height : ℕ) → Result BranchError Join
  join_at height = if leb tip height then err (tip_below tip height) else ok (tip - height, height)

  -- The rest of a round, with what the client answered for the hash and at its height.
  unfoldable pub read_branch :
      (hash : String)
      → (next : String → Result BranchError Join) → Result BranchError (Option Header)
      → Result BranchError Join
  unfolding join_at
  read_branch hash next (err e) = err e
  read_branch hash next (ok none) = err (not_served hash)
  read_branch hash next (ok (some b)) = elim (client.by_number b.number) [
    | err e ↦ err e
    | ok canon ↦ if fold_eq canon.hash b.hash then join_at b.number else next b.parent
  ]

  unfoldable pub walk_branch : (steps : ℕ) → (hash : String) → Result BranchError Join
  unfolding read_branch
  walk_branch zero hash = err no_join
  walk_branch (suc n) hash = read_branch hash (walk_branch n) (client.by_hash hash)

  unfoldable pub walk_orphan_branch : (orphan : String) → Result BranchError Join
  unfolding walk_branch
  walk_orphan_branch orphan = walk_branch 128 orphan

-- A head that the monitor recorded.
pub record HeadSeen : Type 0 where
  pub node : String
  pub time : ℕ
  pub number : ℕ

module _ (same_node : String → String → Bool) (node : String) (from to : ℕ) where
  unfoldable pub counts_head : HeadSeen → Bool
  counts_head h = same_node h.node node && not (ltb h.time from) && not (ltb to h.time)

  unfoldable pub tip_from : List HeadSeen → (tip : ℕ) → ℕ
  unfolding counts_head
  tip_from [] tip = tip
  tip_from (h ∷ hs) tip = tip_from hs (if counts_head h && ltb tip h.number then h.number else tip)

  unfoldable pub victim_tip : List HeadSeen → ℕ
  unfolding tip_from
  victim_tip hs = tip_from hs 0
