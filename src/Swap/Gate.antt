-- ===== src/Swap/Gate.antt =====
-- When the gates open (cmd/migration-swap/gate.go: exportBlocker, decideSwap).
use pbt_devnet.Prelude.{
  ◌+◌, ◌*◌, ◌≤◌, ◌≡◌, refl, ap, ◌↔◌, String, Bool, true, false, Option, none, some, [], arith,
  str_eq,
}
use pbt_devnet.Migmon.{Header}
use pbt_devnet.Swap.{
  applied, ExportState, Reason, no_reason, export_blocker, Verdict, proceed, reorged, SwapState,
  decide_swap,
}

-- Every export condition holds.
pub record MayExport (s : ExportState) : Type 0 where
  pub due : s.not_before ≤ s.now
  pub whole : s.partitions ≡ applied 0
  pub calm : 180 ≤ s.gap
  pub answering : s.down ≡ []

-- The export gate has no blocker exactly if every condition holds.
pub export_blocker_iff : (s : ExportState) → (export_blocker s ≡ no_reason) ↔ MayExport s
unfolding export_blocker
export_blocker_iff s = (λ h. ground arith, λ h. ground arith)

module _ (fold_eq : String → String → Bool) where
  -- Every swap condition holds.
  pub record MaySwap (s : SwapState) : Type 0 where
    pub finalized : Header
    pub known : s.finalized ≡ some finalized
    pub in_time : s.now + s.expected + s.margin ≤ s.fork
    pub anchor_final : s.anchor ≤ finalized.number
    pub canonical_known : str_eq s.canonical "" ≡ false
    pub canonical : fold_eq s.canonical s.anchor_hash ≡ true
    pub fresh : s.now ≤ finalized.time + 4 * s.epoch_seconds
    pub healthy : s.down ≡ []
    pub whole : s.partitions ≡ applied 0
    pub calm : s.expected + 120 ≤ s.gap
    pub previous_back : s.prev_behind ≡ false

  MaySwap-of :
      (s : SwapState) (f : Header)
      → s.finalized ≡ some f
      → (decide_swap fold_eq s).0 ≡ proceed
      → MaySwap s
  unfolding decide_swap
  MaySwap-of s f e h = record {
    finalized = f;
    known = e;
    in_time = ground arith;
    anchor_final = ground arith;
    canonical_known = ground arith;
    canonical = ground arith;
    fresh = ground arith;
    healthy = ground arith;
    whole = ground arith;
    calm = ground arith;
    previous_back = ground arith;
  }

  proceed-known :
      (s : SwapState) → (decide_swap fold_eq s).0 ≡ proceed → (f : Header) × (s.finalized ≡ some f)
  unfolding decide_swap
  proceed-known s h = by_final s.finalized refl
    where
      by_final : (o : Option Header) → s.finalized ≡ o → (f : Header) × (s.finalized ≡ some f)
      by_final none e = absurd (ground arith)
      by_final (some f) e = (f, e)

  MaySwap-proceed : (s : SwapState) → MaySwap s → decide_swap fold_eq s ≡ (proceed, no_reason)
  unfolding decide_swap
  MaySwap-proceed s m = let e = m.known in ground arith

  -- The swap gate opens exactly if every swap condition holds.
  pub decide_swap_iff : (s : SwapState) → ((decide_swap fold_eq s).0 ≡ proceed) ↔ MaySwap s
  decide_swap_iff s = (
    λ h. let (f, e) = proceed-known s h in MaySwap-of s f e h,
    λ m. ap (λ (r : Verdict × Reason). r.0) (MaySwap-proceed s m),
  )

  -- Node 1 has finalized the anchor's height, on another block.
  pub record IsLost (s : SwapState) : Type 0 where
    pub finalized : Header
    pub known : s.finalized ≡ some finalized
    pub anchor_final : s.anchor ≤ finalized.number
    pub canonical_known : str_eq s.canonical "" ≡ false
    pub other : fold_eq s.canonical s.anchor_hash ≡ false

  reorged-IsLost :
      (s : SwapState) (f : Header)
      → s.finalized ≡ some f
      → (decide_swap fold_eq s).0 ≡ reorged
      → IsLost s × (s.now + s.expected + s.margin ≤ s.fork)
  unfolding decide_swap
  reorged-IsLost s f e h = (
    record {
      finalized = f;
      known = e;
      anchor_final = ground arith;
      canonical_known = ground arith;
      other = ground arith;
    },
    ground arith,
  )

  reorged-known :
      (s : SwapState) → (decide_swap fold_eq s).0 ≡ reorged → (f : Header) × (s.finalized ≡ some f)
  unfolding decide_swap
  reorged-known s h = by_final s.finalized refl
    where
      by_final : (o : Option Header) → s.finalized ≡ o → (f : Header) × (s.finalized ≡ some f)
      by_final none e = absurd (ground arith)
      by_final (some f) e = (f, e)

  IsLost-reorged :
      (s : SwapState)
      → IsLost s
      → s.now + s.expected + s.margin ≤ s.fork
      → (decide_swap fold_eq s).0 ≡ reorged
  unfolding decide_swap
  IsLost-reorged s l t = let e = l.known in ground arith

  -- A swap that is still in time is given up as reorged exactly if node 1 finalized another block
  -- at the anchor's height; one that is too late never is.
  pub reorged_iff :
      (s : SwapState)
      → ((decide_swap fold_eq s).0 ≡ reorged)
        ↔ (IsLost s × (s.now + s.expected + s.margin ≤ s.fork))
  reorged_iff s = (
    λ h. let (f, e) = reorged-known s h in reorged-IsLost s f e h,
    λ (l, t). IsLost-reorged s l t,
  )
