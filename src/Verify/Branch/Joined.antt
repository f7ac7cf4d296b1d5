-- ===== src/Verify/Branch/Joined.antt =====
-- The walk of an orphaned branch against the branch itself (boundary.go: walkOrphanBranch).
use pbt_devnet.Prelude.{
  ℕ, zero, suc, ◌-◌, ◌<◌, ◌≡◌, refl, sym, ap, subst, ◌∙◌, ◌↔◌, ◌⊎◌, inl, inr, String, Bool, true,
  false, Option, none, some, leb, Result, ok, err, ok-injective, if◌then◌else◌, Bool-cases, arith,
}
use pbt_devnet.Migmon.{Header}
use pbt_devnet.Verify.Branch.{
  BranchError, Served, Join, join_at, read_branch, walk_branch, walk_orphan_branch,
}

module _ (fold_eq : String → String → Bool) (client : Served) where
  -- The branch of a hash meets the client's canonical chain at a height, after so many parents; the
  -- blocks before are not canonical.
  pub data Meets : (parents : ℕ) → (hash : String) → (height : ℕ) → Type 0 where
    here :
        {hash : String} {height : ℕ} (b canon : Header)
        → client.by_hash hash ≡ ok (some b)
        → client.by_number b.number ≡ ok canon
        → fold_eq canon.hash b.hash ≡ true
        → height ≡ b.number
        → Meets 0 hash height
    later :
        {n : ℕ} {hash : String} {height : ℕ} (b canon : Header)
        → client.by_hash hash ≡ ok (some b)
        → client.by_number b.number ≡ ok canon
        → fold_eq canon.hash b.hash ≡ false
        → Meets n b.parent height
        → Meets (suc n) hash height

  -- One block of a branch, as the client serves it.
  abbrev Block : String → Header → Header → Type 0
  Block hash b canon = (client.by_hash hash ≡ ok (some b)) × (client.by_number b.number ≡ ok canon)

  Meets-cases :
      {n : ℕ} {hash : String} {height : ℕ}
      → Meets n hash height
      → (b : Header) × (canon : Header) × Block hash b canon
        × (((fold_eq canon.hash b.hash ≡ true) × (height ≡ b.number))
            ⊎ ((fold_eq canon.hash b.hash ≡ false)
                × ((m : ℕ) × (n ≡ suc m) × Meets m b.parent height)))
  Meets-cases (here b canon eb ec t e) = (b, canon, (eb, ec), inl (t, e))
  Meets-cases (later {n = n} b canon eb ec t m) = (b, canon, (eb, ec), inr (t, (n, refl, m)))

  -- The block that the client serves is the only one.
  Meets-at :
      {n : ℕ} {hash : String} {height : ℕ} (b canon : Header)
      → client.by_hash hash ≡ ok (some b)
      → client.by_number b.number ≡ ok canon
      → Meets n hash height
      → ((fold_eq canon.hash b.hash ≡ true) × (height ≡ b.number))
        ⊎ ((fold_eq canon.hash b.hash ≡ false) × ((m : ℕ) × (n ≡ suc m) × Meets m b.parent height))
  Meets-at {n} {hash} {height} b canon eb ec m =
      let (b', canon', (eb', ec'), rest) = Meets-cases m in
      let one : b' ≡ b = cc in
      let two : canon' ≡ canon = cc in
      elim rest [
        | inl (t, e) ↦ inl (cc, cc)
        | inr (t, (k, ek, more)) ↦ inr (cc, (k, ek, subst (λ x. Meets k x.parent height) one more))
      ]

  module _ (tip : ℕ) where
    -- A depth and a height that the walk may give.
    abbrev pub IsJoin : ℕ → String → Join → Type 0
    IsJoin steps hash j =
        ((n : ℕ) × (n < steps) × Meets n hash j.1) × (j.1 < tip) × (j.0 ≡ tip - j.1)

    join_at_iff :
        (height : ℕ) (j : Join)
        → (join_at fold_eq client tip height ≡ ok j)
          ↔ ((j.1 ≡ height) × (height < tip) × (j.0 ≡ tip - height))
    unfolding join_at
    join_at_iff height j = elim (Bool-cases (leb tip height)) [
      | inl low ↦ rw low (λ h. absurd (cc), λ h. absurd (ground (arith, h.1)))
      | inr high ↦ rw high (
        λ h.
            let e : (tip - height, height) ≡ j = ok-injective h in
            (sym (ap (λ p. p.1) e), ground arith, sym (ap (λ p. p.0) e)),
        λ (e1, _, e0). ap ok (λ i. (sym e0 i, sym e1 i)),
      )
    ]

    walk_branch_iff :
        (steps : ℕ) (hash : String) (j : Join)
        → (walk_branch fold_eq client tip steps hash ≡ ok j) ↔ IsJoin steps hash j
    unfolding walk_branch read_branch
    walk_branch_iff zero hash j = (λ h. absurd (cc), λ ((n, low, _), _, _). absurd (omega arith))
    walk_branch_iff (suc steps) hash j =
        by_block (client.by_hash hash) refl (λ next. walk_branch_iff steps next j)
      where
        Next : Type 0
        Next =
            (next : String)
            → (walk_branch fold_eq client tip steps next ≡ ok j) ↔ IsJoin steps next j

        step : Result BranchError (Option Header) → Result BranchError Join
        step = read_branch fold_eq client tip hash (walk_branch fold_eq client tip steps)

        by_canon :
            (b canon : Header)
            → client.by_hash hash ≡ ok (some b)
            → client.by_number b.number ≡ ok canon
            → (t : Bool) → fold_eq canon.hash b.hash ≡ t
            → Next
            → ((if t
                  then join_at fold_eq client tip b.number
                  else walk_branch fold_eq client tip steps b.parent)
                ≡ ok j)
              ↔ IsJoin (suc steps) hash j
        by_canon b canon eb ec true t next =
            let (to, from) = join_at_iff b.number j in
            (
              λ h.
                  let (e1, low, e0) = to h in
                  ((0, omega arith, here b canon eb ec t e1), (rw e1 low), rw e1 e0),
              λ ((n, few, m), low, e0). elim (Meets-at b canon eb ec m) [
                | inl (_, e1) ↦ from (e1, subst (λ x. x < tip) e1 low, e0 ∙ ap (λ x. tip - x) e1)
                | inr (f, _) ↦ absurd (cc)
              ],
            )
        by_canon b canon eb ec false t next =
            let (to, from) = next b.parent in
            (
              λ h.
                  let ((n, few, m), low, e0) = to h in
                  ((suc n, omega arith, later b canon eb ec t m), low, e0),
              λ ((n, few, m), low, e0). elim (Meets-at b canon eb ec m) [
                | inl (f, _) ↦ absurd (cc)
                | inr (_, (k, ek, more)) ↦ from ((k, omega arith, more), low, e0)
              ],
            )

        by_number :
            (b : Header)
            → client.by_hash hash ≡ ok (some b)
            → (r : Result BranchError Header) → client.by_number b.number ≡ r
            → Next
            → let it : Result BranchError Join = elim r [
              | err e ↦ err e
              | ok canon ↦
                  if fold_eq canon.hash b.hash
                  then join_at fold_eq client tip b.number
                  else walk_branch fold_eq client tip steps b.parent
            ] in
              (it ≡ ok j) ↔ IsJoin (suc steps) hash j
        by_number b eb (err w) ec next = (
          λ h. absurd (cc),
          λ ((n, few, m), low, e0).
              let (b', canon', (eb', ec'), _) = Meets-cases m in
              let one : b' ≡ b = cc in absurd (cc),
        )
        by_number b eb (ok canon) ec next = by_canon b canon eb ec _ refl next

        by_block :
            (r : Result BranchError (Option Header))
            → client.by_hash hash ≡ r
            → Next
            → (step r ≡ ok j) ↔ IsJoin (suc steps) hash j
        by_block (err w) e next = (
          λ h. absurd (cc),
          λ ((n, few, m), low, e0). let (b', canon', (eb', ec'), _) = Meets-cases m in absurd (cc),
        )
        by_block (ok none) e next = (
          λ h. absurd (cc),
          λ ((n, few, m), low, e0). let (b', canon', (eb', ec'), _) = Meets-cases m in absurd (cc),
        )
        by_block (ok (some b)) e next = by_number b e (client.by_number b.number) refl next

    -- The walk gives a depth and a height exactly if the branch meets the canonical chain at that
    -- height within 128 blocks, below the tip, and the depth is how far below.
    pub walk_orphan_branch_iff :
        (orphan : String) (j : Join)
        → (walk_orphan_branch fold_eq client tip orphan ≡ ok j) ↔ IsJoin 128 orphan j
    unfolding walk_orphan_branch
    walk_orphan_branch_iff orphan j = walk_branch_iff 128 orphan j
