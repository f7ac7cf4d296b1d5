-- ===== src/Swap/Chaos.antt =====
-- The chaos-free time ahead (cmd/migration-swap/gate.go: chaosFree).
use pbt_devnet.Prelude.{
  ℕ, zero, suc, ◌+◌, ◌≤◌, ◌<◌, ◌≡◌, refl, sym, subst, inl, List, [], ◌∷◌, arith, Some,
}
use pbt_devnet.Dump.{Dump, gaps}
use pbt_devnet.Dump.Gaps.{Holds, Occupies, gaps_iff}
use pbt_devnet.Swap.{chaos_free}

-- The first gap, when it starts at once.
first_gap :
    (d : Dump) (now horizon n : ℕ)
    → chaos_free d now horizon ≡ suc n
    → (g : ℕ × ℕ) × (rest : List (ℕ × ℕ)) × (gaps d now (now + horizon) ≡ g ∷ rest)
      × (g.0 ≤ now)
      × (g.1 ≡ now + suc n)
unfolding chaos_free
first_gap d now horizon n h = by_gaps (gaps d now (now + horizon)) refl
  where
    by_gaps :
        (gs : List (ℕ × ℕ))
        → gaps d now (now + horizon) ≡ gs
        → (g : ℕ × ℕ) × (rest : List (ℕ × ℕ)) × (gaps d now (now + horizon) ≡ g ∷ rest)
          × (g.0 ≤ now)
          × (g.1 ≡ now + suc n)
    by_gaps [] e = absurd (ground arith)
    by_gaps (g ∷ rest) e = (g, rest, e, ground arith, ground arith)

-- Through the whole chaos-free time no op that runs occupies any instant, and it stays within the
-- horizon.
pub chaos_free-clear :
    (d : Dump) (now horizon t : ℕ)
    → now ≤ t
    → t < now + chaos_free d now horizon
    → (t < now + horizon) × (¬ Some (Occupies t) d.ops)
chaos_free-clear d now horizon t a b = by_length (chaos_free d now horizon) refl
  where
    by_length :
        (k : ℕ) → chaos_free d now horizon ≡ k → (t < now + horizon) × (¬ Some (Occupies t) d.ops)
    by_length zero e = absurd (omega arith)
    by_length (suc n) e =
        let (g, rest, eq, lo, hi) = first_gap d now horizon n e in
        let (to, from) = gaps_iff d now (now + horizon) t in
        let inside : Some (Holds t) (g ∷ rest) = inl (omega arith, omega arith) in
        let (_, y, z) = to (subst (Some (Holds t)) (sym eq) inside) in (y, z)
