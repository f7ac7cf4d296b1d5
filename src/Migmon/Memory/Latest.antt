-- ===== src/Migmon/Memory/Latest.antt =====
-- A reorg finding and the hash last sampled (internal/migmon/sampler.go:
-- ReorgMemory.Observe).
use pbt_devnet.Prelude.{
  ℕ, ◌≡◌, ◌≢◌, sym, ap, ◌∙◌, subst, String, false, Option, none, some, List, [], ◌∷◌, arith, eq_iff,
  Some, ◌==◌, str_eq, ℕ_discrete, if◌then◌else◌,
}
use pbt_devnet.Migmon.{Event, hash_moved}
use pbt_devnet.Migmon.Memory.{ReorgMemory, new_memory, assign, trim, observe}
use pbt_devnet.Migmon.Memory.Cap.{unchanged, replaced, added, observe-Outcome, after}

-- The hash last sampled at a height.
abbrev pub last_seen : ℕ → List (ℕ × String × ℕ) → Option String
last_seen h [] = none
last_seen h ((height, hash, head) ∷ hist) =
    let older = last_seen h hist in if h == height then some hash else older

record Tracks (m : ReorgMemory) (hist : List (ℕ × String × ℕ)) : Type 0 where
  latest : (h : ℕ) (x : String) → m.hash h ≡ some x → last_seen h hist ≡ some x

trim-hash : (m : ReorgMemory) (h : ℕ) (x : String) → (trim m).hash h ≡ some x → m.hash h ≡ some x
unfolding trim assign
trim-hash m h x e = ground arith

assign-Tracks :
    (height head : ℕ) (hash : String) (m : ReorgMemory) (hist : List (ℕ × String × ℕ))
    → Tracks m hist
    → (h : ℕ) (x : String) → assign height (some hash) m.hash h ≡ some x
    → last_seen h ((height, hash, head) ∷ hist) ≡ some x
unfolding assign
assign-Tracks height head hash m hist t h x e = ground (arith, t.latest h x)

unchanged-Tracks :
    (height head : ℕ) (hash : String) (m : ReorgMemory) (hist : List (ℕ × String × ℕ))
    → Tracks m hist
    → m.hash height ≡ some hash
    → (h : ℕ) (x : String) → m.hash h ≡ some x
    → last_seen h ((height, hash, head) ∷ hist) ≡ some x
unchanged-Tracks height head hash m hist t e h x k = elim (ℕ_discrete h height) [
  | yes p ↦
      let j = subst (λ y. m.hash y ≡ some x) p k in
      let same : some hash ≡ some x = sym e ∙ j in ground arith
  | no p ↦ ground (arith, t.latest h x)
]

observe-Tracks :
    (height : ℕ) (hash : String) (head : ℕ) (m : ReorgMemory) (hist : List (ℕ × String × ℕ))
    → Tracks m hist
    → Tracks (observe height hash head m).0 ((height, hash, head) ∷ hist)
observe-Tracks height hash head m hist t = elim (observe-Outcome height hash head m) [
  | unchanged e q ↦ record {
    latest = λ h x k.
        unchanged-Tracks height head hash m hist t e h x
          (ap (λ (r : ReorgMemory). r.hash h) (sym q) ∙ k);
  }
  | replaced prev e q ↦ record {
    latest = λ h x k.
        assign-Tracks height head hash m hist t h x
          (ap (λ (r : ReorgMemory). r.hash h) (sym q) ∙ k);
  }
  | added e q ↦ record {
    latest = λ h x k.
        assign-Tracks height head hash m hist t h x
          (trim-hash _ h x (ap (λ (r : ReorgMemory). r.hash h) (sym q) ∙ k));
  }
]

new_memory-hash :
    (node : String) (h : ℕ) (x : String) → (new_memory node).hash h ≡ some x → none ≡ some x
unfolding new_memory
new_memory-hash node h x e = e

after-Tracks : (node : String) (hist : List (ℕ × String × ℕ)) → Tracks (after node hist) hist
unfolding after
after-Tracks node [] = record { latest = λ h x e. new_memory-hash node h x e }
after-Tracks node ((height, hash, head) ∷ hist) =
    observe-Tracks height hash head (after node hist) hist (after-Tracks node hist)

abbrev pub Moved : (before after : String) → Event → Type 0
Moved before after e = (depth : ℕ) × (e.detail ≡ hash_moved before after depth)

observe-Moved :
    (height : ℕ) (hash : String) (head : ℕ) (m : ReorgMemory) (x y : String)
    → Some (Moved x y) (observe height hash head m).1
    → (m.hash height ≡ some x) × (y ≡ hash) × (str_eq x hash ≡ false)
unfolding observe
observe-Moved height hash head m x y h = ground arith

-- A reorg finding names the hash that was last sampled at the height, which differs from the new
-- one.
pub reorg_finding :
    (node : String) (hist : List (ℕ × String × ℕ)) (height : ℕ) (hash : String) (head : ℕ)
    (x y : String)
    → Some (Moved x y) (observe height hash head (after node hist)).1
    → (last_seen height hist ≡ some x) × (y ≡ hash) × (x ≢ hash)
reorg_finding node hist height hash head x y h =
    let (known, new, differ) = observe-Moved height hash head (after node hist) x y h in
    ((after-Tracks node hist).latest height x known, new, λ e. let t = (eq_iff x hash).1 e in cc)
