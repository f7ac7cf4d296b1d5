-- ===== src/Migmon/Memory/Cap.antt =====
-- The heights that the memory keeps, and the hashes that it holds
-- (internal/migmon/sampler.go: ReorgMemory.Observe).
use pbt_devnet.Prelude.{
  ℕ, ◌≤◌, ◌≡◌, ◌≢◌, refl, sym, ap, subst, ◌⊎◌, inl, inr, String, true, false, Option, none, some,
  List, [], ◌∷◌, ◌++◌, arith, eq_iff, Some, Some-append, length, length-append, is_some, ltb,
  str_eq, ℕ_discrete, Bool-cases,
}
use pbt_devnet.Migmon.Memory.{ReorgMemory, new_memory, assign, trim, observe}

abbrev Has : List ℕ → ℕ → Type 0
Has xs h = Some (λ x. x ≡ h) xs

abbrev Distinct : List ℕ → Type 0
Distinct [] = Unit
Distinct (x ∷ xs) = (¬ Has xs x) × Distinct xs

pub record IsKept (m : ReorgMemory) : Type 0 where
  pub capped : length m.order ≤ 512
  pub distinct : Distinct m.order
  pub known : (h : ℕ) → is_some (m.hash h) ≡ true → Has m.order h
  pub listed : (h : ℕ) → Has m.order h → is_some (m.hash h) ≡ true

new_memory-IsKept : (node : String) → IsKept (new_memory node)
unfolding new_memory
new_memory-IsKept node = record {
  capped = omega arith;
  distinct = tt;
  known = λ h k. absurd (cc);
  listed = λ h k. absurd k;
}

Distinct-snoc : (xs : List ℕ) (h : ℕ) → Distinct xs → (¬ Has xs h) → Distinct (xs ++ h ∷ [])
Distinct-snoc [] h d n = ((λ k. k), tt)
Distinct-snoc (x ∷ xs) h d n = (
  λ k. elim ((Some-append (λ y. y ≡ x) xs (h ∷ [])).0 k) [
    | inl a ↦ d.0 a
    | inr b ↦ elim b [ inl e ↦ n (inl (sym e)) | inr c ↦ absurd c ]
  ],
  Distinct-snoc xs h d.1 (λ k. n (inr k)),
)

-- The memory with one height more, before it is trimmed.
record IsFull (m : ReorgMemory) : Type 0 where
  capped : length m.order ≤ 513
  distinct : Distinct m.order
  known : (h : ℕ) → is_some (m.hash h) ≡ true → Has m.order h
  listed : (h : ℕ) → Has m.order h → is_some (m.hash h) ≡ true

assign_self : (h : ℕ) (v : Option String) (m : ℕ → Option String) → assign h v m h ≡ v
unfolding assign
assign_self h v m = ground arith

assign_ne : (h k : ℕ) (v : Option String) (m : ℕ → Option String) → k ≢ h → assign h v m k ≡ m k
unfolding assign
assign_ne h k v m n = ground arith

grow-IsFull :
    (height : ℕ) (hash : String) (m : ReorgMemory)
    → IsKept m
    → m.hash height ≡ none
    → IsFull (record m { hash = assign height (some hash) m.hash; order = m.order ++ height ∷ [] })
grow-IsFull height hash m k e = record {
  capped = omega (arith, k.capped, length-append m.order (height ∷ []));
  distinct =
      Distinct-snoc m.order height k.distinct (λ h. let b = k.listed height h in absurd (cc));
  known = λ h s. elim (ℕ_discrete h height) [
    | yes p ↦ (Some-append (λ x. x ≡ h) m.order (height ∷ [])).1 (inr (inl (sym p)))
    | no p ↦
        (Some-append (λ x. x ≡ h) m.order (height ∷ [])).1
          (inl (k.known h (rw (assign_ne height h (some hash) m.hash p) at s)))
  ];
  listed = λ h s. elim (ℕ_discrete h height) [
    | yes p ↦ rw (p, assign_self height (some hash) m.hash)
    | no p ↦
        rw (assign_ne height h (some hash) m.hash p)
          (elim ((Some-append (λ x. x ≡ h) m.order (height ∷ [])).0 s) [
            | inl a ↦ k.listed h a
            | inr b ↦ elim b [ inl q ↦ absurd (p (sym q)) | inr c ↦ absurd c ]
          ])
  ];
}

-- Dropping the oldest height with its hash.
drop-IsKept :
    (m : ReorgMemory) (oldest : ℕ) (rest : List ℕ)
    → m.order ≡ oldest ∷ rest
    → IsFull m
    → IsKept (record m { hash = assign oldest none m.hash; order = rest })
drop-IsKept m oldest rest e f = record {
  capped = let l = ap length e in omega (arith, f.capped);
  distinct = (subst Distinct e f.distinct).1;
  known = λ h s. elim (ℕ_discrete h oldest) [
    | yes p ↦ absurd (let b = rw (p, assign_self oldest none m.hash) at s in cc)
    | no p ↦
        elim (subst (λ l. Has l h) e (f.known h (rw (assign_ne oldest h none m.hash p) at s))) [
          | inl q ↦ absurd (p (sym q))
          | inr k ↦ k
        ]
  ];
  listed = λ h s. elim (ℕ_discrete h oldest) [
    | yes p ↦ absurd ((subst Distinct e f.distinct).0 (rw p at s))
    | no p ↦
        rw (assign_ne oldest h none m.hash p) (f.listed h (subst (λ l. Has l h) (sym e) (inr s)))
  ];
}

trim_small : (m : ReorgMemory) → ltb 512 (length m.order) ≡ false → trim m ≡ m
unfolding trim
trim_small m e = ground arith

trim_big :
    (m : ReorgMemory) (oldest : ℕ) (rest : List ℕ)
    → m.order ≡ oldest ∷ rest
    → ltb 512 (length m.order) ≡ true
    → trim m ≡ record m { hash = assign oldest none m.hash; order = rest }
unfolding trim
trim_big m oldest rest e big = ground arith

trim-IsKept : (m : ReorgMemory) → IsFull m → IsKept (trim m)
trim-IsKept m f = by_order m.order refl (Bool-cases (ltb 512 (length m.order)))
  where
    by_order :
        (l : List ℕ)
        → m.order ≡ l
        → (ltb 512 (length m.order) ≡ true) ⊎ (ltb 512 (length m.order) ≡ false)
        → IsKept (trim m)
    by_order l e (inr small) = subst IsKept (sym (trim_small m small)) (record {
      capped = ground arith;
      distinct = f.distinct;
      known = f.known;
      listed = f.listed;
    })
    by_order [] e (inl big) = absurd (let l = ap length e in ground arith)
    by_order (oldest ∷ rest) e (inl big) =
        subst IsKept (sym (trim_big m oldest rest e big)) (drop-IsKept m oldest rest e f)

-- A changed hash at a remembered height changes nothing else.
replace-IsKept :
    (height : ℕ) (hash prev : String) (m : ReorgMemory)
    → m.hash height ≡ some prev
    → IsKept m
    → IsKept (record m { hash = assign height (some hash) m.hash })
replace-IsKept height hash prev m e k = record {
  capped = k.capped;
  distinct = k.distinct;
  known = λ h s. elim (ℕ_discrete h height) [
    | yes p ↦ k.known h (rw (p, e))
    | no p ↦ k.known h (rw (assign_ne height h (some hash) m.hash p) at s)
  ];
  listed = λ h s. elim (ℕ_discrete h height) [
    | yes p ↦ rw (p, assign_self height (some hash) m.hash)
    | no p ↦ rw (assign_ne height h (some hash) m.hash p) (k.listed h s)
  ];
}

-- What one observation does to the memory.
pub data Outcome (height : ℕ) (hash : String) (m next : ReorgMemory) : Type 0 where
  unchanged : m.hash height ≡ some hash → next ≡ m → Outcome height hash m next
  replaced :
      (prev : String)
      → m.hash height ≡ some prev
      → next ≡ record m { hash = assign height (some hash) m.hash }
      → Outcome height hash m next
  added :
      m.hash height ≡ none
      → next
        ≡ trim
            (record m { hash = assign height (some hash) m.hash; order = m.order ++ height ∷ [] })
      → Outcome height hash m next

pub observe-Outcome :
    (height : ℕ) (hash : String) (head : ℕ) (m : ReorgMemory)
    → Outcome height hash m (observe height hash head m).0
unfolding observe
observe-Outcome height hash head m = by_known (m.hash height) refl
  where
    by_known :
        (o : Option String)
        → m.hash height ≡ o
        → Outcome height hash m (observe height hash head m).0
    by_known none e = added e (rw (e, observe))
    by_known (some prev) e = elim (Bool-cases (str_eq prev hash)) [
      | inl s ↦ unchanged (let q = (eq_iff prev hash).0 s in cc) (ground arith)
      | inr s ↦ replaced prev e (ground arith)
    ]

observe-IsKept :
    (height : ℕ) (hash : String) (head : ℕ) (m : ReorgMemory)
    → IsKept m
    → IsKept (observe height hash head m).0
observe-IsKept height hash head m k = elim (observe-Outcome height hash head m) [
  | unchanged e q ↦ subst IsKept (sym q) k
  | replaced prev e q ↦ subst IsKept (sym q) (replace-IsKept height hash prev m e k)
  | added e q ↦ subst IsKept (sym q) (trim-IsKept _ (grow-IsFull height hash m k e))
]

-- The heights sampled, with the hash and the head read there, newest first.
unfoldable pub after : (node : String) → List (ℕ × String × ℕ) → ReorgMemory
after node [] = new_memory node
after node ((height, hash, head) ∷ hist) = (observe height hash head (after node hist)).0

-- After any samples the memory is within its cap, lists no height twice, and lists exactly the
-- heights that it holds a hash of.
pub after-IsKept : (node : String) (hist : List (ℕ × String × ℕ)) → IsKept (after node hist)
unfolding after
after-IsKept node [] = new_memory-IsKept node
after-IsKept node ((height, hash, head) ∷ hist) =
    observe-IsKept height hash head (after node hist) (after-IsKept node hist)
