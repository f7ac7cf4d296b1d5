-- ===== src/Lineage/Extend.antt =====
-- What the store takes in (lineage.go: put and extend), if the clients serve headers of one tree of
-- blocks.
use pbt_devnet.Prelude.{
  ℕ, zero, suc, ◌+◌, ◌≤◌, ◌≡◌, refl, sym, ap, subst, ◌∙◌, String, Bool, true, false, Option, none,
  some, List, [], ◌∷◌, ◌++◌, eq_iff, str_eq, is_some, length, length-append, if◌then◌else◌,
  Bool-cases, inl, inr, All, All-map, All-append, arith,
}
use pbt_devnet.Prelude.Maps.{
  lookup, store, string_key, lookup-store_self, lookup-store_other, store_inv,
}
use pbt_devnet.Migmon.{Header}
use pbt_devnet.Lineage.{
  Block, Store, block_of, block_at, put, Fetch, failed, missing, found, FetchError, no_error,
  fetch_failed, unknown_parent, Extended, fetch_parents, extend,
}
use pbt_devnet.Lineage.Walk.Ancestry.{IsLinked}

-- The blocks that exist, by their hashes.
abbrev pub Tree : Type 0
Tree = String → Option Block

pub record IsTree (tree : Tree) : Type 0 where
  pub named : (h : String) (b : Block) → tree h ≡ some b → b.hash ≡ h
  pub linked :
      (h : String) (b p : Block)
      → tree h ≡ some b
      → tree b.parent ≡ some p
      → b.number ≡ suc p.number

abbrev pub Within : Tree → Store → Type 0
Within tree s = (h : String) (b : Block) → lookup h s ≡ some b → tree h ≡ some b

abbrev pub IsServed : Tree → Header → Type 0
IsServed tree h = tree h.hash ≡ some (block_of h)

abbrev pub Keeps : Store → Store → Type 0
Keeps s t = (h : String) (b : Block) → lookup h s ≡ some b → lookup h t ≡ some b

module _ (tree : Tree) where
  pub Within-IsLinked : IsTree tree → (s : Store) → Within tree s → IsLinked s
  Within-IsLinked is s w = record {
    named = λ h b e. is.named h b (w h b e);
    linked = λ h b p e e'. is.linked h b p (w h b e) (w b.parent p e');
  }

  -- After `put` a header's block is known, all that was known is as it was, and nothing else came.
  record Takes (h : Header) (s t : Store) : Type 0 where
    within : Within tree t
    keeps : Keeps s t
    known : lookup h.hash t ≡ some (block_of h)

  put-Takes : (h : Header) (s : Store) → IsServed tree h → Within tree s → Takes h s (put h s)
  unfolding put
  put-Takes h s served w = by_read (lookup h.hash s) refl
    where
      by_read :
          (o : Option Block)
          → lookup h.hash s ≡ o
          → Takes h s (if is_some o then s else store h.hash (block_of h) s)
      by_read (some b) e = record {
        within = w;
        keeps = λ j c k. k;
        known = e ∙ (sym (w h.hash b e) ∙ served);
      }
      by_read none e = record {
        within = λ j c k. elim (store_inv h.hash j (block_of h) c s k) [
          | inl (same, is) ↦ subst (λ x. tree x ≡ some c) same (served ∙ ap some is)
          | inr (_, old) ↦ w j c old
        ];
        keeps = λ j c k. elim (Bool-cases (str_eq h.hash j)) [
          | inl same ↦ absurd (cc (e, k, ap (λ x. lookup x s) ((eq_iff h.hash j).0 same)))
          | inr other ↦ lookup-store_other h.hash j (block_of h) s other ∙ k
        ];
        known = lookup-store_self h.hash (block_of h) s;
      }

  -- What `extend` leaves: all got is known, and all that was known is as it was.
  pub record Extends (s : Store) (bound : ℕ) (x : Extended) : Type 0 where
    pub within : Within tree x.blocks
    pub keeps : Keeps s x.blocks
    pub got_known : All (λ h. lookup h.hash x.blocks ≡ some (block_of h)) x.got
    pub few : length x.got ≤ bound

  stays :
      (s : Store)
      → Within tree s
      → (got : List Header) → All (λ h. lookup h.hash s ≡ some (block_of h)) got
      → (bound : ℕ) → length got ≤ bound
      → (e : FetchError) → Extends s bound (record { blocks = s; got = got; error = e })
  stays s w got g bound few e = record { within = w; keeps = λ h b k. k; got_known = g; few = few }

  module _ (fetch : List Header → String → Fetch) where
    -- The clients answer with blocks of the tree.
    abbrev pub IsHonest : Type 0
    IsHonest =
        (got : List Header) (p : String) (h : Header) → fetch got p ≡ found h → IsServed tree h

    module _ (honest : IsHonest) where
      fetch_parents-Extends :
          (n : ℕ) (cur : Block) (got : List Header) (s : Store)
          → Within tree s
          → All (λ h. lookup h.hash s ≡ some (block_of h)) got
          → Extends s (length got + n) (fetch_parents fetch n cur got s)
      unfolding fetch_parents
      fetch_parents-Extends zero cur got s w g =
          stays s w got g (length got + 0) (omega arith) no_error
      fetch_parents-Extends (suc n) cur got s w g =
          by_test _ (fetch got cur.parent) refl (fetch_parents-Extends n)
        where
          Rec : Type 0
          Rec =
              (c : Block) (xs : List Header) (t : Store)
              → Within tree t
              → All (λ h. lookup h.hash t ≡ some (block_of h)) xs
              → Extends t (length xs + n) (fetch_parents fetch n c xs t)

          on_answer :
              (a : Fetch)
              → fetch got cur.parent ≡ a
              → Rec
              → let it : Extended = elim a [
                | failed ↦ record { blocks = s; got = got; error = fetch_failed }
                | missing ↦ record {
                  blocks = s;
                  got = got;
                  error = unknown_parent cur.parent cur.number;
                }
                | found h ↦
                    fetch_parents fetch n (block_at (put h s) h.hash) (got ++ h ∷ []) (put h s)
              ] in
                Extends s (length got + suc n) it
          on_answer failed e rec = stays s w got g (length got + suc n) (omega arith) _
          on_answer missing e rec = stays s w got g (length got + suc n) (omega arith) _
          on_answer (found h) e rec =
              let put_h = put-Takes h s (honest got cur.parent h e) w in
              let more = rec (block_at (put h s) h.hash) (got ++ h ∷ []) (put h s) put_h.within (
                All-append _ got (h ∷ [])
                  (All-map _ _ (λ x k. put_h.keeps x.hash (block_of x) k) got g)
                  (put_h.known, tt)) in
              record {
                within = more.within;
                keeps = λ j b k. more.keeps j b (put_h.keeps j b k);
                got_known = more.got_known;
                few = omega (arith, more.few, length-append got (h ∷ []));
              }

          by_test :
              (t : Bool) (a : Fetch)
              → fetch got cur.parent ≡ a
              → Rec
              → let it : Extended = elim a [
                | failed ↦ record { blocks = s; got = got; error = fetch_failed }
                | missing ↦ record {
                  blocks = s;
                  got = got;
                  error = unknown_parent cur.parent cur.number;
                }
                | found h ↦
                    fetch_parents fetch n (block_at (put h s) h.hash) (got ++ h ∷ []) (put h s)
              ] in
                Extends s
                  (length got + suc n)
                  (if t then record { blocks = s; got = got; error = no_error } else it)
          by_test true a e rec = stays s w got g (length got + suc n) (omega arith) no_error
          by_test false a e rec = on_answer a e rec

      -- If the clients serve blocks of one tree, `extend` leaves a store within the tree in which
      -- the head and every header fetched are known and nothing known has changed, after `max_depth`
      -- fetches at most.
      pub extend-Extends :
          (head : Header) (max_depth : ℕ) (s : Store)
          → IsServed tree head
          → Within tree s
          → Extends s (max_depth + 1) (extend fetch head max_depth s)
      unfolding extend
      extend-Extends head max_depth s served w =
          let put_h = put-Takes head s served w in
          let more =
            fetch_parents-Extends max_depth (block_at (put head s) head.hash) (head ∷ [])
              (put head s) put_h.within (put_h.known, tt) in
          record {
            within = more.within;
            keeps = λ j b k. more.keeps j b (put_h.keeps j b k);
            got_known = more.got_known;
            few = omega (arith, more.few);
          }
