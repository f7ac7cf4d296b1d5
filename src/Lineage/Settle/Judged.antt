-- ===== src/Lineage/Settle/Judged.antt =====
-- Every move of a tick is accounted for (lineage.go: settle): as an advance, as a reorg with the
-- last common block of the two heads, or as a move whose ancestry the store has lost.
use pbt_devnet.Prelude.{
  ℕ, suc, ◌+◌, ◌≤◌, ◌<◌, ◌≡◌, ◌≢◌, refl, sym, ap, subst, ◌∙◌, ◌⊎◌, inl, inr, String, Bool, true,
  false, ◌||◌, Option, none, some, List, [], ◌∷◌, ◌++◌, ltb, str_eq, eq_iff, ◌↔◌, Bool-cases,
  ltb→lt, ltb→ge, if◌then◌else◌, arith,
}
use mathlib.Core.List.{append-nil, append_assoc}
use pbt_devnet.Prelude.Maps.{Map, lookup, get_or, keys, nat_key, string_key, ◌>>=◌}
use pbt_devnet.Lineage.{Lineage, Block, Store, Reorg, block_at}
use pbt_devnet.Lineage.Walk.{is_ancestor}
use pbt_devnet.Lineage.Walk.Ancestry.{
  IsLinked, Ancestor, Ancestor-le, Ancestor-eq_of_le, HasAncestor, Known-of, is_ancestor_iff,
}
use pbt_devnet.Lineage.Walk.Common.{joined, Answer, both, common_ancestor-Answer}
use pbt_devnet.Lineage.Segments.{recompute, ints}
use pbt_devnet.Lineage.Segments.Filed.{IsFiled}
use pbt_devnet.Lineage.Segments.Total.{recompute-Rebuilds}
use pbt_devnet.Lineage.Settle.{
  Move, advance, unjudged, reorged, reorg_of, judge_at, judge_ancestry, judge_move, record_move,
  judge_moves, settle,
}

-- A reorg: the old head is not an ancestor of the new one, and both come from the last common block.
pub record IsReorg (s : Store) (now node : ℕ) (prev head : String) (r : Reorg) : Type 0 where
  pub not_ancestor : ¬ HasAncestor s prev head
  pub common :
      (a : Block) × Answer s prev head (some a)
      × (r.ancestor ≡ a.hash)
      × (r.ancestor_number ≡ a.number)
  pub of_move : (r.slot ≡ now) × (r.node ≡ node) × (r.old_head ≡ prev) × (r.new_head ≡ head)
  pub lost : r.depth + r.ancestor_number ≡ (block_at s prev).number
  pub won : r.added + r.ancestor_number ≡ (block_at s head).number
  pub is_deep : 0 < r.depth

pub data IsJudged (s : Store) (now node : ℕ) (prev head : String) : Move → Type 0 where
  advances : (prev ≡ "") ⊎ HasAncestor s prev head → IsJudged s now node prev head advance
  loses :
      prev ≢ ""
      → ¬ HasAncestor s prev head
      → Answer s prev head none
      → IsJudged s now node prev head unjudged
  leaves :
      {r : Reorg}
      → prev ≢ ""
      → IsReorg s now node prev head r
      → IsJudged s now node prev head (reorged r)

module _ (now node : ℕ) (prev head : String) (l : Lineage) (k : IsLinked l.by_hash) where
  abbrev Judged : Option Move → Type 0
  Judged o = (it : Move) × (o ≡ some it) × IsJudged l.by_hash now node prev head it

  judge_at-IsJudged :
      prev ≢ ""
      → ¬ HasAncestor l.by_hash prev head
      → (o : Option Block) → Answer l.by_hash prev head o
      → IsJudged l.by_hash now node prev head (judge_at now node prev head l o)
  unfolding judge_at reorg_of
  judge_at-IsJudged moved aside none answer = loses moved aside answer
  judge_at-IsJudged moved aside (some a) (both bx by ex ey (joined _ ka rx ry most)) =
      by_test _ refl
    where
      x_is : block_at l.by_hash prev ≡ bx
      x_is = rw (ex, get_or) refl

      y_is : block_at l.by_hash head ≡ by
      y_is = rw (ey, get_or) refl

      low_x : a.number ≤ (block_at l.by_hash prev).number
      low_x = rw x_is (Ancestor-le k (Known-of k prev bx ex) rx)

      low_y : a.number ≤ (block_at l.by_hash head).number
      low_y = rw y_is (Ancestor-le k (Known-of k head by ey) ry)

      deep : a.number < (block_at l.by_hash prev).number
      deep = elim (Bool-cases (ltb a.number (block_at l.by_hash prev).number)) [
        | inl e ↦ ltb→lt _ _ e
        | inr e ↦
            let near : bx.number ≤ a.number =
              omega (arith, ap (λ (b : Block). b.number) x_is, ltb→ge _ _ e) in
            absurd (
              aside (
                bx,
                by,
                ex,
                ey,
                subst (λ z. Ancestor l.by_hash z by)
                    (sym (Ancestor-eq_of_le k (Known-of k prev bx ex) rx near)) ry,
              ))
      ]

      by_test :
          (t : Bool)
          → (ltb (block_at l.by_hash prev).number a.number
              || ltb (block_at l.by_hash head).number a.number)
            ≡ t
          → IsJudged l.by_hash now node prev head (
              if t
              then unjudged
              else reorged (
                  reorg_of now node prev head a
                    (block_at l.by_hash prev)
                    (block_at l.by_hash head)
                    l))
      by_test true e = absurd (ground (arith, low_x, low_y))
      by_test false e = leaves moved (record {
        not_ancestor = aside;
        common = (a, both bx by ex ey (joined a ka rx ry most), refl, refl);
        of_move = (refl, refl, refl, refl);
        lost = omega (arith, low_x);
        won = omega (arith, low_y);
        is_deep = omega (arith, deep);
      })

  judge_ancestry-Judged :
      prev ≢ ""
      → (t : Bool) → (t ≡ true) ↔ HasAncestor l.by_hash prev head
      → Judged (judge_ancestry now node prev head l t)
  unfolding judge_ancestry
  judge_ancestry-Judged moved true (to, from) = (advance, refl, advances (inr (to refl)))
  judge_ancestry-Judged moved false (to, from) =
      let (o, e, answer) = common_ancestor-Answer l.by_hash k prev head in
      (
        judge_at now node prev head l o,
        rw (e, ◌>>=◌) refl,
        judge_at-IsJudged moved (λ h. cc (from h)) o answer,
      )

  judge_move-Judged : Judged (judge_move now node prev head l)
  unfolding judge_move
  judge_move-Judged = by_test (str_eq prev "") refl
    where
      by_test :
          (t : Bool)
          → str_eq prev "" ≡ t
          → Judged (
              if t
              then some advance
              else (is_ancestor l.by_hash prev head >>= judge_ancestry now node prev head l))
      by_test true e = (advance, refl, advances (inl ((eq_iff prev "").0 e)))
      by_test false e =
          let (t, ends, decides) = is_ancestor_iff k prev head in
          rw (ends, ◌>>=◌) (judge_ancestry-Judged (λ h. cc (e, (eq_iff prev "").1 h)) t decides)

-- The moves of the nodes in turn, with the reorgs that they come to and the count of those that
-- are not judged.
pub data Accounts (s : Store) (heads moved : Map ℕ String) (now : ℕ)
    : List ℕ → List Reorg → ℕ → Type 0 where
  none_left : Accounts s heads moved now [] [] 0
  plain :
      {n t : ℕ} {ns : List ℕ} {out : List Reorg}
      → IsJudged s now n (get_or "" (lookup n moved)) (get_or "" (lookup n heads)) advance
      → Accounts s heads moved now ns out t
      → Accounts s heads moved now (n ∷ ns) out t
  lost :
      {n t : ℕ} {ns : List ℕ} {out : List Reorg}
      → IsJudged s now n (get_or "" (lookup n moved)) (get_or "" (lookup n heads)) unjudged
      → Accounts s heads moved now ns out t
      → Accounts s heads moved now (n ∷ ns) out (suc t)
  counted :
      {n t : ℕ} {ns : List ℕ} {r : Reorg} {out : List Reorg}
      → IsJudged s now n (get_or "" (lookup n moved)) (get_or "" (lookup n heads)) (reorged r)
      → Accounts s heads moved now ns out t
      → Accounts s heads moved now (n ∷ ns) (r ∷ out) t

-- The rest of the loop, from a state with `before` reported.
record Rest (l : Lineage) (before : List Reorg) (out : List Reorg) (t : ℕ)
    (p : Lineage × List Reorg) : Type 0 where
  reported : p.1 ≡ before ++ out
  logged : p.0.reorgs ≡ l.reorgs ++ out
  missed : p.0.truncated ≡ l.truncated + t
  same_blocks : p.0.by_hash ≡ l.by_hash
  same_heads : p.0.heads ≡ l.heads
  files : IsFiled l → IsFiled p.0

module _ (now : ℕ) (moved : Map ℕ String) where
  abbrev Loop : List ℕ → Lineage → List Reorg → Option (Lineage × List Reorg) → Type 0
  Loop ns l before o =
      (p : Lineage × List Reorg) × (out : List Reorg) × (t : ℕ) × (o ≡ some p)
      × Rest l before out t p
      × Accounts l.by_hash l.heads moved now ns out t

  next_move :
      (n : ℕ) (ns : List ℕ) (l : Lineage) (before : List Reorg)
      → IsLinked l.by_hash
      → ((m : Lineage) (xs : List Reorg)
          → IsLinked m.by_hash
          → Loop ns m xs (judge_moves now moved ns (m, xs)))
      → (it : Move)
      → IsJudged l.by_hash now n (get_or "" (lookup n moved)) (get_or "" (lookup n l.heads)) it
      → Loop (n ∷ ns) l before (judge_moves now moved ns (record_move it (l, before)))
  unfolding record_move
  next_move n ns l before k rec advance j =
      let (p, out, t, e, rest, acc) = rec l before k in (p, out, t, e, rest, plain j acc)
  next_move n ns l before k rec unjudged j =
      let (p, out, t, e, rest, acc) = rec (record l { truncated = suc l.truncated }) before k in
      (
        p,
        out,
        suc t,
        e,
        record {
          reported = rest.reported;
          logged = rest.logged;
          missed = omega (arith, rest.missed);
          same_blocks = rest.same_blocks;
          same_heads = rest.same_heads;
          files =
              λ f. rest.files (record { filed = f.filed; matched = f.matched; fresh = f.fresh });
        },
        lost j acc,
      )
  next_move n ns l before k rec (reorged r) j =
      let (p, out, t, e, rest, acc) =
        rec (record l { reorgs = l.reorgs ++ r ∷ [] }) (before ++ r ∷ []) k in
      (
        p,
        r ∷ out,
        t,
        e,
        record {
          reported = rest.reported ∙ append_assoc before (r ∷ []) out;
          logged = rest.logged ∙ append_assoc l.reorgs (r ∷ []) out;
          missed = rest.missed;
          same_blocks = rest.same_blocks;
          same_heads = rest.same_heads;
          files =
              λ f. rest.files (record { filed = f.filed; matched = f.matched; fresh = f.fresh });
        },
        counted j acc,
      )

  judge_moves-Loop :
      (ns : List ℕ) (l : Lineage) (before : List Reorg)
      → IsLinked l.by_hash
      → Loop ns l before (judge_moves now moved ns (l, before))
  unfolding judge_moves
  judge_moves-Loop [] l before k = (
    (l, before),
    [],
    0,
    refl,
    record {
      reported = sym (append-nil before);
      logged = sym (append-nil l.reorgs);
      missed = omega arith;
      same_blocks = refl;
      same_heads = refl;
      files = λ f. f;
    },
    none_left,
  )
  judge_moves-Loop (n ∷ ns) l before k =
      let (it, e, j) =
        judge_move-Judged now n (get_or "" (lookup n moved)) (get_or "" (lookup n l.heads)) l k in
      rw (e, ◌>>=◌) (next_move n ns l before k (judge_moves-Loop ns) it j)

-- On a linked store with its branches filed a tick is done, whatever the heads are. The store and
-- the heads stay as they were and the branches stay filed. Every node that moved is accounted for,
-- in order: as an advance, as one reorg, or as a move without a known common ancestor.
pub settle-Accounts :
    (now : ℕ) (l : Lineage)
    → IsLinked l.by_hash
    → IsFiled l
    → (m : Lineage) × (l' : Lineage) × (out : List Reorg) × (t : ℕ) × (recompute l.moved
          (record l { moved = [] })
        ≡ some m)
      × (settle now l ≡ some (l', out))
      × (l'.reorgs ≡ m.reorgs ++ out)
      × (l'.truncated ≡ m.truncated + t)
      × (l'.by_hash ≡ l.by_hash)
      × (l'.heads ≡ l.heads)
      × IsFiled l'
      × Accounts l.by_hash l.heads l.moved now (ints (keys l.moved)) out t
unfolding settle
settle-Accounts now l k f =
    let (m, e, r) =
      recompute-Rebuilds l.moved (record l { moved = [] }) k
        (record { filed = f.filed; matched = f.matched; fresh = f.fresh }) in
    let (p, out, t, done, rest, acc) =
      judge_moves-Loop now l.moved (ints (keys l.moved)) m []
        (subst IsLinked (sym r.same_blocks) k) in
    (
      m,
      p.0,
      out,
      t,
      e,
      rw (e, ◌>>=◌) (done ∙ ap (λ xs. some (p.0, xs)) rest.reported),
      rest.logged,
      rest.missed,
      rest.same_blocks ∙ r.same_blocks,
      rest.same_heads ∙ r.same_heads,
      rest.files (r.files (record { filed = f.filed; matched = f.matched; fresh = f.fresh })),
      subst (λ s. Accounts s l.heads l.moved now (ints (keys l.moved)) out t) r.same_blocks
          (subst (λ h. Accounts m.by_hash h l.moved now (ints (keys l.moved)) out t) r.same_heads
            acc),
    )
