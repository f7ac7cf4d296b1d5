-- ===== src/Migmon/Quorum.antt =====
-- The fork blocks across nodes (internal/migmon/timeline.go: IStarQuorum). A map is the list of
-- its entries in the order that a Go loop visits them; `Quorum.Order` is about that order. The clock
-- is read in whole seconds.
pub mod Order
pub mod Settled
use pbt_devnet.Prelude.{
  ℕ, ◌+◌, ◌-◌, ◌<◌, String, Bool, true, false, not, ◌&&◌, ◌||◌, Option, none, some, List, [], ◌∷◌,
  ◌++◌, ltb, leb, ◌==◌, str_eq, some_of, length, is_some, if◌then◌else◌,
}
use Prim.Native.String.{◌++◌ as text_append}
use pbt_devnet.Migmon.{
  IStar, Event, event, critical, boundary, finalized_differ, no_straddle, still_disagree,
  istar_provisional_grace,
}

pub record IStarQuorum : Type 0 where
  pub t : ℕ
  pub provisional : List (String × IStar)
  pub final : List (String × IStar)
  pub shaped : List String
  pub disagree_since : Option ℕ
  pub disagree_fired : Bool

unfoldable pub new_quorum : ℕ → IStarQuorum
new_quorum t = record {
  t = t;
  provisional = [];
  final = [];
  shaped = [];
  disagree_since = none;
  disagree_fired = false;
}

-- `m[node] = b`.
unfoldable pub assign : String → IStar → List (String × IStar) → List (String × IStar)
assign node b [] = (node, b) ∷ []
assign node b ((k, x) ∷ m) =
    let rest = assign node b m in if str_eq k node then (k, b) ∷ m else (k, x) ∷ rest

unfoldable pub has_key : String → List (String × IStar) → Bool
has_key node m = some_of (λ e. str_eq e.0 node) m

-- Two records of one fork block.
unfoldable pub same : IStar → IStar → Bool
same a b = a.number == b.number && str_eq a.hash b.hash

-- The loop of `Finalize` over the settled records.
unfoldable pub differing : (node : String) → IStar → List (String × IStar) → List Event
differing node b [] = []
differing node b ((other, rec) ∷ m) =
    let rest = differing node b m in
    if str_eq other node || same rec b
    then rest
    else event critical node boundary b.number "" (finalized_differ node b other rec) ∷ rest

unfoldable pub finalize : (node : String) → IStar → IStarQuorum → IStarQuorum × List Event
unfolding has_key assign differing
finalize node b q =
    if has_key node q.final
    then (q, [])
    else let final = assign node b q.final in (record q { final = final }, differing node b final)

unfoldable pub check_shape : (node : String) → IStar → IStarQuorum → IStarQuorum × List Event
check_shape node b q =
    let key = text_append node (text_append "/" b.hash) in
    if some_of (λ k. str_eq k key) q.shaped then (q, []) else (
      record q { shaped = key ∷ q.shaped },
      if leb q.t b.time && ltb b.parent_time q.t
          then []
          else event critical node boundary b.number "" (no_straddle b q.t) ∷ [],
    )

-- The first record in the loop's order that differs from the reference.
unfoldable pub first_differing : IStar → List (String × IStar) → Option (String × IStar)
unfolding same
first_differing ref [] = none
first_differing ref ((node, rec) ∷ m) =
    let rest = first_differing ref m in if same rec ref then rest else some (node, rec)

-- The reference is the record that the loop visits first.
unfoldable pub disagreement : List (String × IStar) → Option (String × IStar × String × IStar)
unfolding first_differing
disagreement [] = none
disagreement ((ref_node, ref) ∷ m) = elim (first_differing ref m) [
  | none ↦ none
  | some (node, rec) ↦ some (node, rec, ref_node, ref)
]

unfoldable pub since : Option ℕ → (now : ℕ) → ℕ
since none now = now
since (some t) now = t

unfoldable pub check_provisional : (now : ℕ) → IStarQuorum → IStarQuorum × List Event
unfolding disagreement since
check_provisional now q =
    if ltb (length q.provisional) 2 then (q, []) else elim (disagreement q.provisional) [
      | none ↦ (record q { disagree_since = none; disagree_fired = false }, [])
      | some (node, rec, ref_node, ref) ↦
          let start = since q.disagree_since now in
          if not q.disagree_fired && ltb istar_provisional_grace (now - start)
          then (
            record q { disagree_since = some start; disagree_fired = true },
            event critical node boundary rec.number ""
                  (still_disagree (now - start) node rec ref_node ref)
                ∷ [],
          )
          else (record q { disagree_since = some start }, [])
    ]

unfoldable pub observe :
    (node : String) → IStar → (now : ℕ) → IStarQuorum → IStarQuorum × List Event
unfolding check_shape check_provisional assign
observe node b now q =
    let (q1, evs) = check_shape node b (record q { provisional = assign node b q.provisional }) in
    let (q2, more) = check_provisional now q1 in (q2, evs ++ more)
