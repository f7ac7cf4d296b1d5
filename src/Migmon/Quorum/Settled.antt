-- ===== src/Migmon/Quorum/Settled.antt =====
-- Settled fork blocks (internal/migmon/timeline.go: Finalize, checkShape).
use pbt_devnet.Prelude.{
  ℕ, ◌≡◌, refl, subst, ◌↔◌, ◌⊎◌, inl, inr, String, true, false, ◌||◌, List, [], ◌∷◌, ◌++◌, ap,
  All-append, some_of-All, arith, str_eq, All, All-map, Bool-cases,
}
use pbt_devnet.Migmon.{IStar, Event}
use pbt_devnet.Migmon.Quorum.{IStarQuorum, new_quorum, same, assign, has_key, differing, finalize}
use pbt_devnet.Migmon.Quorum.Order.{Entries, Agree, same_self, same_sym, same_trans}

-- Each entry of the map is the node itself or holds its fork block.
abbrev Matches : String → IStar → Entries → Type 0
Matches node b m = All (λ e. (str_eq e.0 node ≡ true) ⊎ (same e.1 b ≡ true)) m

differing-none :
    (node : String) (b : IStar) (m : Entries) → (differing node b m ≡ []) ↔ Matches node b m
unfolding differing
differing-none node b [] = (λ h. tt, λ h. refl)
differing-none node b ((other, rec) ∷ m) =
    let (to, from) = differing-none node b m in
    elim (Bool-cases (str_eq other node || same rec b)) [
      | inl e ↦ rw e (λ h. (ground arith, to h), λ h. from h.1)
      | inr e ↦
          rw e (
            λ h. absurd (cc),
            λ h. absurd (elim h.0 [ inl k ↦ ground arith | inr k ↦ ground arith ]),
          )
    ]

append-eq-nil : (xs ys : List Event) → xs ++ ys ≡ [] → (xs ≡ []) × (ys ≡ [])
append-eq-nil [] ys h = (refl, h)
append-eq-nil (x ∷ xs) ys h = absurd (cc)

append_nil : (xs ys : List Event) → xs ≡ [] → ys ≡ [] → xs ++ ys ≡ []
append_nil xs ys h k = rw (h, k)

-- Calls of `Finalize` in turn, with the findings of all of them.
unfoldable pub finalize_all : List (String × IStar) → IStarQuorum → IStarQuorum × List Event
finalize_all [] q = (q, [])
finalize_all ((node, b) ∷ calls) q =
    let (next, evs) = finalize node b q in
    let (last, more) = finalize_all calls next in (last, evs ++ more)

-- All settled records hold the fork block r.
abbrev Holds : IStar → Entries → Type 0
Holds r m = All (λ e. same e.1 r ≡ true) m

assign-new :
    (node : String) (b : IStar) (m : Entries)
    → has_key node m ≡ false
    → assign node b m ≡ m ++ (node, b) ∷ []
unfolding assign has_key
assign-new node b [] h = refl
assign-new node b ((k, x) ∷ m) h = elim (Bool-cases (str_eq k node)) [
  | inl e ↦ absurd (let c = rw e at h in cc)
  | inr e ↦ rw e (ap (λ l. (k, x) ∷ l) (assign-new node b m (rw e at h)))
]

has_key-All :
    (node : String) (m : Entries) → has_key node m ≡ false → All (λ e. str_eq e.0 node ≡ false) m
unfolding has_key
has_key-All node m h = (some_of-All (λ e. str_eq e.0 node) m).0 h

-- With the node not among them, the entries match it exactly if they hold its fork block.
Matches-Holds :
    (node : String) (b : IStar) (m : Entries)
    → All (λ e. str_eq e.0 node ≡ false) m
    → Matches node b m
    → Holds b m
Matches-Holds node b [] h k = tt
Matches-Holds node b (e ∷ m) h k =
    (elim k.0 [ inl j ↦ absurd (let c = h.0 in cc) | inr j ↦ j ], Matches-Holds node b m h.1 k.1)

All-left : (P : String × IStar → Type 0) (xs ys : Entries) → All P (xs ++ ys) → All P xs
All-left P [] ys h = tt
All-left P (x ∷ xs) ys h = (h.0, All-left P xs ys h.1)

All-last :
    (P : String × IStar → Type 0) (xs : Entries) (y : String × IStar) → All P (xs ++ y ∷ []) → P y
All-last P [] y h = h.0
All-last P (x ∷ xs) y h = All-last P xs y h.1

Agree-Holds :
    (m : Entries) (node : String) (b : IStar)
    → Agree (m ++ (node, b) ∷ [])
    → Holds b (m ++ (node, b) ∷ [])
Agree-Holds m node b (r, h) =
    let last = All-last (λ e. same e.1 r ≡ true) m (node, b) h in
    All-map (λ e. same e.1 r ≡ true) (λ e. same e.1 b ≡ true)
      (λ e k. same_trans e.1 r b k (same_sym b r last)) (m ++ (node, b) ∷ []) h

finalize-back :
    (node : String) (b : IStar) (q : IStarQuorum)
    → Agree (finalize node b q).0.final
    → Agree q.final
unfolding finalize
finalize-back node b q a = elim (Bool-cases (has_key node q.final)) [
  | inl e ↦ rw e at a
  | inr e ↦
      let (r, h) : Agree (q.final ++ (node, b) ∷ []) =
        subst Agree (assign-new node b q.final e) (rw e at a) in
      (r, All-left (λ e. same e.1 r ≡ true) q.final ((node, b) ∷ []) h)
]

finalize-silent :
    (node : String) (b : IStar) (q : IStarQuorum)
    → Agree q.final
    → ((finalize node b q).1 ≡ []) ↔ Agree (finalize node b q).0.final
unfolding finalize
finalize-silent node b q a = elim (Bool-cases (has_key node q.final)) [
  | inl e ↦ rw e (λ h. a, λ h. refl)
  | inr e ↦
      let final = q.final ++ (node, b) ∷ [] in
      let (to, from) = differing-none node b final in
      rw (e, assign-new node b q.final e)
        (
          λ h.
              let m = to h in
              (
                b,
                All-append (λ x. same x.1 b ≡ true) q.final ((node, b) ∷ [])
                    (Matches-Holds node b q.final (has_key-All node q.final e)
                      (All-left (λ x. (str_eq x.0 node ≡ true) ⊎ (same x.1 b ≡ true)) q.final _ m))
                    (same_self b, tt),
              ),
          λ h. from (
              All-map (λ x. same x.1 b ≡ true) (λ x. (str_eq x.0 node ≡ true) ⊎ (same x.1 b ≡ true))
                (λ x k. inr k) final (Agree-Holds q.final node b h)),
        )
]

finalize_all-back :
    (calls : List (String × IStar)) (q : IStarQuorum)
    → Agree (finalize_all calls q).0.final
    → Agree q.final
unfolding finalize_all
finalize_all-back [] q a = a
finalize_all-back ((node, b) ∷ calls) q a =
    finalize-back node b q (finalize_all-back calls (finalize node b q).0 a)

finalize_all_iff :
    (calls : List (String × IStar)) (q : IStarQuorum)
    → Agree q.final
    → ((finalize_all calls q).1 ≡ []) ↔ Agree (finalize_all calls q).0.final
unfolding finalize_all
finalize_all_iff [] q a = (λ h. a, λ h. refl)
finalize_all_iff ((node, b) ∷ calls) q a =
    let r = finalize node b q in
    let (to, from) = finalize-silent node b q a in
    (
      λ h. let (x, y) = append-eq-nil r.1 _ h in (finalize_all_iff calls r.0 (to x)).0 y,
      λ h.
          let next = finalize_all-back calls r.0 h in
          append_nil r.1 _ (from next) ((finalize_all_iff calls r.0 next).1 h),
    )

-- Over any `Finalize` calls on a new quorum, no finding is raised exactly if all the settled
-- records hold one fork block.
pub finalize_iff :
    (t : ℕ) (calls : List (String × IStar))
    → let r = finalize_all calls (new_quorum t) in (r.1 ≡ []) ↔ Agree r.0.final
unfolding new_quorum
finalize_iff t calls =
    finalize_all_iff calls _ (record { number = 0; hash = ""; time = 0; parent_time = 0 }, tt)
