-- ===== src/Driver/Pairing.antt =====
-- The starts and ends in the driver's work (internal/migsched/schedule.go: Actions).
use pbt_devnet.Prelude.{
  ◌<◌, ◌≡◌, refl, sym, ap, subst, ◌∙◌, inl, inr, some, List, [], ◌∷◌, arith, All, Some, All-Some,
  Some-member, Some-map,
}
use pbt_devnet.Schedule.{Op, Schedule}
use pbt_devnet.Schedule.Actions.{Action, op_start, start_of, end_of, sweep_of, actions}
use pbt_devnet.Schedule.Actions.Order.{Precedes, InOrder, actions-InOrder}
use pbt_devnet.Schedule.Actions.Content.{OfOp, actions-Some}

-- The end of every op that the work starts is still ahead.
abbrev pub Paired : List Action → Type 0
Paired [] = Unit
Paired (a ∷ rest) =
    ((o : Op) → a.kind ≡ op_start → a.op ≡ some o → Some (λ b. b ≡ end_of o) rest) × Paired rest

-- What the work holds of an op that it starts.
record Kept (l : List Action) (a : Action) (o : Op) : Type 0 where
  forward : o.start < o.end
  on_time : a.at ≡ o.start
  ended : Some (λ b. b ≡ end_of o) l

Starts : List Action → Action → Type 0
Starts l a = (o : Op) → a.kind ≡ op_start → a.op ≡ some o → Kept l a o

-- The end of an op that starts later is no earlier action.
Starts-tail :
    (x : Action) (rest : List Action) (a : Action)
    → All (Precedes x) rest
    → Some (λ y. y ≡ a) rest
    → Starts (x ∷ rest) a
    → Starts rest a
unfolding Starts
Starts-tail x rest a h m f o hk ho =
    let k = f o hk ho in
    let (y, p, e) = All-Some (Precedes x) (λ y. y ≡ a) rest h m in
    record {
      forward = k.forward;
      on_time = k.on_time;
      ended = elim k.ended [
        | inl z ↦ absurd (too_early z (subst (Precedes x) e p) k.forward k.on_time)
        | inr z ↦ z
      ];
    }
  where
    too_early : x ≡ end_of o → Precedes x a → o.start < o.end → a.at ≡ o.start → ⊥
    too_early z (inl p) f' t = let u = ap (λ b. b.at) z in omega arith
    too_early z (inr p) f' t = let u = ap (λ b. b.at) z in omega (arith, p.0)

Starts-Paired :
    (l : List Action) → InOrder l → ((a : Action) → Some (λ y. y ≡ a) l → Starts l a) → Paired l
unfolding Starts
Starts-Paired [] h f = tt
Starts-Paired (x ∷ rest) h f = (
  λ o hk ho. elim (f x (inl refl) o hk ho).ended [
    | inl z ↦ let u = ap (λ b. b.kind) z in absurd (cc)
    | inr z ↦ z
  ],
  Starts-Paired rest h.1 (λ a m. Starts-tail x rest a h.0 m (f a (inr m))),
)

start_of-injective : (a : Action) (o q : Op) → start_of q ≡ a → a.op ≡ some o → q ≡ o
start_of-injective a o q e ho = let u = ap (λ b. b.op) e in cc

-- The end of an op whose start the work holds.
start-ended :
    (s : Schedule) (a : Action) (o : Op)
    → a.kind ≡ op_start
    → a.op ≡ some o
    → Some (OfOp (λ b. b ≡ a)) s.ops
    → Some (λ b. b ≡ end_of o) (actions s)
start-ended s a o hk ho k =
    (actions-Some (λ b. b ≡ end_of o) s).1
      (inl (Some-map (OfOp (λ b. b ≡ a)) (OfOp (λ b. b ≡ end_of o)) by_op s.ops k))
  where
    by_op : (q : Op) → OfOp (λ b. b ≡ a) q → OfOp (λ b. b ≡ end_of o) q
    by_op q (n, inl e) = (n, inr (ap end_of (start_of-injective a o q e ho)))
    by_op q (n, inr e) = let u = ap (λ b. b.kind) e in absurd (cc)

-- If every op opens before it ends, its end comes after its start in the work.
pub actions-Paired : (s : Schedule) → All (λ o. o.start < o.end) s.ops → Paired (actions s)
unfolding Starts
actions-Paired s h = Starts-Paired (actions s) (actions-InOrder s) (λ a m o hk ho.
    elim ((actions-Some (λ b. b ≡ a) s).0 m) [
      | inl k ↦ by_op a o hk ho k
      | inr k ↦
          let (f, n, e) = Some-member (λ f. sweep_of f ≡ a) s.failsafes k in
          let u = ap (λ b. b.kind) e in absurd (cc)
    ])
  where
    by_op :
        (a : Action) (o : Op)
        → a.kind ≡ op_start
        → a.op ≡ some o
        → Some (OfOp (λ b. b ≡ a)) s.ops
        → Kept (actions s) a o
    by_op a o hk ho k =
        let (p, f, n) = All-Some (λ o. o.start < o.end) (OfOp (λ b. b ≡ a)) s.ops h k in
        elim n.1 [
          | inl e ↦
              let q = start_of-injective a o p e ho in
              record {
                forward = subst (λ (o : Op). o.start < o.end) q f;
                on_time = sym (ap (λ b. b.at) e) ∙ ap (λ (o : Op). o.start) q;
                ended = start-ended s a o hk ho k;
              }
          | inr e ↦ let u = ap (λ b. b.kind) e in absurd (cc)
        ]
