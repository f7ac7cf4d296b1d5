-- ===== src/Schedule/Actions/Content.antt =====
-- What the driver's work list holds (internal/migsched/schedule.go: Actions).
use pbt_devnet.Prelude.{
  ◌≡◌, refl, ◌↔◌, ◌⊎◌, inl, inr, true, List, [], ◌∷◌, ◌++◌, map, Bool-cases, Some, Some-append,
  Some-of_map, sort-Some,
}
use pbt_devnet.Schedule.{Op, Schedule, admitted}
use pbt_devnet.Schedule.Actions.{Action, start_of, end_of, sweep_of, less, op_actions, actions}

module _ (P : Action → Type 0) where
  abbrev pub OfOp : Op → Type 0
  OfOp o = (admitted o ≡ true) × (P (start_of o) ⊎ P (end_of o))

  op_actions-Some : (ops : List Op) → Some P (op_actions ops) ↔ Some OfOp ops
  unfolding op_actions
  op_actions-Some [] = (λ h. h, λ h. h)
  op_actions-Some (o ∷ os) =
      let (to, from) = op_actions-Some os in
      elim (Bool-cases (admitted o)) [
        | inl e ↦ rw e (
          λ h. elim h [
            | inl a ↦ inl (refl, inl a)
            | inr (inl b) ↦ inl (refl, inr b)
            | inr (inr c) ↦ inr (to c)
          ],
          λ h. elim h [
            | inl (k, inl a) ↦ inl a
            | inl (k, inr b) ↦ inr (inl b)
            | inr c ↦ inr (inr (from c))
          ],
        )
        | inr e ↦ rw e (λ h. inr (to h), λ h. elim h [ inl k ↦ absurd (cc) | inr c ↦ from c ])
      ]

  -- An action is in the list exactly if it is the start or the end of an admitted op, or a sweep
  -- of the schedule.
  pub actions-Some :
      (s : Schedule)
      → Some P (actions s) ↔ (Some OfOp s.ops ⊎ Some (λ f. P (sweep_of f)) s.failsafes)
  unfolding actions
  actions-Some s =
      let (sto, sfrom) = sort-Some less P (op_actions s.ops ++ map sweep_of s.failsafes) in
      let (ato, afrom) = Some-append P (op_actions s.ops) (map sweep_of s.failsafes) in
      let (oto, ofrom) = op_actions-Some s.ops in
      let (fto, ffrom) = Some-of_map P sweep_of s.failsafes in
      (
        λ h. elim (ato (sto h)) [ inl a ↦ inl (oto a) | inr b ↦ inr (fto b) ],
        λ h. sfrom (afrom (elim h [ inl a ↦ inl (ofrom a) | inr b ↦ inr (ffrom b) ])),
      )
