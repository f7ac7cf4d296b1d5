-- ===== src/Guard/Held.antt =====
-- The watchdog against the schedule (cmd/migration-gate/main.go: watchdog, with Covers of
-- internal/migsched/schedule.go).
use pbt_devnet.Prelude.{
  ℕ, ◌+◌, ◌<◌, ◌≡◌, ◌⊎◌, inl, inr, Bool, false, Option, some, List, [], ◌∷◌, map, arith, Some,
}
use pbt_devnet.Schedule.{Schedule}
use pbt_devnet.Schedule.Windows.Laws.{IsCovered, covers_iff}
use pbt_devnet.Guard.{View, unreadable, split, Round, Heal, watch, is_held, holding}
use pbt_devnet.Guard.Healed.{SplitSince, after, heal_finding}

-- What the watchdog reads in a round, with the partition that the process holds itself.
pub record Reading : Type 0 where
  pub now : ℕ
  pub view : View
  pub own : Option ℕ
  pub parts : Option ℕ
  pub clears : Bool

unfoldable pub read_round : Schedule → Reading → Round
read_round s x = record {
  now = x.now;
  view = x.view;
  held = is_held s x.own x.now;
  parts = x.parts;
  clears = x.clears;
}

module _ (s : Schedule) where
  -- A split at an instant that no admitted op of the schedule covers, from its start to two
  -- minutes past its latest heal, and at which the process holds no partition itself.
  pub record IsTorn (x : Reading) : Type 0 where
    pub view : x.view ≡ split
    pub uncovered : ¬ Some (IsCovered x.now) s.ops
    pub own : holding x.own x.now ≡ false

  -- Every reading from one at `t` on is torn, or could not be had.
  abbrev pub TornSince : ℕ → List Reading → Type 0
  TornSince t [] = ⊥
  TornSince t (x ∷ hist) =
      ((x.view ≡ unreadable) × TornSince t hist) ⊎ (IsTorn x × ((x.now ≡ t) ⊎ TornSince t hist))

  unheld-IsTorn : (x : Reading) → x.view ≡ split → is_held s x.own x.now ≡ false → IsTorn x
  unfolding is_held
  unheld-IsTorn x e h = record {
    view = e;
    uncovered = λ c. let k = (covers_iff s x.now).1 c in ground arith;
    own = ground arith;
  }

  SplitSince-TornSince :
      (t : ℕ) (hist : List Reading) → SplitSince t (map (read_round s) hist) → TornSince t hist
  unfolding read_round
  SplitSince-TornSince t [] h = h
  SplitSince-TornSince t (x ∷ hist) (inl h) = inl (h.0, SplitSince-TornSince t hist h.1)
  SplitSince-TornSince t (x ∷ hist) (inr h) = inr (
    unheld-IsTorn x h.0 h.1,
    elim h.2 [ inl e ↦ inl e | inr k ↦ inr (SplitSince-TornSince t hist k) ],
  )

  -- The watchdog heals a split only at an instant that no admitted op of the schedule covers and
  -- at which the process holds no partition itself, and only where every reading from one on, more
  -- than 120 s back, was the same or could not be had.
  pub heal-IsTorn :
      (hist : List Reading) (x : Reading) (h : Heal)
      → (watch (read_round s x) (after (map (read_round s) hist))).1 ≡ some h
      → (t : ℕ) × TornSince t (x ∷ hist) × (t + 120 < x.now) × IsTorn x
  unfolding read_round
  heal-IsTorn hist x h e =
      let (t, since, late, healed) = heal_finding (map (read_round s) hist) (read_round s x) h e in
      (t, SplitSince-TornSince t (x ∷ hist) since, late, unheld-IsTorn x healed.view healed.held)
