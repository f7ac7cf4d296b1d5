-- ===== src/Migmon/Stall/Frozen.antt =====
-- What a frozen-cursor finding means (internal/migmon/timeline.go: dirState.observe). The spec
-- reads the observations back, newest first.
use pbt_devnet.Prelude.{
  ℕ, zero, suc, ◌+◌, ◌≤◌, ◌≡◌, refl, sym, ◌∙◌, Some, Some-append, ◌⊎◌, inl, inr, String, Bool, true,
  false, not, ◌||◌, Option, none, some, List, [], ◌∷◌, arith, ◌==◌, Bool-cases,
}
use mathlib.Core.Path.{subst₃}
use native.Mathlib.Numerals.{add-one}
use pbt_devnet.Migmon.{DirectionProgress, Event, cursor_frozen, u64}
use pbt_devnet.Migmon.Stall.{DirState, fresh, observe_error, observe_cursor, observe, is_suspended}

abbrev pub Poll : Type 0
Poll = Option DirectionProgress × ℕ

-- The state after a history, newest first.
unfoldable pub after : (node dir : String) → List Poll → DirState
unfolding fresh observe
after node dir [] = fresh
after node dir ((d, head) ∷ hist) = (observe node dir d head (after node dir hist)).0

-- The poll read a direction that is neither idle nor parked, at this cursor.
abbrev pub Held : ℕ → Poll → Type 0
Held c (none, head) = ⊥
Held c (some d, head) = (is_suspended d.phase ≡ false) × (d.cursor ≡ c)

-- The latest n polls all hold the cursor, and the oldest of them read this head.
abbrev pub HeldFor : (c span_head n : ℕ) → List Poll → Type 0
HeldFor c h zero hist = ⊥
HeldFor c h (suc zero) [] = ⊥
HeldFor c h (suc zero) (p ∷ hist) = Held c p × (p.1 ≡ h)
HeldFor c h (suc (suc n)) [] = ⊥
HeldFor c h (suc (suc n)) (p ∷ hist) = Held c p × HeldFor c h (suc n) hist

abbrev Tracks : List Poll → DirState → Type 0
Tracks hist s = s.spanning ≡ true → HeldFor s.cursor s.span_head s.frozen hist

HeldFor-cons :
    (c h n : ℕ) (p : Poll) (hist : List Poll)
    → Held c p
    → HeldFor c h n hist
    → HeldFor c h (n + 1) (p ∷ hist)
HeldFor-cons c h zero p hist a b = absurd b
HeldFor-cons c h (suc n) p hist a b = rw add-one (a, b)

observe_error-keeps :
    (node dir : String) (d : Option DirectionProgress) (s : DirState)
    → let s' = (observe_error node dir d s).0 in
      (s'.spanning ≡ s.spanning)
      × (s'.cursor ≡ s.cursor)
      × (s'.frozen ≡ s.frozen)
      × (s'.span_head ≡ s.span_head)
      × (s'.slow_fired ≡ s.slow_fired)
unfolding observe_error
observe_error-keeps node dir none s = ground arith
observe_error-keeps node dir (some d) s = ground arith

HeldFor-cast :
    {c c' h h' n n' : ℕ} (hist : List Poll)
    → c' ≡ c
    → h' ≡ h
    → n' ≡ n
    → HeldFor c h n hist
    → HeldFor c' h' n' hist
HeldFor-cast hist p q r k = subst₃ (λ c h n. HeldFor c h n hist) (sym p) (sym q) (sym r) k

-- A poll that opens a span, and one that extends it.
record Opens (d : DirectionProgress) (head : ℕ) (r : DirState × List Event) : Type 0 where
  cursor : r.0.cursor ≡ d.cursor
  frozen : r.0.frozen ≡ 1
  span_head : r.0.span_head ≡ head
  rearmed : r.0.slow_fired ≡ false
  silent : r.1 ≡ []

record Extends (d : DirectionProgress) (s : DirState) (r : DirState × List Event) : Type 0 where
  was_spanning : s.spanning ≡ true
  same : d.cursor ≡ s.cursor
  cursor : r.0.cursor ≡ s.cursor
  frozen : r.0.frozen ≡ s.frozen + 1
  span_head : r.0.span_head ≡ s.span_head

observe_cursor-cases :
    (node dir : String) (d : DirectionProgress) (head : ℕ) (s : DirState)
    → is_suspended d.phase ≡ false
    → let r = observe_cursor node dir (some d) head s in Opens d head r ⊎ Extends d s r
unfolding observe_cursor
observe_cursor-cases node dir d head s e =
    by_test (Bool-cases (not s.spanning || not (d.cursor == s.cursor)))
  where
    by_test :
        ((not s.spanning || not (d.cursor == s.cursor)) ≡ true)
          ⊎ ((not s.spanning || not (d.cursor == s.cursor)) ≡ false)
        → let r = observe_cursor node dir (some d) head s in Opens d head r ⊎ Extends d s r
    by_test (inl moved) = inl (ground arith)
    by_test (inr kept) = inr (ground arith)

observe_cursor-suspended :
    (node dir : String) (d : DirectionProgress) (head : ℕ) (s : DirState)
    → is_suspended d.phase ≡ true
    → (observe_cursor node dir (some d) head s).0.spanning ≡ false
unfolding observe_cursor
observe_cursor-suspended node dir d head s e = ground arith

observe_cursor-Tracks :
    (node dir : String) (d : Option DirectionProgress) (head : ℕ) (s : DirState) (hist : List Poll)
    → Tracks hist s
    → Tracks ((d, head) ∷ hist) (observe_cursor node dir d head s).0
unfolding observe_cursor
observe_cursor-Tracks node dir none head s hist t = λ h. absurd (cc)
observe_cursor-Tracks node dir (some d) head s hist t = by_phase (is_suspended d.phase) refl
  where
    r : DirState × List Event
    r = observe_cursor node dir (some d) head s

    by_phase : (b : Bool) → is_suspended d.phase ≡ b → Tracks ((some d, head) ∷ hist) r.0
    by_phase true e = λ h. absurd (let k = observe_cursor-suspended node dir d head s e in cc)
    by_phase false e = λ h. elim (observe_cursor-cases node dir d head s e) [
      | inl o ↦
          HeldFor-cast {c = d.cursor} {h = head} {n = 1} ((some d, head) ∷ hist) o.cursor
            o.span_head o.frozen ((e, refl), refl)
      | inr x ↦
          HeldFor-cast {c = s.cursor} {h = s.span_head} {n = s.frozen + 1} ((some d, head) ∷ hist)
            x.cursor x.span_head x.frozen
            (HeldFor-cons s.cursor s.span_head s.frozen (some d, head) hist (e, x.same)
              (t x.was_spanning))
    ]

after-Tracks : (node dir : String) (hist : List Poll) → Tracks hist (after node dir hist)
unfolding after
after-Tracks node dir [] = λ h. absurd (cc)
after-Tracks node dir ((d, head) ∷ hist) =
    let s = after node dir hist in
    let (sp, cu, fr, sh, _) = observe_error-keeps node dir d s in
    observe_cursor-Tracks node dir d head (observe_error node dir d s).0 hist
      λ h. HeldFor-cast hist cu sh fr (after-Tracks node dir hist (sym sp ∙ h))

-- The event says that a cursor stood still.
abbrev pub SaysFrozen : (c n : ℕ) → Event → Type 0
SaysFrozen c n e = (dir : String) × (advanced : ℕ) × (e.detail ≡ cursor_frozen dir c n advanced)

-- What a frozen-cursor finding reports of the state before it.
record Slow (d : Option DirectionProgress) (head : ℕ) (s : DirState) (c n : ℕ) : Type 0 where
  held : Held c (d, head)
  spanning : s.spanning ≡ true
  cursor : s.cursor ≡ c
  frozen : n ≡ s.frozen + 1
  long : 20 ≤ n
  moved : u64 (s.span_head + 10) ≤ head

observe_cursor-Slow :
    (node dir : String) (d : Option DirectionProgress) (head : ℕ) (s : DirState) (c n : ℕ)
    → Some (SaysFrozen c n) (observe_cursor node dir d head s).1
    → Slow d head s c n
unfolding observe_cursor
observe_cursor-Slow node dir none head s c n h = absurd h
observe_cursor-Slow node dir (some d) head s c n h = ground arith

observe_error-silent :
    (node dir : String) (d : Option DirectionProgress) (s : DirState) (c n : ℕ)
    → ¬ Some (SaysFrozen c n) (observe_error node dir d s).1
unfolding observe_error
observe_error-silent node dir none s c n h = h
observe_error-silent node dir (some d) s c n h = ground arith

-- A frozen-cursor finding of n polls on a cursor means that the latest n polls, at least 20, all
-- read that cursor in a phase that is neither idle nor parked, and that the head has reached ten
-- blocks past the head of the oldest of them.
pub frozen_finding :
    (node dir : String) (d : Option DirectionProgress) (head : ℕ) (hist : List Poll) (c n : ℕ)
    → Some (SaysFrozen c n) (observe node dir d head (after node dir hist)).1
    → (h : ℕ) × HeldFor c h n ((d, head) ∷ hist) × (20 ≤ n) × (u64 (h + 10) ≤ head)
unfolding observe
frozen_finding node dir d head hist c n m =
    let s = after node dir hist in
    let s1 = (observe_error node dir d s).0 in
    let (_, cu, fr, sh, _) = observe_error-keeps node dir d s in
    let sp = (observe_error-keeps node dir d s).0 in
    elim ((Some-append (SaysFrozen c n) (observe_error node dir d s).1 _).0 m) [
      | inl bad ↦ absurd (observe_error-silent node dir d s c n bad)
      | inr more ↦
          let slow = observe_cursor-Slow node dir d head s1 c n more in
          (
            s1.span_head,
            HeldFor-cast {c = c} {h = s1.span_head} {n = s1.frozen + 1} ((d, head) ∷ hist) refl refl
                slow.frozen
                (HeldFor-cons c s1.span_head s1.frozen (d, head) hist slow.held
                  (HeldFor-cast hist (sym slow.cursor ∙ cu) sh fr
                    (after-Tracks node dir hist (sym sp ∙ slow.spanning)))),
            slow.long,
            slow.moved,
          )
    ]
