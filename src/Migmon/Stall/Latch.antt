-- ===== src/Migmon/Stall/Latch.antt =====
-- Reported stalls and their episodes (internal/migmon/timeline.go: dirState.observe).
use pbt_devnet.Prelude.{
  ℕ, ◌+◌, ◌≤◌, ◌≡◌, ◌==◌, true, subst, some, refl, ap, ◌∙◌, String, Bool, false, not, ◌&&◌, Option,
  none, List, [], ◌∷◌, ◌++◌, arith, str_eq, if◌then◌else◌,
}
use pbt_devnet.Migmon.{
  idle, parked, stalled, DirectionProgress, Event, direction_stalled, cursor_frozen,
}
use pbt_devnet.Migmon.Stall.{DirState, fresh, observe_error, observe_cursor, observe}
use pbt_devnet.Migmon.Stall.Frozen.{Poll}

abbrev is_faulty : Option DirectionProgress → Bool
is_faulty none = false
is_faulty (some d) = elim d.phase [ stalled ↦ true | _ ↦ not (str_eq d.error "") ]

-- How often the polls go from healthy to faulty; `was` is whether the poll before was faulty.
abbrev pub episodes : (was : Bool) → List Poll → ℕ
episodes was [] = 0
episodes was ((d, head) ∷ ps) =
    (if is_faulty d && not was then 1 else 0) + episodes (is_faulty d) ps

abbrev stall_of : Event → ℕ
stall_of e = elim e.detail [ direction_stalled dir p x ↦ 1 | _ ↦ 0 ]

abbrev pub stalls : List Event → ℕ
stalls [] = 0
stalls (e ∷ es) = stall_of e + stalls es

-- The findings of a direction over its polls, oldest first.
unfoldable pub observe_all : (node dir : String) → List Poll → DirState → List Event
observe_all node dir [] s = []
observe_all node dir ((d, head) ∷ ps) s =
    let (next, evs) = observe node dir d head s in evs ++ observe_all node dir ps next

stalls-append : (xs ys : List Event) → stalls (xs ++ ys) ≡ stalls xs + stalls ys
stalls-append [] ys = omega arith
stalls-append (x ∷ xs) ys = omega (arith, stalls-append xs ys)

observe_error-stalls :
    (node dir : String) (d : Option DirectionProgress) (s : DirState)
    → (stalls (observe_error node dir d s).1
        ≡ (if is_faulty d && not s.immediate_fired then 1 else 0))
      × ((observe_error node dir d s).0.immediate_fired ≡ is_faulty d)
unfolding observe_error
observe_error-stalls node dir none s = ground arith
observe_error-stalls node dir (some d) s = ground arith

observe_cursor-stalls :
    (node dir : String) (d : Option DirectionProgress) (head : ℕ) (s : DirState)
    → (stalls (observe_cursor node dir d head s).1 ≡ 0)
      × ((observe_cursor node dir d head s).0.immediate_fired ≡ s.immediate_fired)
unfolding observe_cursor
observe_cursor-stalls node dir none head s = ground arith
observe_cursor-stalls node dir (some d) head s = ground arith

observe-stalls :
    (node dir : String) (d : Option DirectionProgress) (head : ℕ) (s : DirState)
    → (stalls (observe node dir d head s).1
        ≡ (if is_faulty d && not s.immediate_fired then 1 else 0))
      × ((observe node dir d head s).0.immediate_fired ≡ is_faulty d)
unfolding observe
observe-stalls node dir d head s =
    let (first, evs) = observe_error node dir d s in
    let a = observe_error-stalls node dir d s in
    let b = observe_cursor-stalls node dir d head first in
    (omega (arith, a.0, b.0, stalls-append evs (observe_cursor node dir d head first).1), b.1 ∙ a.1)

observe_all-episodes :
    (node dir : String) (ps : List Poll) (s : DirState)
    → stalls (observe_all node dir ps s) ≡ episodes s.immediate_fired ps
unfolding observe_all
observe_all-episodes node dir [] s = refl
observe_all-episodes node dir ((d, head) ∷ ps) s =
    let (next, evs) = observe node dir d head s in
    let a = observe-stalls node dir d head s in
    let ih = observe_all-episodes node dir ps next ∙ ap (λ b. episodes b ps) a.1 in
    omega (arith, a.0, ih, stalls-append evs (observe_all node dir ps next))

-- The cursor that a poll leaves held: none where it reads no direction, or an idle or parked one.
abbrev pub held : Option DirectionProgress → Option ℕ
held none = none
held (some d) = elim d.phase [ idle ↦ none | parked ↦ none | _ ↦ some d.cursor ]

-- Whether a poll takes up a cursor that the one before it did not hold.
abbrev pub takes_up : (before now : Option ℕ) → Bool
takes_up before none = false
takes_up none (some c) = true
takes_up (some b) (some c) = not (c == b)

-- How often the polls take up another cursor.
abbrev pub spells : (before : Option ℕ) → List Poll → ℕ
spells before [] = 0
spells before ((d, head) ∷ ps) = (if takes_up before (held d) then 1 else 0) + spells (held d) ps

abbrev frozen_of : Event → ℕ
frozen_of e = elim e.detail [ cursor_frozen dir c n x ↦ 1 | _ ↦ 0 ]

abbrev pub freezes : List Event → ℕ
freezes [] = 0
freezes (e ∷ es) = frozen_of e + freezes es

freezes-append : (xs ys : List Event) → freezes (xs ++ ys) ≡ freezes xs + freezes ys
freezes-append [] ys = omega arith
freezes-append (x ∷ xs) ys = omega (arith, freezes-append xs ys)

abbrev spanned : DirState → Option ℕ
spanned s = if s.spanning then some s.cursor else none

-- A finding that the span may still raise.
abbrev unspent : DirState → ℕ
unspent s = if s.spanning && not s.slow_fired then 1 else 0

observe_error-freezes :
    (node dir : String) (d : Option DirectionProgress) (s : DirState)
    → let r = observe_error node dir d s in
      (freezes r.1 ≡ 0) × (spanned r.0 ≡ spanned s) × (unspent r.0 ≡ unspent s)
unfolding observe_error
observe_error-freezes node dir none s = ground arith
observe_error-freezes node dir (some d) s = ground arith

observe_cursor-freezes :
    (node dir : String) (d : Option DirectionProgress) (head : ℕ) (s : DirState)
    → let r = observe_cursor node dir d head s in
      (freezes r.1 + unspent r.0 ≤ (if takes_up (spanned s) (held d) then 1 else 0) + unspent s)
      × (spanned r.0 ≡ held d)
unfolding observe_cursor
observe_cursor-freezes node dir none head s = ground arith
observe_cursor-freezes node dir (some d) head s = ground arith

observe-freezes :
    (node dir : String) (d : Option DirectionProgress) (head : ℕ) (s : DirState)
    → let r = observe node dir d head s in
      (freezes r.1 + unspent r.0 ≤ (if takes_up (spanned s) (held d) then 1 else 0) + unspent s)
      × (spanned r.0 ≡ held d)
unfolding observe
observe-freezes node dir d head s =
    let (first, evs) = observe_error node dir d s in
    let (none', same, left) = observe_error-freezes node dir d s in
    let (spent, span) = observe_cursor-freezes node dir d head first in
    let more = observe_cursor node dir d head first in
    let spent' =
      subst
        (λ o.
          freezes more.1 + unspent more.0 ≤ (if takes_up o (held d) then 1 else 0) + unspent first)
        same spent in
    (
      omega
          (arith, none', left, spent', freezes-append evs (observe_cursor node dir d head first).1),
      span,
    )

observe_all-spells :
    (node dir : String) (ps : List Poll) (s : DirState)
    → freezes (observe_all node dir ps s) ≤ spells (spanned s) ps + unspent s
unfolding observe_all
observe_all-spells node dir [] s = omega arith
observe_all-spells node dir ((d, head) ∷ ps) s =
    let (next, evs) = observe node dir d head s in
    let (spent, span) = observe-freezes node dir d head s in
    let rest =
      subst (λ o. freezes (observe_all node dir ps next) ≤ spells o ps + unspent next) span
        (observe_all-spells node dir ps next) in
    omega (arith, spent, rest, freezes-append evs (observe_all node dir ps next))

-- A direction raises one reported-stall finding for each time that its polls turn from healthy to
-- faulty, and no other; and at most one frozen-cursor finding for each time that its polls take up
-- another cursor, in a phase that is neither idle nor parked.
pub stalls-episodes :
    (node dir : String) (ps : List Poll)
    → let evs = observe_all node dir ps fresh in
      (stalls evs ≡ episodes false ps) × (freezes evs ≤ spells none ps)
unfolding fresh
stalls-episodes node dir ps =
    (observe_all-episodes node dir ps fresh, omega (arith, observe_all-spells node dir ps fresh))
