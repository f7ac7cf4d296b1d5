-- ===== src/Guard.antt =====
-- The gate's watches over the network (cmd/migration-gate/main.go: held, starvation, watchdog,
-- headSpread, trendShrinking, converged). A watch reads the clock once a round; what it reads of
-- the clients and of disruptoor is an input of the round.
pub mod Wait
pub mod Heads
pub mod Starved
pub mod Healed
pub mod Held
pub mod Patience
pub mod Completed
pub mod Handoff
use pbt_devnet.Prelude.{
  ℕ, ◌+◌, ◌-◌, String, Bool, true, false, not, ◌&&◌, ◌||◌, Option, none, some, List, [], ◌∷◌, ltb,
  leb, ◌==◌, str_eq, some_of, if◌then◌else◌, min, max,
}
use pbt_devnet.Schedule.{Schedule}
use pbt_devnet.Schedule.Windows.{covers}

abbrev pub convergence_grace : ℕ
convergence_grace = 120

abbrev pub peer_starved_after : ℕ
peer_starved_after = 90

-- The partition that this process holds itself, by the instant until which it does.
unfoldable pub hold_own : (now window : ℕ) → Option ℕ
hold_own now window = some (now + (window + convergence_grace))

unfoldable pub holding : Option ℕ → ℕ → Bool
holding none now = false
holding (some until) now = ltb now until

-- A scheduled window or the process's own partition.
unfoldable pub is_held : Schedule → Option ℕ → ℕ → Bool
unfolding holding
is_held s own now = covers s now || holding own now

-- A consensus client's zero-peer episode.
pub record Starvation : Type 0 where
  pub since : Option ℕ
  pub fired : Bool

abbrev pub fed : Starvation
fed = record { since = none; fired = false }

unfoldable pub starve : (now : ℕ) → Starvation → (since : Option ℕ) → Starvation × Bool
starve now s none = (record s { since = some now }, false)
starve now s (some t) =
    if s.fired || ltb (now - t) peer_starved_after
    then (s, false)
    else (record s { fired = true }, true)

-- `peers` is none where the API did not answer.
unfoldable pub observe_peers :
    (now : ℕ) → (peers : Option ℕ) → (held : Bool) → Starvation → Starvation × Bool
unfolding starve
observe_peers now none held s = (fed, false)
observe_peers now (some peers) held s =
    if ltb 0 peers || held then (fed, false) else starve now s s.since

-- What `converged` says: its error, or whether the clients agree.
pub data View : Type 0 where
  unreadable agreed split : View

-- The variables of the watchdog.
pub record Watch : Type 0 where
  pub since : Option ℕ
  pub fired : Bool

abbrev pub at_ease : Watch
at_ease = record { since = none; fired = false }

-- What a heal of the watchdog came to: whether a partition had been applied, and for how long the
-- clients had been split.
pub data Heal : Type 0 where
  heal_failed : Heal
  dead_driver mesh_repeer : (split_for : ℕ) → Heal

-- `parts` is none where the state could not be read.
unfoldable pub heal_kind : (parts : Option ℕ) → (split_for : ℕ) → Heal
heal_kind none d = mesh_repeer d
heal_kind (some n) d = if ltb 0 n then dead_driver d else mesh_repeer d

-- A round of the watchdog; `clears` says whether disruptoor's clear works.
pub record Round : Type 0 where
  pub now : ℕ
  pub view : View
  pub held : Bool
  pub parts : Option ℕ
  pub clears : Bool

-- A re-peering that fails after the clear is only logged.
unfoldable pub heal_split : Round → (since : ℕ) → Heal
unfolding heal_kind
heal_split r t = if r.clears then heal_kind r.parts (r.now - t) else heal_failed

unfoldable pub watch_since : Round → Watch → (since : Option ℕ) → Watch × Option Heal
unfolding heal_split
watch_since r w none = (record w { since = some r.now }, none)
watch_since r w (some t) =
    if w.fired || leb (r.now - t) convergence_grace
    then (w, none)
    else (record w { fired = true }, some (heal_split r t))

unfoldable pub watch_split : Round → Watch → Watch × Option Heal
unfolding watch_since
watch_split r w = if r.held then (record w { since = none }, none) else watch_since r w w.since

unfoldable pub watch : Round → Watch → Watch × Option Heal
unfolding watch_split
watch r w = elim r.view [
  | unreadable ↦ (w, none)
  | agreed ↦ (at_ease, none)
  | split ↦ watch_split r w
]

-- `headSpread`; none if a client did not answer.
unfoldable pub spread_from : (low high : ℕ) → List (Option ℕ) → Option ℕ
spread_from low high [] = some (high - low)
spread_from low high (none ∷ hs) = none
spread_from low high (some h ∷ hs) = spread_from (min low h) (max high h) hs

unfoldable pub head_spread : List (Option ℕ) → Option ℕ
unfolding spread_from
head_spread [] = some 0
head_spread (none ∷ hs) = none
head_spread (some h ∷ hs) = spread_from h h hs

unfoldable pub trend_shrinking : (first second third : ℕ) → Bool
trend_shrinking first second third = ltb third second && ltb second first

-- The lowest head, if every client answers and there is one.
unfoldable pub lowest : List (Option ℕ) → Option ℕ
lowest [] = none
lowest (none ∷ hs) = none
lowest (some h ∷ []) = some h
lowest (some h ∷ g ∷ hs) = elim (lowest (g ∷ hs)) [ none ↦ none | some l ↦ some (min h l) ]

-- The hashes that the clients have at a height, none where one has no block there. They agree if
-- the map of them has one key.
unfoldable pub compare : Option String → List (Option String) → View
compare none [] = split
compare (some x) [] = agreed
compare x (none ∷ ys) = unreadable
compare none (some y ∷ ys) = compare (some y) ys
compare (some x) (some y ∷ ys) =
    let rest = compare (some x) ys in
    if str_eq x y then rest else (elim rest [ unreadable ↦ unreadable | _ ↦ split ])

-- `hashes` asks every client for its block at a height.
unfoldable pub converged : List (Option ℕ) → (hashes : ℕ → List (Option String)) → View
unfolding lowest compare
converged heads hashes = elim (lowest heads) [
  | none ↦ unreadable
  | some l ↦ compare none (hashes l)
]

-- A round of the peer watch: the clients whose episode is reported.
unfoldable pub peer_round :
    (now : ℕ)
    → (held : Bool) → List (String × Option ℕ)
    → List Starvation
    → List Starvation × List String
unfolding observe_peers
peer_round now held [] ss = ([], [])
peer_round now held (c ∷ cs) [] = ([], [])
peer_round now held (c ∷ cs) (s ∷ ss) =
    let r = observe_peers now c.1 held s in
    let rest = peer_round now held cs ss in (r.0 ∷ rest.0, if r.1 then c.0 ∷ rest.1 else rest.1)
