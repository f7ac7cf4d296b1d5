-- ===== src/Migmon/Nulls.antt =====
-- One node's streak of missing shadow roots (internal/migmon/sampler.go: NullTracker). The clock
-- is read in whole seconds.
pub mod Streak
use pbt_devnet.Prelude.{
  ℕ, ◌-◌, String, Bool, true, false, not, ◌&&◌, List, [], ◌∷◌, ltb, if◌then◌else◌,
}
use pbt_devnet.Migmon.{
  Event, event, critical, warn, null_critical, null_warn, null_for, null_critical_after,
  null_warn_after,
}

pub record NullTracker : Type 0 where
  pub node : String
  pub active : Bool
  pub last_non_null : ℕ
  pub warn_fired : Bool
  pub crit_fired : Bool

-- The zero time of a new tracker is never read: `Observe` sets it when it turns active.
unfoldable pub new_tracker : String → NullTracker
new_tracker node = record {
  node = node;
  active = false;
  last_non_null = 0;
  warn_fired = false;
  crit_fired = false;
}

unfoldable pub reset : NullTracker → NullTracker
reset n = record n { active = false; warn_fired = false; crit_fired = false }

-- The first sample after an inactive spell starts the streak.
unfoldable pub activate : (now : ℕ) → NullTracker → NullTracker
activate now n = if n.active then n else record n { active = true; last_non_null = now }

unfoldable pub escalate : (now : ℕ) → NullTracker → NullTracker × List Event
escalate now n =
    let streak = now - n.last_non_null in
    if ltb null_critical_after streak && not n.crit_fired
    then (
      record n { crit_fired = true; warn_fired = true },
      event critical n.node null_critical 0 "" (null_for streak) ∷ [],
    )
    else if ltb null_warn_after streak && not n.warn_fired
    then (record n { warn_fired = true }, event warn n.node null_warn 0 "" (null_for streak) ∷ [])
    else (n, [])

unfoldable pub observe : (now : ℕ) → (active null : Bool) → NullTracker → NullTracker × List Event
unfolding reset activate escalate
observe now active null n =
    if not active
    then (reset n, [])
    else if not null
    then (
      record (activate now n) { last_non_null = now; warn_fired = false; crit_fired = false },
      [],
    )
    else escalate now (activate now n)
