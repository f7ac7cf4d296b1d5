-- ===== src/Verify/Partitions/Published.antt =====
-- The schedule from the driver's record to the verifier (internal/migsched/dump.go: NewDump,
-- ParseDump; cmd/verify-migration/checks.go: scheduleDump).
use pbt_devnet.Schedule.{Schedule}
use pbt_devnet.Schedule
use pbt_devnet.Schedule.Topology.{Topology}
use pbt_devnet.Dump.{Dump}
use pbt_devnet.Verify.Partitions.{ChaosSeen, isolated, healed, scheduled, other_record}

-- A record that is not a schedule.
abbrev pub IsOther : {Raw : Type 0} → ChaosSeen Raw → Type 0
IsOther (isolated n t) = Unit
IsOther (healed n t) = Unit
IsOther (scheduled raw) = ⊥
IsOther other_record = Unit
