-- ===== src/Lib.antt =====
-- The migration tooling of this repository: a devnet is moved to the binary tree while a driver
-- splits its network on a schedule, a monitor watches the clients, and a swap replaces some of
-- them by snapshots.
--
-- The parts, and how they meet:
-- * Schedule models internal/migsched/schedule.go. `resolve` is Resolve: it places the windows of a
--   profile (Resolve), admits each op (Admission), computes the failsafe sweeps and checks them
--   (Sweeps). Windows is LegalWindows and Covers, Topology is Lights, Others and share, Actions the
--   sorted work of the driver. Floating point is a parameter (Float64), as records of operations;
--   no theorem uses a law of it.
-- * Dump models internal/migsched/dump.go: what the driver publishes of a schedule and what the
--   other programs read back, its gaps and its heal deadlines. The JSON decoder is a parameter.
-- * Driver models cmd/migration-chaos/main.go: execute (Driver/Execute), holdUntilCrossed
--   (Driver/Hold), islands, repeer and the waits (Driver). Each call goes into a trace, newest
--   first; a World answers each by the trace up to it: the clock, whether a sleep is interrupted,
--   and whether disruptoor, the clients and the injector succeed. A Flow is the run's next state,
--   its stop at a signal, or its hold out of fuel. A hold takes one unit of fuel a round; a round
--   lasts a slot, thus a second at least, and a resolved schedule holds for 120 s at most, so that
--   121 is enough. The other files of Driver are proofs: Neutral, Quiet and Parts are on the steps
--   that make no call to disruptoor, Flag and Verdict on the flag `healed`, Plan and Starts on the
--   requests to split, Pairing, Held and Release on the split in force, Clock, Crossing, Running and
--   Finish on the end of the run.
-- * Guard models cmd/migration-gate/main.go: the claim on the gate's own partition, the watchdog,
--   the peer watch and the comparison of heads (Guard), waitForDone and awaitConvergence
--   (Guard/Wait), and runPostOp (Guard/Handoff). A watch or a wait is a function of its rounds, each
--   with what it read; Healed, Held, Starved, Heads, Patience and Completed have the theorems.
-- * Migmon models internal/migmon: the timeline of a client and its directions (Timeline, Stall:
--   timeline.go), the quorum on the fork block (Quorum: timeline.go), the null-root tracker and the
--   reorg memory (Nulls, Memory: sampler.go), and the events and findings that they share.
-- * Swap models the gates of cmd/migration-swap (gate.go, waitSwapGate of swap.go) and the evidence
--   that it keeps (internal/migmon/offline.go). Its case folding of hashes is a parameter.
-- * Lineage models cmd/migration-monitor/lineage.go with the records of snapshot.go: put, extend and
--   observe (Lineage), the walks to parents (Walk: isAncestor, commonAncestor, walkTo, the spine of
--   recompute), recompute with segmentID and freeLane (Segments), settle (Settle), and segments,
--   blocks, holders and prune (Views). A walk takes one unit of fuel a block; it gets the number of
--   its first block and two more, which is enough where each parent's number is one less.
-- * Compare models cmd/migration-monitor/compare.go: pickHeight and judge (Compare), reportDissent
--   and settling (Compare/Report). The order in which Go visits a map is a parameter.
-- * Lifecycle models cmd/migration-monitor/lifecycle.go: apply, takeReset, quiet, derive and views
--   (Lifecycle), parseOffline (Lifecycle/Seed).
-- * Verify models cmd/verify-migration: the checks of an offline lap (offline.go):
--   checkSwapsSerialized (Serialized), checkReplayCaughtUp (Replayed), checkOfflineCoverage (Offline);
--   of checks.go chaosWindows, scheduleDump, attributeWindows and checkPartitionsHealed (Partitions);
--   of boundary.go walkOrphanBranch and victimTip (Branch) and checkCompletion (Completion); of
--   manifest.go checkLapManifest (Manifest); and the verdicts and the exit code of Run in main.go
--   (Run). The walk has the source's own bound of 128 blocks. Serialized/Gated puts the gate of
--   Swap before the check of its swap; Offline/Unrun puts the evidence that Swap starts from
--   before the check of the coverage; Partitions/Published takes a Schedule through the driver's
--   dump to the verifier. The index in a node's name, the reorgs read from logs, the registry of
--   clients, the decoder of reports and the test for a part of a text are parameters.
-- * Prelude has the helpers that the parts share (Maps: Go maps as lists of entries; Int: signed
--   integers), and Examples the tests and an instance of each theorem. The driver runs `actions` of
--   Schedule; Dump is made from a Schedule; Swap reads the gaps of a Dump; Guard reads `covers` of a
--   Schedule; Lineage, Compare and Lifecycle share the records of Migmon; Verify judges the swaps
--   against the ops of a Dump, and reads the plan that Swap keeps evidence of.
--
-- Instants are Unix times in whole seconds, on ℕ; a zero time is `none`, and in the records that
-- Lifecycle and Verify read it is 0, as in the source. Block numbers are machine
-- integers where they are added to (`u64`). A message that is formatted is a constructor with the
-- values that it names. A map is an association list. A context's timeout is a call that fails.
--
-- Not modelled: HTTP and RPC clients, flag parsing, docker and kurtosis commands, the sending of
-- transactions, and the pages of the monitor, which are input and output; the monitor's collector,
-- feeds, rivers and shadow table (cmd/migration-monitor), the invariant monitor (cmd/pbtmonitor),
-- the post-fork chaos (cmd/pbtchaos, cmd/pbthammer) and the other checks of the verifier
-- (cmd/verify-migration).
pub mod Prelude
pub mod Schedule
pub mod Dump
pub mod Driver
pub mod Guard
pub mod Migmon
pub mod Swap
pub mod Lineage
pub mod Compare
pub mod Lifecycle
pub mod Verify
pub mod Examples
