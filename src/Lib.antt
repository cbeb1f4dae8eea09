-- ===== src/Lib.antt =====
-- lane-broker admits lanes (test and simulation commands) to one machine, one at a time under a lock.
-- A supervisor process enqueues a ticket, a JSON file, and polls `tryStart` (src/scheduler.js), which
-- orders the queue, picks who may start, and turns a ticket into a lease, another file. The leases of
-- supervisors that died are reaped on each poll.
--
-- The files and what they model:
--   Prelude     Boolean tests on numbers, lists, sorting, and the library names the others use.
--   Records     The records in the files: Lease (src/lease.js) and Ticket (src/scheduler.js).
--   Gate        The load gate (updateGateState of src/load.js) and the CPU gate (updateCpuGateState and
--               sampleAndUpdateCpuGate of src/admission.js), two hysteresis state machines.
--   Lease       The reaper: stepOrphanReap, reapIfStale, reapAll and liveLease of src/lease.js, over
--               isProcessAlive (src/process-liveness.js) and signalLive (src/descendants.js).
--   Lock        The global mutex of src/state.js: withLock, recoverDeadLock and gcTombs as transitions on
--               the lock directory and the tombs (Lock), calls of several processes interleaved
--               (Lock/System), the abstract mutex (Lock/Refinement) and the deadline (Lock/Waiting).
--   Resources   Claims and budgets of src/resources.js: the elastic range, the caps of a claim by the
--               budget, and evaluateMemoryAdmission.
--   Classes     The caps of the sim class, src/classes.js: what is booked, the verdict on each queued
--               ticket, and what a dispatch carries of the class.
--   Runner      What is known of the runners: the contact clock, the heartbeat and the readiness gaps of
--               src/runner-unreachable.js, and the windows of src/runner-schedule.js.
--   Push        pushHolds of src/push-gate.js: which lanes of one caller wait behind another push.
--   Attempt     The attempt record of a remote-eligible ticket, src/attempts.js: its generation fence, the
--               fallback to local and publishTerminal.
--   Watchdog    The watchdog for no progress and for silence over a running command, src/no-progress.js.
--   Retention   One sweep of the object store, src/store/retention.js.
--   Journal     The journal of the object store, src/store/journal.js, as bytes: reading in chunks, appending,
--               recovery when it is opened, and what it reports as pending. The text of a record is
--               the parameter Codec, a chunk is at least as long as every line, and the fuel of a
--               reading is one more than the bytes.
--   Allocation  The class locks and the selection of evaluateQueue, src/allocation.js, over fractions of the
--               budget in exact hundredths.
--   Replication A round of the replicator over the journal, src/store/replicate.js.
--   SimArm      The stamp of the last sim demand, src/sim-arm.js: touchSimArm and reconcileSimArm.
--   Fairness    The legacy store and the per-ticket store of what is known of blocked heads, legacyStore
--               and fairnessStore of src/fairness.js, behind the interface SkipStore.
--   Admission   The CPU and memory decision for one claim: evaluateCpuAdmission, decideAdmission,
--               evaluateElasticAdmission and cooldownActive of src/admission.js.
--   Queue       The queue files (src/scheduler.js): existingTicket, admitTier, enqueue, dequeueSync,
--               withdrawQueued, restoreLocked, recoverRebinding, retierQueued and reapOrphanedQueue.
--   Priority    score, orderQueue and promoteReservationOwner of src/priority.js, and advanceHwm of
--               src/priority-clock.js.
--   Scheduler   Parts of src/scheduler.js and src/exclusive.js. Blocking: blockedBy, sameKeyHolder,
--               selectCandidate and selectCapacityCandidate. Exclusive: exclusiveDeny and the walk view.
--               Skips: the allowances of a blocked head (readSkipState, recordSkip, resolveHeadBlock and
--               their capacity and resource counterparts), over any SkipStore.
--               Start: the decision of tryStart (Start/Early before the selection, then the candidate,
--               safe backfill, express starts, priority yields, floor slot and bypass) and
--               Start/Verdict its refusals in order.
--   Samples     Records that the tests use.
--
-- How the state corresponds. A file that is read is an argument and a file that is written is a result;
-- a write that may fail takes a flag that says whether it went through. Ids, keys and process start
-- times are strings that the code only compares for equality: they are numbers. A queue record that
-- cannot be read is `none` in the list. Times are milliseconds; where the source compares a difference
-- of times that could be negative with a bound, the sum is compared instead. What the operating system
-- answers (probes, the process table, loads, the clock of a time zone) is an argument. CPU cores are
-- counted in a unit that is fine enough for one percent of the host's cores to be whole. Only
-- the reading of the journal and a round of the replicator run on fuel, one for each chunk: a chunk that
-- is not empty passes a record, so the bytes of the file are enough. Every other recursion is over a
-- list or a range of claims.
--
-- The lock is a step relation: each step is one transition of one call of withLock, which touches the
-- file system at most once, a garbage collection, the end of a process or the passing of time. A call's
-- token is its number, since tokens are random UUIDs. A probe may only find a process gone that is, and
-- a call that takes a lock over acts within a bound of having seen the owner dead: both are conditions
-- of a step, stated in Lock/System. The removal of a lock directory whose rename failed unlinks its
-- entries one by one, in any order; that of a tomb is one transition.
--
-- Not modelled: logs, the text of messages and reports; the remote half but for the attempt records and
-- what is known of the runners (the transport of src/remote-client.js, src/remote-runner.js and
-- src/remote-stream.js, manifests and blobs, and the placement on a runner, which scores in floating
-- point); file trees and hashing (src/deps-cache.js, src/result-cache.js, src/store/objects.js); the
-- processes that src/supervisor.js, src/run.js and src/cancel.js start and signal; the SQL of
-- src/lane-db.js; measurements and estimates (src/cpu.js, src/estimates.js), so how the CPU projection
-- comes to its numbers is an argument of the decision; the validators of src/config.js; and the order of
-- lock groups (assertLockOrder). What classes and resources decide enters the decision of a start as an
-- argument and is not composed with it. Priority scores are exact numbers in place of floating point.
pub mod Prelude
pub mod Samples
pub mod SimArm
pub mod Records
pub mod Resources
pub mod Classes
pub mod Gate
pub mod Lease
pub mod Lock
pub mod Runner
pub mod Attempt
pub mod Watchdog
pub mod Fairness
pub mod Admission
pub mod Priority
pub mod Queue
pub mod Push
pub mod Allocation
pub mod Journal
pub mod Replication
pub mod Retention
pub mod Scheduler
