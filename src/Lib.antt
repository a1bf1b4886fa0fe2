-- ===== src/Lib.antt =====
-- pi-kiwifs-memory, a KiwiFS memory extension for Pi: a verification library.
--
-- The program gives an agent a memory on a shared KiwiFS backend. What is to be written there is a job
-- of a durable outbox, which a worker sends when the backend, the privacy gate and the target allow
-- it; a cursor follows the backend's change feed and is reconciled with it; what is read back is
-- evidence only after a guard of five steps; and a board delivers messages of other agents at least
-- once. The private mode closes all of these paths.
--
-- Backend.antt is src/backend/errors.ts: the error codes, what a sender may throw and the class of
-- errors that is retried. It is used by the worker and by the board.
--
-- Outbox.antt is src/outbox/store.ts: `Outbox` is OutboxStore (its jobs, next number, read-only and
-- closed flags, and the journal file on disk), `step` runs one call (enqueue, ack, retry, quarantine,
-- discardQuarantined, runRetention, close), `persist` is the write of the journal, which may fail
-- before or after its rename, and `settle` the rollback behind it. Outbox/Journal.antt is the reading
-- of the file (`load`, `reopen`). The files below Outbox hold the proofs, by what they are about.
--
-- Worker.antt is src/outbox/worker.ts: `run_tick` is one tick. It goes through the heads of the scopes
-- (`heads`), and for each of them takes as input what the gate, the target, the clock, the sender and
-- the disk answer (`Visit`), so a sequence of visits is an interleaving of the tick with its
-- environment. It calls the store's ack, retry and quarantine.
--
-- Cursor.antt is src/outbox/cursor.ts: the cursor file (`open_cursor`, `save`, `advance_local_seq`,
-- `set_backend`, `flag_reconcile_needed`) and `reconcile`, whose page loop recurses on maxPages: the
-- source's loop bound, so no run is cut short by it.
--
-- Gate.antt is src/privacy/private-mode.ts (`PrivateModeGate`, with enable, resume and
-- holdWhilePrivate) and src/privacy/live-gate.ts (`LiveGate`, whose `observe` is a read of the
-- configuration). A reading that throws is a value, `none`.
--
-- Guard.antt is src/backend/guard.ts (`guard_candidate`, `build_brief_evidence`) and
-- pathWithinMemoryNamespace of src/domain/paths.ts. The adapter's read, the redactor and the length of
-- a text are arguments.
--
-- Board.antt has the parts of src/board. Board/Path.antt has the two path predicates of repository.ts.
-- Board/Entries.antt is DeliveryStateFile of delivery.ts, with the pruning and eviction that `save`
-- does. Board/Cycle.antt is runCycleInner of the same file, in the order of its loops: `discover` (the
-- pages of the feed, or the fallback listing), `read_all`, `settle_all`, `deliver_all` and `conclude`.
-- Its page loop recurses on maxChangesPages, which is the source's bound. Board/Lock.antt is
-- acquireConsumerLock of lock.ts, where each system call of a process is a step and a world has any
-- number of processes. The removal of a stale file is a call of its own behind the verdict, so two
-- processes may race over it, as Board/Lock/Tests.antt shows. Board/Polling.antt is nextIntervalMs, Board/Cleanup.antt is cleanup-rules.ts,
-- Board/Planning.antt is planBoardCleanup of cleanup.ts, and Board/Execution.antt executeBoardCleanup
-- of cleanup-execute.ts, where a `Turn` is what the round of one candidate meets.
--
-- Backup.antt has the parts of src/backup. Backup/Json.antt is the data that JSON.parse returns;
-- `Platform` names what the host gives (JSON.stringify and JSON.parse, SHA-256, byteLength) and
-- `IsFaithful` that a text parses back to its value. Backup/Chunker.antt is chunker.ts and
-- manifest.ts, Backup/Verify.antt parseBackupChunkText and verifyBackup of verify.ts, by the codes of
-- their issues, and Backup/Capture.antt `capture` of capture.ts with an outbox that may refuse any
-- job.
--
-- Observer.antt is src/observation/scheduler.ts (ObserverScheduler). A run awaits its extraction, so
-- it is two steps (`start_run`, `finish_run`), between which any other step may come: a settled
-- response, the idle timer, a manual run, a compaction, a new generation. The entries of the session,
-- the redactor, the UUIDs and whether the writes of the registry and of the batches succeed are
-- arguments. That the coordinator marks entries on a change of branch
-- is no step.
--
-- Coordinator.antt is src/pi/coordinator.ts (SessionCoordinator): the generations of a session, the
-- work registered for them, the registry of consumed entries and the handlers of the host's events. A
-- write of its state file may fail before or after the rename, and a crash reads the file again.
--
-- Prelude.antt passes on the library's names; Prelude/Tests.antt and Prelude/Lists.antt have Boolean
-- tests on numbers and the list lemmas that the parts share. A module called Tests runs the
-- definitions at concrete inputs and applies the theorems there.
--
-- Numbers are the native naturals: sequence numbers, sizes and times in milliseconds since 1970, which
-- the source keeps in doubles and which stay far below 2^53. A time to live is a whole number of
-- seconds. Texts are lists of code points. The order of time stamps by localeCompare, Date.parse, the
-- length of a JSON text, the secret scanner and the redactor are arguments.
--
-- Not modelled: the network (transport, adapter, the repository of the board and the senders), the
-- writing of the delivery state's file and of the backup's, which are taken to succeed, the timers and audit events, and
-- the parts of the program that read configuration, register commands, call a model, or pack text for
-- a prompt; of the backup, its recovery and its export to a directory; of the scheduler, the
-- content of its state file.
pub mod Backend
pub mod Backup
pub mod Board
pub mod Coordinator
pub mod Cursor
pub mod Gate
pub mod Guard
pub mod Observer
pub mod Outbox
pub mod Prelude
pub mod Worker
