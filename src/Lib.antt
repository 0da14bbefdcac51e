-- ===== src/Lib.antt =====
-- A verification library for the job scheduler of dogx (apps/job): the rounds ("Instances") of
-- scheduled Jobs and their Tasks in PostgreSQL, and the in-memory queues that drive them.
--
-- The parts. A scheduler node keeps trigger hints in a bounded queue (JobQueue,
-- apps/job/rpc/internal/scheduler/queue.go). Rounds and Tasks live in two tables, which nodes
-- change only by the conditional UPDATEs of the two repositories (TaskStore, InstanceStore,
-- apps/job/internal/repository/{job_task,job_instance}_repository.go), alone or inside a
-- transaction (Transaction, apps/job/internal/repository/transaction.go). The stop controller
-- (Stop, apps/job/internal/instancestop/controller.go) decides a stop and cancels the children in
-- batches, which the workers of a queue run in turns (StopQueue,
-- apps/job/internal/instancestop/queue.go). The registrar (Registrar) gives an attempt the
-- permission to be sent, in one transaction over both tables. The settler (Settler) closes attempts
-- whose executor never became known, and the checker (Checker) completes a round or asks for its
-- timeout. Rounds are made by hand or when a Job is due (Creator), at the times that its Cron
-- expression gives (Schedule).
--
-- How the files correspond to the code:
--   Model, Model/Task, Instance, Job     the rows and enums of apps/job/internal/model
--   Database, Database/Updates           UPDATE, row counts, faults, answers of the database
--   TaskStore/Dispatch, Start, Outcome   BindExecutor, SaveDispatchBusy, SaveDispatchRejection;
--                                        InsertOrdinary, RegisterOrdinaryRetry; SaveResult,
--                                        SettleOrdinaryUnknown, CancelUnfinished
--   TaskStore/Listings, Targets          the reads of the Task table
--   TaskStore/Races, Once                the writes that close an attempt; the same attempt's write
--                                        again, after any writes of the system
--   TaskStore/History, Effects,          any sequence of Task writes: effects on a row, consistency
--     Evolution, Consistency, Invariant
--   InstanceStore/Writes                 StartExecution, RecordStop, FinishStop, Complete, Insert
--   Transaction                          a callback over the tables, and its commit
--   Stop, Stop/Batch                     RequestManual and RequestTimeout; ProcessBatch
--   Stop/Request, Stop/Children          what they answer; what one batch selects and cancels
--   StopQueue, StopQueue/Turns           Start, Hint, Stop, Drain, take, complete, finish; process
--   StopQueue/Steps, Sound, Workers      the queue with its workers in any interleaving
--   StopQueue/Quiet, Carried, Converges  batches and turns over a database that answers, and what
--                                        they leave of each row
--   InstanceStore/Listings               the reads of the Instance table
--   StopRecovery                         scan and the passes of Run
--                                        (apps/job/internal/instancestop/recovery.go)
--   StopRecovery/Scanned, Forward,       one page, and the order of the hints
--     Covers, Terms, Ends, Live          what no pass skips; fuel; a pass that reaches its end
--   Registrar, Registrar/Retry           StartOrdinary, RetryOrdinary
--                                        (apps/job/internal/dispatch/registrar.go)
--   Registrar/Starts, Registers,         what they answer and leave behind
--     RetryWays, Retries
--   Settler, Settler/Batch               prepare, frozenBudget; SettleBatch
--                                        (apps/job/internal/taskrecovery/settler.go)
--   Settler/Eligible, Prefix             what is settled; how far the counts go
--   Settler/Turns, Processed             what one candidate leaves; what a batch comes to
--   ResultSaver, ResultSaver/Ways,       Save over the lookup, the write and the probe, how it ends,
--     Answers, Saves                     and what a released report means
--                                        (apps/job/internal/taskresult/saver.go)
--   Checker, Checker/Configs, Facts,     Check, what the frozen configuration and the facts have to
--     Ends                               be for it to go on, and how it ends
--                                        (apps/job/internal/instancecheck/checker.go)
--   UnboundRuntime, UnboundRuntime/      the traversal of unbound attempts, its batches, Start and
--     Lifecycle, Batches, Climbs         Stop (apps/job/internal/taskrecovery/runtime.go)
--   CheckRecovery, CheckRecovery/Climbs  the scan of running rounds
--                                        (apps/job/internal/instancecheck/recovery.go)
--   CheckQueue                           Hint, HintRecovery, take, complete and the rest
--                                        (apps/job/internal/instancecheck/queue.go)
--   CheckQueue/Steps, Sound, Worked,     the check queue with its workers in any interleaving;
--     Checked, Workers, Takes, Windows   which entry is taken, and when
--   JobQueue and its children            offer, push, take, complete, close on the ring buffer
--   JobQueue/Fifo, Commands, Views,      a plain queue, and the ring buffer's histories against it
--     Refines
--   Creator, Creator/Manual, Automatic   TriggerManual; TriggerAutomatic, over Lock, Advance, Available
--                                        (apps/job/internal/trigger/creator.go)
--   Creator/Answers, Replays, Repeats    the same request again
--   Creator/Advances, Advances/Due,      what a due time leads to, the call that follows, and that
--     Advances/Succeeds                  a call over a database that answers succeeds
--   Schedule, Schedule/Previews          Parse, Next, Preview (apps/job/internal/schedule/cron.go)
--   Examples and its children            runs at concrete inputs
--
-- A write is three definitions: the WHERE clause as a test on a row (`accepts_...`), the SET clause
-- as a change of a row, and the operation with its checks and its answer. PostgreSQL, GORM and the
-- network are not code of the repository: each statement gets from its environment whether it
-- fails, what the clock says, and for a commit whether it is done, rolled back, or done without
-- confirmation. The version test of a UUID, the test of an executor's address and PostgreSQL's
-- reading of a fractional number of seconds are parameters (`is_uuid4`, `valid_address`,
-- `interval`), and so is what the registrar, the settler and the checker take of the standard
-- library to read a frozen configuration (`Text`, `unmarshal`). Transactions are run one after
-- another, as the row locks make those of one Instance; a Go mutex makes each queue method one
-- step, and a `take` that must wait answers `waits`. The end of a Drain's Context and the
-- cancellation that context.AfterFunc makes of it are two steps, with any others between them.
--
-- Numbers are natural numbers: IDs, counters and durations that the code rejects when they are not
-- positive have 0 for all of these. Counters do not wrap: a registration that would leave the range
-- of its column is the database's error 22003. A turn recurses on the number of batches
-- that the queue's configuration allows it; the loop over pages of the stop recovery has as fuel one
-- page more than there are IDs between its position and its bound, and StopRecovery/Ends shows that it
-- is enough; the loop over the batches of a page has its length (UnboundRuntime/Batches), the loop of
-- Preview five turns; everything else recurses on a list.
--
-- Not modelled: the queue of results, the dispatcher and its runtime, the cache of executor groups and
-- the management operations of the Job and group repositories; the permits and the log of trigger
-- creation; term and etcd coordination; RPC transport, generated code, configuration and wiring; the
-- executor SDK (pkg/jobexecutor) and the management system (apps/system).
pub mod CheckQueue
pub mod CheckRecovery
pub mod Checker
pub mod Common
pub mod Creator
pub mod Database
pub mod Examples
pub mod InstanceStore
pub mod JobQueue
pub mod Model
pub mod Registrar
pub mod ResultSaver
pub mod Schedule
pub mod Settler
pub mod Stop
pub mod StopQueue
pub mod StopRecovery
pub mod TaskStore
pub mod Transaction
pub mod UnboundRuntime
