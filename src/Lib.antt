-- ===== src/Lib.antt =====
-- A model of the work graph of Ago: the board protocol, its state machine, the store of boards, and
-- the scheduler and the supervisor that drive it.
--
-- The program. A board holds the tasks of one goal, their dependencies, the attempts made at them,
-- the leases under which attempts run, and the evidence that attempts hand in. Schedulers, workers,
-- verifiers and the integration authority change a board only by submitting commands to `Apply`,
-- which checks the actor's role, the expected version, the fencing token and the state of the
-- records named, changes a copy of the board, appends events, and validates the result before it is
-- committed. The store keeps boards in SQLite. Each command is one transaction: it looks for a
-- receipt of the command, reads the board, applies the state machine, and writes the board, its
-- events, the tables projected from it, and a receipt. A scheduler takes a task by a claim, which
-- also counts the active leases against limits; it runs the executor on it, has the evidence
-- judged, integrates what was accepted, and proves the result by the gate of the project. A
-- supervisor runs the scheduler for one goal, repairs stopped tasks within a budget, and queues
-- decisions for a person.
--
-- Files of the model.
--   Prelude, GoString, Clock     helpers: slices, `int` and `uint64`, a result with error and panic,
--                                byte strings with the functions of `strings`, and `time.Time`.
--   Protocol/States, Records,    the types of internal/agoboardprotocol/protocol.go, field by field.
--     Commands, Errors
--   Protocol/Retry               MaxAttempts, RetryDelay and the other bounds.
--   Protocol/Rules               contracts, required tests, the project gate, bounds on evidence,
--                                relativeRepositoryPath.
--   Protocol/Acyclic             validateAcyclic.
--   Protocol/Validate            Board.Validate and validateAttemptsLeasesEvidence.
--   Protocol/Completion          EvaluateCompletion.
--   Machine/Work                 the variables and closures of Apply, and its searches.
--   Machine/Attempts             requireFencingToken, transitionAttempt, recordAttemptFailure.
--   Machine/Graph, Leases,       the cases of Apply in
--     Execution, Review,         internal/agoboardprotocol/state_machine.go, one function each.
--     Integration, Patch
--   Machine/Apply                Apply itself.
--   Machine/History, Log         predicates on what commands keep of a board, and on their events.
--   Planner                      internal/agoplanner/planner.go: a plan and its validation.
--   Store/Rows, Tables           the tables of internal/agoboardstore/migrations, and what the
--                                statements of internal/agoboardstore/store.go do with one of them.
--   Store/Boards, Receipts,      updateBoard, appendEvents, boardQuery, storedResult, insertResult,
--     Mapping, Projection        requestHash, and syncProjection with the rows that it writes.
--   Store/Commit, Admission      Store.apply with its callers, and CreateGraph.
--   Store/Deadlines, Sweep       durableRetryDeadline, the leases that are due, RenewLease,
--                                ExpireLease, ExpireDueLeases.
--   Store/Queries, Upgrade       what only reads, and upgradeAggregates.
--   Store/Picking, Claim         internal/agoboardstore/claim.go: what a claim may take, and Claim.
--   Scheduler, Scheduler/*       internal/agoscheduler/scheduler.go: Steps has what the methods share,
--                                Dispatching claims and runs attempts, Integrating, Verifying and
--                                Gating are the other phases, Cycles is runCycle.
--   Supervisor, Supervisor/*     internal/agosupervisor/supervisor.go: Attention is the queue of
--                                decisions, Waiting what is stuck, Repair the repairs, Review the
--                                passes, Step and Run.
--   Samples                      a board, a database, commands, and the theorems at concrete inputs.
-- The modules below a module prove theorems about it.
--
-- How the code is read. A function that returns an error returns an `Outcome`: `ok`, `err` with the
-- kind of the error (its message is left out), or `panic` where Go would panic. Handlers pass the
-- board and the events as a record `Work`. A Go map that is built and read in one function is the
-- list of its entries. Strings are byte lists, an `int` is a signed number that wraps at 64 bits
-- where the code increments it, and counters of type `uint64` wrap at 2 ^ 64. A time is the number
-- of nanoseconds since the earliest time that Go can hold, with a mark for the location UTC. The
-- depth of the searches for cycles is bounded by fuel: the number of places in which an id is
-- named, plus one.
--
-- Not modelled. Go's copying of slices (`cloneBoard` and the pointer helpers) is the identity on
-- immutable values, so aliasing between the argument of Apply and its result is out of reach. The
-- order in which Go ranges over a map is an argument of the search for cycles. Of SQLite the model
-- has the rows, keys, checks and transactions that succeed or are rolled back; failures of the disk
-- or the driver, columns beyond 63 bits, and the scripts that alter tables are left out. A column
-- that holds JSON holds the value, so reading it back cannot fail. JSON and SHA-256 of requests are
-- the parameter `Codec`, `path.Clean` is another, and a random token is an argument. The scheduler
-- and the supervisor act on a state that an error does not undo (`Effect`). What stands behind
-- their interfaces (executor, verifier, integrator, artifacts, gate, clock) is a function on a
-- state of its own, whose calls are listed; the cycle of the scheduler is a parameter of the
-- supervisor, and the messages of errors that it quotes another. Nobody else writes to the database
-- between their transactions, and their context never ends. Texts in Chinese are encoded as UTF-8.
-- The fuel of the closure over the dependencies is their number plus one. Transport, the executors
-- and the rest of the daemon are outside the model.
mod Prelude
pub mod GoString
pub mod Clock
pub mod Protocol
pub mod Machine
pub mod Planner
pub mod Store
pub mod Scheduler
pub mod Supervisor
mod Samples
