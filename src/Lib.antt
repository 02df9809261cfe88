-- ===== src/Lib.antt =====
-- A model of worklane, a background job runner for Rust services, with the properties that make
-- its parts correct.
--
-- Parts of the program, and where they are modelled:
--
-- * crates/worklane-core, the data model and shared policies: Core. `Core/Envelope` has the job
--   before and after it is stored (envelope.rs), `Core/Error` the errors (error.rs),
--   `Core/Retention` the dead-letter retention policy (retention.rs), `Core/Retry` the backoff
--   (retry.rs), `Core/Spi` the decisions that all brokers share and `Core/Codec` the
--   stored form of envelopes (spi.rs), `Core/Clock` the wall clock (clock.rs), `Core/Redact` the
--   scrubbing of credentials (redact.rs), `Core/ClaimCheck` the references to payloads kept
--   elsewhere (payload_store.rs), `Core/Lane` the names of lanes and their registry (lane.rs).
-- * crates/worklane-memory, the in-memory broker: Memory. `Memory/State` has the state, the choice
--   of the next job and the insertion, `Memory/Dead` the way into the dead letters and their
--   pruning, `Memory/Ops` the Broker and BatchEnqueue methods, `Memory/Stores` the
--   DeadLetterStore, QueueStats and ScheduledStore methods, `Memory/Calls` all of them as one step
--   relation. The mutex of the broker makes every method one atomic step, so a sequence of calls is
--   any interleaving of its clients. A method takes the reading of the clock as an argument, and
--   `reserve` the receipt that it draws; a property that needs the receipt to be new says so.
-- * crates/worklane/src/worker, the worker: Worker. `Worker/Seams` has what a worker calls (the
--   broker, the stores, the observer, the breaker, the runtime), as functions on an arbitrary
--   world, and the log of those calls; `Worker/Process` and `Worker/Run` one job from its dispatch
--   to its resolution (execution.rs, middleware.rs), `Worker/Config` the builder methods, the
--   table of handlers, the idle wait and `process_next`, `Worker/Loop` the turns
--   of `run_until_idle` and `Worker/Serve` those of `run` (mod.rs, config.rs),
--   `Worker/CircuitBreaker` the breakers by kind (circuit_breaker.rs). The worker knows a broker
--   only by these calls, and so does the model. What other tasks do between two
--   calls is part of the step that the world takes in a call.
-- * crates/worklane/src/client.rs and client_builder.rs, the client: Client. `Client/State` has the
--   client and its checks, `Client/Builder` every path on which a job is enqueued and the reading of
--   results, `Client/FanIn` the submission of a fan-in, `Client/Files` the store of payloads on
--   files and the claim check over a store (claim_check.rs), `Client/Publisher` the topics that
--   stand for lanes (crates/worklane-pubsub). What the client calls is a function on an arbitrary world, and is logged.
-- * crates/worklane/src/workflow.rs, continuations and fan-ins: Workflow. `Workflow/Payload` has the
--   payload of a fan-in's watcher and its validation, `Workflow/Slots` the assembly restored from a
--   payload and written back, `Workflow/Watcher` the handler of the watcher, which asks the broker
--   and the result store and submits by the client.
-- * crates/worklane-scheduler, recurring schedules: Scheduler. `Scheduler/State` has the schedules
--   and their registration, `Scheduler/Daemon` the loop that claims what is due, by the
--   ScheduledStore of a broker.
-- * crates/worklane-sqlite, the broker on SQLite: Sqlite. `Sqlite/Session` has the tables
--   (schema.rs), and what the driver answers to a statement, which may fail (conn.rs);
--   `Sqlite/Rows` the statements that the methods share (jobs.rs, dead_letters.rs),
--   `Sqlite/Broker` the Broker and BatchEnqueue methods (lib.rs), `Sqlite/Stores` the other stores
--   (lib.rs, schedules.rs, result_store.rs), `Sqlite/Schema` the migration, `Sqlite/Calls` the calls
--   that change the database. A transaction takes the write lock at its start, so a method is one
--   atomic step. `Sqlite/Session/Rules` has the rules by which the methods are proved.
-- * The traits by which these parts meet are records in `Core/Traits`, and `Base/Logged` is the log
--   of the calls on a world.
--
-- Conventions. Times and durations are nanoseconds, with the saturation of
-- `std::time::Duration` written out; `u32` counters saturate as in the source. Texts are lists of
-- code points; a UUID is given by its canonical text. A hash map is an association list. The loop
-- of `reserve` recurs on what is left of its sweep of 128 jobs, so it needs no fuel.
-- The two loops of the redaction recur on the length of the text, and every round takes away at
-- least three characters. The heartbeat of a running handler recurs on the number of its ticks,
-- which the runtime gives, and stands before the race of the handler against its deadline.
--
-- A pass of the scheduler's loop costs one unit of fuel; as the loop only ends at a shutdown or an
-- error, no fuel is enough, and its properties hold for every fuel.
--
-- Third-party code is a parameter: the async runtime and the clock (`Runtime`), the floating-point
-- steps of the retry jitter (`FloatOps`), one circuit breaker (`Sigorta`), the payload codec, the
-- JSON of payloads, envelopes and receipts (`Json`), SQLite and its driver (the answers of a
-- `Session`; a new rowid is one more than the largest), the decision over a fan-in (`Lengkap`),
-- cron and its calendar (`Calendar`), the file system (`FileSystem`).
--
-- Not modelled: logging and tracing, the wire formats of serde, metrics, the opening of a SQLite
-- file and its pool, and the brokers over PostgreSQL and Redis, whose behaviour is in what they
-- send to those stores.
pub mod Base
pub mod Core
pub mod Memory
pub mod Worker
pub mod Scheduler
pub mod Workflow
pub mod Client
pub mod Sqlite
