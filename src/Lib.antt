-- ===== src/Lib.antt =====
-- Fornix, a control plane for AI work on repositories: a model of its core and what holds of it.
--
-- The program keeps its state in Postgres. Every change of a task appends a control event of its
-- workspace, in one transaction with the rows. Workers claim tasks under fenced task leases; other
-- workers hold consumer leases with fencing tokens, read the control events of a workspace in
-- batches and fold them into derived views behind a checkpoint. Work is admitted by a policy, which
-- decides the validators, the budget and the approval mode. Sources are cut into chunks, and
-- retrieved items are compiled into a context pack under a budget.
--
-- The files, and the code they model:
--   Base        shared tests, results, lists, trimmed texts, integers, keyed tables and sorting.
--   Lease       internal/store/leases.go and internal/contracts/leases.go: acquire, validate, renew
--               and release, each a transaction on the table `fornix.consumer_leases`. Lease.Branches
--               and Lease.Fence are about one acquisition, Lease.Holder about renewal and release,
--               Lease.History about any sequence of operations.
--   Event       internal/contracts/events.go and `EventStore.AppendTx` of internal/store/events.go:
--               Event.Normalize is `EventEnvelope.Normalize` and what it calls, Event.Append the
--               insertion with its idempotency records, Event.Append.History and
--               Event.Append.Retry are about the history and about requests that come again.
--   Tasks       internal/store/tasks.go and internal/contracts/tasks.go: Tasks.Rules the pure
--               rules, Tasks.Rows the statements on `fornix.tasks`, the task leases and the
--               sessions with the authorization of a worker, Tasks.Events `newTaskEvent`,
--               Tasks.Idempotency the records, Tasks.Create, Tasks.Claim and Tasks.Outcomes the
--               operations. Tasks.Machine is the state machine that the store promises,
--               Tasks.Refinement relates the operations to it, Tasks.Fencing is about fences and
--               Tasks.Padding about keys with blanks. The store appends through Event and takes the
--               time of a lease's end from Lease.
--   Policy      internal/policy/resolver.go and the normalizations it calls in
--               internal/contracts/policy.go and internal/contracts/validation.go. Policy.Budget,
--               Policy.Approval and Policy.Resolve hold the parts, Policy.Normalize the `Normalize`
--               methods, Policy.Admission `Resolve` as a whole.
--   Projection  internal/projection: Projection.Task is `TaskProjection.Apply` on the table
--               `fornix.task_state_projections`; Projection.Runner is `runBatchWithLease` with the
--               checkpoints and reads of internal/store/events.go, and Projection.Rebuild is
--               `Rebuild`. The runner uses the leases and reads the events of Event.
--   Retrieval   internal/retrieval/compiler.go: Retrieval.Prefix is `boundedPrefix`,
--               Retrieval.Compile is `Compile`.
--   Ingest      internal/ingest/chunker.go.
-- A `Tests` module beside them runs the definitions on concrete inputs.
--
-- How the code is carried over: a table with a key of two texts is a function into options; a
-- transaction is a function from the store to a result with the new store, and an error hands back
-- no store, as a rollback does. `clock k` is what the k-th statement of a transaction reads from
-- the database's clock. Texts are valid UTF-8. Numbers are unbounded where the code's checks or the
-- column types keep them below their limits, and wrap where the code multiplies an `int64`
-- (Policy.Budget) and where it adds for the capacity of the windows (Ingest.Chunk). A pointer that the callers never leave nil is not one here.
--
-- Loops are recursion on their lists, or on a number of rounds that the code has itself: 100 in
-- `ClaimNext`, the attempts in `retryDelay`. Those on fuel are `Retrieval.Prefix.search`, whose range
-- shrinks in each round and begins at the number of runes, its fuel; `Ingest.Chunk.windows`, whose
-- start grows by at least one in each round, with the number of runes as its fuel; and the loop of
-- `Projection.Rebuild`, for which one more than the number of events is enough.
--
-- `ClaimNext` commits the dead letters that it made also where it finds no task, so its result
-- stands beside the database that it leaves. `SKIP LOCKED` is a predicate of each round. Statements
-- that wait for a locked row are transactions in the order of their commits; the sequence of an
-- event and the identifier of a task are what the database's sequences give, a parameter of the call.
--
-- Parameters stand for what the sources only call: the JSON parser and encoder, SHA-256, the UTF-8
-- decoder, the comparisons of floating-point scores, the registry of validators, and the evidence
-- store's `PutTx`.
--
-- Not modelled: the HTTP server, the commands, the other stores (artifacts, evidence, agent runs, tool
-- runs, repository changes, validations), the scheduler, the agent loop, the model gateway, the change
-- planner, evaluation and the local runtime; in the parts above, the listing of tasks, the reading of
-- columns into records, the reaping of sessions, the hashes of a whole view, events whose
-- transactions commit in another order than their sequences, and connection failures.
pub mod Base
pub mod Event
pub mod Ingest
pub mod Lease
pub mod Policy
pub mod Projection
pub mod Retrieval
pub mod Tasks
