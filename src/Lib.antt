-- ===== src/Lib.antt =====
-- AegisRoute: a gateway that routes completion requests to model backends, and a worker that runs
-- batch jobs over the same backends.
--
-- The parts and how they interact. A request asks the Selector (internal/routing/selector.go) for a
-- backend. It draws an order, takes a slot of the backend's semaphore and consults the Breaker
-- (internal/routing/circuit.go). The inference client (internal/inference/client.go) makes the call
-- with retries, and its outcome goes back to the Breaker. Batch jobs live in a job store
-- (internal/jobs); the worker (internal/worker/worker.go) drains the store's outbox into a queue
-- (internal/redisstore), claims items and writes their results. Retries of a POST are made safe by
-- the Coordinator (internal/idempotency) over the table of internal/db/idempotency_repo.go.
--
-- Which file models what:
--   Models, Models/Enums    internal/models: records and enums; a Uuid and a time are numbers
--   Routing/Circuit         internal/routing/circuit.go: Breaker as a map of circuits
--   Routing/Selector        internal/routing/selector.go: Selector, with Order, Slots, Choice
--   Jobs/Status, Jobs/Store internal/jobs/status.go, memstore.go and store.go: MemStore, one function
--                           per method, with the reads in Jobs/Store/Queries
--   Inference               internal/inference/client.go: New, Do (do_call), attempt, backoff
--   Queue                   internal/redisstore/memqueue.go: MemQueue, one function per method
--   Idempotency             internal/idempotency/idempotency.go: Classify and the Coordinator, over
--                           the record IdempotencyStore
--   Idempotency/Repo        internal/db/idempotency_repo.go: the statements on the table, which fill
--                           IdempotencyStore
--   Worker                  internal/worker/worker.go: processItem (run_item), callBackend,
--                           finishItem, the in-flight set, drainOutboxOnce
--   Worker/Pass             internal/worker/worker.go: handleMessage, with its pool of goroutines as
--                           pool_step on events, failJobPass, dropMissingJob, reclaimOnce
--   Api/Request             internal/api/chat.go: decodeChatRequest, parseMessages, parseStop
--   Api/Gate                internal/api/chat.go and middleware.go: the idempotency lookup, allowRate
--                           and Begin (enter), respondChat's end of the record (resolve)
--   Api/Chat                internal/api/chat.go: cache lookup, failover loop, callBackend, the ledger
--                           rows; internal/cache/cache.go: Eligible and Key
--   Api/Completions         internal/api/chat.go: chatCompletions from the raw body to the response
--   Api/Batch               internal/api/batch.go: decodeBatchCreate
--   Api/BatchJobs           internal/api/batch.go: createBatchJob (hand_off is its work), and the reads
--                           listBatchJobs, getBatchJob and listBatchJobItems
-- In each, a method is a function from the state to the new state and the answer, and one hold of a
-- mutex, or one SQL statement, is one such step. Concurrent callers are explicit lists of steps in any
-- order. Files below a component are named for what they prove; Scenarios hold runs on concrete input.
--
-- Bounds and fuel. The draws of weightedShuffle have the pool's length as fuel, one draw for each
-- removal; the grouping by priority has the list's length, since each tier takes an entry; the
-- decimal text of a number has the number itself. The loop of processItem has fuel, and a theorem
-- says how much is enough; so have those of the failover loop of the chat handler. A pass of the
-- worker is run on a list of events, and a theorem bounds the moves among them. The shift of
-- backoff wraps at 64 bits; other ints are far from their bounds.
--
-- Parameters: the draws of math/rand, clock readings, new uuids, the answers of net/http, the
-- context, encoding/json, strings.EqualFold, SHA-256, Redis and the jsonb type; the fate of each
-- call on Postgres and Redis that the worker makes, of the creation of a batch with the mark of its
-- outbox row, and of the statements on idempotency records is an argument (it works, fails, or
-- takes effect and loses its answer; Base/Fate); publishing to the in-memory queue fails as that
-- queue is told to. What is relied on of them stands as a named hypothesis. The order in which Go
-- iterates a map is open; the models take the order of insertion.
--
-- Not modelled: the admin and model handlers, authentication, the commands to Redis (the queue's
-- stream, the cache's expiry and the limiter's script), the other repositories, configuration,
-- metrics and the programs under cmd, which only compose the parts; of the worker the endless loops
-- Run, consumeLoop and tick, and of the chat handler a panic of the inference client and the
-- goroutines that write the ledger.
pub mod Api
pub mod Base
pub mod Models
pub mod Routing
pub mod Jobs
pub mod Inference
pub mod Queue
pub mod Idempotency
pub mod Worker
