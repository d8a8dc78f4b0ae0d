-- ===== src/Lib.antt =====
-- gtc, a PostgreSQL change data capture gateway.
--
-- The program reads the logical replication stream of a database, decodes it to row events, and delivers
-- them in batches to sinks (Redis, NATS, webhooks, search). Its parts are chained as follows: the reader
-- (internal/adapters/primary/wal/reader.go) receives messages, the decoder (wal/decoder.go) turns them into
-- events, the stream loop batches them and a second goroutine hands each batch to the CDC service
-- (internal/core/services/cdc_service.go), which delivers it to every sink of the registry. A sink is wrapped
-- in decorators: transforms (internal/infrastructure/transform), the dead-letter queue
-- (internal/infrastructure/dlq) and retries with a circuit breaker (internal/infrastructure/resilience). A
-- batch that every sink took lets the reader confirm its position to the server.
--
-- The files, each with the code that it models:
--   Base            shared names and lemmas: Boolean tests, lists, integers, string-keyed maps (Base/Dict)
--   Domain          internal/core/domain: Errors (errors.Is, errors.As), Event, Sink, Schema; RoundTrip
--   Services        internal/core/services: Deliver (deliver), Batch (admit, ProcessBatch, handleBatch),
--                   Registry (registry.go); proofs in Deliver/Pieces, Batch/Accepted, Batch/Refused and
--                   Registry/Laws
--   Resilience      resilience/circuit_breaker.go; the run of the retries in Resilience/Retry,
--                   the breaker's refusals in Resilience/Breaker
--   Dlq             dlq/manager.go (Manager, and Triage for List, Retry, RetryAll, Discard), the interface of
--                   dlq/store.go (Store) and the bisection of dlq/sink.go (Isolation). Isolation/Total,
--                   Isolation/Account and Isolation/Exact are its termination, accounting and exact result
--   Transform       transform/transform.go (Chain) and transform/sink.go (Decorator)
--   Wal             wal/decoder.go (Decoder, with Diff and Decode) and streamLoop of wal/reader.go (Stream)
--   Backfill        adapters/primary/backfill/coordinator.go: State (also the interface of db.go), Controller (what the
--                   stream calls: ObserveEvent, HandleWatermark), Chunks (startChunk), Queue (BackfillManager, with
--                   Resume for Start and Lanes for lane) and Lane (backfillTable); proofs in their child modules
--   Sinks           adapters/secondary: the plan of a batch of meilisearch/sink.go (Meilisearch), outbox/exclude.go
--                   (Exclude) and redis/key_template.go (Keys)
--   Server          infrastructure/server: history.go (History), stats.go (Stats), health.go (Health)
--   Schema          infrastructure/schema/recorder.go (Recorder)
--   Tests           concrete runs, and an instance of each theorem
--
-- How the code is read. A sink, a store and the runtime act on a world W, which holds all that they can
-- change; a method takes the world and returns the next one with its result, so calls and their order are
-- explicit. A Go error is a tree of sentinels, messages, wrapped errors, joins and permanent errors; its text
-- is kept in its fixed part only, since the code never reads it back. A map with string keys is an
-- association list with one entry to a key, whose order is one of those that Go may range in; the registry's
-- functions that range over all sinks take the order as an argument. Times and durations are numbers.
--
-- The stream loop is a step relation on the variables of the reading goroutine, the queue between the
-- goroutines, the delivery goroutine and a history. The environment chooses the messages, the clock, the
-- chunk rows, when a delivery fails and when the loop ends, so every interleaving is a run. A reconnection
-- starts a new run. With ParallelSinks, the deliveries of a batch run one after the other in any order: sinks
-- act on destinations of their own.
--
-- The backfill coordinator is shared by the stream, its callers and the lanes, under a mutex: each locked
-- section is a function on the coordinator. The lanes with the wake channel are one step relation (Backfill/Queue/
-- Lanes), and the loop of backfillTable another (Backfill/Lane), in which the environment finds pages, delivers
-- chunks and restarts the stream. Between the locked sections of a call, other goroutines change the coordinator
-- by any function. A lane that ends with its context is not a step: the lanes then stop for good.
--
-- Bounds and fuel. The bisection recurses on the number of events in the batch, which each half lowers; the
-- pieces of deliver on the number of events; the units of a chunk on one more than its rows; the retries on
-- the configured maximum. That each of these is enough is proved with the function. Counters and LSNs are
-- natural numbers: 64 bits are not exhausted.
--
-- Parameters are code that is not of the repository: the sinks' destinations and the store's Redis, the
-- circuit breaker gobreaker, the parsers of pglogrepl, the types and codecs of pgtype, CEL programs,
-- templates of text/template, and what Meilisearch does with its tasks.
--
-- Not modelled: metrics, logs and the routes of the HTTP server (no state of the pipeline), the configuration
-- loader, the SQL of db.go, the clients of external services and the waits for their tasks, the counters of the
-- sinks in the statistics, the doctor, the gateway's wiring and the benchmark; connecting and setting up
-- replication. The chunk rows in the stream loop are arbitrary.
pub mod Base
pub mod Domain
pub mod Services
pub mod Resilience
pub mod Dlq
pub mod Transform
pub mod Backfill
pub mod Wal
pub mod Server
pub mod Sinks
pub mod Schema
pub mod Tests
