-- ===== src/Lib.antt =====
-- LogMorph: a framework that ingests logs over HTTP, buffers them in Redis streams, and has workers
-- archive, detect, parse, normalize and validate them.
--
-- The parts, and where they are modelled:
--   Common           Go's errors, `strings`, maps, int64, `strconv.Atoi` and `ParseInt`, the
--                    reader of `encoding/csv`, `encoding/json` in Common/Json, matchers, and what all files share
--   Models           internal/models/event.go; the JSON of a raw event in Models/Encoding
--   Context          `context.Context` as a number of polls until it is cancelled
--   Ingestion        internal/ingestion: service.go; handler.go in Ingestion/Handler, Ingestion/Routes
--                    and, for the bodies of requests, Ingestion/Bodies
--   Buffer           internal/buffer/redis.go: the interface of the stream buffer, and its
--                    implementation in Buffer/Redis
--   Idempotency      internal/buffer/idempotency.go: both stores; the contract that the worker
--                    relies on in Idempotency/Lawful, Redis in Idempotency/Redis
--   Storage          internal/storage/raw/store.go, over an explicit heap; its clients in
--                    Storage/Clients; minio.go in Storage/Minio
--   Detection        internal/detection: the interfaces; detector.go in Detection/Detect, its regular
--                    expressions in Detection/Patterns, and drift.go in Detection/Drift
--   Parsing          internal/parsing: parser.go, registry.go and engine.go; parsers/json.go in
--                    Parsing/Json, parsers/csv.go in Parsing/Csv, parsers/syslog.go in
--                    Parsing/Syslog
--   Normalization    internal/normalization/normalizer.go
--   Validation       internal/validation/validator.go; universal_event.schema.json in
--                    Validation/Schema, the JSON of a universal event in Validation/Document
--   Worker           internal/worker/worker.go: `NewWorker`; `ProcessSingleEvent` in
--                    Worker/Pipeline, `processSingleMessageIdempotent` in Worker/Message, its
--                    interleavings in Worker/Concurrent, the goroutine pool of
--                    `processMessages` in Worker/Pool, and `Start` in Worker/Loop
--   Commands         cmd: what both programs share; cmd/worker/main.go in Commands/Worker,
--                    cmd/ingestion/main.go in Commands/Ingestion, and what holds of the two
--                    programs together in the other files
--   Tests            runs on concrete inputs
--
-- How they interact. The ingestion service publishes raw events to a `RawBuffer`. A worker is given
-- a buffer, an idempotency store, a raw store, a detector, a drift detector, a parser engine, a
-- normalizer and a validator; each is a record of functions, over a state where it has one, and the
-- implementations in the repository are values of those records. Names are the source's in snake
-- case. A method that changes state returns the new state beside its result; an `error` is an
-- `Error`, and `(T, error)` a `Result`.
--
-- What is from outside. The clock is a sequence of readings and the uuids a sequence of texts. A
-- context is cancelled after some number of polls. Redis, MinIO, the JSON Schema library with the
-- text of a universal event that it reads, and the conversion of a JSON number to an `int` are
-- parameters; the laws that are assumed of Redis
-- (`IsRedis`, `IsStreams`, `IsLog`) are those of its documented commands while no key expires and no stream
-- is trimmed, and those of MinIO (`IsObjectStore`) that an object is what was put last. The case
-- tables of Unicode above ASCII are a parameter. `encoding/json` is modelled for the texts that the
-- program reads and for a raw event, and a universal event by its value; one error stands for all of
-- its errors.
--
-- Concurrency. A goroutine that handles a message is a sequence of atomic calls of the idempotency
-- store, with the acknowledgement at its end. `Worker/Concurrent` runs any list of moves of any
-- goroutines; `Worker/Pool` is the semaphore and the wait group as a step relation, in which the
-- context may be cancelled at any time. The loop of `Start` takes the concurrent branch of
-- `processMessages` as a parameter, which answers `none` for a call that never returns, as one can
-- when the context is cancelled; `Start` and the worker's `main` then answer `none` as well.
--
-- Fuel. The loop of `Start` runs a number of rounds; a context that is cancelled after n polls ends
-- it within n + 1. In `returns_within` the steps that are left bound the run. `decimal n` runs n + 1
-- rounds, which is more than the number has digits. `worker_main` is given a number of pings, of which
-- one is to be answered, and a number of rounds of `Start`.
--
-- Not modelled: log lines, HTTP headers, the expiry of Redis keys, timeouts, and the shutdown of the
-- HTTP server.
pub mod Common
pub mod Models
pub mod Context
pub mod Normalization
pub mod Parsing
pub mod Storage
pub mod Buffer
pub mod Idempotency
pub mod Detection
pub mod Validation
pub mod Worker
pub mod Ingestion
mod Tests
pub mod Commands
