-- ===== src/Lib.antt =====
-- Verification of the stateful core of this Express boilerplate: the components that keep a state
-- of their own between requests, or that read untrusted text.
--
-- The parts, and the files that model them:
--
-- CircuitBreaker.antt models src/resilience/circuit-breaker.ts, and Backoff.antt the jitter of a
-- pause, src/lib/backoff.ts. A call asks `acquire` for a permit and settles it once; settled calls
-- are counted in a ring of time buckets, which decides when the circuit trips, and a half-open
-- circuit admits a few probes. Children: Episodes (the slots of the probes), Window (the ring of
-- buckets), States (the state changes), Verdicts (what a probe decides, and the pause), Trips
-- (when a closed circuit opens).
--
-- Bulkhead.antt models src/resilience/bulkhead.ts. Slots and a bounded queue of callers, who leave
-- it by a hand-off, a timer or an abort. Children: Slots, Order.
--
-- ByteRange.antt models src/http/range.ts. The header is parsed into specs, and each is resolved
-- against the size of the representation. Children: Resolve, Header.
--
-- EventLog.antt models src/sse/event-log.ts. The ring of messages that a reconnecting client
-- resumes from by the id of the last one it saw. Children: Ring, Resume.
--
-- Idempotency.antt models src/idempotency/memory.store.ts, with the types of
-- src/idempotency/idempotency.types.ts. A claim on a scope and key, then its completion with a
-- response, or its release. Children: Key, Records, Replay.
--
-- CsvParser.antt models src/streams/csv-parser.ts, with the error of src/streams/csv.errors.ts.
-- The parser's state between chunks, and its readers. Children: Reference (one character at a
-- time), Runs, QuotedRuns, Rounds, Advance, Chunks, Printing (how rows are written), ReadBack.
--
-- TokenStore.antt models src/auth/token-store.ts, with the types of src/auth/auth.types.ts. The
-- refresh tokens that were issued, rotated and revoked. Children: Histories, Distinct, Rotation,
-- Reuse.
--
-- CacheStore.antt models src/lib/route-decorators/cache-store.ts. The cache of responses, with
-- expiry and least-recently-used eviction. Children: Bound, Writes.
--
-- WorkerPool.antt models src/workers/worker-pool.ts. The tasks wait in a bounded queue for a
-- worker, and each is answered by its worker's message, its timer, the worker's exit or a
-- shutdown; the pump runs as many rounds as the queue is long, since each takes a task from it.
-- That `createWorker` throws is not modelled. Children: Workers (the list of workers), Idle,
-- Posting, Slots (who is idle, who is busy), Histories, Accounts and Calls (calls and answers),
-- Order, Serving and Orderly (who waits, and why), Promises, Drains and Closing (the end of a
-- pool).
--
-- TokenBucket.antt models src/ws/token-bucket.ts. The tokens of a connection, refilled when an
-- operation reads the clock; they are kept exactly, in thousandths. Children: Allowance (what may
-- be spent), Waiting (what a client is told to wait).
--
-- ReplayGuard.antt models src/webhooks/replay-guard.ts. The nonces of signed webhooks that were
-- spent, each until it expires. Children: Window (a nonce until it expires), Decisions (what a
-- delivery is answered).
--
-- StreamGroup.antt and StreamMemory.antt model src/redis/stream.memory.ts, with the types of
-- src/redis/stream.types.ts: one consumer group over the entries of a stream, and the store of
-- streams and groups that calls it. An id is its text, and is compared by its halves where the
-- source does so. Children: StreamGroup.Deliveries (the order of reads), StreamGroup.Claims and
-- StreamGroup.Retention (the pending list), StreamMemory.Histories, StreamMemory.Handovers (two
-- claims), StreamMemory.Retention and StreamMemory.Redelivery (an entry after it was read),
-- StreamMemory.Ordering (the ids of a stream).
--
-- StreamEnvelope.antt models src/redis/stream.envelope.ts. The fields of an event on a stream;
-- zod, JSON and Date are a record of functions, `Libraries`, and a date that is out of range is
-- not encoded. Child: RoundTrip.
--
-- StreamWorker.antt models src/redis/stream.worker.ts, over the interface `StreamCommands` of
-- src/redis/stream.types.ts: every command changes a state `S` and may answer an error, and so do
-- the handler and the parking lot. An awaited call is an `Action`, and a chain of them a do block.
-- The state carries a trace of the entries that were handed out and of those that were handled or
-- parked. Children: Options and Bounds (what options are accepted), Ticks (one pass over the
-- stream), Loop (start, stop and the turns), Counts and Ceiling (what a tick answers, and how an
-- entry is treated), Triples (what a chain of actions keeps), Laws (what is asked of the
-- commands), Accounts, Passes and Runs (the entries handed out), Memory (the streams of
-- StreamMemory as the commands), Outstanding (their laws) and Redelivery (what may be claimed).
--
-- Transaction.antt models src/db/transaction.ts, and Transaction.Retry src/db/retry-transaction.ts
-- with the codes of src/db/locking.ts. The pool and its connections are functions on a state, the
-- callback is a script of the statements that it sends and of what it does with their rows or
-- errors, and the state carries a trace of what was sent, by the transaction or by its callback,
-- and of how it was answered. Children: Retry, Notes (what a trace holds), Commits (one
-- transaction), Attempts (all of them).
--
-- Prelude.antt passes on the library's names and those of its children: Tests (Boolean tests of
-- numbers), Lists, Strings (text and decimal numbers), Scan (split, trim) and Map (JavaScript's
-- Map with text keys, in insertion order). Each component has a child Tests with runs at concrete
-- inputs.
--
-- How state and time are written. An operation takes the state and returns the new one beside its
-- answer; a handler that throws returns the error as a value. A reading of the clock is an
-- argument of the operation that makes it, one for each call of the source, in milliseconds, and
-- nothing is assumed of the order of readings unless a theorem says so. `Math.random()` is a
-- natural number below 2 ^ 53, divided by 2 ^ 53. Thresholds and ratios are fractions, compared by
-- cross-multiplication. The `-1` that marks an unused bucket is 0, with every epoch moved up by
-- one. A promise is named by the caller that waits for it, and timers and abort signals are steps
-- of a history. Random ids are arguments.
--
-- Text is a list of UTF-16 code units, so that length and slices are the source's; numbers in
-- headers go through the decimal digits as the source reads them, with its bound on safe integers.
-- A Map is a list of entries with distinct keys, and a record that the source changes in place is
-- put in its place.
--
-- Loops. Most are structural recursions. The attempts at a transaction run on as much fuel as
-- there are attempts, since the last one always answers. The loop of the CSV parser runs on fuel,
-- two rounds for each character: a round takes a character, or only turns from the start of a
-- field to its unquoted text.
--
-- Not modelled: routing, wiring and environment; SQL, the Redis server, BullMQ, S3 and OAuth
-- calls; node:crypto; Node's StringDecoder in front of the CSV parser; log and error message
-- texts. Left out for the size of the development: the WebSocket gateway, the shutdown lifecycle,
-- pagination, entity tags and preconditions, Accept and Retry-After, jobs and dead letters, the
-- outbox, the response cache decorator, the auth service, the container, the HTTP client and the
-- hub of server-sent events.
mod Prelude
pub mod Backoff
pub mod CircuitBreaker
pub mod Bulkhead
pub mod ByteRange
pub mod EventLog
pub mod Idempotency
pub mod CsvParser
pub mod TokenStore
pub mod CacheStore
pub mod WorkerPool
pub mod TokenBucket
pub mod ReplayGuard
pub mod StreamGroup
pub mod StreamMemory
pub mod StreamEnvelope
pub mod StreamWorker
pub mod Transaction
