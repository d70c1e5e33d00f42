-- ===== src/Lib.antt =====
-- Riftgate: the rate limiter, the backpressure policy, the routers, the stream framer, the
-- write-ahead log and the MCP brokers of the gateway.
--
-- The gateway takes a request, asks the admission policies whether to serve it, asks the router for
-- a backend, and reports each outcome back to the router. The parts modelled are pure state
-- machines behind locks and atomics; an operation here takes the state and returns it.
--
--   Base                 names passed on from the libraries, Boolean tests on numbers, list and
--                        map lemmas
--   Core/RateLimit       crates/riftgate-core/src/rate_limit.rs: TokenBucketLimiter. `attempt` is
--                        one round of the loop in `check`; `check_loop` runs it against a schedule
--                        of the words that other threads store between the load and the exchange.
--                        `pack`, `unpack`: the 64-bit word of tokens and stamp.
--   Core/Backpressure    crates/riftgate-core/src/backpressure.rs: HighWaterPolicy::on_enqueue
--   Core/Request         crates/riftgate-core/src/request.rs: the envelopes
--   Core/Router          crates/riftgate-core/src/router.rs: pools, signals, decisions; the trait
--                        `Router` is a record of a state with `route` and `on_response`
--   Core/Cancel          crates/riftgate-core/src/cancel.rs: the causes, the shared state and its trips;
--                        `Trips` interleaves the two atomic steps of any threads
--   Core/Tenant          crates/riftgate-core/src/tenant.rs: the id of a tenant by its header
--   Core/Timers          crates/riftgate-core/src/timers.rs: BinaryHeapTimers. `Live` has the live timers
--                        of a heap, `Firing` what a tick calls, `Keeping` the invariant, `Steps` and
--                        `Reference` the comparison with a plain list.
--   Filter               crates/riftgate-filter/src/chain.rs: FilterChain. `Order` tells without the
--                        loops what becomes of a message.
--   Obs/Reservoir        crates/riftgate-obs/src/token_level/reservoir.rs: VitterReservoir
--   Scheduler            crates/riftgate/src/scheduler.rs: ShardedMpmcQueue and worker_loop over a
--                        channel with the laws `IsFifo`
--   Router/Strategies    crates/riftgate-router/src/{round_robin,constant}.rs
--   Router/Circuit       crates/riftgate-router/src/circuit.rs: CircuitBreakerArbiter. `Machine`
--                        has the three-state machine that the packed breaker words implement.
--   Router/Weighted      crates/riftgate-router/src/weighted.rs: alias table, generator, decision
--   Router/KvAware       crates/riftgate-router/src/kv_aware.rs: prefix trie and router
--   Router/P2, Router/Hedged
--                        crates/riftgate-router/src/hedged.rs: the quantile estimator, and the
--                        decorator that promotes a decision to a hedge
--   Parser/Sse           crates/riftgate-parser/src/sse.rs: SseFramer, whose `feed` is the loop over
--                        `feed_byte`, with an event for each item the code emits
--   Parser/Http1         crates/riftgate-parser/src/http1.rs: Http1Parser, whose `feed` is the loop over
--                        rounds of the head and of the body
--   Replay/Frame         crates/riftgate-replay/src/frame.rs: try_parse_frames; `encode` is the
--                        header and payload that FileWal::append of file_wal.rs writes
--   Replay/Wal           crates/riftgate-replay/src/file_wal.rs: the lock sections of append, flush,
--                        shutdown and flusher_loop on the state of a shard. `Serial` has the steps
--                        of a shard whose entries are written in the order of their ids, `Crash`
--                        what the parser finds of it after a crash, `Rollover` and `Races` what
--                        happens outside these conditions.
--   Mcp/Capability       crates/riftgate-core/src/capability.rs: requests, decisions, audit events
--   Mcp/Allowlist        crates/riftgate-mcp/src/allowlist.rs: CompiledAllowlist
--   Mcp/Broker           crates/riftgate-mcp/src/{allowlist,attestation,dryrun}.rs: AllowlistBroker,
--                        `sign` and `verify`, DryRunBroker; the trait is a record. `Trail` runs a
--                        broker over any calls, `Binding` has what a signature vouches for.
--   Mcp/Audit            `write` of crates/riftgate-mcp/src/audit.rs over a log that may fail
--   Mcp/Hex              hex_encode of crates/riftgate-mcp/src/audit.rs and parse_hex_key of
--                        crates/riftgate/src/mcp.rs
--   Router/Stack         crates/riftgate/src/main.rs: the breakers over the hedging router over the
--                        KV-aware router over the weighted router
--
-- Each component has a module `Tests` with runs at concrete inputs.
--
-- Numbers are natural numbers with the wrap of their machine width written out (`% 2 ^ w`). A
-- duration and an instant are numbers of nanoseconds in the routers; the limiter's clock counts
-- milliseconds. A hash map is a function from keys with the write at one key; the children of a trie
-- node are an association list. A failed assertion of a constructor is `none`.
--
-- Bounds: `Http1.feed` runs three rounds, which are enough (`Ending`);
-- `KvAware.chunks` runs on the length of the body as fuel, which is enough because each
-- chunk takes at least one byte; `Weighted.pairing` runs on the number of entries, of which each
-- round finishes one; `Scheduler.push_loop` and
-- `steal_loop` run on the number of shards left to ask; `Scheduler.worker_loop` runs on the rounds of
-- the worker, of which one more than there are tasks is enough; `Frame.parse_loop` runs on
-- the length of the log, of which each frame takes 22 bytes; the loop of the limiter recurses on the schedule, whose entries are the
-- rounds that another thread may spoil.
--
-- Parameters: HMAC-SHA256, the text that serde_json makes of an audit record and the log that it is
-- appended to, httparse, the channel of crossbeam-channel, the compaction threshold of the timers, the
-- cancellation driver's reading, the hash xxh3_64, the pressure test on an f32, the f64 operations
-- (Floats), the clock readings, and the inner router of a decorator.
--
-- Not modelled: sockets, threads and the runtime; the files and directories of the write-ahead log, and
-- the exits of `FileWal::append` by an error of the file system; the JSON of the MCP plane; WASM filters, which are guest code; configuration, GPU
-- telemetry, the event bus and the operator, which are not done yet. Operations of the routers run one
-- at a time: the locks around each step are not modelled, and the order of the two locks of the circuit
-- breaker is not.
pub mod Base
pub mod Core
pub mod Filter
pub mod Mcp
pub mod Obs
pub mod Parser
pub mod Replay
pub mod Router
pub mod Scheduler
