-- ===== src/Lib.antt =====
-- Verification of ngx-otel-rust, the nginx module that exports metrics, logs and traces.
--
-- The workers write binary records into rings in shared memory. One exporter process pops them,
-- parses them into the data model, encodes batches and sends them to a collector over HTTP or gRPC.
-- What the collector answers becomes a verdict, on which the policy releases a batch, puts it back
-- into a bounded queue with a delay, or drops it. A control zone tells the generations of the
-- exporter apart and stops it when it crashes in a loop.
--
-- Which file models which part (paths from the repository's root):
--   Ring: src/logs/ring.rs, `WorkerSignalRing` with `push` and `pop_into`. The zone is its offsets,
--     its capacity and the list of its payload bytes; `write_wrap` and `read_wrap` copy round the
--     end. Ring/Wrap has the lemmas on the wrapped bytes, Ring/Queue and Ring/Pop the abstract queue of
--     records, Ring/Trace the sequences of calls. Ring/Spsc is both calls at once: a step relation of
--     a producer and a consumer at their loads and stores, with the payload written byte by byte;
--     Ring/Spsc/Invariant holds between the steps, Ring/Spsc/Alone compares with the calls.
--   Wire: the write macros and the reads at `pos` that the records of src/traces/mod.rs and
--     src/logs/access.rs share. A cursor is the list of the bytes that are left.
--   Spans: src/traces/mod.rs, `emit_span_record`; Spans/Parse `parse_span_record`. Both are cut into
--     the stages of their source: header, request, network, texts, extra attributes.
--     Spans/Sent is the span that a worker's record stands for.
--   Logs: `emit_access_record` of src/logs/access.rs, `push_error_record` of
--     src/logs/error_writer.rs, their parsers in src/drain/mod.rs, and src/logs/severity.rs.
--   Writer: the log writer of src/logs/error_writer.rs. `OtelErrorWriterState` keeps what its pointers
--     point at, `none` for null; a chain is the list of its nodes with their addresses. Writer/Rates
--     is about sequences of lines, Writer/Chain about insertion and cleanup.
--   Drain: the collection of logs and spans of src/drain/mod.rs, from the list of the workers' rings
--     and tables; Drain/Collect and Drain/Errors have its theorems. Drain/Graceful is
--     `graceful_drain` of src/drain/graceful.rs, cut into the stages of its source, and Drain/Flush
--     what it leaves and sends.
--     Drain/Lanes and Drain/Tick are `periodic_tick` of src/drain/mod.rs in the production build, with
--     the process around it as a parameter, `World`, that changes at the sleeps and sends;
--     Drain/Latch and Drain/Abdication are about its rings, Drain/Interval about its sleep.
--   Processor: src/processor/mod.rs. Ids: the identifiers of src/traces/ctx.rs. Config: the numbers,
--     durations and sizes of src/config/parse.rs; Config/Tls `validate_endpoint_tls` of
--     src/config/mod.rs, and Config/Tls/Accepted what the transport does with an accepted endpoint.
--   Traceparent: the parser of src/logs/access.rs and the builder of src/metric_source/span_start.rs.
--   Coalesce: src/logs/coalesce.rs; Coalesce/Core has the bounds of the stable core, Coalesce/Probe
--     the table.
--   Policy: src/drain/backoff.rs and the verdicts of src/transport/mod.rs; Policy/Retry the retry
--     queue of src/drain/graceful.rs and the retry pass of src/drain/mod.rs. The statics are the
--     record `Statics`, one lane's queue, backoff and failures the record `Lane`.
--   Http: the verdicts of src/transport/hyper_http.rs; Http/Date its date parser and Http/Civil its
--     count of days; Http/Endpoint the parser of the endpoint and the signal paths, Http/Url the way
--     back from a URL. Grpc: src/transport/grpc/status_adapter.rs.
--   Exporter: src/exporter/control_shm.rs, the crash window and `crash_backoff_ms` of
--     src/exporter/mod.rs, src/liveness.rs and `successor_announced` of src/drain/graceful.rs.
--   Shm: the closed dimensions and `combo_index` of src/shm/mod.rs; Shm/Exemplar its exemplar
--     reservoirs and Shm/Zones the layout of its zones, with addresses as numbers. Shm/Histogram:
--     src/shm/histogram.rs, each histogram the record of its counters.
--   Directives: the handlers of src/config/directives.rs on the configuration of src/config/mod.rs;
--     Directives/Block the block `otel_exporter` with its command table, Directives/Main the http
--     block, Directives/Location a location and its merge (src/metric_source/location_conf.rs). A
--     handler returns the changed configuration or its error; Directives/Configure runs a list of
--     directives as nginx does.
--   Source: the sums over upstream attempts and the span name of src/metric_source/instrumented.rs;
--     Source/Aggregate its sums over the workers' slots, Source/Metrics the metrics of a collection.
--     Source/Merge is about the sums, Source/Series about the points of the request duration.
--   DataModel: src/data_model/mod.rs; DataModel/Fields the attributes of a list of fields.
--   Decimal, Base: decimal digits, and the shared names, lemmas and byte functions.
--
-- Conventions. Numbers are natural numbers with the wrap of their width written out. A string is the
-- list of its bytes, an `i64` attribute its 64-bit pattern, a `Duration` its nanoseconds, a double
-- its millionths. Records
-- of the wire are lists of bytes, big endian. Log lines are not modelled, but for the counted
-- credentials line and the alert.
--
-- Parameters: the sender of a batch with any state, the protobuf decoders of the HTTP and gRPC
-- responses, the clocks, the random generator and its seeding, the accessors of a JSON value, the
-- encoder, the collection of the metrics in the drain, the test of a header by hyper, the compilation of
-- a complex value, nginx's parser of a block, and the sizes of nginx's slab header and of `WorkerSlots`, and
-- the test whether a TLS file exists. Trimming a header knows the white space of ASCII.
--
-- Bounds and fuel. The scans of Coalesce take the length of the line as fuel: each round moves one
-- byte ahead and the scan starts at or behind byte 0, so the loop's own test ends it first. The chunked sleep of an
-- interval takes its milliseconds as fuel: each round sleeps at least one. The probe
-- takes 256 rounds, the size of the table, which is the guard of the source. The other loops are
-- recursion on their lists. A drain pops
-- at most 2,500 (error lines 50,000) records of a ring, the caps of the source, and an identifier has
-- three attempts. The theorems on the ring hold while its offsets are below 2^64.
--
-- Not modelled: orderings of the atomics weaker than sequential consistency (the ring's two sides are
-- interleaved, every other call runs alone), the setup of the export loop and the timers, the encoder into
-- generated protobuf types, sockets and TLS, the allocation of the zones, the request handlers and
-- the rest of the metric sources, which read nginx structures, and the certificate table.
pub mod Base
pub mod Coalesce
pub mod Config
pub mod DataModel
pub mod Decimal
pub mod Directives
pub mod Drain
pub mod Exporter
pub mod Grpc
pub mod Http
pub mod Ids
pub mod Logs
pub mod Policy
pub mod Processor
pub mod Ring
pub mod Shm
pub mod Source
pub mod Spans
pub mod Traceparent
pub mod Wire
pub mod Writer
