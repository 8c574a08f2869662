-- ===== src/Drain.antt =====
-- drain/mod.rs: collecting a batch of each signal from the workers' rings.
pub mod Collect
pub mod Errors
pub mod Graceful
pub mod Flush
pub mod Lanes
pub mod Tick
pub mod Latch
pub mod Abdication
pub mod Interval
mod Runs
use ngx_otel_rust.Base.{
  ℕ, zero, suc, ◌+◌, ◌%◌, ◌^◌, Bool, true, false, not, ◌&&◌, Option, none, some, List, [], ◌∷◌,
  ◌++◌, ltb, ◌==◌, if◌then◌else◌, bytes_eq, is_empty,
}
use ngx_otel_rust.Base.Text.{codes}
use ngx_otel_rust.Coalesce.{CoalesceSlot, drain_coalesce_table}
use ngx_otel_rust.DataModel.{AnyValue, KeyValue, LogRecord, Span, string, int}
use ngx_otel_rust.DataModel.Payload.{
  Resource, Scope, LogsBatch, SpansBatch, MetricsBatch, Metric, MetricData, histogram,
  exponential_histogram, sum, gauge, Pdata, metrics_data, logs_data, spans_data,
}
use ngx_otel_rust.Logs.{
  parse_access_record, parse_error_record_consuming, nginx_to_otel, error_attributes, attr,
}
use ngx_otel_rust.Ring.{WorkerSignalRing, pop_into, drop_count}
use ngx_otel_rust.Spans.Parse.{parse_span_record}

abbrev pub max_access_records_per_worker_per_drain : ℕ
max_access_records_per_worker_per_drain = 2500

abbrev pub max_error_records_per_worker_per_drain : ℕ
max_error_records_per_worker_per_drain = 50000

abbrev pub max_span_records_per_worker_per_drain : ℕ
max_span_records_per_worker_per_drain = 2500

abbrev pub keep {ℓ} : {A : Type ℓ} → Option A → List A → List A
keep none xs = xs
keep (some a) xs = a ∷ xs

-- Pops at most `limit` records and parses each; stops when the ring has none.
unfoldable pub drain_ring {ℓ} :
    {A : Type ℓ} (parse : List ℕ → Option A) (limit : ℕ) (ring : WorkerSignalRing)
    → List A × WorkerSignalRing
drain_ring parse zero ring = ([], ring)
drain_ring parse (suc limit) ring =
    let (popped, record_buf, ring') = pop_into ring [] in
    elim popped [
      | true ↦
          (let (rest, ring'') = drain_ring parse limit ring' in
            (keep (parse record_buf) rest, ring''))
      | false ↦ ([], ring')
    ]

-- All workers' rings in order: the records, the drop counts and the rings.
unfoldable pub drain_rings {ℓ} :
    {A : Type ℓ} (parse : List ℕ → Option A) (limit : ℕ) (rings : List WorkerSignalRing)
    → List A × ℕ × List WorkerSignalRing
drain_rings parse limit [] = ([], 0, [])
drain_rings parse limit (ring ∷ rings) =
    let (mine, ring') = drain_ring parse limit ring in
    let (others, dropped, rings') = drain_rings parse limit rings in
    (mine ++ others, (drop_count ring + dropped) % 2 ^ 64, ring' ∷ rings')

-- `counts_vec.iter().map(..).collect()` into a hash map: a later entry replaces an earlier one.
unfoldable pub counts_map_of : (counts_vec : List (ℕ × ℕ × ℕ)) (hash : ℕ) → Option ℕ
counts_map_of [] hash = none
counts_map_of (entry ∷ counts_vec) hash =
    let later = counts_map_of counts_vec hash in
    elim later [ some count ↦ some count | none ↦ if entry.0 == hash then some entry.2 else none ]

-- `HashSet::contains`.
unfoldable pub contains : (hashes : List ℕ) (hash : ℕ) → Bool
contains [] hash = false
contains (h ∷ hashes) hash = let rest = contains hashes hash in if h == hash then true else rest

-- The records of an error ring, the templates that they consume, and the ring.
unfoldable pub drain_error_ring :
    (now : ℕ) (counts_map : ℕ → Option ℕ) (limit : ℕ) (ring : WorkerSignalRing)
    → List LogRecord × List ℕ × WorkerSignalRing
drain_error_ring now counts_map zero ring = ([], [], ring)
drain_error_ring now counts_map (suc limit) ring =
    let (popped, record_buf, ring') = pop_into ring [] in
    elim popped [
      | true ↦
          (let (parsed, consumed) = parse_error_record_consuming record_buf now counts_map in
            let (rest, hashes, ring'') = drain_error_ring now counts_map limit ring' in
            (keep parsed rest, keep consumed hashes, ring''))
      | false ↦ ([], [], ring')
    ]

-- The dash is the three bytes in the middle.
abbrev pub orphan_body : List ℕ
orphan_body =
    codes "(ring-full: verbatim sample dropped "
    ++ (0xe2 ∷ 0x80 ∷ 0x94 ∷ codes " occurrence count preserved)")

unfoldable pub orphan_record : (now hash severity count : ℕ) → LogRecord
orphan_record now hash severity count = record {
  time_unix_nano = now;
  observed_time_unix_nano = now;
  severity_number = (nginx_to_otel severity).0;
  severity_text = (nginx_to_otel severity).1;
  body = string orphan_body;
  attributes =
      attr (codes "nginx.error.template_hash") (int hash)
      ++ attr (codes "nginx.error.coalesced_count") (int count);
  event_name = codes "nginx.error";
  trace_id = [];
  span_id = [];
}

-- A record for each counted template that no ring record consumed, and their occurrences.
unfoldable pub orphans :
    (now : ℕ) (consumed : List ℕ) (counts_vec : List (ℕ × ℕ × ℕ)) → List LogRecord × ℕ
orphans now consumed [] = ([], 0)
orphans now consumed ((hash, severity, count) ∷ counts_vec) =
    let (rest, total) = orphans now consumed counts_vec in
    if ltb 0 count && not (contains consumed hash)
    then (orphan_record now hash severity count ∷ rest, (count + total) % 2 ^ 64)
    else (rest, total)

-- What a worker has in the logs zone for the error lines.
pub record ErrorWorker : Type 0 where
  pub table : List CoalesceSlot
  pub ring : WorkerSignalRing

-- The records of one worker, its orphaned occurrences, and what it has afterwards.
unfoldable pub drain_error_worker : (now : ℕ) (w : ErrorWorker) → List LogRecord × ℕ × ErrorWorker
drain_error_worker now w =
    let (counts_vec, table) = drain_coalesce_table w.table in
    let (parsed, consumed, ring) =
      drain_error_ring now (counts_map_of counts_vec) max_error_records_per_worker_per_drain
        w.ring in
    let (orphaned, total) = orphans now consumed counts_vec in
    (parsed ++ orphaned, total, record { table = table; ring = ring })

unfoldable pub drain_error_workers :
    (now : ℕ) (workers : List ErrorWorker) → List LogRecord × ℕ × ℕ × List ErrorWorker
drain_error_workers now [] = ([], 0, 0, [])
drain_error_workers now (w ∷ workers) =
    let (mine, orphaned, w') = drain_error_worker now w in
    let (others, dropped, total, workers') = drain_error_workers now workers in
    (
      mine ++ others,
      (drop_count w.ring + dropped) % 2 ^ 64,
      (orphaned + total) % 2 ^ 64,
      w' ∷ workers',
    )

pub record LogsDropCounts : Type 0 where
  pub access_dropped : ℕ
  pub error_dropped : ℕ
  pub error_coalesced_orphaned : ℕ

-- The logs zone: the access rings and the error part of each worker.
pub record LogsZone : Type 0 where
  pub access : List WorkerSignalRing
  pub errors : List ErrorWorker

-- `head` is the resource and the scope of every batch of this exporter.
unfoldable pub collect_log_records :
    (error_log_enabled : Bool) (head : Resource × Scope) (now : ℕ) (zone : LogsZone)
    → LogsBatch × LogsDropCounts × LogsZone
collect_log_records error_log_enabled head now zone =
    let (logs, access_dropped, access) =
      drain_rings (λ buf. parse_access_record buf now) max_access_records_per_worker_per_drain
        zone.access in
    elim error_log_enabled [
      | true ↦
          (let (lines, error_dropped, orphaned, errors) = drain_error_workers now zone.errors in
            (
              record { resource = head.0; scope = head.1; logs = logs ++ lines },
              record {
                access_dropped = access_dropped;
                error_dropped = error_dropped;
                error_coalesced_orphaned = orphaned;
              },
              record { access = access; errors = errors },
            ))
      | false ↦ (
        record { resource = head.0; scope = head.1; logs = logs },
        record { access_dropped = access_dropped; error_dropped = 0; error_coalesced_orphaned = 0 },
        record { access = access; errors = zone.errors },
      )
    ]

unfoldable pub collect_span_records :
    (head : Resource × Scope) (now : ℕ) (rings : List WorkerSignalRing)
    → SpansBatch × ℕ × List WorkerSignalRing
collect_span_records head now rings =
    let (spans, dropped, rings') =
      drain_rings (λ buf. parse_span_record buf now) max_span_records_per_worker_per_drain rings in
    (record { resource = head.0; scope = head.1; spans = spans }, dropped, rings')
