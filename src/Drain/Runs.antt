-- ===== src/Drain/Runs.antt =====
-- The collection of a batch at concrete rings.
use ngx_otel_rust.Base.{
  ℕ, zero, suc, ◌+◌, ◌*◌, ltb, false, inr, ◌⊎◌, some, ◌%◌, ◌^◌, ◌≡◌, refl, true, List, [], ◌∷◌,
  arith, replicate, length-replicate, All, any,
}
use ngx_otel_rust.DataModel.Payload.{Resource, Scope, MetricsBatch}
use ngx_otel_rust.Coalesce.{drain_coalesce_table, empty_slot}
use ngx_otel_rust.Ring.{WorkerSignalRing}
use ngx_otel_rust.Ring.Wrap.{window}
use ngx_otel_rust.Ring.Queue.{Holds, pushed, pushed-Holds}
use ngx_otel_rust.Spans.{span_bytes}
use ngx_otel_rust.Spans.Parse.{parse_span_record}
use ngx_otel_rust.Spans.Size.{span_bytes_fits}
use ngx_otel_rust.Spans.Runs.{get_index}
use ngx_otel_rust.Exporter.{ControlShm, zeroed, successor_announced}
use ngx_otel_rust.Policy.{accepted}
use ngx_otel_rust.Policy.Retry.{
  Batch, account_drops_and_clear, SendResult, delivered, deadline_exceeded,
}
use ngx_otel_rust.Processor.{noop}
use ngx_otel_rust.Drain.Lanes.{World, SignalLane, TickState}
use ngx_otel_rust.Drain.Tick.{exiting, TickConfig, sleep_loop, periodic_tick}
use ngx_otel_rust.Drain.Latch.{SameZones}
use ngx_otel_rust.Drain.Abdication.{periodic_tick-PopsNothing}
use ngx_otel_rust.Drain.Interval.{Slept, sleep_loop_ends}
use ngx_otel_rust.Drain.Graceful.{Transport, DrainConfig, DrainState, flush_queue, graceful_drain}
use ngx_otel_rust.Drain.Flush.{
  logged, Flushed, flush_queue-Flushed, zones_of, queues_of, graceful_drain_abdicates,
}
use ngx_otel_rust.Drain.{collect_span_records, ErrorWorker, drain_error_worker}
use ngx_otel_rust.Drain.Collect.{HoldAll, taken, total_dropped, collect_span_records_lem}
use ngx_otel_rust.Drain.Errors.{carries, drain_error_worker_lem}

abbrev fresh : WorkerSignalRing
fresh = record {
  write_offset = 0;
  read_offset = 0;
  dropped = 3;
  cap = 4096;
  payload = replicate 4096 0;
}

fresh-Holds : Holds fresh []
unfolding window
fresh-Holds = record {
  payload_size = length-replicate {A = ℕ} 4096 0;
  cap_pos = omega arith;
  cap_u32 = omega arith;
  offsets = refl;
  fits = omega arith;
  no_wrap = omega arith;
  stored = refl;
}

abbrev record_bytes : List ℕ
record_bytes = span_bytes get_index

abbrev one_span : WorkerSignalRing
one_span = pushed fresh record_bytes

one_span-Holds : Holds one_span (record_bytes ∷ [])
one_span-Holds =
    let fits = span_bytes_fits get_index refl refl refl in
    pushed-Holds fresh [] record_bytes fresh-Holds (omega (arith, fits)) (omega (arith, fits))

abbrev head : Resource × Scope
head = (record { attributes = [] }, record { name = []; version = [] })

held : HoldAll 0 (one_span ∷ fresh ∷ []) ((record_bytes ∷ []) ∷ [] ∷ [])
unfolding HoldAll
held = (one_span-Holds, (fresh-Holds, tt))

collect_span_records_lem_example :
    let (batch, dropped, rings') = collect_span_records head 9 (one_span ∷ fresh ∷ []) in
    (batch.spans ≡ taken (λ buf. parse_span_record buf 9) 2500 ((record_bytes ∷ []) ∷ [] ∷ []))
    × (dropped ≡ total_dropped (one_span ∷ fresh ∷ []) % 2 ^ 64)
    × HoldAll 2500 rings' ((record_bytes ∷ []) ∷ [] ∷ [])
collect_span_records_lem_example =
    collect_span_records_lem head 9 (one_span ∷ fresh ∷ []) ((record_bytes ∷ []) ∷ [] ∷ []) held

-- A template that was counted four times and whose record the ring did not take.
abbrev starved : ErrorWorker
starved = record {
  table =
      empty_slot ∷ record { key_hash = 77; severity = 4; count = 4; sample_emitted = true } ∷ [];
  ring = fresh;
}

drain_error_worker_lem_example :
    All
      (λ entry. any (carries entry.0) (drain_error_worker 5 starved).0 ≡ true)
      (drain_coalesce_table starved.table).0
drain_error_worker_lem_example = drain_error_worker_lem 5 starved

-- A sender that delivers as many batches as it has left, and then times out.
abbrev deliver : ℕ → List ℕ → SendResult × ℕ
deliver zero sent = (deadline_exceeded, zero)
deliver (suc left) sent = (delivered accepted, left)

abbrev queue : List Batch
queue = (1 ∷ [], 10) ∷ (2 ∷ [], 20) ∷ (3 ∷ [], 30) ∷ []

-- The batch whose send fails is in neither count.
second_fails : flush_queue deliver queue 5 1 ≡ ([], 35, 0)
unfolding flush_queue account_drops_and_clear
second_fails = refl

flush_queue-Flushed_example : Flushed queue 5 [] (flush_queue (logged deliver) queue 5 (1, []))
flush_queue-Flushed_example = flush_queue-Flushed deliver queue 5 1 [] (omega arith)

abbrev transport : Transport ℕ
transport = record {
  send = λ signal. deliver;
  send_pdata = λ left payload sent. deliver left sent;
  encode_pdata = λ payload. [];
}

abbrev cfg : DrainConfig
cfg = record {
  metrics_enabled = true;
  any_log_export_enabled = true;
  error_log_enabled = true;
  head = head;
  now = 9;
}

abbrev before : DrainState ℕ
before = record {
  metrics = queue;
  logs = queue;
  spans = [];
  dropped_records = 5;
  access_logs_dropped = 0;
  error_logs_dropped = 0;
  error_logs_coalesced_orphaned = 0;
  traces_dropped_records = 0;
  logs_zone = some (record { access = one_span ∷ []; errors = starved ∷ [] });
  spans_zone = some (one_span ∷ fresh ∷ []);
  sender = 1;
}

abbrev no_metrics : MetricsBatch
no_metrics = record { resource = head.0; scope = head.1; metrics = [] }

abbrev second_generation : ControlShm
second_generation = record zeroed { successor_gen = 2 }

announced : successor_announced (some second_generation) 1 ≡ true
unfolding successor_announced
announced = refl

graceful_drain_abdicates_example :
    let after = graceful_drain transport cfg (some second_generation) 1 no_metrics noop before in
    (zones_of after ≡ zones_of before) × (queues_of after ≡ ([], [], []))
graceful_drain_abdicates_example =
    graceful_drain_abdicates transport cfg (some second_generation) 1 no_metrics noop before
      announced

-- The state is the time in milliseconds; a second generation is announced, and a quit comes at 2 s.
abbrev world : World ℕ
world = record {
  sleep = λ chunk time. time + chunk;
  terminate = λ time. false;
  quit = λ time. ltb 2000 time;
  control = λ time. some second_generation;
  set_control = λ ctrl time. time;
  now_msec = λ time. time;
  now_unix_nano = λ time. time * 1000000;
  collect_all_sources = λ time. no_metrics;
}

abbrev idle_lane : SignalLane
idle_lane = record {
  queue = queue;
  backoff = record { not_before_msec = 0; consecutive_retryable = 0 };
  failures = 0;
}

abbrev ticking : TickState ℕ
ticking = record {
  metrics = idle_lane;
  logs = idle_lane;
  spans = idle_lane;
  statics = record {
    partial_rejected = 0;
    permanent_rejected = 0;
    unauthorized_rejected = 0;
    dropped_records = 0;
    unauthorized_log_last_msec = 0;
    unauthorized_lines = 0;
  };
  access_logs_dropped = 0;
  error_logs_dropped = 0;
  error_logs_coalesced_orphaned = 0;
  traces_dropped_records = 0;
  logs_zone = before.logs_zone;
  spans_zone = before.spans_zone;
  periodic_abdicated = false;
  crash_counter_reset = false;
  sender = 1;
}

abbrev tick_config : TickConfig
tick_config = record {
  drain = cfg;
  interval = 600;
  retry_buffer_depth = 4;
  my_gen = 1;
  healthy_since_ns = 0;
  processor = noop;
}

periodic_tick-PopsNothing_example :
    ((periodic_tick world transport tick_config ticking).0 ≡ exiting)
    ⊎ SameZones ticking (periodic_tick world transport tick_config ticking).1
periodic_tick-PopsNothing_example =
    periodic_tick-PopsNothing world transport tick_config ticking (inr (λ chunk. announced))

sleep_loop_ends_example :
    Slept 600 (sleep_loop world transport tick_config 700 0 ticking)
    × (sleep_loop world transport tick_config 700 0 ticking
        ≡ sleep_loop world transport tick_config 600 0 ticking)
sleep_loop_ends_example = sleep_loop_ends world transport tick_config 700 ticking (omega arith)
