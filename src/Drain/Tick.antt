-- ===== src/Drain/Tick.antt =====
-- drain/mod.rs: `periodic_tick`, one export interval, in the production build, where a quit is never
-- deferred.
use ngx_otel_rust.Base.{
  ℕ, zero, suc, ◌+◌, ◌-◌, ◌*◌, ◌%◌, ◌^◌, Bool, true, false, not, ◌&&◌, ◌||◌, none, some, ltb, leb,
  if◌then◌else◌, min,
}
use ngx_otel_rust.DataModel.Payload.{metrics_data, logs_data, spans_data}
use ngx_otel_rust.Drain.{collect_log_records, collect_span_records}
use ngx_otel_rust.Drain.Graceful.{
  metrics_signal, logs_signal, traces_signal, Transport, DrainConfig, graceful_drain,
}
use ngx_otel_rust.Drain.Lanes.{
  World, TickState, lane_of, own_of, drain_retry_queue_once, send_fresh_batch,
}
use ngx_otel_rust.Exporter.{successor_announced, with_crashes, crash_window_secs}
use ngx_otel_rust.Policy.{fetch_add, is_deferred}
use ngx_otel_rust.Policy.Retry.{Lane}
use ngx_otel_rust.Processor.{Processor, process}

pub data ShutdownKind : Type 0 where
  no_shutdown : ShutdownKind
  exiting : ShutdownKind
  terminate : ShutdownKind

abbrev pub shutdown_poll_interval : ℕ
shutdown_poll_interval = 250

-- What stays the same while the loop runs. The clock of `drain` is read again at each collection.
pub record TickConfig : Type 0 where
  pub drain : DrainConfig
  pub interval : ℕ
  pub retry_buffer_depth : ℕ
  pub my_gen : ℕ
  pub healthy_since_ns : ℕ
  pub processor : Processor

module _ {S : Type 0} (world : World S) (transport : Transport S) (cfg : TickConfig) where
  -- A lane with its statics and the sender put back into the state.
  abbrev pub with_logs : TickState S → Lane × S → TickState S
  with_logs st (lane, sender) = record st {
    logs = own_of lane;
    statics = lane.statics;
    sender = sender;
  }

  abbrev pub with_spans : TickState S → Lane × S → TickState S
  with_spans st (lane, sender) = record st {
    spans = own_of lane;
    statics = lane.statics;
    sender = sender;
  }

  abbrev pub with_metrics : TickState S → Lane × S → TickState S
  with_metrics st (lane, sender) = record st {
    metrics = own_of lane;
    statics = lane.statics;
    sender = sender;
  }

  unfoldable pub abdicate : (st : TickState S) → TickState S
  abdicate st =
      if not st.periodic_abdicated && successor_announced (world.control st.sender) cfg.my_gen
      then record st { periodic_abdicated = true }
      else st

  unfoldable pub logs_retry : (deferred : Bool) (st : TickState S) → TickState S
  logs_retry true st = st
  logs_retry false st = with_logs st (
      drain_retry_queue_once world (transport.send logs_signal) (lane_of st.logs st.statics)
        cfg.retry_buffer_depth st.sender)

  unfoldable pub spans_retry : (deferred : Bool) (st : TickState S) → TickState S
  spans_retry true st = st
  spans_retry false st = with_spans st (
      drain_retry_queue_once world (transport.send traces_signal) (lane_of st.spans st.statics)
        cfg.retry_buffer_depth st.sender)

  unfoldable pub logs_fresh : (deferred : Bool) (st : TickState S) → TickState S
  logs_fresh deferred st =
      if not st.periodic_abdicated
        && (not deferred && (cfg.drain.any_log_export_enabled || cfg.drain.error_log_enabled))
      then elim st.logs_zone [
        | none ↦ st
        | some zone ↦
            (let (batch, drops, zone') =
                collect_log_records cfg.drain.error_log_enabled cfg.drain.head
                  (world.now_unix_nano st.sender) zone in
              let counted = record st {
                access_logs_dropped = drops.access_dropped;
                error_logs_dropped = drops.error_dropped;
                error_logs_coalesced_orphaned =
                    if ltb 0 drops.error_coalesced_orphaned
                    then fetch_add st.error_logs_coalesced_orphaned drops.error_coalesced_orphaned
                    else st.error_logs_coalesced_orphaned;
                logs_zone = some zone';
              } in
              with_logs counted (
                send_fresh_batch world transport (process cfg.processor (logs_data batch))
                  (lane_of st.logs st.statics) cfg.retry_buffer_depth st.sender))
      ]
      else st

  unfoldable pub spans_fresh : (deferred : Bool) (st : TickState S) → TickState S
  spans_fresh deferred st =
      if not st.periodic_abdicated && not deferred
      then elim st.spans_zone [
        | none ↦ st
        | some rings ↦
            (let (batch, dropped, rings') =
                collect_span_records cfg.drain.head (world.now_unix_nano st.sender) rings in
              let counted = record st {
                traces_dropped_records = dropped;
                spans_zone = some rings';
              } in
              with_spans counted (
                send_fresh_batch world transport (process cfg.processor (spans_data batch))
                  (lane_of st.spans st.statics) cfg.retry_buffer_depth st.sender))
      ]
      else st

  -- The check between two sends: the next one only without a signal.
  unfoldable pub unless_shutdown :
      (st : TickState S) (next : ShutdownKind × TickState S) → ShutdownKind × TickState S
  unless_shutdown st next =
      if world.terminate st.sender
      then (terminate, st)
      else if world.quit st.sender
      then (exiting, st)
      else next

  -- One round of the chunked sleep; `no_shutdown` goes on with the next.
  unfoldable pub sub_interval : (chunk : ℕ) (st : TickState S) → ShutdownKind × TickState S
  sub_interval chunk st =
      let slept = record st { sender = world.sleep chunk st.sender } in
      let st1 = abdicate slept in
      let now = world.now_msec st1.sender in
      let logs_deferred = is_deferred st1.logs.backoff now in
      let st2 = logs_retry logs_deferred st1 in
      let st3 = logs_fresh logs_deferred st2 in
      let spans_deferred = is_deferred st3.spans.backoff now in
      let st4 = spans_retry spans_deferred st3 in
      unless_shutdown slept (
        unless_shutdown st2
          (unless_shutdown st3 (unless_shutdown st4 (no_shutdown, spans_fresh spans_deferred st4))))

  -- The chunked sleep, with the time slept.
  unfoldable pub sleep_loop : (fuel slept : ℕ) (st : TickState S) → ShutdownKind × ℕ × TickState S
  sleep_loop zero slept st = (no_shutdown, slept, st)
  sleep_loop (suc fuel) slept st =
      let chunk = min (cfg.interval - slept) shutdown_poll_interval in
      let (kind, st') = sub_interval chunk st in
      let rest = sleep_loop fuel (slept + chunk) st' in
      if ltb slept cfg.interval
      then elim kind [
        | no_shutdown ↦ rest
        | exiting ↦ (exiting, slept + chunk, st')
        | terminate ↦ (terminate, slept + chunk, st')
      ]
      else (no_shutdown, slept, st)

  unfoldable pub heartbeat : (st : TickState S) → TickState S
  heartbeat st = elim (world.control st.sender) [
    | none ↦ st
    | some ctrl ↦ record st {
      sender = world.set_control (record ctrl { version = (ctrl.version + 1) % 2 ^ 64 }) st.sender;
    }
  ]

  unfoldable pub healthy_reset : (st : TickState S) → TickState S
  healthy_reset st =
      let elapsed_ns = world.now_unix_nano st.sender - cfg.healthy_since_ns in
      let sender' = elim (world.control st.sender) as (λ _. S) [
        | none ↦ st.sender
        | some ctrl ↦ world.set_control (with_crashes ctrl 0 0) st.sender
      ] in
      if not st.crash_counter_reset && leb (crash_window_secs * 1000000000) elapsed_ns
      then record st { crash_counter_reset = true; sender = sender' }
      else st

  unfoldable pub metrics_retry : (deferred : Bool) (st : TickState S) → TickState S
  metrics_retry deferred st =
      if cfg.drain.metrics_enabled && not deferred
      then with_metrics st (
          drain_retry_queue_once world (transport.send metrics_signal)
            (lane_of st.metrics st.statics) cfg.retry_buffer_depth st.sender)
      else st

  unfoldable pub metrics_fresh : (deferred : Bool) (st : TickState S) → TickState S
  metrics_fresh deferred st =
      if (world.quit st.sender || world.terminate st.sender)
        || not cfg.drain.metrics_enabled
        || deferred
      then st
      else with_metrics st (
          send_fresh_batch world transport
            (process cfg.processor (metrics_data (world.collect_all_sources st.sender)))
            (lane_of st.metrics st.statics) cfg.retry_buffer_depth st.sender)

  -- The part of the state that `graceful_drain` works on, and what it leaves.
  unfoldable pub drained : (st : TickState S) → TickState S
  drained st =
      let left =
        graceful_drain transport (record cfg.drain { now = world.now_unix_nano st.sender })
          (world.control st.sender) cfg.my_gen (world.collect_all_sources st.sender) cfg.processor
          (record {
            metrics = st.metrics.queue;
            logs = st.logs.queue;
            spans = st.spans.queue;
            dropped_records = st.statics.dropped_records;
            access_logs_dropped = st.access_logs_dropped;
            error_logs_dropped = st.error_logs_dropped;
            error_logs_coalesced_orphaned = st.error_logs_coalesced_orphaned;
            traces_dropped_records = st.traces_dropped_records;
            logs_zone = st.logs_zone;
            spans_zone = st.spans_zone;
            sender = st.sender;
          }) in
      record st {
        metrics = record st.metrics { queue = left.metrics };
        logs = record st.logs { queue = left.logs };
        spans = record st.spans { queue = left.spans };
        statics = record st.statics { dropped_records = left.dropped_records };
        access_logs_dropped = left.access_logs_dropped;
        error_logs_dropped = left.error_logs_dropped;
        error_logs_coalesced_orphaned = left.error_logs_coalesced_orphaned;
        traces_dropped_records = left.traces_dropped_records;
        logs_zone = left.logs_zone;
        spans_zone = left.spans_zone;
        sender = left.sender;
      }

  -- The end of the interval without a shutdown.
  unfoldable pub finish_interval : (st : TickState S) → TickState S
  finish_interval st =
      let reset = healthy_reset (heartbeat st) in
      let deferred = is_deferred reset.metrics.backoff (world.now_msec reset.sender) in
      metrics_fresh deferred (metrics_retry deferred reset)

  unfoldable pub end_interval :
      (kind : ShutdownKind) (st : TickState S) → ShutdownKind × TickState S
  end_interval terminate st = (terminate, st)
  end_interval exiting st =
      if world.terminate st.sender then (terminate, st) else (exiting, drained st)
  end_interval no_shutdown st =
      if world.terminate st.sender
      then (terminate, st)
      else if world.quit st.sender
      then (exiting, drained st)
      else (no_shutdown, finish_interval st)

  -- Each round sleeps at least a millisecond: the interval is fuel enough.
  unfoldable pub periodic_tick : (st : TickState S) → ShutdownKind × TickState S
  periodic_tick st = let (kind, slept, st') = sleep_loop cfg.interval 0 st in end_interval kind st'
