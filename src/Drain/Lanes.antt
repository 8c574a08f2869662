-- ===== src/Drain/Lanes.antt =====
-- drain/mod.rs: the state of the export loop, and the sends of one lane.
use ngx_otel_rust.Base.{ℕ, Bool, true, Option, List, ◌==◌, if◌then◌else◌}
use ngx_otel_rust.DataModel.Payload.{MetricsBatch, Pdata}
use ngx_otel_rust.Drain.{LogsZone}
use ngx_otel_rust.Drain.Graceful.{Transport, count_pdata_records}
use ngx_otel_rust.Exporter.{ControlShm}
use ngx_otel_rust.Policy.{SignalBackoff, Statics}
use ngx_otel_rust.Policy.Retry.{
  Batch, Lane, SendResult, delivered, failed, deadline_exceeded, handle_fresh_send_outcome,
  bump_failures, requeue_in, drain_retry_queue_once_with_timer,
}
use ngx_otel_rust.Ring.{WorkerSignalRing}

-- The process around the loop: the timer, the flags of the signals, the control zone with what other
-- processes write there, the clocks and the collection of the metrics. It changes at the sleeps and
-- sends.
pub record World (S : Type 0) : Type 0 where
  pub sleep : ℕ → S → S
  pub terminate : S → Bool
  pub quit : S → Bool
  pub control : S → Option ControlShm
  pub set_control : ControlShm → S → S
  pub now_msec : S → ℕ
  pub now_unix_nano : S → ℕ
  pub collect_all_sources : S → MetricsBatch

-- What a signal has of its own; the counters of `Statics` are shared.
pub record SignalLane : Type 0 where
  pub queue : List Batch
  pub backoff : SignalBackoff
  pub failures : ℕ

pub record TickState (S : Type 0) : Type 0 where
  pub metrics : SignalLane
  pub logs : SignalLane
  pub spans : SignalLane
  pub statics : Statics
  pub access_logs_dropped : ℕ
  pub error_logs_dropped : ℕ
  pub error_logs_coalesced_orphaned : ℕ
  pub traces_dropped_records : ℕ
  pub logs_zone : Option LogsZone
  pub spans_zone : Option (List WorkerSignalRing)
  pub periodic_abdicated : Bool
  pub crash_counter_reset : Bool
  pub sender : S

abbrev pub lane_of : SignalLane → Statics → Lane
lane_of own statics = record {
  queue = own.queue;
  backoff = own.backoff;
  failures = own.failures;
  statics = statics;
}

abbrev pub own_of : Lane → SignalLane
own_of lane = record { queue = lane.queue; backoff = lane.backoff; failures = lane.failures }

module _ {S : Type 0} (world : World S) where
  -- The clock is read once for the pass.
  unfoldable pub drain_retry_queue_once :
      (send_batch : S → List ℕ → SendResult × S) (lane : Lane) (depth : ℕ) (sender : S) → Lane × S
  drain_retry_queue_once send_batch lane depth sender =
      let now = world.now_msec sender in
      drain_retry_queue_once_with_timer send_batch lane sender now depth true now

  -- The clock is read again after the send.
  unfoldable pub send_fresh_batch :
      (transport : Transport S) (pd : Pdata) (lane : Lane) (depth : ℕ) (sender : S) → Lane × S
  send_fresh_batch transport pd lane depth sender =
      let n_records = count_pdata_records pd in
      let bytes = transport.encode_pdata pd in
      let (result, sender') = transport.send_pdata sender pd bytes in
      let now = world.now_msec sender' in
      let queued = bump_failures (requeue_in lane (bytes, n_records) depth) in
      if n_records == 0 then (lane, sender) else elim result [
        | delivered outcome ↦ (
          (handle_fresh_send_outcome outcome lane now (bytes, n_records) depth true now).1,
          sender',
        )
        | failed e ↦ (queued, sender')
        | deadline_exceeded ↦ (queued, sender')
      ]
