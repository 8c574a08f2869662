-- ===== src/Drain/Graceful.antt =====
-- drain/graceful.rs: the drain on shutdown or reload. Each send, with its deadline, is a parameter, as are
-- the encoder and the collection of the metrics.
use ngx_otel_rust.Base.{
  ℕ, ◌+◌, Bool, not, ◌&&◌, ◌||◌, Option, none, some, List, [], ◌∷◌, ◌==◌, ltb, if◌then◌else◌,
  length,
}
use ngx_otel_rust.DataModel.Payload.{
  Resource, Scope, MetricsBatch, Metric, MetricData, histogram, exponential_histogram, gauge, Pdata,
  metrics_data, logs_data, spans_data,
}
use ngx_otel_rust.Drain.{LogsZone, collect_log_records, collect_span_records}
use ngx_otel_rust.Exporter.{ControlShm, successor_announced}
use ngx_otel_rust.Policy.{fetch_add}
use ngx_otel_rust.Policy.Retry.{
  Batch, account_drops_and_clear, SendResult, delivered, failed, deadline_exceeded,
}
use ngx_otel_rust.Processor.{Processor, process}
use ngx_otel_rust.Ring.{WorkerSignalRing}

unfoldable pub data_points_of : (metric_data : MetricData) → ℕ
data_points_of (histogram h) = length h.data_points
data_points_of (exponential_histogram h) = length h.data_points
data_points_of (MetricData.sum s) = length s.data_points
data_points_of (gauge g) = length g.data_points

unfoldable pub count_data_points : (metrics : List Metric) → ℕ
count_data_points [] = 0
count_data_points (m ∷ metrics) = data_points_of m.data_of + count_data_points metrics

unfoldable pub count_pdata_records : (payload : Pdata) → ℕ
count_pdata_records (metrics_data b) = count_data_points b.metrics
count_pdata_records (logs_data b) = length b.logs
count_pdata_records (spans_data b) = length b.spans

pub data Signal : Type 0 where
  metrics_signal logs_signal traces_signal : Signal

-- `send`, `send_logs` and `send_traces` by signal, each with its deadline, and `send_pdata`.
pub record Transport (S : Type 0) : Type 0 where
  pub send : Signal → S → List ℕ → SendResult × S
  pub send_pdata : S → Pdata → List ℕ → SendResult × S
  pub encode_pdata : Pdata → List ℕ

pub record DrainConfig : Type 0 where
  pub metrics_enabled : Bool
  pub any_log_export_enabled : Bool
  pub error_log_enabled : Bool
  pub head : Resource × Scope
  pub now : ℕ

-- The queues, the self metrics, the mapped zones and the sender.
pub record DrainState (S : Type 0) : Type 0 where
  pub metrics : List Batch
  pub logs : List Batch
  pub spans : List Batch
  pub dropped_records : ℕ
  pub access_logs_dropped : ℕ
  pub error_logs_dropped : ℕ
  pub error_logs_coalesced_orphaned : ℕ
  pub traces_dropped_records : ℕ
  pub logs_zone : Option LogsZone
  pub spans_zone : Option (List WorkerSignalRing)
  pub sender : S

module _ {S : Type 0} where
  -- One bounded attempt for each batch; a failure credits the batches behind it and clears the queue.
  unfoldable pub flush_queue :
      (send : S → List ℕ → SendResult × S) (queue : List Batch) (dropped_records : ℕ) (sender : S)
      → List Batch × ℕ × S
  flush_queue send [] dropped_records sender = ([], dropped_records, sender)
  flush_queue send ((bytes, n) ∷ queue) dropped_records sender =
      let (result, sender') = send sender bytes in
      let (queue', dropped') = account_drops_and_clear queue dropped_records in
      elim result [
        | delivered outcome ↦ flush_queue send queue dropped_records sender'
        | failed e ↦ (queue', dropped', sender')
        | deadline_exceeded ↦ (queue', dropped', sender')
      ]

  -- Process, and send what is left if it has records.
  unfoldable pub send_final :
      (transport : Transport S) (processor : Processor) (payload : Pdata) (sender : S) → S
  send_final transport processor payload sender =
      let final_pd = process processor payload in
      if count_pdata_records final_pd == 0
      then sender
      else (transport.send_pdata sender final_pd (transport.encode_pdata final_pd)).1

  unfoldable pub drain_metrics :
      (transport : Transport S) (cfg : DrainConfig) (collected : MetricsBatch)
      (processor : Processor) (st : DrainState S)
      → DrainState S
  drain_metrics transport cfg collected processor st =
      if cfg.metrics_enabled
      then (let (queue, dropped, sender) =
            flush_queue (transport.send metrics_signal) st.metrics st.dropped_records st.sender in
          record st {
            metrics = queue;
            dropped_records = dropped;
            sender = send_final transport processor (metrics_data collected) sender;
          })
      else st

  unfoldable pub drain_logs_queue : (transport : Transport S) (st : DrainState S) → DrainState S
  drain_logs_queue transport st =
      let (queue, dropped, sender) =
        flush_queue (transport.send logs_signal) st.logs st.dropped_records st.sender in
      record st { logs = queue; dropped_records = dropped; sender = sender }

  unfoldable pub drain_logs_zone :
      (transport : Transport S) (cfg : DrainConfig) (has_successor : Bool) (processor : Processor)
      (st : DrainState S)
      → DrainState S
  drain_logs_zone transport cfg has_successor processor st =
      if not has_successor && (cfg.any_log_export_enabled || cfg.error_log_enabled)
      then elim st.logs_zone [
        | none ↦ st
        | some zone ↦
            (let (batch, drops, zone') =
                collect_log_records cfg.error_log_enabled cfg.head cfg.now zone in
              record st {
                access_logs_dropped = drops.access_dropped;
                error_logs_dropped = drops.error_dropped;
                error_logs_coalesced_orphaned =
                    if ltb 0 drops.error_coalesced_orphaned
                    then fetch_add st.error_logs_coalesced_orphaned drops.error_coalesced_orphaned
                    else st.error_logs_coalesced_orphaned;
                logs_zone = some zone';
                sender = send_final transport processor (logs_data batch) st.sender;
              })
      ]
      else st

  unfoldable pub drain_spans_queue : (transport : Transport S) (st : DrainState S) → DrainState S
  drain_spans_queue transport st =
      let (queue, dropped, sender) =
        flush_queue (transport.send traces_signal) st.spans st.dropped_records st.sender in
      record st { spans = queue; dropped_records = dropped; sender = sender }

  unfoldable pub drain_spans_zone :
      (transport : Transport S) (cfg : DrainConfig) (has_successor : Bool) (processor : Processor)
      (st : DrainState S)
      → DrainState S
  drain_spans_zone transport cfg has_successor processor st =
      if not has_successor
      then elim st.spans_zone [
        | none ↦ st
        | some rings ↦
            (let (batch, dropped, rings') = collect_span_records cfg.head cfg.now rings in
              record st {
                traces_dropped_records = dropped;
                spans_zone = some rings';
                sender = send_final transport processor (spans_data batch) st.sender;
              })
      ]
      else st

  unfoldable pub graceful_drain :
      (transport : Transport S) (cfg : DrainConfig) (control : Option ControlShm) (my_gen : ℕ)
      (collected : MetricsBatch) (processor : Processor) (st : DrainState S)
      → DrainState S
  graceful_drain transport cfg control my_gen collected processor st =
      let has_successor = successor_announced control my_gen in
      let st1 = drain_metrics transport cfg collected processor st in
      let st2 = drain_logs_queue transport st1 in
      let st3 = drain_logs_zone transport cfg has_successor processor st2 in
      let st4 = drain_spans_queue transport st3 in
      drain_spans_zone transport cfg has_successor processor st4
