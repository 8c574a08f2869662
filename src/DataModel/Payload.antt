-- ===== src/DataModel/Payload.antt =====
-- data_model/mod.rs: metrics, the batches of the three signals, and the payload of the pipeline. A
-- double is its value in millionths; an `i32` and an `i64` are their bit patterns.
use ngx_otel_rust.Base.{ℕ, Bool, List}
use ngx_otel_rust.DataModel.{KeyValue, LogRecord, Span}

pub record Resource : Type 0 where
  pub attributes : List KeyValue

pub record Scope : Type 0 where
  pub name : List ℕ
  pub version : List ℕ

pub data AggregationTemporality : Type 0 where
  unspecified delta cumulative : AggregationTemporality

pub data NumberValue : Type 0 where
  as_int : ℕ → NumberValue
  as_double : ℕ → NumberValue

pub record NumberDataPoint : Type 0 where
  pub attributes : List KeyValue
  pub start_time_unix_nano : ℕ
  pub time_unix_nano : ℕ
  pub value : NumberValue

pub record HistogramDataPoint : Type 0 where
  pub attributes : List KeyValue
  pub start_time_unix_nano : ℕ
  pub time_unix_nano : ℕ
  pub count : ℕ
  pub sum : ℕ
  pub bucket_counts : List ℕ
  pub explicit_bounds : List ℕ

pub record Exemplar : Type 0 where
  pub value : ℕ
  pub time_unix_nano : ℕ
  pub trace_id : List ℕ
  pub span_id : List ℕ
  pub has_trace : Bool
  pub filtered_attributes : List KeyValue

pub record ExponentialHistogramDataPoint : Type 0 where
  pub attributes : List KeyValue
  pub start_time_unix_nano : ℕ
  pub time_unix_nano : ℕ
  pub count : ℕ
  pub sum : ℕ
  pub scale : ℕ
  pub zero_count : ℕ
  pub positive_offset : ℕ
  pub positive_bucket_counts : List ℕ
  pub exemplars : List Exemplar

pub record HistogramData : Type 0 where
  pub aggregation_temporality : AggregationTemporality
  pub data_points : List HistogramDataPoint

pub record ExponentialHistogramData : Type 0 where
  pub aggregation_temporality : AggregationTemporality
  pub data_points : List ExponentialHistogramDataPoint

pub record SumData : Type 0 where
  pub aggregation_temporality : AggregationTemporality
  pub is_monotonic : Bool
  pub data_points : List NumberDataPoint

pub record GaugeData : Type 0 where
  pub data_points : List NumberDataPoint

pub data MetricData : Type 0 where
  histogram : HistogramData → MetricData
  exponential_histogram : ExponentialHistogramData → MetricData
  sum : SumData → MetricData
  gauge : GaugeData → MetricData

pub record Metric : Type 0 where
  pub name : List ℕ
  pub description : List ℕ
  pub unit : List ℕ
  pub data_of : MetricData

pub record MetricsBatch : Type 0 where
  pub resource : Resource
  pub scope : Scope
  pub metrics : List Metric

pub record LogsBatch : Type 0 where
  pub resource : Resource
  pub scope : Scope
  pub logs : List LogRecord

pub record SpansBatch : Type 0 where
  pub resource : Resource
  pub scope : Scope
  pub spans : List Span

pub data Pdata : Type 0 where
  metrics_data : MetricsBatch → Pdata
  logs_data : LogsBatch → Pdata
  spans_data : SpansBatch → Pdata
