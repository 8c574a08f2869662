-- ===== src/Source/Metrics.antt =====
-- metric_source/instrumented.rs: the metrics of the aggregated counters.
use ngx_otel_rust.Base.{
  ℕ, zero, suc, ◌+◌, ◌-◌, ◌*◌, ◌%◌, ◌^◌, Bool, true, false, Option, none, some, List, [], ◌∷◌, ◌++◌,
  ◌==◌, if◌then◌else◌, get_or,
}
use ngx_otel_rust.Base.Text.{codes}
use ngx_otel_rust.Decimal.{decimal_u16}
use ngx_otel_rust.DataModel.{string, KeyValue}
use ngx_otel_rust.DataModel.Payload.{
  cumulative, Exemplar, ExponentialHistogramDataPoint, histogram, exponential_histogram, Metric,
}
use ngx_otel_rust.Shm.HttpMethod
use ngx_otel_rust.Shm.HttpMethod.{HttpMethod, n_http_methods}
use ngx_otel_rust.Shm.StatusClass
use ngx_otel_rust.Shm.StatusClass.{StatusClass, n_status_classes}
use ngx_otel_rust.Shm.ProtoVersion
use ngx_otel_rust.Shm.ProtoVersion.{ProtoVersion, n_proto_versions}
use ngx_otel_rust.Shm.Combo.{combo_index}
use ngx_otel_rust.Shm.Histogram.{duration_bounds_ms, bytes_bounds}
use ngx_otel_rust.Source.Aggregate.{
  WorkerSlots, ExpAgg, HistAgg, WorkerAgg, aggregate_worker_slots, add_exp, zero_exp, us_to_seconds,
  n_route_slots, n_upstream_slots,
}

abbrev pub exp_histogram_scale : ℕ
exp_histogram_scale = 3

-- The pattern of -160 in 32 bits.
abbrev pub exp_histogram_bucket_offset : ℕ
exp_histogram_bucket_offset = 2 ^ 32 - 160

abbrev pub attr : List ℕ → List ℕ → KeyValue
attr key value = record { key = key; value = string value }

unfoldable pub ms_to_s_hist_sum : (sum_ms : ℕ) → ℕ
ms_to_s_hist_sum sum_ms = sum_ms * 1000

-- The fields of a point from the counters.
abbrev pub exp_point :
    ExpAgg → List KeyValue → List Exemplar → ℕ → ℕ → ExponentialHistogramDataPoint
exp_point agg attrs exemplars start now = record {
  attributes = attrs;
  start_time_unix_nano = start;
  time_unix_nano = now;
  count = agg.3;
  sum = us_to_seconds agg.2;
  scale = exp_histogram_scale;
  zero_count = agg.1;
  positive_offset = exp_histogram_bucket_offset;
  positive_bucket_counts = agg.0;
  exemplars = exemplars;
}

unfoldable pub make_exp_dp :
    (agg : ExpAgg) (attrs : List KeyValue) (exemplars : List Exemplar) (start now : ℕ)
    → Option ExponentialHistogramDataPoint
make_exp_dp agg attrs exemplars start now =
    if agg.3 == 0 then none else some (exp_point agg attrs exemplars start now)

-- The exemplars of one combination.
unfoldable pub combo_exemplars : (combo : ℕ) (all : List (ℕ × Exemplar)) → List Exemplar
combo_exemplars combo [] = []
combo_exemplars combo ((cidx, e) ∷ all) =
    let rest = combo_exemplars combo all in if cidx == combo % 2 ^ 32 then e ∷ rest else rest

-- The bounds as doubles: in bytes, and in seconds from the milliseconds of the worker's bounds.
abbrev pub scaled : ℕ → List ℕ → List ℕ
scaled factor [] = []
scaled factor (b ∷ bounds) = b * factor ∷ scaled factor bounds

-- The indices of a loop `from .. from + n`.
unfoldable pub range : (from n : ℕ) → List ℕ
range from zero = []
range from (suc n) = from ∷ range (from + 1) n

abbrev pub Combination : Type 0
Combination = HttpMethod × StatusClass × ProtoVersion

unfoldable pub protos_of : (m sc : ℕ) (protos : List ℕ) → List Combination
protos_of m sc [] = []
protos_of m sc (p ∷ protos) =
    (HttpMethod.from_index m, StatusClass.from_index sc, ProtoVersion.from_index p)
    ∷ protos_of m sc protos

unfoldable pub classes_of : (m : ℕ) (classes protos : List ℕ) → List Combination
classes_of m [] protos = []
classes_of m (sc ∷ classes) protos = protos_of m sc protos ++ classes_of m classes protos

unfoldable pub methods_of : (methods classes protos : List ℕ) → List Combination
methods_of [] classes protos = []
methods_of (m ∷ methods) classes protos =
    classes_of m classes protos ++ methods_of methods classes protos

-- The nested loops over the three dimensions.
unfoldable pub combinations : List Combination
combinations =
    methods_of (range 0 n_http_methods) (range 0 n_status_classes) (range 0 n_proto_versions)

abbrev pub combo_of : Combination → ℕ
combo_of (method, status_class, proto) = combo_index method status_class proto

abbrev pub combo_attrs : Combination → List KeyValue
combo_attrs (method, status_class, proto) =
    attr (codes "http.request.method") (HttpMethod.as_str method)
    ∷ attr (codes "http.response.status_class") (StatusClass.as_str status_class)
    ∷ attr (codes "network.protocol.version") (ProtoVersion.as_str proto)
    ∷ []

unfoldable pub pushed_point :
    (point : Option ExponentialHistogramDataPoint) (later : List ExponentialHistogramDataPoint)
    → List ExponentialHistogramDataPoint
pushed_point none later = later
pushed_point (some dp) later = dp ∷ later

-- All combinations in one point.
unfoldable pub collapse : (all : ExpAgg) (combo_agg : List ExpAgg) → ExpAgg
collapse all [] = all
collapse all (agg ∷ combo_agg) = collapse (add_exp all agg) combo_agg

module _ (start now : ℕ) where
  unfoldable pub base_points :
      (combo_agg : List ExpAgg) (all : List (ℕ × Exemplar)) (combos : List Combination)
      → List ExponentialHistogramDataPoint
  base_points combo_agg all [] = []
  base_points combo_agg all (c ∷ combos) =
      pushed_point
        (make_exp_dp (get_or combo_agg (combo_of c) zero_exp) (combo_attrs c)
          (combo_exemplars (combo_of c) all) start now)
        (base_points combo_agg all combos)

  unfoldable pub duration_points :
      (status_code_class_enabled : Bool) (combo_agg : List ExpAgg) (all : List (ℕ × Exemplar))
      → List ExponentialHistogramDataPoint
  duration_points true combo_agg all = base_points combo_agg all combinations
  duration_points false combo_agg all = exp_point (collapse zero_exp combo_agg) [] [] start now ∷ []

  abbrev pub exp_metric : List ℕ → List ℕ → List ExponentialHistogramDataPoint → Metric
  exp_metric name description points = record {
    name = name;
    description = description;
    unit = codes "s";
    data_of =
        exponential_histogram
          (record { aggregation_temporality = cumulative; data_points = points });
  }

  unfoldable pub build_duration_metric :
      (status_code_class_enabled : Bool) (combo_agg : List ExpAgg) (all : List (ℕ × Exemplar))
      → Metric
  build_duration_metric enabled combo_agg all =
      exp_metric (codes "http.server.request.duration") (codes "HTTP server request duration")
        (duration_points enabled combo_agg all)

  -- One point for each slot that counted something, named by the configuration or by its index.
  unfoldable pub named_points :
      (key prefix : List ℕ) (names : Option (ℕ → List ℕ)) (aggs : List ExpAgg) (slots : List ℕ)
      → List ExponentialHistogramDataPoint
  named_points key prefix names aggs [] = []
  named_points key prefix names aggs (idx ∷ slots) =
      let name = elim names as (λ _. List ℕ) [
        | some name_of ↦ name_of idx
        | none ↦ prefix ++ decimal_u16 idx
      ] in
      pushed_point (make_exp_dp (get_or aggs idx zero_exp) (attr key name ∷ []) [] start now)
        (named_points key prefix names aggs slots)

  unfoldable pub build_route_metric :
      (route_agg : List ExpAgg) (route_name : Option (ℕ → List ℕ)) → Metric
  build_route_metric route_agg route_name =
      exp_metric (codes "nginx.http.request.duration.by_route")
        (codes "HTTP server request duration by matched location (http.route)")
        (named_points (codes "http.route") (codes "route_") route_name route_agg
          (range 0 n_route_slots))

  unfoldable pub build_upstream_duration_metric :
      (upstream_agg : List ExpAgg) (upstream_zone_name : Option (ℕ → List ℕ)) → Metric
  build_upstream_duration_metric upstream_agg upstream_zone_name =
      exp_metric (codes "nginx.http.request.duration.by_upstream")
        (codes "HTTP server request duration by upstream zone (nginx.upstream.zone)")
        (named_points (codes "nginx.upstream.zone") (codes "upstream_") upstream_zone_name
          upstream_agg (range 0 n_upstream_slots))

  unfoldable pub hist_metric_with_sum :
      (name desc unit : List ℕ) (agg : HistAgg) (sum : ℕ) (bounds : List ℕ) → Metric
  hist_metric_with_sum name desc unit agg sum bounds = record {
    name = name;
    description = desc;
    unit = unit;
    data_of = histogram (record {
      aggregation_temporality = cumulative;
      data_points =
          record {
            attributes = [];
            start_time_unix_nano = start;
            time_unix_nano = now;
            count = agg.2;
            sum = sum;
            bucket_counts = agg.0;
            explicit_bounds = bounds;
          }
          ∷ [];
    });
  }

  unfoldable pub hist_metric : (name desc unit : List ℕ) (agg : HistAgg) (bounds : List ℕ) → Metric
  hist_metric name desc unit agg bounds =
      hist_metric_with_sum name desc unit agg (agg.1 * 1000000) bounds

  unfoldable pub seconds_metric : (name desc : List ℕ) (agg : HistAgg) → Metric
  seconds_metric name desc agg =
      hist_metric_with_sum name desc (codes "s") agg (ms_to_s_hist_sum agg.1)
        (scaled 1000 duration_bounds_ms)

  unfoldable pub bytes_metric : (name desc : List ℕ) (agg : HistAgg) → Metric
  bytes_metric name desc agg = hist_metric name desc (codes "By") agg (scaled 1000000 bytes_bounds)

  -- The ten metrics, in their order.
  unfoldable pub metrics_of :
      (status_code_class_enabled : Bool) (route_name upstream_zone_name : Option (ℕ → List ℕ))
      (agg : WorkerAgg) (all : List (ℕ × Exemplar))
      → List Metric
  metrics_of enabled route_name upstream_zone_name agg all =
      build_duration_metric enabled agg.combo_agg all
      ∷ build_route_metric agg.route_agg route_name
      ∷ build_upstream_duration_metric agg.upstream_agg upstream_zone_name
      ∷ bytes_metric (codes "http.server.request.body.size") (codes "HTTP server request body size")
          agg.req_bytes
      ∷ bytes_metric (codes "http.server.response.body.size")
          (codes "HTTP server response body size") agg.resp_bytes
      ∷ seconds_metric (codes "nginx.upstream.response.duration") (codes "Upstream response time")
          agg.up_resp
      ∷ seconds_metric (codes "nginx.upstream.header.duration")
          (codes "Upstream time to first response byte") agg.up_hdr
      ∷ seconds_metric (codes "nginx.upstream.connect.duration")
          (codes "Upstream connection establishment time") agg.up_conn
      ∷ bytes_metric (codes "nginx.upstream.bytes.received") (codes "Bytes received from upstream")
          agg.up_bytes
      ∷ bytes_metric (codes "nginx.upstream.bytes.sent") (codes "Bytes sent to upstream")
          agg.up_bytes_sent
      ∷ []

  -- The metrics of one collection, and the workers' slots as it leaves them.
  unfoldable pub collect :
      (status_code_class_enabled : Bool) (route_name upstream_zone_name : Option (ℕ → List ℕ))
      (workers : List WorkerSlots)
      → List Metric × List WorkerSlots
  collect enabled route_name upstream_zone_name workers =
      let (agg, all, left) = aggregate_worker_slots workers in
      (metrics_of enabled route_name upstream_zone_name agg all, left)
