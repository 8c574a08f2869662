-- ===== src/Source/Aggregate.antt =====
-- metric_source/instrumented.rs: the sums over the workers' slots of shm/mod.rs. The additions of `u64`
-- wrap around, as in a release build.
use ngx_otel_rust.Base.{ℕ, ◌+◌, ◌%◌, ◌^◌, List, [], ◌∷◌, ◌++◌, replicate}
use ngx_otel_rust.DataModel.Payload.{Exemplar}
use ngx_otel_rust.Shm.Combo.{n_combos}
use ngx_otel_rust.Shm.Histogram.{
  n_exp_buckets, n_bytes_buckets, n_duration_buckets, ExpHistogramSlot, snapshot, Histogram,
}
use ngx_otel_rust.Shm.Exemplar.{ExemplarReservoir, ExemplarSnapshot, reservoir_snapshot, reset}

abbrev pub n_route_slots : ℕ
n_route_slots = 64 + 1

abbrev pub n_upstream_slots : ℕ
n_upstream_slots = 32 + 1

-- The counters of the error log are read apart, by `collect_error_rate_metric`.
pub record WorkerSlots : Type 0 where
  pub request_duration_combos : List ExpHistogramSlot
  pub route_duration_combos : List ExpHistogramSlot
  pub upstream_duration_combos : List ExpHistogramSlot
  pub request_body_bytes : Histogram
  pub response_body_bytes : Histogram
  pub upstream_response_ms : Histogram
  pub upstream_header_ms : Histogram
  pub upstream_connect_ms : Histogram
  pub upstream_bytes_received : Histogram
  pub upstream_bytes_sent : Histogram
  pub exemplar_reservoirs : List ExemplarReservoir

-- Buckets, zero count, sum and count; and buckets, sum and count.
abbrev pub ExpAgg : Type 0
ExpAgg = List ℕ × ℕ × ℕ × ℕ

abbrev pub HistAgg : Type 0
HistAgg = List ℕ × ℕ × ℕ

pub record WorkerAgg : Type 0 where
  pub combo_agg : List ExpAgg
  pub route_agg : List ExpAgg
  pub upstream_agg : List ExpAgg
  pub req_bytes : HistAgg
  pub resp_bytes : HistAgg
  pub up_resp : HistAgg
  pub up_hdr : HistAgg
  pub up_conn : HistAgg
  pub up_bytes : HistAgg
  pub up_bytes_sent : HistAgg

-- `*a += b` over two arrays.
unfoldable pub add_counts : (acc counts : List ℕ) → List ℕ
add_counts [] counts = []
add_counts (a ∷ acc) [] = a ∷ acc
add_counts (a ∷ acc) (c ∷ counts) = (a + c) % 2 ^ 64 ∷ add_counts acc counts

unfoldable pub add_histogram : (acc : HistAgg) (h : Histogram) → HistAgg
add_histogram acc h =
    (add_counts acc.0 h.bucket, (acc.1 + h.sum) % 2 ^ 64, (acc.2 + h.count) % 2 ^ 64)

unfoldable pub add_exp : (acc snap : ExpAgg) → ExpAgg
add_exp acc snap = (
  add_counts acc.0 snap.0,
  (acc.1 + snap.1) % 2 ^ 64,
  (acc.2 + snap.2) % 2 ^ 64,
  (acc.3 + snap.3) % 2 ^ 64,
)

-- The loop over the slots of one worker.
unfoldable pub add_slots : (acc : List ExpAgg) (slots : List ExpHistogramSlot) → List ExpAgg
add_slots [] slots = []
add_slots (a ∷ acc) [] = a ∷ acc
add_slots (a ∷ acc) (slot ∷ slots) = add_exp a (snapshot slot) ∷ add_slots acc slots

-- A double is its value in millionths, so the seconds of a value in microseconds are that value, and a
-- value in milliseconds is a thousand of them.
unfoldable pub us_to_seconds : (value_us : ℕ) → ℕ
us_to_seconds value_us = value_us

unfoldable pub exemplar_of : (snap : ExemplarSnapshot) → Exemplar
exemplar_of snap = record {
  value = us_to_seconds snap.value_us;
  time_unix_nano = snap.ts_unix_nano;
  trace_id = snap.trace_id;
  span_id = snap.span_id;
  has_trace = snap.has_trace;
  filtered_attributes = [];
}

unfoldable pub exemplars_of : (snaps : List ExemplarSnapshot) → List (ℕ × Exemplar)
exemplars_of [] = []
exemplars_of (snap ∷ snaps) = (snap.combo_idx, exemplar_of snap) ∷ exemplars_of snaps

unfoldable pub take_exemplars : (reservoirs : List ExemplarReservoir) → List (ℕ × Exemplar)
take_exemplars [] = []
take_exemplars (r ∷ reservoirs) = exemplars_of (reservoir_snapshot r) ++ take_exemplars reservoirs

unfoldable pub reset_all : (reservoirs : List ExemplarReservoir) → List ExemplarReservoir
reset_all [] = []
reset_all (r ∷ reservoirs) = reset r ∷ reset_all reservoirs

unfoldable pub add_worker : (acc : WorkerAgg) (slot : WorkerSlots) → WorkerAgg
add_worker acc slot = record {
  combo_agg = add_slots acc.combo_agg slot.request_duration_combos;
  route_agg = add_slots acc.route_agg slot.route_duration_combos;
  upstream_agg = add_slots acc.upstream_agg slot.upstream_duration_combos;
  req_bytes = add_histogram acc.req_bytes slot.request_body_bytes;
  resp_bytes = add_histogram acc.resp_bytes slot.response_body_bytes;
  up_resp = add_histogram acc.up_resp slot.upstream_response_ms;
  up_hdr = add_histogram acc.up_hdr slot.upstream_header_ms;
  up_conn = add_histogram acc.up_conn slot.upstream_connect_ms;
  up_bytes = add_histogram acc.up_bytes slot.upstream_bytes_received;
  up_bytes_sent = add_histogram acc.up_bytes_sent slot.upstream_bytes_sent;
}

unfoldable pub add_workers : (acc : WorkerAgg) (workers : List WorkerSlots) → WorkerAgg
add_workers acc [] = acc
add_workers acc (slot ∷ workers) = add_workers (add_worker acc slot) workers

abbrev pub zero_exp : ExpAgg
zero_exp = (replicate n_exp_buckets 0, 0, 0, 0)

abbrev pub zero_hist : ℕ → HistAgg
zero_hist n = (replicate n 0, 0, 0)

abbrev pub zero_agg : WorkerAgg
zero_agg = record {
  combo_agg = replicate n_combos zero_exp;
  route_agg = replicate n_route_slots zero_exp;
  upstream_agg = replicate n_upstream_slots zero_exp;
  req_bytes = zero_hist n_bytes_buckets;
  resp_bytes = zero_hist n_bytes_buckets;
  up_resp = zero_hist n_duration_buckets;
  up_hdr = zero_hist n_duration_buckets;
  up_conn = zero_hist n_duration_buckets;
  up_bytes = zero_hist n_bytes_buckets;
  up_bytes_sent = zero_hist n_bytes_buckets;
}

-- The exemplars of the workers in their order, and the slots with their reservoirs reset.
unfoldable pub drain_exemplars :
    (workers : List WorkerSlots) → List (ℕ × Exemplar) × List WorkerSlots
drain_exemplars [] = ([], [])
drain_exemplars (slot ∷ workers) =
    let (exemplars, left) = drain_exemplars workers in
    (
      take_exemplars slot.exemplar_reservoirs ++ exemplars,
      record slot { exemplar_reservoirs = reset_all slot.exemplar_reservoirs } ∷ left,
    )

unfoldable pub aggregate_worker_slots :
    (workers : List WorkerSlots) → WorkerAgg × List (ℕ × Exemplar) × List WorkerSlots
aggregate_worker_slots workers =
    let (exemplars, left) = drain_exemplars workers in
    (add_workers zero_agg workers, exemplars, left)
