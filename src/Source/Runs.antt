-- ===== src/Source/Runs.antt =====
-- metric_source/instrumented.rs at concrete attempts and names.
use ngx_otel_rust.Base.{
  ℕ, ◌%◌, ◌^◌, ◌≡◌, refl, true, false, some, List, [], ◌∷◌, set, replicate, get_or, arith,
}
use Prim.{tt}
use ngx_otel_rust.Shm.Combo.{n_combos}
use ngx_otel_rust.Shm.Histogram.{
  n_exp_buckets, n_bytes_buckets, n_duration_buckets, empty_exp_slot, record_all, Histogram,
}
use ngx_otel_rust.Source.Aggregate.{
  WorkerSlots, ExpAgg, n_route_slots, n_upstream_slots, zero_exp, aggregate_worker_slots,
}
use ngx_otel_rust.Source.Merge.{
  Recorded, AllRecorded, Holds, workers_of, durations_of, aggregate_worker_slots-Holds,
}
use ngx_otel_rust.Source.Metrics.{duration_points}
use ngx_otel_rust.Source.Series.{observations, duration_points-observations}
use ngx_otel_rust.Base.Text.{codes}
use ngx_otel_rust.Source.{
  UpstreamState, UpstreamSum, ngx_msec_sentinel, saturating_add, accumulate, add_attempt,
  add_attempts, sum_upstream_states, is_truthy, build_span_name,
}
use ngx_otel_rust.Source.Sums.{IsSumOf, sum_upstream_states-IsSumOf}

-- A refused connection, and an attempt that is answered.
abbrev refused : UpstreamState
refused = record {
  peer_is_null = false;
  response_time = 4;
  header_time = ngx_msec_sentinel;
  connect_time = ngx_msec_sentinel;
  bytes_received = 0;
  bytes_sent = 0;
}

abbrev answered : UpstreamState
answered = record {
  peer_is_null = false;
  response_time = 30;
  header_time = 20;
  connect_time = 2;
  bytes_received = 1500;
  bytes_sent = 400;
}

abbrev boundary : UpstreamState
boundary = record {
  peer_is_null = true;
  response_time = 0;
  header_time = 0;
  connect_time = 0;
  bytes_received = 0;
  bytes_sent = 0;
}

sum_upstream_states-IsSumOf_example :
    (total : UpstreamSum) × (sum_upstream_states (some (refused ∷ boundary ∷ answered ∷ []))
      ≡ some total)
    × IsSumOf (refused ∷ boundary ∷ answered ∷ []) total
sum_upstream_states-IsSumOf_example = sum_upstream_states-IsSumOf refused (boundary ∷ answered ∷ [])

two_attempts :
    sum_upstream_states (some (refused ∷ boundary ∷ answered ∷ []))
    ≡ some (record {
      response_ms = some 34;
      header_ms = some 20;
      connect_ms = some 2;
      bytes_received = 1500;
      bytes_sent = 400;
    })
unfolding sum_upstream_states add_attempts add_attempt accumulate saturating_add
two_attempts = refl

named : build_span_name (codes "GET") (codes "/api") ≡ codes "GET /api"
unfolding build_span_name
named = refl

zero_is_false : is_truthy (codes "0") ≡ false
unfolding is_truthy
zero_is_false = refl

zeros_are_true : is_truthy (codes "00") ≡ true
unfolding is_truthy
zeros_are_true = refl

-- A worker's zone, with two durations in the slot of one combination.
abbrev bytes_zero : Histogram
bytes_zero = record { bucket = replicate n_bytes_buckets 0; sum = 0; count = 0 }

abbrev ms_zero : Histogram
ms_zero = record { bucket = replicate n_duration_buckets 0; sum = 0; count = 0 }

worker : List ℕ → WorkerSlots
worker vs = record {
  request_duration_combos =
      set (replicate n_combos empty_exp_slot) 5 (record_all empty_exp_slot vs);
  route_duration_combos = replicate n_route_slots empty_exp_slot;
  upstream_duration_combos = replicate n_upstream_slots empty_exp_slot;
  request_body_bytes = bytes_zero;
  response_body_bytes = bytes_zero;
  upstream_response_ms = ms_zero;
  upstream_header_ms = ms_zero;
  upstream_connect_ms = ms_zero;
  upstream_bytes_received = bytes_zero;
  upstream_bytes_sent = bytes_zero;
  exemplar_reservoirs = [];
}

worker-Recorded : (vs : List ℕ) → Recorded 5 (worker vs) vs
unfolding worker
worker-Recorded vs = record { size = refl; slot = refl }

abbrev first_durations : List ℕ
first_durations = 0 ∷ 1500 ∷ []

abbrev second_durations : List ℕ
second_durations = 1500 ∷ 70000000 ∷ []

workers : List (WorkerSlots × List ℕ)
workers =
    (worker first_durations, first_durations) ∷ (worker second_durations, second_durations) ∷ []

workers-AllRecorded : AllRecorded 5 workers
unfolding workers
workers-AllRecorded = (worker-Recorded first_durations, (worker-Recorded second_durations, tt))

aggregate_worker_slots-Holds_example :
    Holds
      (get_or (aggregate_worker_slots (workers_of workers)).0.combo_agg 5 zero_exp)
      (durations_of workers)
aggregate_worker_slots-Holds_example =
    aggregate_worker_slots-Holds workers 5 (omega arith) workers-AllRecorded

-- One combination counted two requests, another one.
counted : ℕ → ExpAgg
counted n = (replicate n_exp_buckets 0, n, 0, n)

aggs : List ExpAgg
aggs = set (set (replicate n_combos zero_exp) 5 (counted 2)) 159 (counted 1)

duration_points-observations_example :
    observations (duration_points 0 1 true aggs []) % 2 ^ 64
    ≡ observations (duration_points 0 1 false aggs []) % 2 ^ 64
unfolding aggs
duration_points-observations_example = duration_points-observations 0 1 aggs [] refl
