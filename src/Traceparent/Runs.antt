-- ===== src/Traceparent/Runs.antt =====
-- The trace header at concrete inputs.
use ngx_otel_rust.Base.{
  ℕ, zero, suc, ◌<◌, ◌≡◌, ◌≢◌, refl, some, List, arith, length, replicate, All,
}
use Prim.{tt}
use ngx_otel_rust.Base.Bytes.{IsByte}
use ngx_otel_rust.Traceparent.{parse_traceparent_full, build_traceparent_value}
use ngx_otel_rust.Traceparent.RoundTrip.{
  parse_traceparent_full-build_traceparent_value, parse_traceparent_full-eq-some,
}

abbrev trace_id : List ℕ
trace_id = replicate 16 171

abbrev span_id : List ℕ
span_id = replicate 8 5

trace_id-nonzero : trace_id ≢ replicate 16 0
trace_id-nonzero e = cc e

span_id-nonzero : span_id ≢ replicate 8 0
span_id-nonzero e = cc e

replicate-IsByte : (n b : ℕ) → b < 256 → All IsByte (replicate n b)
replicate-IsByte zero b h = tt
replicate-IsByte (suc n) b h = (h, replicate-IsByte n b h)

built_is_parsed :
    parse_traceparent_full (build_traceparent_value trace_id span_id 1)
    ≡ some (trace_id, span_id, 1)
built_is_parsed =
    parse_traceparent_full-build_traceparent_value trace_id span_id 1 refl refl
      (replicate-IsByte 16 171 (omega arith)) (replicate-IsByte 8 5 (omega arith)) (omega arith)
      trace_id-nonzero span_id-nonzero

parse_traceparent_full-eq-some_example :
    (build_traceparent_value trace_id span_id 1 ≡ build_traceparent_value trace_id span_id 1)
    × (length trace_id ≡ 16)
    × (length span_id ≡ 8)
    × (trace_id ≢ replicate 16 0)
    × (span_id ≢ replicate 8 0)
parse_traceparent_full-eq-some_example =
    parse_traceparent_full-eq-some (build_traceparent_value trace_id span_id 1) trace_id span_id 1
      built_is_parsed
