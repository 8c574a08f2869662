-- ===== src/Source.antt =====
-- metric_source/instrumented.rs: the sums over the attempts at upstreams, the name of a span and the
-- condition of an export.
pub mod Sums
pub mod Name
pub mod Aggregate
pub mod Merge
pub mod Metrics
pub mod Series
mod Runs
use ngx_otel_rust.Base.{
  ℕ, zero, suc, ◌+◌, ◌-◌, ◌^◌, Bool, true, false, not, ◌&&◌, ◌||◌, Option, none, some, List, [],
  ◌∷◌, ◌++◌, ltb, ◌==◌, if◌then◌else◌, length, take, is_empty, get_or, unwrap_or, min,
}
use ngx_otel_rust.Spans.{max_span_name}

-- One attempt. The numbers are words of 64 bits; a peer is null or not.
pub record UpstreamState : Type 0 where
  pub peer_is_null : Bool
  pub response_time : ℕ
  pub header_time : ℕ
  pub connect_time : ℕ
  pub bytes_received : ℕ
  pub bytes_sent : ℕ

pub record UpstreamSum : Type 0 where
  pub response_ms : Option ℕ
  pub header_ms : Option ℕ
  pub connect_ms : Option ℕ
  pub bytes_received : ℕ
  pub bytes_sent : ℕ

abbrev pub ngx_msec_sentinel : ℕ
ngx_msec_sentinel = 2 ^ 64 - 1

unfoldable pub saturating_add : (a b : ℕ) → ℕ
saturating_add a b = min (a + b) (2 ^ 64 - 1)

unfoldable pub accumulate : (acc : Option ℕ) (raw : ℕ) → Option ℕ
accumulate acc raw =
    if raw == ngx_msec_sentinel then acc else some (saturating_add (unwrap_or acc 0) raw)

unfoldable pub add_attempt : (acc : UpstreamSum) (st : UpstreamState) → UpstreamSum
add_attempt acc st = if st.peer_is_null then acc else record {
  response_ms = accumulate acc.response_ms st.response_time;
  header_ms = accumulate acc.header_ms st.header_time;
  connect_ms = accumulate acc.connect_ms st.connect_time;
  bytes_received = saturating_add acc.bytes_received st.bytes_received;
  bytes_sent = saturating_add acc.bytes_sent st.bytes_sent;
}

unfoldable pub add_attempts : (acc : UpstreamSum) (states : List UpstreamState) → UpstreamSum
add_attempts acc [] = acc
add_attempts acc (st ∷ states) = add_attempts (add_attempt acc st) states

abbrev pub no_attempt : UpstreamSum
no_attempt = record {
  response_ms = none;
  header_ms = none;
  connect_ms = none;
  bytes_received = 0;
  bytes_sent = 0;
}

-- A null array, or one without elements in memory, is none.
unfoldable pub sum_upstream_states : (states : Option (List UpstreamState)) → Option UpstreamSum
sum_upstream_states none = none
sum_upstream_states (some []) = none
sum_upstream_states (some (st ∷ states)) = some (add_attempts no_attempt (st ∷ states))

unfoldable pub is_truthy : (bytes : List ℕ) → Bool
is_truthy bytes = not (is_empty bytes || (length bytes == 1 && get_or bytes 0 0 == b'0'))

-- The bytes of the buffer up to the returned length.
unfoldable pub build_span_name : (method route : List ℕ) → List ℕ
build_span_name method route =
    let name = take max_span_name method in
    if ltb (length name) max_span_name && not (is_empty route)
    then name ++ b' ' ∷ take (max_span_name - (length name + 1)) route
    else name
