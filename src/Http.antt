-- ===== src/Http.antt =====
-- transport/hyper_http.rs: the outcome of a response, and its `Retry-After` header.
pub mod Date
pub mod Endpoint
pub mod Authority
pub mod Url
pub mod Civil
pub mod RoundTrip
pub mod Outcome
mod Runs
use ngx_otel_rust.Base.{
  ℕ, zero, suc, ◌+◌, ◌*◌, ◌/◌, ◌-◌, ◌%◌, ◌^◌, Bool, true, false, not, ◌&&◌, ◌||◌, Option, none,
  some, List, [], ◌∷◌, ◌++◌, ltb, leb, ◌==◌, if◌then◌else◌, ◌>>=◌, ◌>>◌, guard, length, min, max,
}
use ngx_otel_rust.Base.Integers.{ℤ, pos, negsuc}
use ngx_otel_rust.Http.Date.{parse_decimal, parse_imf_fixdate}
use ngx_otel_rust.Policy.{
  DeliveryOutcome, accepted, partial_reject, retryable, permanent, unauthorized,
}

pub data OtlpSignal : Type 0 where
  metrics : OtlpSignal
  logs : OtlpSignal
  traces : OtlpSignal

abbrev pub is_blank : ℕ → Bool
is_blank c = (c == 32) || (leb 9 c && leb c 13)

unfoldable pub trim_start : List ℕ → List ℕ
trim_start [] = []
trim_start (c ∷ s) = if is_blank c then trim_start s else c ∷ s

unfoldable pub trim_end : List ℕ → List ℕ
trim_end [] = []
trim_end (c ∷ s) = elim (trim_end s) [ [] ↦ if is_blank c then [] else c ∷ [] | d ∷ t ↦ c ∷ d ∷ t ]

abbrev pub trim : List ℕ → List ℕ
trim s = trim_end (trim_start s)

-- `str::parse::<u64>`, which takes a leading plus.
unfoldable pub parse_u64 : List ℕ → Option ℕ
parse_u64 [] = none
parse_u64 (c ∷ s) = if c == 43 then parse_decimal (2 ^ 64) s else parse_decimal (2 ^ 64) (c ∷ s)

abbrev pub nanos_per_sec : ℕ
nanos_per_sec = 1000000000

-- `t.duration_since(now).ok()`, in nanoseconds since the epoch.
abbrev pub duration_since : ℕ → ℕ → Option ℕ
duration_since t now = if leb now t then some (t - now) else none

-- `now` is the clock of the system.
unfoldable pub parse_retry_after : List ℕ → ℕ → Option ℕ
parse_retry_after value now = elim (parse_u64 (trim value)) [
  | some secs ↦ some (secs * nanos_per_sec)
  | none ↦ do t ← parse_imf_fixdate (trim value); duration_since (t * nanos_per_sec) now
]

unfoldable pub map_http_status_to_outcome : ℕ → Option ℕ → DeliveryOutcome
map_http_status_to_outcome status retry_after =
    if (status == 429) || ((status == 502) || ((status == 503) || (status == 504)))
    then retryable retry_after
    else if (status == 401) || (status == 403)
    then unauthorized
    else permanent

-- `decode` is the decoder of the response's message: the rejected count of its partial success,
-- if the body decodes and has one.
module _ (decode : OtlpSignal → List ℕ → Option ℤ) where
  unfoldable pub decode_partial_success_rejected : OtlpSignal → List ℕ → ℕ
  decode_partial_success_rejected signal body = elim (decode signal body) [
    | some (pos n) ↦ n
    | some (negsuc n) ↦ 0
    | none ↦ 0
  ]

  -- The header is there when `to_str` gives its text.
  unfoldable pub http_response_to_outcome :
      ℕ → Option (List ℕ) → List ℕ → OtlpSignal → ℕ → DeliveryOutcome
  http_response_to_outcome status retry_after_header body signal now =
      if leb 200 status && ltb status 300
      then (let rejected = decode_partial_success_rejected signal body in
          if ltb 0 rejected then partial_reject rejected else accepted)
      else map_http_status_to_outcome status
          (do value ← retry_after_header; parse_retry_after value now)
