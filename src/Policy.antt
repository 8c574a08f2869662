-- ===== src/Policy.antt =====
-- The policy of drain/backoff.rs, and the outcome and error types of transport/mod.rs.
pub mod Backoff
pub mod Outcome
pub mod Retry
pub mod Queue
pub mod Log
mod Runs
use ngx_otel_rust.Base.{
  ℕ, zero, suc, ◌+◌, ◌*◌, ◌/◌, ◌-◌, ◌%◌, ◌^◌, Bool, true, false, not, ◌&&◌, Option, none, some,
  List, [], ◌∷◌, ◌++◌, ltb, leb, ◌==◌, if◌then◌else◌, length, min, max,
}

-- A `Duration` is its number of nanoseconds.
pub data DeliveryOutcome : Type 0 where
  accepted : DeliveryOutcome
  partial_reject : (rejected : ℕ) → DeliveryOutcome
  retryable : (retry_after : Option ℕ) → DeliveryOutcome
  permanent : DeliveryOutcome
  unauthorized : DeliveryOutcome

pub data TransportError : Type 0 where
  invalid_endpoint : (input reason : List ℕ) → TransportError
  connection : (cause : List ℕ) → TransportError
  http_status : (code : ℕ) (message : List ℕ) → TransportError
  body_read : (cause : List ℕ) → TransportError
  timeout : TransportError
  tls_config : (cause : List ℕ) → TransportError

pub record SignalBackoff : Type 0 where
  pub not_before_msec : ℕ
  pub consecutive_retryable : ℕ

pub data OutcomeAction : Type 0 where
  release : OutcomeAction
  requeue : OutcomeAction
  drop_batch : OutcomeAction

-- The counters that the policy shares, and how often the credentials line was logged.
pub record Statics : Type 0 where
  pub partial_rejected : ℕ
  pub permanent_rejected : ℕ
  pub unauthorized_rejected : ℕ
  pub dropped_records : ℕ
  pub unauthorized_log_last_msec : ℕ
  pub unauthorized_lines : ℕ

abbrev pub backoff_base_ms : ℕ
backoff_base_ms = 250

abbrev pub backoff_cap_ms : ℕ
backoff_cap_ms = 30000

abbrev pub unauthorized_log_interval_ms : ℕ
unauthorized_log_interval_ms = 60000

abbrev pub fetch_add : ℕ → ℕ → ℕ
fetch_add counter n = (counter + n) % 2 ^ 64

unfoldable pub is_deferred : SignalBackoff → ℕ → Bool
is_deferred backoff now_msec =
    not (backoff.not_before_msec == 0) && ltb now_msec backoff.not_before_msec

-- `x * 2 ^ n`.
unfoldable pub shl : ℕ → ℕ → ℕ
shl x zero = x
shl x (suc n) = 2 * shl x n

-- The leading zeros of a number of `w` bits.
unfoldable pub leading_zeros : ℕ → ℕ → ℕ
leading_zeros zero x = 0
leading_zeros (suc w) x = if ltb x (shl 1 w) then suc (leading_zeros w x) else 0

unfoldable pub backoff_ms : ℕ → ℕ → ℕ → ℕ
backoff_ms consecutive_retryable base_ms cap_ms =
    if base_ms == 0
    then 0
    else let shift = consecutive_retryable - 1 in
      if leb (leading_zeros 64 base_ms) shift
      then cap_ms
      else min (shl base_ms shift % 2 ^ 64) cap_ms

-- `log` tells whether there is a log.
unfoldable pub maybe_log_unauthorized : Bool → ℕ → Statics → Statics
maybe_log_unauthorized false now statics = statics
maybe_log_unauthorized true now statics =
    let last = statics.unauthorized_log_last_msec in
    if not (last == 0) && ltb (now - last) unauthorized_log_interval_ms then statics else record {
      partial_rejected = statics.partial_rejected;
      permanent_rejected = statics.permanent_rejected;
      unauthorized_rejected = statics.unauthorized_rejected;
      dropped_records = statics.dropped_records;
      unauthorized_log_last_msec = max now 1;
      unauthorized_lines = suc statics.unauthorized_lines;
    }

unfoldable pub is_permanent_rejection : TransportError → Bool
is_permanent_rejection (http_status code message) = leb 400 code && ltb code 500
is_permanent_rejection _ = false

abbrev pub no_backoff : SignalBackoff
no_backoff = record { not_before_msec = 0; consecutive_retryable = 0 }

abbrev pub u64_max : ℕ
u64_max = 2 ^ 64 - 1

-- `u64::try_from(hint.as_millis()).unwrap_or(u64::MAX).max(1)`.
unfoldable pub hint_ms : ℕ → ℕ
hint_ms hint = max (min (hint / 1000000) u64_max) 1

unfoldable pub defer_ms : Option ℕ → ℕ → ℕ
defer_ms (some hint) consecutive = hint_ms hint
defer_ms none consecutive = backoff_ms consecutive backoff_base_ms backoff_cap_ms

unfoldable pub retry_backoff : Option ℕ → SignalBackoff → ℕ → SignalBackoff
retry_backoff retry_after backoff now_msec =
    let consecutive = min (suc backoff.consecutive_retryable) (2 ^ 32 - 1) in
    record {
      not_before_msec = max (min (now_msec + defer_ms retry_after consecutive) u64_max) 1;
      consecutive_retryable = consecutive;
    }

-- `current_msec` is the clock that the credentials line reads.
unfoldable pub apply_delivery_outcome :
    DeliveryOutcome
    → SignalBackoff
    → ℕ
    → Bool
    → ℕ
    → Statics
    → OutcomeAction × SignalBackoff × Statics
apply_delivery_outcome accepted backoff now_msec log current_msec statics =
    (release, no_backoff, statics)
apply_delivery_outcome (partial_reject rejected) backoff now_msec log current_msec statics = (
  release,
  no_backoff,
  record {
    partial_rejected = fetch_add statics.partial_rejected rejected;
    permanent_rejected = statics.permanent_rejected;
    unauthorized_rejected = statics.unauthorized_rejected;
    dropped_records = statics.dropped_records;
    unauthorized_log_last_msec = statics.unauthorized_log_last_msec;
    unauthorized_lines = statics.unauthorized_lines;
  },
)
apply_delivery_outcome (retryable retry_after) backoff now_msec log current_msec statics =
    (requeue, retry_backoff retry_after backoff now_msec, statics)
apply_delivery_outcome permanent backoff now_msec log current_msec statics = (
  drop_batch,
  backoff,
  record {
    partial_rejected = statics.partial_rejected;
    permanent_rejected = fetch_add statics.permanent_rejected 1;
    unauthorized_rejected = statics.unauthorized_rejected;
    dropped_records = statics.dropped_records;
    unauthorized_log_last_msec = statics.unauthorized_log_last_msec;
    unauthorized_lines = statics.unauthorized_lines;
  },
)
apply_delivery_outcome unauthorized backoff now_msec log current_msec statics = (
  drop_batch,
  backoff,
  maybe_log_unauthorized log current_msec (record {
    partial_rejected = statics.partial_rejected;
    permanent_rejected = statics.permanent_rejected;
    unauthorized_rejected = fetch_add statics.unauthorized_rejected 1;
    dropped_records = statics.dropped_records;
    unauthorized_log_last_msec = statics.unauthorized_log_last_msec;
    unauthorized_lines = statics.unauthorized_lines;
  }),
)
