-- ===== src/Policy/Runs.antt =====
-- The policy, the retry queue and the rate limit at concrete inputs.
use ngx_otel_rust.Base.{ℕ, zero, suc, ◌≡◌, refl, true, none, List, [], ◌∷◌, arith}
use ngx_otel_rust.Policy.{accepted, retryable, no_backoff, Statics, shl, backoff_ms, leading_zeros}
use ngx_otel_rust.Policy.Retry.{
  Batch, Lane, SendResult, delivered, drain_retry_queue_once_with_timer,
}
use ngx_otel_rust.Policy.Queue.{IsSuffix, drain_retry_queue_once-IsSuffix}

abbrev statics0 : Statics
statics0 = record {
  partial_rejected = 0;
  permanent_rejected = 0;
  unauthorized_rejected = 0;
  dropped_records = 3;
  unauthorized_log_last_msec = 0;
  unauthorized_lines = 0;
}

abbrev two_batches : List Batch
two_batches = ((1 ∷ []), 5) ∷ ((2 ∷ []), 7) ∷ []

abbrev lane0 : Lane
lane0 = record { queue = two_batches; backoff = no_backoff; failures = 0; statics = statics0 }

-- A collector that takes the first batch and is busy afterwards; its state counts the sends.
abbrev busy_after_one : ℕ → List ℕ → SendResult × ℕ
busy_after_one zero body = (delivered accepted, 1)
busy_after_one (suc n) body = (delivered (retryable none), suc (suc n))

fourth_backoff : backoff_ms 4 250 30000 ≡ 2000
unfolding backoff_ms shl leading_zeros
fourth_backoff = refl

drain_retry_queue_once_example :
    IsSuffix two_batches lane0
      (drain_retry_queue_once_with_timer busy_after_one lane0 0 100 2 true 100).0
drain_retry_queue_once_example =
    drain_retry_queue_once-IsSuffix busy_after_one lane0 0 100 2 true 100 (omega arith)
      (omega arith)
