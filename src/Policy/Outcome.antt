-- ===== src/Policy/Outcome.antt =====
-- The outcome-driven policy of drain/backoff.rs on each verdict.
use ngx_otel_rust.Base.{
  ℕ, suc, ◌+◌, ◌/◌, ◌-◌, ◌%◌, ◌^◌, ◌≤◌, ◌<◌, ◌≡◌, ◌↔◌, ◌≢◌, refl, Bool, true, false, arith, min,
  max, Option, none, some,
}
use ngx_otel_rust.Policy.{
  SignalBackoff, Statics, is_deferred, apply_delivery_outcome, DeliveryOutcome, accepted,
  partial_reject, retryable, permanent, unauthorized, release, requeue, drop_batch, retry_backoff,
  hint_ms, defer_ms, shl,
}
use ngx_otel_rust.Policy.Retry.{
  Batch, Lane, handle_fresh_send_outcome, enqueue_with_eviction, requeue_in,
}
use ngx_otel_rust.Policy.Backoff.{backoff_ms-min}

-- After a verdict that asks for a retry at a time above 0, the lane is deferred exactly until the
-- delay has passed, as long as the clock does not reach the end of its 64 bits.
pub is_deferred-retry_backoff :
    (retry_after : Option ℕ) (backoff : SignalBackoff) (now_msec later : ℕ)
    → let consecutive = min (suc backoff.consecutive_retryable) (2 ^ 32 - 1) in
      1 ≤ now_msec
      → now_msec + defer_ms retry_after consecutive < 2 ^ 64
      → (is_deferred (retry_backoff retry_after backoff now_msec) later ≡ true)
        ↔ (later < now_msec + defer_ms retry_after consecutive)
unfolding is_deferred retry_backoff
is_deferred-retry_backoff retry_after backoff now_msec later pos fits = ground (arith, pos, fits)

-- A delay that the peer names is taken in whole milliseconds, at least one and without the cap; one
-- that it does not name doubles from 250 ms with each failure in a row and is cut at 30 s.
pub defer_ms_lem :
    (n : ℕ)
    → ((hint : ℕ) → hint / 1000000 < 2 ^ 64 → defer_ms (some hint) n ≡ max (hint / 1000000) 1)
      × (defer_ms none n ≡ min (shl 250 (n - 1)) 30000)
unfolding defer_ms hint_ms
defer_ms_lem n = (
  λ hint fits. omega (arith, fits),
  backoff_ms-min n 250 30000 (omega arith) (omega arith) (omega arith),
)

-- A batch is put back exactly on a verdict that asks for a retry; a delivery in full or in part
-- ends the deferral and the row of failures; a refusal leaves both as they were.
pub apply_delivery_outcome_lem :
    (outcome : DeliveryOutcome) (backoff : SignalBackoff) (now_msec : ℕ) (log : Bool)
    (current_msec : ℕ) (statics : Statics)
    → let (action, backoff', statics') =
        apply_delivery_outcome outcome backoff now_msec log current_msec statics in
      ((action ≡ requeue) ↔ ((h : Option ℕ) × (outcome ≡ retryable h)))
      × (action ≡ release
          → (is_deferred backoff' now_msec ≡ false) × (backoff'.consecutive_retryable ≡ 0))
      × (action ≡ drop_batch → backoff' ≡ backoff)
unfolding apply_delivery_outcome is_deferred
apply_delivery_outcome_lem accepted backoff now_msec log current_msec statics =
    ((λ h. ground (arith, h), λ h. ground (arith, h.1)), λ h. (refl, refl), λ h. ground (arith, h))
apply_delivery_outcome_lem (partial_reject r) backoff now_msec log current_msec statics =
    ((λ h. ground (arith, h), λ h. ground (arith, h.1)), λ h. (refl, refl), λ h. ground (arith, h))
apply_delivery_outcome_lem (retryable h) backoff now_msec log current_msec statics =
    ((λ e. (h, refl), λ e. refl), λ e. ground (arith, e), λ e. ground (arith, e))
apply_delivery_outcome_lem permanent backoff now_msec log current_msec statics =
    ((λ h. ground (arith, h), λ h. ground (arith, h.1)), λ h. ground (arith, h), λ h. refl)
apply_delivery_outcome_lem unauthorized backoff now_msec log current_msec statics =
    ((λ h. ground (arith, h), λ h. ground (arith, h.1)), λ h. ground (arith, h), λ h. refl)

-- A fresh batch that is not delivered is either kept or refused: it joins the queue, and the failure
-- counter moves, exactly when the verdict asks for a retry, and otherwise the queue stays as it is.
pub handle_fresh_send_outcome_lem :
    (outcome : DeliveryOutcome) (lane : Lane) (now_msec : ℕ) (b : Batch) (depth : ℕ) (log : Bool)
    (current_msec : ℕ)
    → let (action, lane') =
        handle_fresh_send_outcome outcome lane now_msec b depth log current_msec in
      (action ≡ requeue
        → (lane'.queue ≡ (enqueue_with_eviction lane.queue b depth).0)
          × (lane'.failures ≡ (lane.failures + 1) % 2 ^ 64))
      × (action ≢ requeue → (lane'.queue ≡ lane.queue) × (lane'.failures ≡ lane.failures))
unfolding handle_fresh_send_outcome apply_delivery_outcome requeue_in
handle_fresh_send_outcome_lem accepted lane now_msec b depth log current_msec =
    (λ h. ground (arith, h), λ h. (refl, refl))
handle_fresh_send_outcome_lem (partial_reject r) lane now_msec b depth log current_msec =
    (λ h. ground (arith, h), λ h. (refl, refl))
handle_fresh_send_outcome_lem (retryable r) lane now_msec b depth log current_msec =
    (λ h. (refl, refl), λ h. elim (h refl) [ ])
handle_fresh_send_outcome_lem permanent lane now_msec b depth log current_msec =
    (λ h. ground (arith, h), λ h. (refl, refl))
handle_fresh_send_outcome_lem unauthorized lane now_msec b depth log current_msec =
    (λ h. ground (arith, h), λ h. (refl, refl))
