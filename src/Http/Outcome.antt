-- ===== src/Http/Outcome.antt =====
-- The verdict on a response of the collector (transport/hyper_http.rs).
use ngx_otel_rust.Base.{
  ℕ, ◌≤◌, ◌<◌, ◌≡◌, ◌↔◌, ◌⊎◌, Bool, true, false, ◌&&◌, Option, List, ltb, leb, arith, Bool-cases,
  inl, inr,
}
use ngx_otel_rust.Base.Integers.{ℤ}
use ngx_otel_rust.Policy.{DeliveryOutcome, accepted, partial_reject, retryable, unauthorized}
use ngx_otel_rust.Http.{
  OtlpSignal, map_http_status_to_outcome, http_response_to_outcome, decode_partial_success_rejected,
}

abbrev pub is_retryable : DeliveryOutcome → Bool
is_retryable (retryable h) = true
is_retryable _ = false

abbrev pub is_delivered : DeliveryOutcome → Bool
is_delivered accepted = true
is_delivered (partial_reject n) = true
is_delivered _ = false

abbrev pub is_unauthorized : DeliveryOutcome → Bool
is_unauthorized unauthorized = true
is_unauthorized _ = false

map_status_classes :
    (status : ℕ) (h : Option ℕ)
    → let outcome = map_http_status_to_outcome status h in
      ((is_retryable outcome ≡ true)
        ↔ ((status ≡ 429) ⊎ (status ≡ 502) ⊎ (status ≡ 503) ⊎ (status ≡ 504)))
      × ((is_unauthorized outcome ≡ true) ↔ ((status ≡ 401) ⊎ (status ≡ 403)))
      × (is_delivered outcome ≡ false)
unfolding map_http_status_to_outcome
map_status_classes status h = (ground arith, ground arith, ground arith)

module _ (decode : OtlpSignal → List ℕ → Option ℤ) where
  -- A batch is sent again exactly after a 429, 502, 503 or 504, it counts as refused for its
  -- credentials exactly after a 401 or 403, and as delivered exactly after a 2xx, whatever the
  -- header and the body say.
  pub http_response_to_outcome_lem :
      (status : ℕ) (header : Option (List ℕ)) (body : List ℕ) (signal : OtlpSignal) (now : ℕ)
      → let outcome = http_response_to_outcome decode status header body signal now in
        ((is_retryable outcome ≡ true)
          ↔ ((status ≡ 429) ⊎ (status ≡ 502) ⊎ (status ≡ 503) ⊎ (status ≡ 504)))
        × ((is_unauthorized outcome ≡ true) ↔ ((status ≡ 401) ⊎ (status ≡ 403)))
        × ((is_delivered outcome ≡ true) ↔ ((200 ≤ status) × (status < 300)))
  unfolding http_response_to_outcome
  http_response_to_outcome_lem status header body signal now =
      elim (Bool-cases (leb 200 status && ltb status 300)) [
        | inl success ↦
            elim (Bool-cases (ltb 0 (decode_partial_success_rejected decode signal body))) [
              | inl part ↦
                  rw (success, part)
                    (ground (arith, success), ground (arith, success), ground (arith, success))
              | inr full ↦
                  rw (success, full)
                    (ground (arith, success), ground (arith, success), ground (arith, success))
            ]
        | inr other ↦
            (let classes = map_status_classes status _ in
              rw (other) (classes.0, classes.1, ground (arith, other, classes.2)))
      ]
