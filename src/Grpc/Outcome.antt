-- ===== src/Grpc/Outcome.antt =====
-- The classes of gRPC statuses (transport/grpc/status_adapter.rs).
use ngx_otel_rust.Base.{
  ℕ, ◌≡◌, refl, ap, ◌∙◌, Bool, true, false, ◌&&◌, ◌||◌, Option, none, some, List, arith, is_some,
}
use ngx_otel_rust.Policy.{retryable}
use ngx_otel_rust.Http.Outcome.{is_retryable}
use ngx_otel_rust.Grpc.{
  Code, ok, cancelled, unknown, invalid_argument, deadline_exceeded, not_found, already_exists,
  permission_denied, resource_exhausted, failed_precondition, aborted, out_of_range, unimplemented,
  internal, unavailable, data_loss, unauthenticated, ProtoAny, ProtoDuration, GrpcStatus,
  pushback_hint, grpc_code_to_outcome, extract_grpc_retry_hint, grpc_status_to_outcome,
}

-- The codes that the protocol lets a client retry without a hint.
abbrev pub is_transient : Code → Bool
is_transient cancelled = true
is_transient deadline_exceeded = true
is_transient aborted = true
is_transient out_of_range = true
is_transient unavailable = true
is_transient data_loss = true
is_transient _ = false

abbrev pub is_exhausted : Code → Bool
is_exhausted resource_exhausted = true
is_exhausted _ = false

code_retries :
    (code : Code) (hint : Option ℕ)
    → is_retryable (grpc_code_to_outcome code hint)
      ≡ (is_transient code || (is_exhausted code && is_some hint))
unfolding grpc_code_to_outcome
code_retries ok hint = refl
code_retries cancelled hint = refl
code_retries unknown hint = refl
code_retries invalid_argument hint = refl
code_retries deadline_exceeded hint = refl
code_retries not_found hint = refl
code_retries already_exists hint = refl
code_retries permission_denied hint = refl
code_retries failed_precondition hint = refl
code_retries aborted hint = refl
code_retries out_of_range hint = refl
code_retries unimplemented hint = refl
code_retries internal hint = refl
code_retries unavailable hint = refl
code_retries data_loss hint = refl
code_retries unauthenticated hint = refl
code_retries resource_exhausted none = refl
code_retries resource_exhausted (some h) = refl

code_hint :
    (code : Code) (h : ℕ)
    → (is_transient code || is_exhausted code) ≡ true
    → grpc_code_to_outcome code (some h) ≡ retryable (some h)
unfolding grpc_code_to_outcome
code_hint code h e = ground (arith, e)

module _ (decode_status : List ℕ → Option (List ProtoAny))
    (decode_retry_info : List ℕ → Option (Option ProtoDuration)) where
  trailer_first :
      (status : GrpcStatus) (h : ℕ)
      → pushback_hint status.pushback_ms ≡ some h
      → extract_grpc_retry_hint decode_status decode_retry_info status ≡ some h
  unfolding extract_grpc_retry_hint
  trailer_first status h e = rw (e, extract_grpc_retry_hint) refl

  -- A status is retried exactly if its code is one of the six transient ones, or the resource is
  -- exhausted and there is a hint; and a hint of the trailer is the one that counts, whatever the
  -- details say.
  pub grpc_status_to_outcome_lem :
      (status : GrpcStatus)
      → (is_retryable (grpc_status_to_outcome decode_status decode_retry_info status) ≡ (
          is_transient status.code
          || (is_exhausted status.code
              && is_some (extract_grpc_retry_hint decode_status decode_retry_info status))))
        × ((h : ℕ)
            → pushback_hint status.pushback_ms ≡ some h
            → (is_transient status.code || is_exhausted status.code) ≡ true
            → grpc_status_to_outcome decode_status decode_retry_info status ≡ retryable (some h))
  unfolding grpc_status_to_outcome
  grpc_status_to_outcome_lem status = (
    code_retries status.code (extract_grpc_retry_hint decode_status decode_retry_info status),
    λ h is_h retried.
        ap (grpc_code_to_outcome status.code) (trailer_first status h is_h)
        ∙ code_hint status.code h retried,
  )
