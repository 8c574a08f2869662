-- ===== src/Grpc.antt =====
-- transport/grpc/status_adapter.rs: the verdict on a gRPC status.
pub mod Outcome
use ngx_otel_rust.Base.{
  ℕ, zero, suc, ◌+◌, ◌*◌, ◌/◌, ◌-◌, ◌%◌, ◌^◌, Bool, true, false, not, ◌&&◌, Option, none, some,
  List, [], ◌∷◌, ltb, leb, ◌==◌, if◌then◌else◌, ◌>>=◌, length, drop, bytes_eq, is_empty,
}
use ngx_otel_rust.Base.Integers.{ℤ, pos, negsuc, ◌+ℤ◌, scale}
use ngx_otel_rust.Base.Text.{codes}
use ngx_otel_rust.Http.{trim}
use ngx_otel_rust.Http.Date.{parse_decimal}
use ngx_otel_rust.Policy.{
  DeliveryOutcome, accepted, partial_reject, retryable, permanent, unauthorized,
}

pub data Code : Type 0 where
  ok cancelled unknown invalid_argument deadline_exceeded not_found already_exists : Code
  permission_denied resource_exhausted failed_precondition aborted out_of_range : Code
  unimplemented internal unavailable data_loss unauthenticated : Code

pub record ProtoAny : Type 0 where
  pub type_url : List ℕ
  pub value : List ℕ

pub record ProtoDuration : Type 0 where
  pub seconds : ℤ
  pub nanos : ℤ

-- The trailer is there when `to_str` gives its text.
pub record GrpcStatus : Type 0 where
  pub code : Code
  pub pushback_ms : Option (List ℕ)
  pub details : List ℕ

abbrev pub retry_info_type_suffix : List ℕ
retry_info_type_suffix = codes "google.rpc.RetryInfo"

abbrev pub ends_with : List ℕ → List ℕ → Bool
ends_with s suffix =
    leb (length suffix) (length s) && bytes_eq (drop (length s - length suffix) s) suffix

-- `str::parse::<i64>`.
unfoldable pub parse_i64 : List ℕ → Option ℤ
parse_i64 [] = none
parse_i64 (c ∷ s) =
    if c == 45
    then (do v ← parse_decimal (2 ^ 63 + 1) s; some (if v == 0 then pos 0 else negsuc (v - 1)))
    else (do v ← parse_decimal (2 ^ 63) (if c == 43 then s else c ∷ s); some (pos v))

abbrev pub positive : ℤ → Option ℕ
positive (pos n) = if ltb 0 n then some n else none
positive (negsuc n) = none

-- In nanoseconds, whose whole seconds and rest `Duration::new` takes.
unfoldable pub proto_duration_to_std : ProtoDuration → Option ℕ
proto_duration_to_std d = positive (scale 1000000000 d.seconds +ℤ d.nanos)

unfoldable pub pushback_hint : Option (List ℕ) → Option ℕ
pushback_hint text = do s ← text; i ← parse_i64 (trim s); ms ← positive i; some (ms * 1000000)

unfoldable pub grpc_code_to_outcome : Code → Option ℕ → DeliveryOutcome
grpc_code_to_outcome ok hint = accepted
grpc_code_to_outcome cancelled hint = retryable hint
grpc_code_to_outcome deadline_exceeded hint = retryable hint
grpc_code_to_outcome aborted hint = retryable hint
grpc_code_to_outcome out_of_range hint = retryable hint
grpc_code_to_outcome unavailable hint = retryable hint
grpc_code_to_outcome data_loss hint = retryable hint
grpc_code_to_outcome resource_exhausted (some h) = retryable (some h)
grpc_code_to_outcome resource_exhausted none = permanent
grpc_code_to_outcome unauthenticated hint = unauthorized
grpc_code_to_outcome permission_denied hint = unauthorized
grpc_code_to_outcome _ hint = permanent

-- `decode_status` gives the details of the status message, `decode_retry_info` the delay of a
-- retry message.
module _ (decode_status : List ℕ → Option (List ProtoAny))
    (decode_retry_info : List ℕ → Option (Option ProtoDuration)) where
  unfoldable pub find_retry_info : List ProtoAny → Option ℕ
  find_retry_info [] = none
  find_retry_info (any ∷ details) =
      let rest = find_retry_info details in
      if not (ends_with any.type_url retry_info_type_suffix)
      then rest
      else elim (decode_retry_info any.value) [
        | none ↦ none
        | some none ↦ rest
        | some (some d) ↦ proto_duration_to_std d
      ]

  unfoldable pub extract_retry_info_from_details : List ℕ → Option ℕ
  extract_retry_info_from_details raw =
      if is_empty raw then none else (do details ← decode_status raw; find_retry_info details)

  unfoldable pub extract_grpc_retry_hint : GrpcStatus → Option ℕ
  extract_grpc_retry_hint status = elim (pushback_hint status.pushback_ms) [
    | some h ↦ some h
    | none ↦ extract_retry_info_from_details status.details
  ]

  unfoldable pub grpc_status_to_outcome : GrpcStatus → DeliveryOutcome
  grpc_status_to_outcome status = grpc_code_to_outcome status.code (extract_grpc_retry_hint status)
