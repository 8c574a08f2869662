-- ===== src/Logs/Size.antt =====
-- The lengths of the log records: they fit their stack buffers (logs/access.rs,
-- logs/error_writer.rs).
use ngx_otel_rust.Base.{
  ℕ, ◌+◌, ◌≤◌, ◌≡◌, List, ◌++◌, arith, length, length-append, length-take, min, Option, none, some,
}
use Prim.{Unit}
use ngx_otel_rust.Base.Bytes.{be_bytes, length-be_bytes}
use ngx_otel_rust.Wire.{write_capped, length-take_cap}
use ngx_otel_rust.Spans.{max_url_path, max_user_agent, max_client_addr, max_method}
use ngx_otel_rust.Spans.Size.{cut}
use ngx_otel_rust.Logs.{
  SampledRequest, write_trace, access_bytes, access_record_worst_case, max_access_record,
  error_bytes, error_record_hdr, max_error_body_len,
}

-- The identifiers have their fixed sizes.
abbrev pub IsTrace : Option (List ℕ × List ℕ) → Type 0
IsTrace none = Unit
IsTrace (some ids) = (length ids.0 ≡ 16) × (length ids.1 ≡ 8)

length-write_trace :
    (trace : Option (List ℕ × List ℕ)) (tail : List ℕ)
    → IsTrace trace
    → length (write_trace trace tail) ≤ 25 + length tail
unfolding write_trace
length-write_trace none tail h =
    omega (arith, length-append (be_bytes 1 0) tail, length-be_bytes 1 0)
length-write_trace (some ids) tail h = omega (arith, sizes, h.0, h.1)
  where
    sizes :
        length (be_bytes 1 1 ++ (ids.0 ++ (ids.1 ++ tail)))
        ≡ 1 + length ids.0 + length ids.1 + length tail
    sizes = simp (length-append, length-be_bytes) (omega arith)

-- The bytes behind the trace identifiers.
abbrev pub access_tail : SampledRequest → List ℕ
access_tail req =
    write_capped req.url_path max_url_path
    ++ (write_capped req.user_agent max_user_agent ++ be_bytes 8 req.duration_us)

length-access_tail :
    (req : SampledRequest)
    → length (access_tail req)
      ≡ 12 + cut max_url_path req.url_path + cut max_user_agent req.user_agent
length-access_tail req = simp (length-append, length-be_bytes) (omega arith)

pub length-access_bytes :
    (req : SampledRequest)
    → length (access_bytes req)
      ≡ 32
        + cut max_method req.method
        + cut max_client_addr req.client_addr
        + length (write_trace req.trace (access_tail req))
unfolding access_bytes
length-access_bytes req = simp (length-append, length-be_bytes) (omega arith)

-- With trace identifiers of 16 and 8 bytes, the access record is at least the 32 bytes that its
-- parser asks for, and no longer than the worst case, which fits the buffer.
pub access_bytes_fits :
    (req : SampledRequest)
    → IsTrace req.trace
    → (32 ≤ length (access_bytes req))
      × (length (access_bytes req) ≤ access_record_worst_case)
      × (access_record_worst_case ≤ max_access_record)
access_bytes_fits req h = (
  omega (arith, length-access_bytes req),
  omega (
    arith,
    length-access_bytes req,
    length-write_trace req.trace (access_tail req) h,
    length-access_tail req,
    length-take_cap max_method req.method,
    length-take_cap max_client_addr req.client_addr,
    length-take_cap max_url_path req.url_path,
    length-take_cap max_user_agent req.user_agent,
  ),
  omega arith,
)

-- An error record is its header and at most 512 bytes of the line.
pub length-error_bytes :
    (ts_ns ngx_level template_hash : ℕ) (body : List ℕ)
    → length (error_bytes ts_ns ngx_level template_hash body)
      ≡ error_record_hdr + min (length body) max_error_body_len
unfolding error_bytes
length-error_bytes ts_ns ngx_level template_hash body =
    simp (length-append, length-be_bytes) (omega (arith, length-take max_error_body_len body))
