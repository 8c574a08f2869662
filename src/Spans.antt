-- ===== src/Spans.antt =====
-- traces/mod.rs: the span record of the ring, `emit_span_record` and `parse_span_record`.
pub mod Parse
pub mod Size
pub mod Sent
pub mod RoundTrip
pub mod Runs
use ngx_otel_rust.Base.{
  ℕ, zero, suc, ◌+◌, ◌*◌, ◌/◌, ◌%◌, Bool, true, false, List, [], ◌∷◌, ◌++◌, if◌then◌else◌, length,
  take, min,
}
use ngx_otel_rust.Base.Bytes.{be_bytes}
use ngx_otel_rust.Ring.{WorkerSignalRing, push}
use ngx_otel_rust.Wire.{write_capped}

-- The caps, the first four of logs/access.rs.
abbrev pub max_url_path : ℕ
max_url_path = 64

abbrev pub max_user_agent : ℕ
max_user_agent = 128

abbrev pub max_client_addr : ℕ
max_client_addr = 46

abbrev pub max_method : ℕ
max_method = 16

abbrev pub max_span_name : ℕ
max_span_name = 64

abbrev pub max_url_query : ℕ
max_url_query = 128

abbrev pub max_span_route : ℕ
max_span_route = 64

abbrev pub max_server_addr : ℕ
max_server_addr = 64

abbrev pub max_span_extra_attrs : ℕ
max_span_extra_attrs = 4

abbrev pub max_span_attr_key : ℕ
max_span_attr_key = 32

abbrev pub max_span_attr_val : ℕ
max_span_attr_val = 64

abbrev pub span_record_fixed_hdr : ℕ
span_record_fixed_hdr = 16 + 8 + 8 + 4 + 8 + 8 + 1 + 1

abbrev pub span_record_worst_case : ℕ
span_record_worst_case =
    span_record_fixed_hdr
    + (2 + max_span_name)
    + (2 + max_method)
    + 2
    + (2 + max_url_path)
    + 8
    + 1
    + 1
    + 2
    + 2
    + 2
    + 8
    + 8
    + (2 + max_url_query)
    + (2 + max_span_route)
    + (2 + max_user_agent)
    + (2 + max_server_addr)
    + (2 + max_client_addr)
    + (2 + max_client_addr)
    + 2
    + max_span_extra_attrs * (1 + max_span_attr_key + 2 + max_span_attr_val)

-- `(n + 15) & !15`.
abbrev pub max_span_record : ℕ
max_span_record = (span_record_worst_case + 15) / 16 * 16

pub record SpanRecord : Type 0 where
  pub trace_id : List ℕ
  pub span_id : List ℕ
  pub parent_span_id : List ℕ
  pub flags : ℕ
  pub start_time_unix_nano : ℕ
  pub end_time_unix_nano : ℕ
  pub status_code : ℕ
  pub kind : ℕ
  pub name : List ℕ
  pub method : List ℕ
  pub http_status : ℕ
  pub url_path : List ℕ
  pub duration_us : ℕ
  pub proto : ℕ
  pub scheme_https : Bool
  pub server_port : ℕ
  pub client_port : ℕ
  pub peer_port : ℕ
  pub req_body_size : ℕ
  pub resp_body_size : ℕ
  pub url_query : List ℕ
  pub route : List ℕ
  pub user_agent : List ℕ
  pub server_address : List ℕ
  pub client_address : List ℕ
  pub peer_address : List ℕ
  pub extra_attrs : List (List ℕ × List ℕ)

abbrev pub from_bool : Bool → ℕ
from_bool b = if b then 1 else 0

-- The fixed header. The stages of the writer take the bytes that the later ones write.
unfoldable pub write_header : SpanRecord → List ℕ → List ℕ
write_header rec tail =
    rec.trace_id
    ++ (rec.span_id
        ++ (rec.parent_span_id
            ++ (be_bytes 4 rec.flags
                ++ (be_bytes 8 rec.start_time_unix_nano
                    ++ (be_bytes 8 rec.end_time_unix_nano
                        ++ (be_bytes 1 rec.status_code ++ (be_bytes 1 rec.kind ++ tail)))))))

unfoldable pub write_request : SpanRecord → List ℕ → List ℕ
write_request rec tail =
    write_capped rec.name max_span_name
    ++ (write_capped rec.method max_method
        ++ (be_bytes 2 rec.http_status
            ++ (write_capped rec.url_path max_url_path ++ (be_bytes 8 rec.duration_us ++ tail))))

unfoldable pub write_network : SpanRecord → List ℕ → List ℕ
write_network rec tail =
    be_bytes 1 rec.proto
    ++ (be_bytes 1 (from_bool rec.scheme_https)
        ++ (be_bytes 2 rec.server_port
            ++ (be_bytes 2 rec.client_port
                ++ (be_bytes 2 rec.peer_port
                    ++ (be_bytes 8 rec.req_body_size ++ (be_bytes 8 rec.resp_body_size ++ tail))))))

unfoldable pub write_texts : SpanRecord → List ℕ → List ℕ
write_texts rec tail =
    write_capped rec.url_query max_url_query
    ++ (write_capped rec.route max_span_route
        ++ (write_capped rec.user_agent max_user_agent
            ++ (write_capped rec.server_address max_server_addr
                ++ (write_capped rec.client_address max_client_addr
                    ++ (write_capped rec.peer_address max_client_addr ++ tail)))))

unfoldable pub write_attr : List ℕ × List ℕ → List ℕ → List ℕ
write_attr kv tail =
    let k = take max_span_attr_key kv.0 in
    let v = take max_span_attr_val kv.1 in
    be_bytes 1 (length k) ++ (k ++ (be_bytes 2 (length v) ++ (v ++ tail)))

unfoldable pub write_attrs : List (List ℕ × List ℕ) → List ℕ
write_attrs [] = []
write_attrs (kv ∷ attrs) = write_attr kv (write_attrs attrs)

-- The bytes `buf[..pos]`.
unfoldable pub span_bytes : SpanRecord → List ℕ
span_bytes rec =
    let attrs = take max_span_extra_attrs rec.extra_attrs in
    write_header rec (
      write_request rec
        (write_network rec (write_texts rec (be_bytes 2 (length attrs) ++ write_attrs attrs))))

unfoldable pub emit_span_record : WorkerSignalRing → SpanRecord → Bool × WorkerSignalRing
emit_span_record producer rec = push producer (span_bytes rec)
