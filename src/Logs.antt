-- ===== src/Logs.antt =====
-- The log records of the ring: logs/access.rs `emit_access_record`, logs/error_writer.rs
-- `push_error_record`, and their parsers in drain/mod.rs.
pub mod RoundTrip
pub mod Size
mod Runs
use ngx_otel_rust.Base.{
  ℕ, zero, suc, ◌+◌, ◌*◌, ◌/◌, ◌%◌, ◌^◌, Bool, true, false, not, ◌&&◌, Option, none, some, List, [],
  ◌∷◌, ◌++◌, ltb, leb, ◌==◌, if◌then◌else◌, ◌>>=◌, ◌>>◌, guard, length, take, drop, is_empty, min,
  unwrap_or,
}
use ngx_otel_rust.Base.Bytes.{be_bytes}
use ngx_otel_rust.Base.Text.{codes, from_utf8_lossy}
use ngx_otel_rust.DataModel.{AnyValue, string, int, double, KeyValue, LogRecord, SeverityNumber}
use ngx_otel_rust.Ring.{WorkerSignalRing, push}
use ngx_otel_rust.Spans.{max_url_path, max_user_agent, max_client_addr, max_method}
use ngx_otel_rust.Wire.{write_capped, take_bytes, read_be, read_capped_str}

abbrev pub kind_access : ℕ
kind_access = 0

abbrev pub kind_error : ℕ
kind_error = 1

abbrev pub ngx_level_info : ℕ
ngx_level_info = 7

abbrev pub access_record_worst_case : ℕ
access_record_worst_case =
    1
    + 8
    + 1
    + (2 + max_method)
    + 2
    + 8
    + 8
    + (2 + max_client_addr)
    + (1 + 16 + 8)
    + (2 + max_url_path)
    + (2 + max_user_agent)
    + 8

abbrev pub max_access_record : ℕ
max_access_record = 336

abbrev pub error_record_hdr : ℕ
error_record_hdr = 20

abbrev pub max_error_body_len : ℕ
max_error_body_len = 512

-- `combo_idx` goes to the other sink only.
pub record SampledRequest : Type 0 where
  pub ts_unix_nano : ℕ
  pub trace : Option (List ℕ × List ℕ)
  pub url_path : List ℕ
  pub user_agent : List ℕ
  pub duration_us : ℕ
  pub combo_idx : ℕ
  pub method : List ℕ
  pub status : ℕ
  pub request_length : ℕ
  pub response_bytes : ℕ
  pub client_addr : List ℕ

unfoldable pub write_trace : Option (List ℕ × List ℕ) → List ℕ → List ℕ
write_trace none tail = be_bytes 1 0 ++ tail
write_trace (some ids) tail = be_bytes 1 1 ++ (ids.0 ++ (ids.1 ++ tail))

unfoldable pub access_bytes : SampledRequest → List ℕ
access_bytes req =
    be_bytes 1 kind_access
    ++ (be_bytes 8 req.ts_unix_nano
        ++ (be_bytes 1 ngx_level_info
            ++ (write_capped req.method max_method
                ++ (be_bytes 2 req.status
                    ++ (be_bytes 8 req.request_length
                        ++ (be_bytes 8 req.response_bytes
                            ++ (write_capped req.client_addr max_client_addr
                                ++ write_trace req.trace (
                                    write_capped req.url_path max_url_path
                                    ++ (write_capped req.user_agent max_user_agent
                                        ++ be_bytes 8 req.duration_us)))))))))

unfoldable pub emit_access_record : WorkerSignalRing → SampledRequest → Bool × WorkerSignalRing
emit_access_record producer req = push producer (access_bytes req)

unfoldable pub error_bytes : ℕ → ℕ → ℕ → List ℕ → List ℕ
error_bytes ts_ns ngx_level template_hash body =
    be_bytes 1 kind_error
    ++ (be_bytes 8 ts_ns
        ++ (be_bytes 1 ngx_level
            ++ (be_bytes 8 template_hash
                ++ (be_bytes 2 (min (length body) max_error_body_len)
                    ++ take max_error_body_len body))))

unfoldable pub push_error_record : WorkerSignalRing → ℕ → ℕ → ℕ → List ℕ → Bool × WorkerSignalRing
push_error_record ring ts_ns ngx_level template_hash body =
    push ring (error_bytes ts_ns ngx_level template_hash body)

unfoldable pub nginx_to_otel : ℕ → SeverityNumber × List ℕ
nginx_to_otel ngx_level =
    if ngx_level == 1
    then (SeverityNumber.fatal4, codes "emerg")
    else if ngx_level == 2
    then (SeverityNumber.fatal2, codes "alert")
    else if ngx_level == 3
    then (SeverityNumber.fatal, codes "crit")
    else if ngx_level == 4
    then (SeverityNumber.error, codes "error")
    else if ngx_level == 5
    then (SeverityNumber.warn, codes "warn")
    else if ngx_level == 6
    then (SeverityNumber.info2, codes "notice")
    else if ngx_level == 7
    then (SeverityNumber.info, codes "info")
    else if ngx_level == 8
    then (SeverityNumber.debug, codes "debug")
    else (SeverityNumber.unspecified, [])

-- The trace identifiers, and the bytes after them; a truncated record has none.
unfoldable pub parse_trace : List ℕ → List ℕ × List ℕ × List ℕ
parse_trace r = elim (read_be 1 r) [
  | none ↦ ([], [], r)
  | some (has_trace, r1) ↦
      if (has_trace == 1) && leb 24 (length r1)
      then (take 16 r1, take 8 (drop 16 r1), drop 24 r1)
      else ([], [], r1)
]

-- Empty on truncation.
unfoldable pub read_u16_prefixed : List ℕ → List ℕ × List ℕ
read_u16_prefixed r = elim (read_be 2 r) [
  | none ↦ ([], r)
  | some (len, r1) ↦ elim (take_bytes len r1) [ none ↦ ([], r1) | some (v, r2) ↦ (v, r2) ]
]

unfoldable pub parse_client_addr : List ℕ → Option (List ℕ × List ℕ)
parse_client_addr r = do
  (addr_len, r1) ← read_be 2 r
  some (elim (take_bytes addr_len r1) [ none ↦ ([], r1) | some (s, r2) ↦ (from_utf8_lossy s, r2) ])

unfoldable pub parse_duration : List ℕ → Option ℕ
parse_duration r = elim (read_be 8 r) [ none ↦ none | some (us, r') ↦ some us ]

abbrev pub attr : List ℕ → AnyValue → List KeyValue
attr k v = record { key = k; value = v } ∷ []

abbrev pub lossy_attr : List ℕ → List ℕ → List KeyValue
lossy_attr k v = if is_empty v then [] else attr k (string (from_utf8_lossy v))

abbrev pub duration_attr : Option ℕ → List KeyValue
duration_attr none = []
duration_attr (some us) = attr (codes "http.server.request.duration") (double us)

unfoldable pub access_attributes :
    List ℕ → ℕ → ℕ → ℕ → List ℕ → List ℕ → List ℕ → Option ℕ → List KeyValue
access_attributes method status req_len resp_bytes client_addr url_path user_agent duration_us =
    attr (codes "http.request.method") (string method)
    ++ (attr (codes "http.response.status_code") (int status)
        ++ (attr (codes "http.server.request.body.size") (int req_len)
            ++ (attr (codes "http.server.response.body.size") (int resp_bytes)
                ++ (attr (codes "client.address") (string client_addr)
                    ++ (lossy_attr (codes "url.path") url_path
                        ++ (lossy_attr (codes "user_agent.original") user_agent
                            ++ duration_attr duration_us))))))

unfoldable pub parse_access_record : List ℕ → ℕ → Option LogRecord
parse_access_record buf observed_now_ns = do
  guard (not (ltb (length buf) 32))
  (kind, r1) ← read_be 1 buf
  guard (kind == kind_access)
  (ts, r2) ← read_be 8 r1
  (ngx_level, r3) ← read_be 1 r2
  (method, r4) ← read_capped_str r3
  (status, r5) ← read_be 2 r4
  (req_len, r6) ← read_be 8 r5
  (resp_bytes, r7) ← read_be 8 r6
  (client_addr, r8) ← parse_client_addr r7
  let (trace_id, span_id, r9) = parse_trace r8
  let (url_path, r10) = read_u16_prefixed r9
  let (user_agent, r11) = read_u16_prefixed r10
  some (record {
    time_unix_nano = ts;
    observed_time_unix_nano = observed_now_ns;
    severity_number = (nginx_to_otel ngx_level).0;
    severity_text = (nginx_to_otel ngx_level).1;
    body = string [];
    attributes =
        access_attributes method status req_len resp_bytes client_addr url_path user_agent
          (parse_duration r11);
    event_name = codes "http.access";
    trace_id = trace_id;
    span_id = span_id;
  })

-- `counts_map` has the occurrences of each template in the interval.
unfoldable pub error_attributes : ℕ → (ℕ → Option ℕ) → List KeyValue
error_attributes template_hash counts_map =
    if template_hash == 0
    then []
    else let count = unwrap_or (counts_map template_hash) 0 in
      attr (codes "nginx.error.template_hash") (int template_hash)
      ++ (if ltb 1 count then attr (codes "nginx.error.coalesced_count") (int count) else [])

unfoldable pub parse_error_record : List ℕ → ℕ → (ℕ → Option ℕ) → Option LogRecord
parse_error_record buf observed_now_ns counts_map = do
  guard (not (ltb (length buf) error_record_hdr))
  (kind, r1) ← read_be 1 buf
  guard (kind == kind_error)
  (ts, r2) ← read_be 8 r1
  (ngx_level, r3) ← read_be 1 r2
  (template_hash, r4) ← read_be 8 r3
  (body_str, r5) ← read_capped_str r4
  some (record {
    time_unix_nano = ts;
    observed_time_unix_nano = observed_now_ns;
    severity_number = (nginx_to_otel ngx_level).0;
    severity_text = (nginx_to_otel ngx_level).1;
    body = string body_str;
    attributes = error_attributes template_hash counts_map;
    event_name = codes "nginx.error";
    trace_id = [];
    span_id = [];
  })

-- The record, and the template to mark consumed: only of a record that parsed.
unfoldable pub parse_error_record_consuming :
    List ℕ → ℕ → (ℕ → Option ℕ) → Option LogRecord × Option ℕ
parse_error_record_consuming buf observed_now_ns counts_map =
    elim (parse_error_record buf observed_now_ns counts_map) [
      | none ↦ (none, none)
      | some lr ↦ elim (read_be 8 (drop 10 buf)) [
        | none ↦ (some lr, none)
        | some (th, r) ↦ (some lr, if th == 0 then none else some th)
      ]
    ]
