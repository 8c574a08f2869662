-- ===== src/Logs/RoundTrip.antt =====
-- The exporter reads back what the workers logged (logs/access.rs, logs/error_writer.rs,
-- drain/mod.rs).
use ngx_otel_rust.Base.{
  ℕ, ◌^◌, ◌<◌, ◌≡◌, refl, sym, ap, ◌∙◌, true, Option, none, some, List, [], ◌∷◌, ◌++◌, append-nil,
  append_assoc, arith, leb, ◌==◌, if◌then◌else◌, length, length-append, length-take, take, drop,
  min, le→ltb_false, le→leb, take-append_at, drop-append_at,
}
use ngx_otel_rust.Base.Bytes.{be_bytes}
use ngx_otel_rust.Base.Text.{codes, from_utf8_lossy}
use ngx_otel_rust.DataModel.{AnyValue, string, int, double, SeverityNumber, LogRecord}
use ngx_otel_rust.DataModel.Fields.{present, decoded, present_nil, present-some, present-decoded}
use ngx_otel_rust.Wire.{
  write_capped, read_capped_str, take_bytes-append, read_be-be_bytes, read_capped_str-write_capped,
  length-take_cap,
}
use ngx_otel_rust.Spans.{max_url_path, max_user_agent, max_client_addr, max_method}
use ngx_otel_rust.Logs.{
  SampledRequest, kind_access, kind_error, ngx_level_info, write_trace, access_bytes, nginx_to_otel,
  parse_trace, read_u16_prefixed, parse_client_addr, parse_duration, access_attributes,
  parse_access_record, error_bytes, parse_error_record, parse_error_record_consuming,
  error_attributes, error_record_hdr, max_error_body_len,
}
use ngx_otel_rust.Logs.Size.{IsTrace, access_tail, access_bytes_fits, length-error_bytes}

-- The fields fit the types of the source.
pub record IsValid (req : SampledRequest) : Type 0 where
  pub ts : req.ts_unix_nano < 2 ^ 64
  pub trace : IsTrace req.trace
  pub status : req.status < 2 ^ 16
  pub request_length : req.request_length < 2 ^ 64
  pub response_bytes : req.response_bytes < 2 ^ 64
  pub duration_us : req.duration_us < 2 ^ 64

abbrev pub trace_ids : Option (List ℕ × List ℕ) → List ℕ × List ℕ
trace_ids none = ([], [])
trace_ids (some ids) = (ids.0, ids.1)

parse_trace-write_trace :
    (trace : Option (List ℕ × List ℕ)) (tail : List ℕ)
    → IsTrace trace
    → parse_trace (write_trace trace tail) ≡ ((trace_ids trace).0, (trace_ids trace).1, tail)
unfolding parse_trace write_trace
parse_trace-write_trace none tail h = rw (read_be-be_bytes 1 0 tail (omega arith), parse_trace) refl
parse_trace-write_trace (some ids) tail h =
    let whole = ids.0 ++ (ids.1 ++ tail) in
    let enough : leb 24 (length whole) ≡ true =
      le→leb 24 (length whole)
        (omega (arith, h.0, h.1, length-append ids.0 (ids.1 ++ tail), length-append ids.1 tail)) in
    let after : drop 24 whole ≡ tail =
      ap (drop 24) (sym (append_assoc ids.0 ids.1 tail))
      ∙ drop-append_at 24 (ids.0 ++ ids.1) tail
          (omega (arith, h.0, h.1, length-append ids.0 ids.1)) in
    rw
      (
        read_be-be_bytes 1 1 whole (omega arith),
        parse_trace,
        enough,
        take-append_at 16 ids.0 (ids.1 ++ tail) h.0,
        drop-append_at 16 ids.0 (ids.1 ++ tail) h.0,
        take-append_at 8 ids.1 tail h.1,
        after,
      )
      refl

read_u16_prefixed-write_capped :
    (raw : List ℕ) (max : ℕ) (r : List ℕ)
    → max < 2 ^ 16
    → read_u16_prefixed (write_capped raw max ++ r) ≡ (take max raw, r)
unfolding read_u16_prefixed
read_u16_prefixed-write_capped raw max r h =
    let bs = take max raw in
    rw
      (
        append_assoc (be_bytes 2 (length bs)) bs r,
        read_be-be_bytes 2 (length bs) (bs ++ r) (omega (arith, length-take_cap max raw)),
        read_u16_prefixed,
        take_bytes-append (length bs) bs r refl,
      )
      refl

parse_client_addr-write_capped :
    (raw : List ℕ) (r : List ℕ)
    → parse_client_addr (write_capped raw max_client_addr ++ r)
      ≡ some (from_utf8_lossy (take max_client_addr raw), r)
unfolding parse_client_addr
parse_client_addr-write_capped raw r =
    let bs = take max_client_addr raw in
    rw (
      append_assoc (be_bytes 2 (length bs)) bs r,
      read_be-be_bytes 2 (length bs) (bs ++ r) (omega (arith, length-take_cap max_client_addr raw)),
      take_bytes-append (length bs) bs r refl,
    )

parse_duration-be_bytes : (us : ℕ) → us < 2 ^ 64 → parse_duration (be_bytes 8 us) ≡ some us
unfolding parse_duration
parse_duration-be_bytes us h =
    rw (sym (append-nil (be_bytes 8 us)), read_be-be_bytes 8 us [] h, parse_duration) refl

nginx_to_otel-info : nginx_to_otel ngx_level_info ≡ (SeverityNumber.info, codes "info")
unfolding nginx_to_otel
nginx_to_otel-info = refl

-- The fields of an access record, by the names of the conventions. The texts are cut at their caps.
abbrev pub access_fields : SampledRequest → List (List ℕ × Option AnyValue)
access_fields req =
    (codes "http.request.method", some (string (from_utf8_lossy (take max_method req.method))))
    ∷ (codes "http.response.status_code", some (int req.status))
    ∷ (codes "http.server.request.body.size", some (int req.request_length))
    ∷ (codes "http.server.response.body.size", some (int req.response_bytes))
    ∷ (
      codes "client.address",
      some (string (from_utf8_lossy (take max_client_addr req.client_addr))),
    )
    ∷ (codes "url.path", decoded (take max_url_path req.url_path))
    ∷ (codes "user_agent.original", decoded (take max_user_agent req.user_agent))
    ∷ (codes "http.server.request.duration", some (double req.duration_us))
    ∷ []

access_attributes-present :
    (req : SampledRequest)
    → access_attributes
        (from_utf8_lossy (take max_method req.method))
        req.status
        req.request_length
        req.response_bytes
        (from_utf8_lossy (take max_client_addr req.client_addr))
        (take max_url_path req.url_path)
        (take max_user_agent req.user_agent)
        (some req.duration_us)
      ≡ present (access_fields req)
unfolding access_attributes
access_attributes-present req = simp (present-some, present-decoded, present_nil) refl

-- What the exporter is to read from an access record.
abbrev pub access_log : SampledRequest → ℕ → LogRecord
access_log req observed_now_ns = record {
  time_unix_nano = req.ts_unix_nano;
  observed_time_unix_nano = observed_now_ns;
  severity_number = SeverityNumber.info;
  severity_text = codes "info";
  body = string [];
  attributes = present (access_fields req);
  event_name = codes "http.access";
  trace_id = (trace_ids req.trace).0;
  span_id = (trace_ids req.trace).1;
}

-- The exporter reads back from an access record what the worker put into it, each field under its own
-- name and every text cut at its cap and decoded; an empty path or user agent has no attribute, and the
-- trace identifiers are there or both empty. The record has level info, an empty body and the event name
-- `http.access`.
pub parse_access_record-access_bytes :
    (req : SampledRequest) (observed_now_ns : ℕ)
    → IsValid req
    → parse_access_record (access_bytes req) observed_now_ns ≡ some (access_log req observed_now_ns)
unfolding parse_access_record access_bytes
parse_access_record-access_bytes req observed_now_ns v =
    let agent = write_capped req.user_agent max_user_agent ++ be_bytes 8 req.duration_us in
    let rest = write_trace req.trace (access_tail req) in
    rw (
      le→ltb_false _ 32 (access_bytes_fits req v.trace).0,
      read_be-be_bytes 1 kind_access _ (omega arith),
      read_be-be_bytes 8 req.ts_unix_nano _ v.ts,
      read_be-be_bytes 1 ngx_level_info _ (omega arith),
      read_capped_str-write_capped req.method max_method _ (omega arith),
      read_be-be_bytes 2 req.status _ v.status,
      read_be-be_bytes 8 req.request_length _ v.request_length,
      read_be-be_bytes 8 req.response_bytes _ v.response_bytes,
      parse_client_addr-write_capped req.client_addr rest,
      parse_trace-write_trace req.trace (access_tail req) v.trace,
      read_u16_prefixed-write_capped req.url_path max_url_path agent (omega arith),
      read_u16_prefixed-write_capped req.user_agent max_user_agent (be_bytes 8 req.duration_us)
          (omega arith),
      parse_duration-be_bytes req.duration_us v.duration_us,
      access_attributes-present req,
      nginx_to_otel-info,
    )

-- What the exporter is to read from an error record.
abbrev pub error_log : ℕ → ℕ → ℕ → List ℕ → ℕ → (ℕ → Option ℕ) → LogRecord
error_log ts_ns ngx_level template_hash body observed_now_ns counts_map = record {
  time_unix_nano = ts_ns;
  observed_time_unix_nano = observed_now_ns;
  severity_number = (nginx_to_otel ngx_level).0;
  severity_text = (nginx_to_otel ngx_level).1;
  body = string (from_utf8_lossy (take max_error_body_len body));
  attributes = error_attributes template_hash counts_map;
  event_name = codes "nginx.error";
  trace_id = [];
  span_id = [];
}

read_body :
    (body : List ℕ)
    → read_capped_str
        (be_bytes 2 (min (length body) max_error_body_len) ++ take max_error_body_len body)
      ≡ some (from_utf8_lossy (take max_error_body_len body), [])
read_body body =
    let bs = take max_error_body_len body in
    let len : min (length body) max_error_body_len ≡ length bs =
      omega (arith, length-take max_error_body_len body) in
    ap read_capped_str
      (ap (λ n. be_bytes 2 n ++ bs) len ∙ sym (append-nil (be_bytes 2 (length bs) ++ bs)))
    ∙ read_capped_str-write_capped body max_error_body_len [] (omega arith)

parse_error_record-error_bytes :
    (ts_ns ngx_level template_hash : ℕ) (body : List ℕ) (observed_now_ns : ℕ)
    (counts_map : ℕ → Option ℕ)
    → ts_ns < 2 ^ 64
    → ngx_level < 256
    → template_hash < 2 ^ 64
    → parse_error_record (error_bytes ts_ns ngx_level template_hash body) observed_now_ns counts_map
      ≡ some (error_log ts_ns ngx_level template_hash body observed_now_ns counts_map)
unfolding parse_error_record error_bytes
parse_error_record-error_bytes ts_ns ngx_level template_hash body observed_now_ns counts_map t l h =
    rw (
      le→ltb_false (length (error_bytes ts_ns ngx_level template_hash body)) error_record_hdr
          (omega (arith, length-error_bytes ts_ns ngx_level template_hash body)),
      read_be-be_bytes 1 kind_error _ (omega arith),
      read_be-be_bytes 8 ts_ns _ t,
      read_be-be_bytes 1 ngx_level _ l,
      read_be-be_bytes 8 template_hash _ h,
      read_body body,
    )

drop-error_bytes :
    (ts_ns ngx_level template_hash : ℕ) (body : List ℕ)
    → drop 10 (error_bytes ts_ns ngx_level template_hash body)
      ≡ be_bytes 8 template_hash
        ++ (be_bytes 2 (min (length body) max_error_body_len) ++ take max_error_body_len body)
unfolding error_bytes be_bytes
drop-error_bytes ts_ns ngx_level template_hash body = refl

-- An error record is read back as the line cut at 512 bytes with its level and time, and the
-- template that is marked as consumed is exactly its own, if it has one.
pub parse_error_record_consuming-error_bytes :
    (ts_ns ngx_level template_hash : ℕ) (body : List ℕ) (observed_now_ns : ℕ)
    (counts_map : ℕ → Option ℕ)
    → ts_ns < 2 ^ 64
    → ngx_level < 256
    → template_hash < 2 ^ 64
    → parse_error_record_consuming
        (error_bytes ts_ns ngx_level template_hash body)
        observed_now_ns
        counts_map
      ≡ (
        some (error_log ts_ns ngx_level template_hash body observed_now_ns counts_map),
        if template_hash == 0 then none else some template_hash,
      )
unfolding parse_error_record_consuming
parse_error_record_consuming-error_bytes ts_ns ngx_level template_hash body observed_now_ns
      counts_map t l h =
    rw
      (
        parse_error_record_consuming,
        parse_error_record-error_bytes ts_ns ngx_level template_hash body observed_now_ns counts_map
            t l h,
        drop-error_bytes ts_ns ngx_level template_hash body,
        read_be-be_bytes 8 template_hash
            (be_bytes 2 (min (length body) max_error_body_len) ++ take max_error_body_len body) h,
      )
      refl

-- A record that does not parse consumes no template.
pub parse_error_record_consuming-none :
    (buf : List ℕ) (observed_now_ns : ℕ) (counts_map : ℕ → Option ℕ)
    → (parse_error_record_consuming buf observed_now_ns counts_map).0 ≡ none
    → (parse_error_record_consuming buf observed_now_ns counts_map).1 ≡ none
unfolding parse_error_record_consuming
parse_error_record_consuming-none buf observed_now_ns counts_map h = ground (arith, h)
