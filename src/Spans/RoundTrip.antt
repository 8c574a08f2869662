-- ===== src/Spans/RoundTrip.antt =====
-- `parse_span_record` reads back what `emit_span_record` wrote (traces/mod.rs).
use ngx_otel_rust.Base.{
  ℕ, ◌^◌, ◌≤◌, ◌<◌, ◌≡◌, refl, ap, ◌∙◌, Bool, true, false, not, some, List, [], ◌∷◌, ◌++◌,
  le→ltb_false, arith, ltb, ◌==◌, length, length-take, take, min,
}
use ngx_otel_rust.Base.Bytes.{be_bytes}
use ngx_otel_rust.Wire.{
  take_bytes-append, read_be-be_bytes, read_capped_str-write_capped, length-take_cap,
}
use ngx_otel_rust.Spans.{
  SpanRecord, from_bool, write_header, write_request, write_network, write_texts, write_attr,
  write_attrs, span_bytes, max_span_name, max_method, max_url_path, max_url_query, max_span_route,
  max_user_agent, max_server_addr, max_client_addr, max_span_attr_key, max_span_attr_val,
  max_span_extra_attrs,
}
use ngx_otel_rust.Spans.Sent.{
  header_of, request_of, network_of, texts_of, attr_of, attrs_of, sent_span, span_of-sent_span,
}
use ngx_otel_rust.Spans.Size.{length-write_header, length-write_request}
use ngx_otel_rust.Spans.Parse.{
  parse_header, parse_request, parse_network, parse_texts, parse_attr, parse_attrs, parse_extra,
  parse_span_record,
}

-- The fields fit the types of the source.
pub record IsValid (rec : SpanRecord) : Type 0 where
  pub trace_id : length rec.trace_id ≡ 16
  pub span_id : length rec.span_id ≡ 8
  pub parent_span_id : length rec.parent_span_id ≡ 8
  pub flags : rec.flags < 2 ^ 32
  pub start : rec.start_time_unix_nano < 2 ^ 64
  pub end : rec.end_time_unix_nano < 2 ^ 64
  pub status_code : rec.status_code < 256
  pub kind : rec.kind < 256
  pub http_status : rec.http_status < 2 ^ 16
  pub duration_us : rec.duration_us < 2 ^ 64
  pub proto : rec.proto < 256
  pub server_port : rec.server_port < 2 ^ 16
  pub client_port : rec.client_port < 2 ^ 16
  pub peer_port : rec.peer_port < 2 ^ 16
  pub req_body_size : rec.req_body_size < 2 ^ 64
  pub resp_body_size : rec.resp_body_size < 2 ^ 64

parse_header-write_header :
    (rec : SpanRecord) (tail : List ℕ)
    → IsValid rec
    → parse_header (write_header rec tail) ≡ some (header_of rec, tail)
unfolding parse_header write_header
parse_header-write_header rec tail v = rw (
  take_bytes-append 16 rec.trace_id _ v.trace_id,
  take_bytes-append 8 rec.span_id _ v.span_id,
  take_bytes-append 8 rec.parent_span_id _ v.parent_span_id,
  read_be-be_bytes 4 rec.flags _ v.flags,
  read_be-be_bytes 8 rec.start_time_unix_nano _ v.start,
  read_be-be_bytes 8 rec.end_time_unix_nano _ v.end,
  read_be-be_bytes 1 rec.status_code _ v.status_code,
  read_be-be_bytes 1 rec.kind _ v.kind,
)

parse_request-write_request :
    (rec : SpanRecord) (tail : List ℕ)
    → IsValid rec
    → parse_request (write_request rec tail) ≡ some (request_of rec, tail)
unfolding parse_request write_request
parse_request-write_request rec tail v = rw (
  read_capped_str-write_capped rec.name max_span_name _ (omega arith),
  read_capped_str-write_capped rec.method max_method _ (omega arith),
  read_be-be_bytes 2 rec.http_status _ v.http_status,
  read_capped_str-write_capped rec.url_path max_url_path _ (omega arith),
  read_be-be_bytes 8 rec.duration_us _ v.duration_us,
)

from_bool_back : (b : Bool) → (from_bool b < 256) × (not (from_bool b == 0) ≡ b)
from_bool_back true = (omega arith, refl)
from_bool_back false = (omega arith, refl)

parse_network-write_network :
    (rec : SpanRecord) (tail : List ℕ)
    → IsValid rec
    → parse_network (write_network rec tail) ≡ some (network_of rec, tail)
unfolding parse_network write_network
parse_network-write_network rec tail v = rw (
  read_be-be_bytes 1 rec.proto _ v.proto,
  read_be-be_bytes 1 (from_bool rec.scheme_https) _ (from_bool_back rec.scheme_https).0,
  read_be-be_bytes 2 rec.server_port _ v.server_port,
  read_be-be_bytes 2 rec.client_port _ v.client_port,
  read_be-be_bytes 2 rec.peer_port _ v.peer_port,
  read_be-be_bytes 8 rec.req_body_size _ v.req_body_size,
  read_be-be_bytes 8 rec.resp_body_size _ v.resp_body_size,
  (from_bool_back rec.scheme_https).1,
)

parse_texts-write_texts :
    (rec : SpanRecord) (tail : List ℕ)
    → parse_texts (write_texts rec tail) ≡ some (texts_of rec, tail)
unfolding parse_texts write_texts
parse_texts-write_texts rec tail = rw (
  read_capped_str-write_capped rec.url_query max_url_query _ (omega arith),
  read_capped_str-write_capped rec.route max_span_route _ (omega arith),
  read_capped_str-write_capped rec.user_agent max_user_agent _ (omega arith),
  read_capped_str-write_capped rec.server_address max_server_addr _ (omega arith),
  read_capped_str-write_capped rec.client_address max_client_addr _ (omega arith),
  read_capped_str-write_capped rec.peer_address max_client_addr _ (omega arith),
)

parse_attr-write_attr :
    (kv : List ℕ × List ℕ) (tail : List ℕ)
    → parse_attr (write_attr kv tail) ≡ some (attr_of kv, tail)
unfolding parse_attr write_attr
parse_attr-write_attr kv tail =
    let k = take max_span_attr_key kv.0 in
    let v = take max_span_attr_val kv.1 in
    rw (
      read_be-be_bytes 1 (length k) (k ++ (be_bytes 2 (length v) ++ (v ++ tail)))
          (omega (arith, length-take_cap max_span_attr_key kv.0)),
      take_bytes-append (length k) k (be_bytes 2 (length v) ++ (v ++ tail)) refl,
      read_be-be_bytes 2 (length v) (v ++ tail)
          (omega (arith, length-take_cap max_span_attr_val kv.1)),
      take_bytes-append (length v) v tail refl,
    )

parse_attrs-write_attrs :
    (kvs : List (List ℕ × List ℕ)) → parse_attrs (length kvs) (write_attrs kvs) ≡ attrs_of kvs
unfolding parse_attrs write_attrs
parse_attrs-write_attrs [] = refl
parse_attrs-write_attrs (kv ∷ kvs) =
    rw (parse_attr-write_attr kv (write_attrs kvs), parse_attrs)
      (ap (λ t. attr_of kv ∷ t) (parse_attrs-write_attrs kvs))

parse_extra-write_attrs :
    (kvs : List (List ℕ × List ℕ))
    → length kvs ≤ max_span_extra_attrs
    → parse_extra (be_bytes 2 (length kvs) ++ write_attrs kvs) ≡ attrs_of kvs
unfolding parse_extra
parse_extra-write_attrs kvs h =
    let few : min (length kvs) max_span_extra_attrs ≡ length kvs = omega arith in
    rw (read_be-be_bytes 2 (length kvs) (write_attrs kvs) (omega arith), parse_extra)
      (ap (λ n. parse_attrs n (write_attrs kvs)) few ∙ parse_attrs-write_attrs kvs)

-- The exporter reads back from a record what the worker put into it: the identifiers, times and flags;
-- no parent when the parent's eight bytes are zero and those bytes otherwise; the name, the kind and
-- the status by their codes; and the attributes, which are at most four extra ones and then each
-- request field under its own name, without the fields that are empty or not known. Every text is
-- cut at its cap and decoded.
pub parse_span_record-span_bytes :
    (rec : SpanRecord) (observed_ns : ℕ)
    → IsValid rec
    → parse_span_record (span_bytes rec) observed_ns ≡ some (sent_span rec)
unfolding parse_span_record span_bytes
parse_span_record-span_bytes rec observed_ns v = rw (
  long,
  parse_header-write_header rec body v,
  parse_request-write_request rec (write_network rec (write_texts rec extra)) v,
  parse_network-write_network rec (write_texts rec extra) v,
  parse_texts-write_texts rec extra,
  parse_extra-write_attrs attrs (length-take_most max_span_extra_attrs rec.extra_attrs),
  span_of-sent_span rec v.parent_span_id,
)
  where
    attrs : List (List ℕ × List ℕ)
    attrs = take max_span_extra_attrs rec.extra_attrs

    length-take_most : (n : ℕ) (xs : List (List ℕ × List ℕ)) → length (take n xs) ≤ n
    length-take_most n xs = omega (arith, length-take n xs)

    extra : List ℕ
    extra = be_bytes 2 (length attrs) ++ write_attrs attrs

    body : List ℕ
    body = write_request rec (write_network rec (write_texts rec extra))

    long : ltb (length (write_header rec body)) 56 ≡ false
    long = le→ltb_false _ _ (
        omega (
          arith,
          length-write_header rec body,
          v.trace_id,
          v.span_id,
          v.parent_span_id,
          length-write_request rec (write_network rec (write_texts rec extra)),
        ))
