-- ===== src/Spans/Sent.antt =====
-- The span that a record of traces/mod.rs stands for, written from the record of the worker.
use ngx_otel_rust.Base.{
  ℕ, zero, suc, ◌≡◌, refl, sym, ap, ◌∙◌, Bool, true, false, Option, none, some, List, [], ◌∷◌, ◌++◌,
  ◌&&◌, ltb, leb, ◌==◌, if◌then◌else◌, length, take, replicate, bytes_eq, get_or, arith,
}
use ngx_otel_rust.Base.Text.{codes, from_utf8_lossy}
use ngx_otel_rust.Decimal.{decimal_u16}
use ngx_otel_rust.DataModel.{
  AnyValue, string, int, double, KeyValue, Span, SpanKind, StatusCode, unset, ok, error, internal,
  server, client, producer, consumer,
}
use ngx_otel_rust.DataModel.Fields.{
  present, text, positive, present-some, present-text, present-positive,
}
use ngx_otel_rust.Shm.ProtoVersion
use ngx_otel_rust.Spans.{
  SpanRecord, max_span_name, max_method, max_url_path, max_url_query, max_span_route,
  max_user_agent, max_server_addr, max_client_addr, max_span_attr_key, max_span_attr_val,
  max_span_extra_attrs,
}
use ngx_otel_rust.Spans.Parse.{
  Header, RequestPart, NetworkPart, TextPart, parent_of, status_of, kind_of, http_attributes,
  span_of,
}

-- What the exporter is to read from each part.
abbrev pub header_of : SpanRecord → Header
header_of rec = record {
  trace_id = rec.trace_id;
  span_id = rec.span_id;
  parent_span_id = parent_of rec.parent_span_id;
  flags = rec.flags;
  start_time_unix_nano = rec.start_time_unix_nano;
  end_time_unix_nano = rec.end_time_unix_nano;
  status_raw = rec.status_code;
  kind_raw = rec.kind;
}

abbrev pub capped_text : ℕ → List ℕ → List ℕ
capped_text max raw = from_utf8_lossy (take max raw)

abbrev pub request_of : SpanRecord → RequestPart
request_of rec = record {
  name = capped_text max_span_name rec.name;
  method = capped_text max_method rec.method;
  http_status = rec.http_status;
  url_path = capped_text max_url_path rec.url_path;
  duration_us = rec.duration_us;
}

abbrev pub network_of : SpanRecord → NetworkPart
network_of rec = record {
  proto_idx = rec.proto;
  scheme_https = rec.scheme_https;
  server_port = rec.server_port;
  client_port = rec.client_port;
  peer_port = rec.peer_port;
  req_body_size = rec.req_body_size;
  resp_body_size = rec.resp_body_size;
}

abbrev pub texts_of : SpanRecord → TextPart
texts_of rec = record {
  url_query = capped_text max_url_query rec.url_query;
  route = capped_text max_span_route rec.route;
  user_agent = capped_text max_user_agent rec.user_agent;
  server_address = capped_text max_server_addr rec.server_address;
  client_address = capped_text max_client_addr rec.client_address;
  peer_address = capped_text max_client_addr rec.peer_address;
}

abbrev pub attr_of : List ℕ × List ℕ → KeyValue
attr_of kv = record {
  key = capped_text max_span_attr_key kv.0;
  value = string (capped_text max_span_attr_val kv.1);
}

abbrev pub attrs_of : List (List ℕ × List ℕ) → List KeyValue
attrs_of [] = []
attrs_of (kv ∷ kvs) = attr_of kv ∷ attrs_of kvs

-- The kinds and the statuses by their codes in the protocol, and the versions by their indices.
abbrev pub kinds : List SpanKind
kinds = SpanKind.unspecified ∷ internal ∷ server ∷ client ∷ producer ∷ consumer ∷ []

abbrev pub statuses : List StatusCode
statuses = unset ∷ ok ∷ error ∷ []

abbrev pub versions : List (List ℕ)
versions = codes "1.0" ∷ codes "1.1" ∷ codes "2" ∷ codes "3" ∷ []

unfoldable pub all_zero : List ℕ → Bool
all_zero [] = true
all_zero (b ∷ bs) = (b == 0) && all_zero bs

unfoldable pub scheme_name : Bool → List ℕ
scheme_name true = codes "https"
scheme_name false = codes "http"

unfoldable pub error_type : ℕ → Option AnyValue
error_type status = if ltb status 500 then none else some (string (decimal_u16 status))

-- The request fields, by the names of the conventions.
abbrev pub span_fields : SpanRecord → List (List ℕ × Option AnyValue)
span_fields rec =
    (codes "http.request.method", text (capped_text max_method rec.method))
    ∷ (codes "http.response.status_code", positive rec.http_status (int rec.http_status))
    ∷ (codes "url.path", text (capped_text max_url_path rec.url_path))
    ∷ (codes "http.server.request.duration", positive rec.duration_us (double rec.duration_us))
    ∷ (codes "url.query", text (capped_text max_url_query rec.url_query))
    ∷ (codes "http.route", text (capped_text max_span_route rec.route))
    ∷ (codes "url.scheme", some (string (scheme_name rec.scheme_https)))
    ∷ (codes "network.protocol.version", some (string (get_or versions rec.proto (codes "3"))))
    ∷ (codes "user_agent.original", text (capped_text max_user_agent rec.user_agent))
    ∷ (codes "http.request.body.size", some (int rec.req_body_size))
    ∷ (codes "http.response.body.size", some (int rec.resp_body_size))
    ∷ (codes "server.address", text (capped_text max_server_addr rec.server_address))
    ∷ (codes "server.port", positive rec.server_port (int rec.server_port))
    ∷ (codes "client.address", text (capped_text max_client_addr rec.client_address))
    ∷ (codes "client.port", positive rec.client_port (int rec.client_port))
    ∷ (codes "network.peer.address", text (capped_text max_client_addr rec.peer_address))
    ∷ (codes "network.peer.port", positive rec.peer_port (int rec.peer_port))
    ∷ (codes "error.type", error_type rec.http_status)
    ∷ []

abbrev pub sent_span : SpanRecord → Span
sent_span rec = record {
  trace_id = rec.trace_id;
  span_id = rec.span_id;
  parent_span_id = if all_zero rec.parent_span_id then [] else rec.parent_span_id;
  flags = rec.flags;
  name = capped_text max_span_name rec.name;
  kind = get_or kinds rec.kind SpanKind.unspecified;
  start_time_unix_nano = rec.start_time_unix_nano;
  end_time_unix_nano = rec.end_time_unix_nano;
  attributes = attrs_of (take max_span_extra_attrs rec.extra_attrs) ++ present (span_fields rec);
  status_code = get_or statuses rec.status_code unset;
  status_message = [];
}

kind_of_lem : (raw : ℕ) → kind_of raw ≡ get_or kinds raw SpanKind.unspecified
unfolding kind_of
kind_of_lem zero = refl
kind_of_lem (suc zero) = refl
kind_of_lem (suc (suc zero)) = refl
kind_of_lem (suc (suc (suc zero))) = refl
kind_of_lem (suc (suc (suc (suc zero)))) = refl
kind_of_lem (suc (suc (suc (suc (suc zero))))) = refl
kind_of_lem (suc (suc (suc (suc (suc (suc n)))))) = ground arith

status_of_lem : (raw : ℕ) → status_of raw ≡ get_or statuses raw unset
unfolding status_of
status_of_lem zero = refl
status_of_lem (suc zero) = refl
status_of_lem (suc (suc zero)) = refl
status_of_lem (suc (suc (suc n))) = ground arith

version_lem :
    (i : ℕ) → ProtoVersion.as_str (ProtoVersion.from_index i) ≡ get_or versions i (codes "3")
unfolding ProtoVersion.as_str ProtoVersion.from_index
version_lem zero = refl
version_lem (suc zero) = refl
version_lem (suc (suc zero)) = refl
version_lem (suc (suc (suc zero))) = refl
version_lem (suc (suc (suc (suc n)))) = ground arith

all_zero_lem : (raw : List ℕ) → bytes_eq raw (replicate (length raw) 0) ≡ all_zero raw
unfolding all_zero
all_zero_lem [] = refl
all_zero_lem (b ∷ bs) = ap (λ t. (b == 0) && t) (all_zero_lem bs)

scheme_lem : (b : Bool) → (if b then codes "https" else codes "http") ≡ scheme_name b
unfolding scheme_name
scheme_lem true = refl
scheme_lem false = refl

present-error_type :
    (key : List ℕ) (status : ℕ)
    → present ((key, error_type status) ∷ []) ≡ (
        if leb 500 status
        then record { key = key; value = string (decimal_u16 status) } ∷ []
        else [])
unfolding present error_type
present-error_type key status = ground arith

http_attributes-present :
    (rec : SpanRecord)
    → http_attributes (request_of rec) (network_of rec) (texts_of rec) ≡ present (span_fields rec)
unfolding http_attributes
http_attributes-present rec =
    simp (present-some, present-text, present-positive, present-error_type, version_lem, scheme_lem)
      refl

pub span_of-sent_span :
    (rec : SpanRecord)
    → length rec.parent_span_id ≡ 8
    → span_of
        (header_of rec)
        (request_of rec)
        (network_of rec)
        (texts_of rec)
        (attrs_of (take max_span_extra_attrs rec.extra_attrs))
      ≡ sent_span rec
span_of-sent_span rec eight =
    let root : bytes_eq rec.parent_span_id (replicate 8 0) ≡ all_zero rec.parent_span_id =
      ap (λ n. bytes_eq rec.parent_span_id (replicate n 0)) (sym eight)
      ∙ all_zero_lem rec.parent_span_id in
    rw (http_attributes-present rec, kind_of_lem rec.kind, status_of_lem rec.status_code, root) refl
