-- ===== src/Spans/Parse.antt =====
-- `parse_span_record` of traces/mod.rs, in the stages of its source.
use ngx_otel_rust.Base.{
  ℕ, zero, suc, ◌+◌, Bool, not, Option, none, some, List, [], ◌∷◌, ◌++◌, ltb, leb, ◌==◌,
  if◌then◌else◌, ◌>>=◌, ◌>>◌, guard, length, replicate, bytes_eq, is_empty, min,
}
use ngx_otel_rust.Base.Text.{codes, from_utf8_lossy}
use ngx_otel_rust.Wire.{take_bytes, read_be, read_capped_str}
use ngx_otel_rust.DataModel.{
  AnyValue, string, int, double, KeyValue, Span, SpanKind, StatusCode, unset, ok, error, internal,
  server, client, producer, consumer,
}
use ngx_otel_rust.Decimal.{decimal_u16}
use ngx_otel_rust.Shm.ProtoVersion
use ngx_otel_rust.Spans.{span_record_fixed_hdr, max_span_extra_attrs}

pub record Header : Type 0 where
  pub trace_id : List ℕ
  pub span_id : List ℕ
  pub parent_span_id : List ℕ
  pub flags : ℕ
  pub start_time_unix_nano : ℕ
  pub end_time_unix_nano : ℕ
  pub status_raw : ℕ
  pub kind_raw : ℕ

pub record RequestPart : Type 0 where
  pub name : List ℕ
  pub method : List ℕ
  pub http_status : ℕ
  pub url_path : List ℕ
  pub duration_us : ℕ

pub record NetworkPart : Type 0 where
  pub proto_idx : ℕ
  pub scheme_https : Bool
  pub server_port : ℕ
  pub client_port : ℕ
  pub peer_port : ℕ
  pub req_body_size : ℕ
  pub resp_body_size : ℕ

pub record TextPart : Type 0 where
  pub url_query : List ℕ
  pub route : List ℕ
  pub user_agent : List ℕ
  pub server_address : List ℕ
  pub client_address : List ℕ
  pub peer_address : List ℕ

-- Root spans have eight zero bytes on the wire and no bytes in the span.
abbrev pub parent_of : List ℕ → List ℕ
parent_of raw = if bytes_eq raw (replicate 8 0) then [] else raw

unfoldable pub parse_header : List ℕ → Option (Header × List ℕ)
parse_header r0 = do
  (trace_id, r1) ← take_bytes 16 r0
  (span_id, r2) ← take_bytes 8 r1
  (parent, r3) ← take_bytes 8 r2
  (flags, r4) ← read_be 4 r3
  (start, r5) ← read_be 8 r4
  (end, r6) ← read_be 8 r5
  (status_raw, r7) ← read_be 1 r6
  (kind_raw, r8) ← read_be 1 r7
  some (
    record {
      trace_id = trace_id;
      span_id = span_id;
      parent_span_id = parent_of parent;
      flags = flags;
      start_time_unix_nano = start;
      end_time_unix_nano = end;
      status_raw = status_raw;
      kind_raw = kind_raw;
    },
    r8,
  )

unfoldable pub status_of : ℕ → StatusCode
status_of raw = if raw == 1 then ok else if raw == 2 then error else unset

unfoldable pub kind_of : ℕ → SpanKind
kind_of raw =
    if raw == 1
    then internal
    else if raw == 2
    then server
    else if raw == 3
    then client
    else if raw == 4
    then producer
    else if raw == 5
    then consumer
    else SpanKind.unspecified

unfoldable pub parse_request : List ℕ → Option (RequestPart × List ℕ)
parse_request r0 = do
  (name, r1) ← read_capped_str r0
  (method, r2) ← read_capped_str r1
  (http_status, r3) ← read_be 2 r2
  (url_path, r4) ← read_capped_str r3
  (duration_us, r5) ← read_be 8 r4
  some (
    record {
      name = name;
      method = method;
      http_status = http_status;
      url_path = url_path;
      duration_us = duration_us;
    },
    r5,
  )

unfoldable pub parse_network : List ℕ → Option (NetworkPart × List ℕ)
parse_network r0 = do
  (proto_idx, r1) ← read_be 1 r0
  (scheme, r2) ← read_be 1 r1
  (server_port, r3) ← read_be 2 r2
  (client_port, r4) ← read_be 2 r3
  (peer_port, r5) ← read_be 2 r4
  (req_body_size, r6) ← read_be 8 r5
  (resp_body_size, r7) ← read_be 8 r6
  some (
    record {
      proto_idx = proto_idx;
      scheme_https = not (scheme == 0);
      server_port = server_port;
      client_port = client_port;
      peer_port = peer_port;
      req_body_size = req_body_size;
      resp_body_size = resp_body_size;
    },
    r7,
  )

unfoldable pub parse_texts : List ℕ → Option (TextPart × List ℕ)
parse_texts r0 = do
  (url_query, r1) ← read_capped_str r0
  (route, r2) ← read_capped_str r1
  (user_agent, r3) ← read_capped_str r2
  (server_address, r4) ← read_capped_str r3
  (client_address, r5) ← read_capped_str r4
  (peer_address, r6) ← read_capped_str r5
  some (
    record {
      url_query = url_query;
      route = route;
      user_agent = user_agent;
      server_address = server_address;
      client_address = client_address;
      peer_address = peer_address;
    },
    r6,
  )

-- One round of the loop over the extra attributes; `none` is its `break`.
unfoldable pub parse_attr : List ℕ → Option (KeyValue × List ℕ)
parse_attr r0 = do
  (k_len, r1) ← read_be 1 r0
  (key, r2) ← take_bytes k_len r1
  (v_len, r3) ← read_be 2 r2
  (val, r4) ← take_bytes v_len r3
  some (record { key = from_utf8_lossy key; value = string (from_utf8_lossy val) }, r4)

unfoldable pub parse_attrs : ℕ → List ℕ → List KeyValue
parse_attrs zero r = []
parse_attrs (suc n) r = elim (parse_attr r) [ none ↦ [] | some (kv, r') ↦ kv ∷ parse_attrs n r' ]

-- The count is missing in older records, and is at most what a producer writes.
unfoldable pub parse_extra : List ℕ → List KeyValue
parse_extra r = elim (read_be 2 r) [
  | none ↦ []
  | some (n, r') ↦ parse_attrs (min n max_span_extra_attrs) r'
]

abbrev pub attr : List ℕ → AnyValue → List KeyValue
attr k v = record { key = k; value = v } ∷ []

abbrev pub text_attr : List ℕ → List ℕ → List KeyValue
text_attr k v = if is_empty v then [] else attr k (string v)

abbrev pub int_attr : List ℕ → ℕ → List KeyValue
int_attr k v = if ltb 0 v then attr k (int v) else []

-- The attributes of the request fields, in the order in which they are pushed.
unfoldable pub http_attributes : RequestPart → NetworkPart → TextPart → List KeyValue
http_attributes q w t =
    text_attr (codes "http.request.method") q.method
    ++ (int_attr (codes "http.response.status_code") q.http_status
        ++ (text_attr (codes "url.path") q.url_path
            ++ ((if ltb 0 q.duration_us
                  then attr (codes "http.server.request.duration") (double q.duration_us)
                  else [])
                ++ (text_attr (codes "url.query") t.url_query
                    ++ (text_attr (codes "http.route") t.route
                        ++ (attr (codes "url.scheme")
                              (string (if w.scheme_https then codes "https" else codes "http"))
                            ++ (attr (codes "network.protocol.version") (
                                  string
                                    (ProtoVersion.as_str (ProtoVersion.from_index w.proto_idx)))
                                ++ (text_attr (codes "user_agent.original") t.user_agent
                                    ++ (attr (codes "http.request.body.size") (int w.req_body_size)
                                        ++ (attr (codes "http.response.body.size")
                                              (int w.resp_body_size)
                                            ++ (text_attr (codes "server.address") t.server_address
                                                ++ (int_attr (codes "server.port") w.server_port
                                                    ++ (text_attr (codes "client.address")
                                                          t.client_address
                                                        ++ (int_attr (codes "client.port")
                                                            w.client_port
                                                            ++ (text_attr
                                                            (codes "network.peer.address")
                                                            t.peer_address
                                                            ++ (int_attr (codes "network.peer.port")
                                                            w.peer_port
                                                            ++ (if leb 500 q.http_status
                                                            then attr (codes "error.type")
                                                            (string (decimal_u16 q.http_status))
                                                            else [])))))))))))))))))

abbrev pub span_of : Header → RequestPart → NetworkPart → TextPart → List KeyValue → Span
span_of h q w t extra = record {
  trace_id = h.trace_id;
  span_id = h.span_id;
  parent_span_id = h.parent_span_id;
  flags = h.flags;
  name = q.name;
  kind = kind_of h.kind_raw;
  start_time_unix_nano = h.start_time_unix_nano;
  end_time_unix_nano = h.end_time_unix_nano;
  attributes = extra ++ http_attributes q w t;
  status_code = status_of h.status_raw;
  status_message = [];
}

-- The source ignores `observed_ns`.
unfoldable pub parse_span_record : List ℕ → ℕ → Option Span
parse_span_record buf observed_ns = do
  guard (not (ltb (length buf) (span_record_fixed_hdr + 2)))
  (h, r1) ← parse_header buf
  (q, r2) ← parse_request r1
  (w, r3) ← parse_network r2
  (t, r4) ← parse_texts r3
  some (span_of h q w t (parse_extra r4))
