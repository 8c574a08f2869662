-- ===== src/Spans/Size.antt =====
-- The length of a span record of traces/mod.rs: it fits the stack buffer.
use ngx_otel_rust.Base.{
  ℕ, ◌+◌, ◌*◌, ◌≤◌, ◌≡◌, List, [], ◌∷◌, ◌++◌, arith, length, length-append, length-take, take,
}
use ngx_otel_rust.Base.Bytes.{be_bytes, length-be_bytes}
use ngx_otel_rust.Wire.{length-take_cap}
use ngx_otel_rust.Spans.{
  SpanRecord, write_header, write_request, write_network, write_texts, write_attr, write_attrs,
  span_bytes, span_record_worst_case, max_span_record, max_span_extra_attrs, max_span_attr_key,
  max_span_attr_val, max_span_name, max_method, max_url_path, max_url_query, max_span_route,
  max_user_agent, max_server_addr, max_client_addr,
}

pub length-write_header :
    (rec : SpanRecord) (tail : List ℕ)
    → length (write_header rec tail)
      ≡ length rec.trace_id + length rec.span_id + length rec.parent_span_id + 22 + length tail
unfolding write_header
length-write_header rec tail = simp (length-append, length-be_bytes) (omega arith)

abbrev pub cut : ℕ → List ℕ → ℕ
cut max raw = length (take max raw)

pub length-write_request :
    (rec : SpanRecord) (tail : List ℕ)
    → length (write_request rec tail)
      ≡ 16
        + cut max_span_name rec.name
        + cut max_method rec.method
        + cut max_url_path rec.url_path
        + length tail
unfolding write_request
length-write_request rec tail = simp (length-append, length-be_bytes) (omega arith)

length-write_network :
    (rec : SpanRecord) (tail : List ℕ) → length (write_network rec tail) ≡ 24 + length tail
unfolding write_network
length-write_network rec tail = simp (length-append, length-be_bytes) (omega arith)

length-write_texts :
    (rec : SpanRecord) (tail : List ℕ)
    → length (write_texts rec tail)
      ≡ 12
        + cut max_url_query rec.url_query
        + cut max_span_route rec.route
        + cut max_user_agent rec.user_agent
        + cut max_server_addr rec.server_address
        + cut max_client_addr rec.client_address
        + cut max_client_addr rec.peer_address
        + length tail
unfolding write_texts
length-write_texts rec tail = simp (length-append, length-be_bytes) (omega arith)

length-write_attr :
    (kv : List ℕ × List ℕ) (tail : List ℕ) → length (write_attr kv tail) ≤ 99 + length tail
unfolding write_attr
length-write_attr kv tail =
    omega
      (arith, sizes, length-take_cap max_span_attr_key kv.0, length-take_cap max_span_attr_val kv.1)
  where
    k : List ℕ
    k = take max_span_attr_key kv.0

    v : List ℕ
    v = take max_span_attr_val kv.1

    sizes :
        length (be_bytes 1 (length k) ++ (k ++ (be_bytes 2 (length v) ++ (v ++ tail))))
        ≡ 3 + length k + length v + length tail
    sizes = simp (length-append, length-be_bytes) (omega arith)

length-write_attrs : (kvs : List (List ℕ × List ℕ)) → length (write_attrs kvs) ≤ 99 * length kvs
unfolding write_attrs
length-write_attrs [] = omega arith
length-write_attrs (kv ∷ kvs) =
    omega (arith, length-write_attrs kvs, length-write_attr kv (write_attrs kvs))

-- With 16, 8 and 8 bytes of ids, the record that the worker builds is no longer than the worst
-- case the source names, which is at most the size of the buffer on the stack.
pub span_bytes_fits :
    (rec : SpanRecord)
    → length rec.trace_id ≡ 16
    → length rec.span_id ≡ 8
    → length rec.parent_span_id ≡ 8
    → (length (span_bytes rec) ≤ span_record_worst_case)
      × (span_record_worst_case ≤ max_span_record)
unfolding span_bytes
span_bytes_fits rec t s p = (
  omega (
    arith,
    length-write_header rec b1,
    length-write_request rec b2,
    length-write_network rec b3,
    length-write_texts rec b4,
    length-append (be_bytes 2 (length attrs)) (write_attrs attrs),
    length-be_bytes 2 (length attrs),
    length-write_attrs attrs,
    length-take max_span_extra_attrs rec.extra_attrs,
    length-take_cap max_span_name rec.name,
    length-take_cap max_method rec.method,
    length-take_cap max_url_path rec.url_path,
    length-take_cap max_url_query rec.url_query,
    length-take_cap max_span_route rec.route,
    length-take_cap max_user_agent rec.user_agent,
    length-take_cap max_server_addr rec.server_address,
    length-take_cap max_client_addr rec.client_address,
    length-take_cap max_client_addr rec.peer_address,
  ),
  omega arith,
)
  where
    attrs : List (List ℕ × List ℕ)
    attrs = take max_span_extra_attrs rec.extra_attrs

    b4 : List ℕ
    b4 = be_bytes 2 (length attrs) ++ write_attrs attrs

    b3 : List ℕ
    b3 = write_texts rec b4

    b2 : List ℕ
    b2 = write_network rec b3

    b1 : List ℕ
    b1 = write_request rec b2
