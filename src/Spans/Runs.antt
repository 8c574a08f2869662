-- ===== src/Spans/Runs.antt =====
-- A span record and its bounds at a concrete request.
use ngx_otel_rust.Base.{◌≤◌, ◌≡◌, refl, true, some, [], ◌∷◌, arith, length, replicate}
use ngx_otel_rust.Base.Text.{codes}
use ngx_otel_rust.Spans.{SpanRecord, span_bytes, span_record_worst_case, max_span_record}
use ngx_otel_rust.Spans.Parse.{parse_span_record}
use ngx_otel_rust.Spans.Sent.{sent_span}
use ngx_otel_rust.Spans.Size.{span_bytes_fits}
use ngx_otel_rust.Spans.RoundTrip.{IsValid, parse_span_record-span_bytes}

abbrev pub get_index : SpanRecord
get_index = record {
  trace_id = replicate 16 7;
  span_id = replicate 8 5;
  parent_span_id = replicate 8 0;
  flags = 1;
  start_time_unix_nano = 1000;
  end_time_unix_nano = 3000;
  status_code = 0;
  kind = 2;
  name = codes "GET";
  method = codes "GET";
  http_status = 200;
  url_path = codes "/index.html";
  duration_us = 2;
  proto = 1;
  scheme_https = true;
  server_port = 443;
  client_port = 51000;
  peer_port = 51000;
  req_body_size = 0;
  resp_body_size = 612;
  url_query = [];
  route = codes "/";
  user_agent = codes "curl/8.0";
  server_address = codes "localhost";
  client_address = codes "127.0.0.1";
  peer_address = codes "127.0.0.1";
  extra_attrs = (codes "tenant", codes "a") ∷ [];
}

get_index-IsValid : IsValid get_index
get_index-IsValid = record {
  trace_id = refl;
  span_id = refl;
  parent_span_id = refl;
  flags = omega arith;
  start = omega arith;
  end = omega arith;
  status_code = omega arith;
  kind = omega arith;
  http_status = omega arith;
  duration_us = omega arith;
  proto = omega arith;
  server_port = omega arith;
  client_port = omega arith;
  peer_port = omega arith;
  req_body_size = omega arith;
  resp_body_size = omega arith;
}

parse_span_record-span_bytes_example :
    parse_span_record (span_bytes get_index) 9 ≡ some (sent_span get_index)
parse_span_record-span_bytes_example = parse_span_record-span_bytes get_index 9 get_index-IsValid

span_bytes_fits_example :
    (length (span_bytes get_index) ≤ span_record_worst_case)
    × (span_record_worst_case ≤ max_span_record)
span_bytes_fits_example = span_bytes_fits get_index refl refl refl
