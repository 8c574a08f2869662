-- ===== src/Logs/Runs.antt =====
-- Log records at a concrete request and a concrete line.
use ngx_otel_rust.Base.{ℕ, ◌≡◌, refl, Option, none, some, ◌==◌, if◌then◌else◌, arith, replicate}
use ngx_otel_rust.Base.Text.{codes}
use ngx_otel_rust.Logs.{
  SampledRequest, access_bytes, parse_access_record, error_bytes, parse_error_record_consuming,
}
use ngx_otel_rust.Logs.RoundTrip.{
  IsValid, access_log, error_log, parse_access_record-access_bytes,
  parse_error_record_consuming-error_bytes,
}

abbrev not_found : SampledRequest
not_found = record {
  ts_unix_nano = 1000;
  trace = some (replicate 16 7, replicate 8 5);
  url_path = codes "/missing";
  user_agent = codes "curl/8.0";
  duration_us = 120;
  combo_idx = 9;
  method = codes "GET";
  status = 404;
  request_length = 80;
  response_bytes = 153;
  client_addr = codes "127.0.0.1";
}

not_found-IsValid : IsValid not_found
not_found-IsValid = record {
  ts = omega arith;
  trace = (refl, refl);
  status = omega arith;
  request_length = omega arith;
  response_bytes = omega arith;
  duration_us = omega arith;
}

parse_access_record-access_bytes_example :
    parse_access_record (access_bytes not_found) 9 ≡ some (access_log not_found 9)
parse_access_record-access_bytes_example =
    parse_access_record-access_bytes not_found 9 not_found-IsValid

abbrev seen_twice : ℕ → Option ℕ
seen_twice hash = if hash == 77 then some 2 else none

parse_error_record_consuming-error_bytes_example :
    parse_error_record_consuming (error_bytes 1000 4 77 (codes "open() failed")) 9 seen_twice ≡ (
      some (error_log 1000 4 77 (codes "open() failed") 9 seen_twice),
      if 77 == 0 then none else some 77,
    )
parse_error_record_consuming-error_bytes_example =
    parse_error_record_consuming-error_bytes 1000 4 77 (codes "open() failed") 9 seen_twice
      (omega arith) (omega arith) (omega arith)
