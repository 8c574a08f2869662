-- ===== src/Config/Runs.antt =====
-- Numbers, durations and sizes of the configuration at concrete strings.
use ngx_otel_rust.Base.{
  ℕ, ◌*◌, ◌≡◌, refl, Bool, true, inr, none, some, List, [], ◌∷◌, ◌++◌, bytes_eq,
}
use ngx_otel_rust.Base.Text.{codes}
use ngx_otel_rust.Config.{
  checked, parse_u64_digits, parse_u64_ascii, has_suffix, last_or_zero, duration_unit,
  parse_duration_ms, size_unit, parse_size_bytes, align_ring_size,
}
use ngx_otel_rust.Config.Numbers.{every_digit, decimal_value, fitting}
use ngx_otel_rust.Config.Durations.{minutes, suffix_of, factor_of, parse_duration_ms_lem}
use ngx_otel_rust.Http.Endpoint.{
  ParsedEndpoint, find, rfind, parse_u16, search_start_of, split_path, strip_v6_brackets,
  parse_endpoint,
}
use ngx_otel_rust.Http.Date.{parse_decimal, parse_digits}
use ngx_otel_rust.Config.Tls.{
  file_missing, bad_port, cert_without_key, TlsValidationInput, split_authority, valid_port,
  accepts_port, check_authority, check_pair, check_files, first_error, validate_endpoint_tls,
}
use ngx_otel_rust.Config.Tls.Accepted.{IsUsable, validate_endpoint_tls-IsUsable}

five_minutes : parse_duration_ms (codes "5m") ≡ some 300000
unfolding parse_duration_ms has_suffix last_or_zero duration_unit parse_u64_ascii parse_u64_digits
    checked
five_minutes = refl

ten_k : parse_size_bytes (codes "10k") ≡ some 10240
unfolding parse_size_bytes last_or_zero size_unit parse_u64_ascii parse_u64_digits checked
ten_k = refl

too_large : parse_u64_ascii (codes "18446744073709551616") ≡ none
unfolding parse_u64_ascii parse_u64_digits checked
too_large = refl

aligned : align_ring_size 4093 ≡ some 4096
unfolding align_ring_size checked
aligned = refl

ninety_digits : every_digit (codes "90") ≡ true
unfolding every_digit
ninety_digits = refl

parse_duration_ms_lem_example :
    parse_duration_ms (codes "90" ++ suffix_of minutes)
    ≡ fitting (decimal_value 0 (codes "90") * factor_of minutes)
parse_duration_ms_lem_example = parse_duration_ms_lem (codes "90") minutes refl ninety_digits

-- Only the trusted certificate exists.
abbrev only_ca : List ℕ → Bool
only_ca path = bytes_eq path (codes "/ca.pem")

abbrev collector : TlsValidationInput
collector = record {
  endpoint = codes "https://[::1]:4318/otlp";
  trusted_cert = codes "/ca.pem";
  ssl_cert = codes "";
  ssl_cert_key = codes "";
  ssl_verify_off = true;
}

collector_accepted : validate_endpoint_tls only_ca collector ≡ inr true
unfolding validate_endpoint_tls first_error check_authority split_authority accepts_port valid_port
    check_pair check_files find rfind parse_u16 search_start_of split_path strip_v6_brackets
    parse_decimal parse_digits
collector_accepted = refl

validate_endpoint_tls-IsUsable_example :
    ((endpoint : ParsedEndpoint) × (parse_endpoint collector.endpoint ≡ some endpoint)
      × IsUsable endpoint)
    × (true ≡ collector.ssl_verify_off)
validate_endpoint_tls-IsUsable_example =
    validate_endpoint_tls-IsUsable only_ca collector true collector_accepted

-- Port 0, a certificate without its key, and a file that does not exist.
port_zero : check_authority (codes "host:0") ≡ some bad_port
unfolding check_authority split_authority accepts_port valid_port find rfind parse_u16
    search_start_of strip_v6_brackets parse_decimal parse_digits
port_zero = refl

no_key : check_pair (codes "/c.pem") (codes "") ≡ some cert_without_key
unfolding check_pair
no_key = refl

no_file :
    check_files only_ca ((codes "ssl_certificate", codes "/c.pem") ∷ [])
    ≡ some (file_missing (codes "ssl_certificate"))
unfolding check_files
no_file = refl
