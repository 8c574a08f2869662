-- ===== src/Http/Runs.antt =====
-- Dates and responses of the collector at concrete inputs.
use ngx_otel_rust.Base.{ℕ, ◌+◌, ◌*◌, ◌≡◌, refl, inr, true, Option, none, some, List, [], ◌∷◌, arith}
use Prim.{tt}
use ngx_otel_rust.Base.Integers.{ℤ, pos}
use ngx_otel_rust.Base.Text.{codes}
use ngx_otel_rust.Http.{OtlpSignal}
use ngx_otel_rust.Http.Date.{days_from_civil, parse_imf_fixdate, days_in_month}
use ngx_otel_rust.Http.Civil.{Follows, next_date, days_from_civil_lem}
use ngx_otel_rust.Http.RoundTrip.{imf_fixdate, parse_imf_fixdate-imf_fixdate}
use ngx_otel_rust.Http.Endpoint.{
  http, https, unix, parse_endpoint, derive_signal_paths, host_str, extract_http_path,
  strip_v6_brackets, split_path, find, is_tls, endpoint_port,
}
use ngx_otel_rust.Http.Authority.{IsHost}
use ngx_otel_rust.Http.Url.{url_of, parse_endpoint-url_of}

-- The 29th of February of a leap year.
days_from_civil_lem_example :
    (days_from_civil 1970 1 1 ≡ some 0) × Follows (2028, 2, 29) (next_date 2028 2 29)
unfolding days_in_month
days_from_civil_lem_example =
    days_from_civil_lem 2028 2 29 (omega arith) (omega arith) (omega arith) (omega arith)
      (omega arith)

leap_day_text : imf_fixdate 84 117 101 2028 2 29 12 30 5 ≡ codes "Tue, 29 Feb 2028 12:30:05 GMT"
leap_day_text = refl

parse_imf_fixdate-imf_fixdate_example :
    parse_imf_fixdate (imf_fixdate 84 117 101 2028 2 29 12 30 5)
    ≡ some (21243 * 86400 + 12 * 3600 + 30 * 60 + 5)
unfolding days_in_month days_from_civil
parse_imf_fixdate-imf_fixdate_example =
    parse_imf_fixdate-imf_fixdate 84 117 101 2028 2 29 12 30 5 21243 (omega arith) (omega arith)
      (omega arith) (omega arith) (omega arith) (omega arith) (omega arith) (omega arith) refl
      (omega arith)

-- A decoder that finds one rejected record in a body that is not empty.
abbrev one_rejected : OtlpSignal → List ℕ → Option ℤ
one_rejected signal [] = none
one_rejected signal (b ∷ body) = some (pos 1)

abbrev unavailable : ℕ
unavailable = 503

-- A collector at an IPv6 address.
abbrev loopback : List ℕ
loopback = codes "[::1]"

loopback-IsHost : IsHost loopback
unfolding IsHost
loopback-IsHost = (
  (refl, (refl, (refl, (refl, (refl, tt))))),
  inr (codes "::1", refl, (refl, (refl, (refl, tt)))),
)

parse_endpoint-url_of_example :
    (parse_endpoint (url_of (http loopback 4318 (codes "/otlp")))
      ≡ some (http loopback 4318 (codes "/otlp")))
    × (parse_endpoint (url_of (https loopback 4318 (codes "/otlp")))
        ≡ some (https loopback 4318 (codes "/otlp")))
parse_endpoint-url_of_example =
    parse_endpoint-url_of loopback 4318 (codes "otlp") loopback-IsHost (omega arith)

socket_endpoint :
    parse_endpoint (codes "unix:///run/c.sock") ≡ some (unix (codes "/run/c.sock") (codes "/"))
unfolding parse_endpoint
socket_endpoint = refl

no_scheme : parse_endpoint (codes "localhost:4318") ≡ none
unfolding parse_endpoint
no_scheme = refl

custom_base : (derive_signal_paths (codes "/otlp")).0 ≡ codes "/otlp/v1/metrics"
unfolding derive_signal_paths
custom_base = refl

bare_url : extract_http_path (codes "https://host:4318") ≡ codes "/"
unfolding extract_http_path split_path find
bare_url = refl

-- The brackets stay on the host of the endpoint; the resolver strips them.
brackets_stay : host_str (http loopback 80 (codes "/")) ≡ loopback
unfolding host_str
brackets_stay = refl

brackets_go : strip_v6_brackets loopback ≡ codes "::1"
unfolding strip_v6_brackets
brackets_go = refl

tls_endpoint :
    (is_tls (https loopback 443 []) ≡ true) × (endpoint_port (https loopback 443 []) ≡ some 443)
unfolding is_tls endpoint_port
tls_endpoint = (refl, refl)
