-- ===== src/Http/Url.antt =====
-- transport/hyper_http.rs: an endpoint is read back from its URL.
use ngx_otel_rust.Base.{
  ℕ, ◌^◌, ◌<◌, ◌≡◌, refl, inl, inr, false, some, List, ◌∷◌, ◌++◌, ◌==◌, if◌then◌else◌, Bool-cases,
  All-map, All-append, take-append, drop-append, arith,
}
use ngx_otel_rust.Base.Text.{codes}
use ngx_otel_rust.Decimal.{decimal_u16}
use ngx_otel_rust.Decimal.Digits.{decimal_u16_lem}
use ngx_otel_rust.Http.Endpoint.{
  ParsedEndpoint, http, https, unix, split_path, parse_endpoint, with_port, authority_of,
}
use ngx_otel_rust.Http.Authority.{Without, IsHost, find_first, parse_authority-authority_of}

-- The URL of an endpoint: scheme, authority and path.
unfoldable pub url_of : (endpoint : ParsedEndpoint) → List ℕ
url_of (http host port path) = codes "http://" ++ authority_of (http host port path) ++ path
url_of (https host port path) = codes "https://" ++ authority_of (https host port path) ++ path
url_of (unix socket_path http_path) = codes "unix:" ++ socket_path

split_path_lem :
    (authority path : List ℕ)
    → Without b'/' authority
    → split_path (authority ++ b'/' ∷ path) ≡ (authority, b'/' ∷ path)
unfolding split_path
split_path_lem authority path w =
    rw
      (
        split_path,
        find_first b'/' authority path w,
        take-append authority (b'/' ∷ path),
        drop-append authority (b'/' ∷ path),
      )
      refl

with_port-Without :
    (host : List ℕ) (port d : ℕ)
    → port < 2 ^ 16
    → Without b'/' host
    → Without b'/' (if port == d then host else with_port host port)
with_port-Without host port d small w =
    let digits =
      All-map {Q = λ b. (b == b'/') ≡ false} (λ b. λ digit. ground (arith, digit))
        (decimal_u16 port) (decimal_u16_lem port small).0 in
    elim (Bool-cases (port == d)) [
      | inl same ↦ rw (same) w
      | inr other ↦
          rw (other)
            (All-append (λ b. (b == b'/') ≡ false) host (b':' ∷ decimal_u16 port) w (refl, digits))
    ]

-- For either scheme: the endpoint of a host (a name without a colon, a slash or a leading bracket,
-- or an IPv6 literal in its brackets), a port below 2 ^ 16 and a path that starts with a slash is
-- read back from its URL, which leaves out the port of the scheme.
pub parse_endpoint-url_of :
    (host : List ℕ) (port : ℕ) (path : List ℕ)
    → IsHost host
    → port < 2 ^ 16
    → (parse_endpoint (url_of (http host port (b'/' ∷ path))) ≡ some (http host port (b'/' ∷ path)))
      × (parse_endpoint (url_of (https host port (b'/' ∷ path)))
          ≡ some (https host port (b'/' ∷ path)))
unfolding IsHost url_of authority_of parse_endpoint
parse_endpoint-url_of host port path is small =
    let back = parse_authority-authority_of host port path is small in
    let plain =
      split_path_lem (if port == 80 then host else with_port host port) path
        (with_port-Without host port 80 small is.0) in
    let secure =
      split_path_lem (if port == 443 then host else with_port host port) path
        (with_port-Without host port 443 small is.0) in
    (rw (parse_endpoint, plain, back.0) refl, rw (parse_endpoint, secure, back.1) refl)
