-- ===== src/Http/Endpoint.antt =====
-- transport/hyper_http.rs: the endpoint of the collector, its authority and the paths of the signals.
use ngx_otel_rust.Base.{
  ℕ, suc, ◌+◌, ◌-◌, ◌^◌, Bool, true, false, ◌&&◌, Option, none, some, List, [], ◌∷◌, ◌++◌, leb,
  ◌==◌, if◌then◌else◌, length, take, drop, bytes_eq, get_or, unwrap_or,
}
use ngx_otel_rust.Base.Text.{codes}
use ngx_otel_rust.Decimal.{decimal_u16}
use ngx_otel_rust.Http.Date.{parse_decimal}

pub data ParsedEndpoint : Type 0 where
  http : (host : List ℕ) (port : ℕ) (path : List ℕ) → ParsedEndpoint
  https : (host : List ℕ) (port : ℕ) (path : List ℕ) → ParsedEndpoint
  unix : (socket_path http_path : List ℕ) → ParsedEndpoint

abbrev pub strip_prefix : List ℕ → List ℕ → Option (List ℕ)
strip_prefix prefix s =
    if bytes_eq (take (length prefix) s) prefix then some (drop (length prefix) s) else none

-- `str::find` and `str::rfind` of an ASCII character.
unfoldable pub find : (c : ℕ) (s : List ℕ) → Option ℕ
find c [] = none
find c (b ∷ s) =
    let later = find c s in
    if b == c then some 0 else elim later [ none ↦ none | some i ↦ some (suc i) ]

unfoldable pub rfind : (c : ℕ) (s : List ℕ) → Option ℕ
rfind c [] = none
rfind c (b ∷ s) = elim (rfind c s) [
  | some i ↦ some (suc i)
  | none ↦ if b == c then some 0 else none
]

-- `str::parse::<u16>`, which takes a leading plus.
unfoldable pub parse_u16 : (s : List ℕ) → Option ℕ
parse_u16 [] = none
parse_u16 (c ∷ s) = if c == b'+' then parse_decimal (2 ^ 16) s else parse_decimal (2 ^ 16) (c ∷ s)

unfoldable pub search_start_of : (authority : List ℕ) → ℕ
search_start_of authority =
    if leb 1 (length authority) && get_or authority 0 0 == b'['
    then elim (find b']' authority) [ none ↦ 0 | some i ↦ i + 1 ]
    else 0

unfoldable pub parse_authority : (authority : List ℕ) (default_port : ℕ) → List ℕ × ℕ
parse_authority authority default_port =
    let search_start = search_start_of authority in
    elim (rfind b':' (drop search_start authority)) [
      | none ↦ (authority, default_port)
      | some rel_idx ↦
          (let idx = search_start + rel_idx in
            (take idx authority, unwrap_or (parse_u16 (drop (idx + 1) authority)) default_port))
    ]

-- The authority and the path behind the scheme.
unfoldable pub split_path : (rest : List ℕ) → List ℕ × List ℕ
split_path rest = elim (find b'/' rest) [
  | none ↦ (rest, codes "/")
  | some i ↦ (take i rest, drop i rest)
]

unfoldable pub parse_endpoint : (input : List ℕ) → Option ParsedEndpoint
parse_endpoint input = elim (strip_prefix (codes "http://") input) [
  | some rest ↦
      (let (authority, path) = split_path rest in
        let (host, port) = parse_authority authority 80 in some (http host port path))
  | none ↦ elim (strip_prefix (codes "https://") input) [
    | some rest ↦
        (let (authority, path) = split_path rest in
          let (host, port) = parse_authority authority 443 in some (https host port path))
    | none ↦ elim (strip_prefix (codes "unix:///") input) [
      | some rest ↦ some (unix (codes "/" ++ rest) (codes "/"))
      | none ↦ elim (strip_prefix (codes "unix://") input) [
        | some rest ↦ some (unix rest (codes "/"))
        | none ↦ elim (strip_prefix (codes "unix:") input) [
          | some rest ↦ some (unix rest (codes "/"))
          | none ↦ none
        ]
      ]
    ]
  ]
]

abbrev pub with_port : List ℕ → ℕ → List ℕ
with_port host port = host ++ b':' ∷ decimal_u16 port

unfoldable pub authority_of : (endpoint : ParsedEndpoint) → List ℕ
authority_of (http host port path) = if port == 80 then host else with_port host port
authority_of (https host port path) = if port == 443 then host else with_port host port
authority_of (unix socket_path http_path) = codes "localhost"

unfoldable pub base_path : (endpoint : ParsedEndpoint) → List ℕ
base_path (http host port path) = path
base_path (https host port path) = path
base_path (unix socket_path http_path) = http_path

unfoldable pub is_tls : (endpoint : ParsedEndpoint) → Bool
is_tls (https host port path) = true
is_tls (http host port path) = false
is_tls (unix socket_path http_path) = false

unfoldable pub host_str : (endpoint : ParsedEndpoint) → List ℕ
host_str (http host port path) = host
host_str (https host port path) = host
host_str (unix socket_path http_path) = codes "localhost"

unfoldable pub endpoint_port : (endpoint : ParsedEndpoint) → Option ℕ
endpoint_port (http host port path) = some port
endpoint_port (https host port path) = some port
endpoint_port (unix socket_path http_path) = none

abbrev pub ends_with_slash : List ℕ → Bool
ends_with_slash base = leb 1 (length base) && get_or base (length base - 1) 0 == b'/'

-- The paths of the metrics, the logs and the traces.
unfoldable pub derive_signal_paths : (base : List ℕ) → List ℕ × List ℕ × List ℕ
derive_signal_paths base =
    let b = if ends_with_slash base then base else base ++ codes "/" in
    (b ++ codes "v1/metrics", b ++ codes "v1/logs", b ++ codes "v1/traces")

unfoldable pub extract_http_path : (s : List ℕ) → List ℕ
extract_http_path s = elim (strip_prefix (codes "http://") s) [
  | some rest ↦ (split_path rest).1
  | none ↦ elim (strip_prefix (codes "https://") s) [ some rest ↦ (split_path rest).1 | none ↦ s ]
]

unfoldable pub strip_v6_brackets : (host : List ℕ) → List ℕ
strip_v6_brackets host =
    if leb 1 (length host) && (get_or host 0 0 == b'[' && get_or host (length host - 1) 0 == b']')
    then take (length host - 2) (drop 1 host)
    else host
