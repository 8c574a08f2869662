-- ===== src/Config/Tls/Accepted.antt =====
-- config/mod.rs and transport/hyper_http.rs: the transport parses the endpoints that the configuration
-- accepts.
use ngx_otel_rust.Base.{
  ℕ, ◌≤◌, ◌≡◌, refl, sym, ap, ◌∙◌, take-append-drop, bytes_eq→eq, ◌⊎◌, inl, inr, Bool, true, false,
  not, ◌||◌, Bool-cases, Option, none, some, List, ◌++◌, if◌then◌else◌, length, take, drop,
  is_empty, bytes_eq, unwrap_or, arith,
}
use mathlib.Core.Path.{subst}
use ngx_otel_rust.Base.Text.{codes}
use ngx_otel_rust.Http.Endpoint.{
  ParsedEndpoint, http, https, unix, rfind, parse_u16, search_start_of, split_path, parse_authority,
  parse_endpoint, strip_v6_brackets,
}
use ngx_otel_rust.Config.Tls.{
  TlsConfigError, bad_scheme, bad_host, bad_port, TlsValidationInput, is_http, is_https,
  valid_scheme, authority_part, split_authority, valid_port, accepts_port, check_authority,
  first_error, validate_endpoint_tls, starts_with,
}

-- A host that is not empty and a port that is not 0.
abbrev pub IsReachable : List ℕ → ℕ → Type 0
IsReachable host port = (is_empty (strip_v6_brackets host) ≡ false) × (1 ≤ port)

unfoldable pub IsUsable : (endpoint : ParsedEndpoint) → Type 0
IsUsable (http host port path) = IsReachable host port
IsUsable (https host port path) = IsReachable host port
IsUsable (unix socket_path http_path) = http_path ≡ codes "/"

port_of : Option (List ℕ) → ℕ → ℕ
port_of none d = d
port_of (some p) d = unwrap_or (parse_u16 p) d

split_lem :
    (authority : List ℕ) (d : ℕ)
    → parse_authority authority d
      ≡ ((split_authority authority).0, port_of (split_authority authority).1 d)
unfolding parse_authority split_authority port_of
split_lem authority d = go (rfind b':' (drop (search_start_of authority) authority)) refl
  where
    go :
        (found : Option ℕ)
        → rfind b':' (drop (search_start_of authority) authority) ≡ found
        → parse_authority authority d
          ≡ ((split_authority authority).0, port_of (split_authority authority).1 d)
    go none e = rw (parse_authority, split_authority, e) refl
    go (some i) e = rw (parse_authority, split_authority, e) refl

valid_port_lem : (n : Option ℕ) (d : ℕ) → valid_port n ≡ true → 1 ≤ unwrap_or n d
unfolding valid_port
valid_port_lem none d h = cc h
valid_port_lem (some n) d h = ground (arith, h)

port_lem : (p : Option (List ℕ)) (d : ℕ) → 1 ≤ d → accepts_port p ≡ true → 1 ≤ port_of p d
unfolding accepts_port port_of
port_lem none d low h = low
port_lem (some p) d low h = valid_port_lem (parse_u16 p) d h

checked_lem :
    (empty good : Bool)
    → (if empty then some bad_host else if good then none else some bad_port) ≡ none
    → (empty ≡ false) × (good ≡ true)
checked_lem true good h = cc h
checked_lem false true h = (refl, refl)
checked_lem false false h = cc h

check_authority_lem :
    (authority : List ℕ) (d : ℕ)
    → 1 ≤ d
    → check_authority authority ≡ none
    → IsReachable (parse_authority authority d).0 (parse_authority authority d).1
unfolding check_authority
check_authority_lem authority d low h =
    let both =
      checked_lem (is_empty (strip_v6_brackets (split_authority authority).0))
        (accepts_port (split_authority authority).1) h in
    rw (split_lem authority d) (both.0, port_lem (split_authority authority).1 d low both.1)

verdict_lem :
    (found : Option TlsConfigError) (off warn : Bool)
    → (elim found as (λ _. TlsConfigError ⊎ Bool) [ some e ↦ inl e | none ↦ inr off ]) ≡ inr warn
    → (found ≡ none) × (warn ≡ off)
verdict_lem none off warn h = (refl, cc h)
verdict_lem (some e) off warn h = cc h

chain_lem :
    (valid : Bool) (first second : Option TlsConfigError)
    → (if not valid
        then some bad_scheme
        else elim first as (λ _. Option TlsConfigError) [ some e ↦ some e | none ↦ second ])
      ≡ none
    → (valid ≡ true) × (first ≡ none)
chain_lem false first second h = cc h
chain_lem true none second h = (refl, refl)
chain_lem true (some e) second h = cc h

starts_with_lem :
    (s prefix : List ℕ) → starts_with s prefix ≡ true → s ≡ prefix ++ drop (length prefix) s
starts_with_lem s prefix h =
    sym (take-append-drop (length prefix) s)
    ∙ ap (λ t. t ++ drop (length prefix) s) (bytes_eq→eq (take (length prefix) s) prefix h)

-- The scheme of an endpoint that is not refused.
scheme_lem :
    (s : List ℕ)
    → valid_scheme s ≡ true
    → (s ≡ codes "http://" ++ drop 7 s)
      ⊎ ((s ≡ codes "https://" ++ drop 8 s) ⊎ (s ≡ codes "unix:" ++ drop 5 s))
scheme_lem s h = elim (Bool-cases (is_http s)) [
  | inl plain ↦ inl (starts_with_lem s (codes "http://") plain)
  | inr other ↦ elim (Bool-cases (is_https s)) [
    | inl secure ↦ inr (inl (starts_with_lem s (codes "https://") secure))
    | inr neither ↦ inr (
        inr (
          starts_with_lem s (codes "unix:")
            (only (starts_with s (codes "unix:")) (is_http s) (is_https s) h other neither)))
  ]
]
  where
    only : (a b c : Bool) → (a || (b || c)) ≡ true → b ≡ false → c ≡ false → a ≡ true
    only true b c h p q = refl
    only false true c h p q = cc p
    only false false true h p q = cc q
    only false false false h p q = h

Accepts : List ℕ → Type 0
Accepts s = (endpoint : ParsedEndpoint) × (parse_endpoint s ≡ some endpoint) × IsUsable endpoint

-- The authority check that the scheme asks for.
checks : List ℕ → Option TlsConfigError
checks s = if is_http s || is_https s then check_authority (authority_part s) else none

http_lem :
    (rest : List ℕ) → checks (codes "http://" ++ rest) ≡ none → Accepts (codes "http://" ++ rest)
unfolding checks Accepts parse_endpoint IsUsable
http_lem rest h =
    let parts = split_path rest in
    let parsed = parse_authority parts.0 80 in
    (http parsed.0 parsed.1 parts.1, refl, check_authority_lem parts.0 80 (omega arith) h)

https_lem :
    (rest : List ℕ) → checks (codes "https://" ++ rest) ≡ none → Accepts (codes "https://" ++ rest)
unfolding checks Accepts parse_endpoint IsUsable
https_lem rest h =
    let parts = split_path rest in
    let parsed = parse_authority parts.0 443 in
    (https parsed.0 parsed.1 parts.1, refl, check_authority_lem parts.0 443 (omega arith) h)

unix_lem : (rest : List ℕ) → Accepts (codes "unix:" ++ rest)
unfolding Accepts parse_endpoint IsUsable
unix_lem rest = elim (Bool-cases (bytes_eq (take 3 rest) (codes "///"))) [
  | inl three ↦ (unix (codes "/" ++ drop 3 rest) (codes "/"), rw (three) refl, refl)
  | inr under ↦ elim (Bool-cases (bytes_eq (take 2 rest) (codes "//"))) [
    | inl two ↦ (unix (drop 2 rest) (codes "/"), rw (under, two) refl, refl)
    | inr one ↦ (unix rest (codes "/"), rw (under, one) refl, refl)
  ]
]

accepts_lem : (s : List ℕ) → valid_scheme s ≡ true → checks s ≡ none → Accepts s
accepts_lem s valid checked = elim (scheme_lem s valid) [
  | inl e ↦ subst Accepts (sym e) (http_lem (drop 7 s) (subst (λ t. checks t ≡ none) e checked))
  | inr (inl e) ↦
      subst Accepts (sym e) (https_lem (drop 8 s) (subst (λ t. checks t ≡ none) e checked))
  | inr (inr e) ↦ subst Accepts (sym e) (unix_lem (drop 5 s))
]

-- When the configuration accepts an endpoint, whatever files exist, the transport parses it; over
-- http or https its host, without brackets, is not empty and its port is not 0, and the warning
-- is given exactly when the verification is off.
pub validate_endpoint_tls-IsUsable :
    (file_exists : List ℕ → Bool) (input : TlsValidationInput) (warn : Bool)
    → validate_endpoint_tls file_exists input ≡ inr warn
    → ((endpoint : ParsedEndpoint) × (parse_endpoint input.endpoint ≡ some endpoint)
        × IsUsable endpoint)
      × (warn ≡ input.ssl_verify_off)
unfolding validate_endpoint_tls first_error Accepts checks
validate_endpoint_tls-IsUsable file_exists input warn h =
    let verdict = verdict_lem (first_error file_exists input) input.ssl_verify_off warn h in
    let passed = chain_lem (valid_scheme input.endpoint) (checks input.endpoint) _ verdict.0 in
    (accepts_lem input.endpoint passed.0 passed.1, verdict.1)
