-- ===== src/Config/Tls.antt =====
-- config/mod.rs: the checks of the endpoint and of the TLS files when the configuration is read.
pub mod Accepted
use ngx_otel_rust.Base.{
  ℕ, zero, suc, ◌+◌, ◌≡◌, ◌⊎◌, inl, inr, Bool, true, false, not, ◌&&◌, ◌||◌, Option, none, some,
  List, [], ◌∷◌, ltb, if◌then◌else◌, length, take, drop, is_empty, bytes_eq,
}
use ngx_otel_rust.Base.Text.{codes}
use ngx_otel_rust.Http.Endpoint.{rfind, parse_u16, search_start_of, split_path, strip_v6_brackets}

pub data TlsConfigError : Type 0 where
  bad_scheme : TlsConfigError
  bad_host : TlsConfigError
  bad_port : TlsConfigError
  cert_without_key : TlsConfigError
  key_without_cert : TlsConfigError
  file_missing : (label : List ℕ) → TlsConfigError

-- An empty text is unset.
pub record TlsValidationInput : Type 0 where
  pub endpoint : List ℕ
  pub trusted_cert : List ℕ
  pub ssl_cert : List ℕ
  pub ssl_cert_key : List ℕ
  pub ssl_verify_off : Bool

abbrev pub starts_with : List ℕ → List ℕ → Bool
starts_with s prefix = bytes_eq (take (length prefix) s) prefix

abbrev pub is_https : List ℕ → Bool
is_https endpoint = starts_with endpoint (codes "https://")

abbrev pub is_http : List ℕ → Bool
is_http endpoint = starts_with endpoint (codes "http://")

abbrev pub valid_scheme : List ℕ → Bool
valid_scheme endpoint =
    starts_with endpoint (codes "unix:") || (is_http endpoint || is_https endpoint)

-- The text up to the first slash behind the scheme.
abbrev pub authority_part : List ℕ → List ℕ
authority_part endpoint =
    (split_path (
      drop (if is_https endpoint then length (codes "https://") else length (codes "http://"))
        endpoint)).0

-- The host and the text of the port.
unfoldable pub split_authority : (authority : List ℕ) → List ℕ × Option (List ℕ)
split_authority authority = elim (rfind b':' (drop (search_start_of authority) authority)) [
  | none ↦ (authority, none)
  | some rel_idx ↦
      (let idx = search_start_of authority + rel_idx in
        (take idx authority, some (drop (idx + 1) authority)))
]

unfoldable pub valid_port : (port : Option ℕ) → Bool
valid_port none = false
valid_port (some n) = ltb 0 n

unfoldable pub accepts_port : (port_str : Option (List ℕ)) → Bool
accepts_port none = true
accepts_port (some p) = valid_port (parse_u16 p)

unfoldable pub check_authority : (authority : List ℕ) → Option TlsConfigError
check_authority authority =
    if is_empty (strip_v6_brackets (split_authority authority).0)
    then some bad_host
    else if accepts_port (split_authority authority).1
    then none
    else some bad_port

unfoldable pub check_pair : (ssl_cert ssl_cert_key : List ℕ) → Option TlsConfigError
check_pair ssl_cert ssl_cert_key =
    if not (is_empty ssl_cert) && is_empty ssl_cert_key
    then some cert_without_key
    else if is_empty ssl_cert && not (is_empty ssl_cert_key)
    then some key_without_cert
    else none

abbrev pub tls_files : TlsValidationInput → List (List ℕ × List ℕ)
tls_files input =
    (codes "trusted_certificate", input.trusted_cert)
    ∷ (codes "ssl_certificate", input.ssl_cert)
    ∷ (codes "ssl_certificate_key", input.ssl_cert_key)
    ∷ []

-- The test of a file is a call of the operating system.
module _ (file_exists : List ℕ → Bool) where
  unfoldable pub check_files : (files : List (List ℕ × List ℕ)) → Option TlsConfigError
  check_files [] = none
  check_files ((label, path) ∷ files) =
      let rest = check_files files in
      if is_empty path then rest else if file_exists path then rest else some (file_missing label)

  unfoldable pub first_error : (input : TlsValidationInput) → Option TlsConfigError
  first_error input =
      if not (valid_scheme input.endpoint)
      then some bad_scheme
      else elim (if is_http input.endpoint || is_https input.endpoint
          then check_authority (authority_part input.endpoint)
          else none) [
            | some e ↦ some e
            | none ↦ elim (check_pair input.ssl_cert input.ssl_cert_key) [
              | some e ↦ some e
              | none ↦ if is_https input.endpoint then check_files (tls_files input) else none
            ]
          ]

  unfoldable pub validate_endpoint_tls : (input : TlsValidationInput) → TlsConfigError ⊎ Bool
  validate_endpoint_tls input = elim (first_error input) [
    | some e ↦ inl e
    | none ↦ inr input.ssl_verify_off
  ]
