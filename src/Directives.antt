-- ===== src/Directives.antt =====
-- config/directives.rs: the handlers of the directives, on the configuration of config/mod.rs.
-- A string of nginx is the list of its bytes, an unset one is empty. `args` are the words of the
-- directive, its name first; nginx has checked their number.
pub mod Block
pub mod Main
pub mod Location
pub mod WellFormed
pub mod Accepted
pub mod Kept
pub mod Configure
pub mod Duplicate
pub mod Selection
mod Runs
use ngx_otel_rust.Base.{
  ℕ, zero, suc, ◌+◌, ◌-◌, ◌^◌, ◌⊎◌, inl, inr, Bool, true, false, not, ◌&&◌, ◌||◌, Option, none,
  some, List, [], ◌∷◌, ◌++◌, ltb, ◌==◌, if◌then◌else◌, length, take, drop, is_empty, bytes_eq,
}
use ngx_otel_rust.Base.Text.{codes}
use ngx_otel_rust.Config.{parse_duration_ms, parse_size_bytes}

pub data ExportProtocol : Type 0 where
  otlp_http : ExportProtocol
  otlp_grpc : ExportProtocol

pub record KvPair : Type 0 where
  pub key : List ℕ
  pub value : List ℕ

-- `ssl_verify` is a flag of 64 bits, -1 while it is unset.
pub record ExporterConfig : Type 0 where
  pub endpoint : List ℕ
  pub trusted_cert : List ℕ
  pub ssl_cert : List ℕ
  pub ssl_cert_key : List ℕ
  pub ssl_verify : ℕ
  pub metrics_endpoint : List ℕ
  pub logs_endpoint : List ℕ
  pub traces_endpoint : List ℕ

-- The fields that the directives of the module set.
pub record MainConfig : Type 0 where
  pub exporter : ExporterConfig
  pub resource_attrs : List KvPair
  pub exporter_headers : List KvPair
  pub metric_interval_ms : ℕ
  pub export_protocol : Option ExportProtocol
  pub any_log_export : Bool
  pub log_ring_size : ℕ
  pub error_log_enabled : Bool
  pub error_log_level : ℕ
  pub error_log_coalesce : Bool

abbrev pub unset_flag : ℕ
unset_flag = 2 ^ 64 - 1

abbrev pub unset_u64 : ℕ
unset_u64 = 2 ^ 64 - 1

abbrev pub default_exporter : ExporterConfig
default_exporter = record {
  endpoint = [];
  trusted_cert = [];
  ssl_cert = [];
  ssl_cert_key = [];
  ssl_verify = unset_flag;
  metrics_endpoint = [];
  logs_endpoint = [];
  traces_endpoint = [];
}

abbrev pub default_main : MainConfig
default_main = record {
  exporter = default_exporter;
  resource_attrs = [];
  exporter_headers = [];
  metric_interval_ms = unset_u64;
  export_protocol = none;
  any_log_export = false;
  log_ring_size = 0;
  error_log_enabled = false;
  error_log_level = 4;
  error_log_coalesce = true;
}

abbrev pub default_interval_ms : ℕ
default_interval_ms = 5000

unfoldable pub interval_ms : (conf : MainConfig) → ℕ
interval_ms conf =
    if conf.metric_interval_ms == unset_u64 then default_interval_ms else conf.metric_interval_ms

unfoldable pub export_protocol_of : (conf : MainConfig) → ExportProtocol
export_protocol_of conf = elim conf.export_protocol [ none ↦ otlp_http | some protocol ↦ protocol ]

abbrev pub is_set : ExporterConfig → Bool
is_set exporter = not (is_empty exporter.endpoint)

abbrev pub is_verify_off : ExporterConfig → Bool
is_verify_off exporter = exporter.ssl_verify == 0

-- What a handler answers to nginx instead of NGX_CONF_OK.
pub data ConfError : Type 0 where
  is_duplicate : ConfError
  invalid_ssl_verify : ConfError
  conf_error : ConfError

abbrev pub arg : ℕ → List (List ℕ) → List ℕ
arg i [] = []
arg zero (a ∷ args) = a
arg (suc i) (a ∷ args) = arg i args

unfoldable pub cmd_exporter_set_endpoint :
    (args : List (List ℕ)) (ecf : ExporterConfig) → ConfError ⊎ ExporterConfig
cmd_exporter_set_endpoint args ecf =
    if not (is_empty ecf.endpoint)
    then inl is_duplicate
    else inr (record ecf { endpoint = arg 1 args })

unfoldable pub cmd_exporter_set_trusted_cert :
    (args : List (List ℕ)) (ecf : ExporterConfig) → ConfError ⊎ ExporterConfig
cmd_exporter_set_trusted_cert args ecf =
    if not (is_empty ecf.trusted_cert)
    then inl is_duplicate
    else inr (record ecf { trusted_cert = arg 1 args })

unfoldable pub cmd_exporter_set_ssl_cert :
    (args : List (List ℕ)) (ecf : ExporterConfig) → ConfError ⊎ ExporterConfig
cmd_exporter_set_ssl_cert args ecf =
    if not (is_empty ecf.ssl_cert)
    then inl is_duplicate
    else inr (record ecf { ssl_cert = arg 1 args })

unfoldable pub cmd_exporter_set_ssl_cert_key :
    (args : List (List ℕ)) (ecf : ExporterConfig) → ConfError ⊎ ExporterConfig
cmd_exporter_set_ssl_cert_key args ecf =
    if not (is_empty ecf.ssl_cert_key)
    then inl is_duplicate
    else inr (record ecf { ssl_cert_key = arg 1 args })

unfoldable pub cmd_exporter_set_ssl_verify :
    (args : List (List ℕ)) (ecf : ExporterConfig) → ConfError ⊎ ExporterConfig
cmd_exporter_set_ssl_verify args ecf =
    if not (ecf.ssl_verify == unset_flag)
    then inl is_duplicate
    else if bytes_eq (arg 1 args) (codes "on")
    then inr (record ecf { ssl_verify = 1 })
    else if bytes_eq (arg 1 args) (codes "off")
    then inr (record ecf { ssl_verify = 0 })
    else inl invalid_ssl_verify

unfoldable pub cmd_exporter_set_metrics_endpoint :
    (args : List (List ℕ)) (ecf : ExporterConfig) → ConfError ⊎ ExporterConfig
cmd_exporter_set_metrics_endpoint args ecf =
    if not (is_empty ecf.metrics_endpoint)
    then inl is_duplicate
    else inr (record ecf { metrics_endpoint = arg 1 args })

unfoldable pub cmd_exporter_set_logs_endpoint :
    (args : List (List ℕ)) (ecf : ExporterConfig) → ConfError ⊎ ExporterConfig
cmd_exporter_set_logs_endpoint args ecf =
    if not (is_empty ecf.logs_endpoint)
    then inl is_duplicate
    else inr (record ecf { logs_endpoint = arg 1 args })

unfoldable pub cmd_exporter_set_traces_endpoint :
    (args : List (List ℕ)) (ecf : ExporterConfig) → ConfError ⊎ ExporterConfig
cmd_exporter_set_traces_endpoint args ecf =
    if not (is_empty ecf.traces_endpoint)
    then inl is_duplicate
    else inr (record ecf { traces_endpoint = arg 1 args })

-- A positive duration, once.
unfoldable pub cmd_set_metric_interval :
    (args : List (List ℕ)) (amcf : MainConfig) → ConfError ⊎ MainConfig
cmd_set_metric_interval args amcf =
    if not (amcf.metric_interval_ms == unset_u64)
    then inl is_duplicate
    else elim (parse_duration_ms (arg 1 args)) [
      | none ↦ inl conf_error
      | some ms ↦ if ltb 0 ms then inr (record amcf { metric_interval_ms = ms }) else inl conf_error
    ]

unfoldable pub cmd_exporter_block_ignore_batch_size :
    (args : List (List ℕ)) (amcf : MainConfig) → ConfError ⊎ MainConfig
cmd_exporter_block_ignore_batch_size args amcf = elim (parse_size_bytes (arg 1 args)) [
  | none ↦ inl conf_error
  | some n ↦ inr amcf
]

unfoldable pub cmd_exporter_block_ignore_batch_count :
    (args : List (List ℕ)) (amcf : MainConfig) → ConfError ⊎ MainConfig
cmd_exporter_block_ignore_batch_count args amcf = elim (parse_size_bytes (arg 1 args)) [
  | none ↦ inl conf_error
  | some n ↦ inr amcf
]

-- Whether hyper takes the name or the value of a header.
module _ (name_is_valid value_is_valid : List ℕ → Bool) where
  -- None is a pair that is fine, true a bad name, false a bad value.
  unfoldable pub check_header_kv : (name value : List ℕ) → Option Bool
  check_header_kv name value =
      if not (name_is_valid name)
      then some true
      else if not (value_is_valid value)
      then some false
      else none

  unfoldable pub cmd_add_exporter_header :
      (args : List (List ℕ)) (amcf : MainConfig) → ConfError ⊎ MainConfig
  cmd_add_exporter_header args amcf = elim (check_header_kv (arg 1 args) (arg 2 args)) [
    | some bad_name ↦ inl conf_error
    | none ↦ inr (record amcf {
      exporter_headers =
          amcf.exporter_headers ++ (record { key = arg 1 args; value = arg 2 args } ∷ []);
    })
  ]

-- The code points of "://" anywhere in the text, which gives a warning.
unfoldable pub has_authority : (text : List ℕ) → Bool
has_authority [] = false
has_authority (b ∷ text) =
    let later = has_authority text in bytes_eq (take 3 (b ∷ text)) (codes "://") || later
