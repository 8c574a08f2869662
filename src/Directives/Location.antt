-- ===== src/Directives/Location.antt =====
-- metric_source/location_conf.rs and config/directives.rs: the directives of a location, and what a
-- location inherits.
use ngx_otel_rust.Base.{
  ℕ, ◌⊎◌, inl, inr, Bool, true, false, not, ◌||◌, Option, none, some, List, [], ◌∷◌, ◌++◌, ltb,
  ◌==◌, if◌then◌else◌, length, take, drop, bytes_eq,
}
use ngx_otel_rust.Base.Text.{codes}
use ngx_otel_rust.Directives.{KvPair, MainConfig, ConfError, is_duplicate, conf_error, arg}

pub data LogExportMode : Type 0 where
  unset : LogExportMode
  off : LogExportMode
  all : LogExportMode
  if_cond : LogExportMode

pub data TraceContextMode : Type 0 where
  ignore : TraceContextMode
  extract : TraceContextMode
  inject : TraceContextMode
  propagate : TraceContextMode

-- The bytes that encode the modes.
unfoldable pub log_export_code : (mode : LogExportMode) → ℕ
log_export_code unset = 0
log_export_code off = 1
log_export_code all = 2
log_export_code if_cond = 3

unfoldable pub trace_context_code : (mode : TraceContextMode) → ℕ
trace_context_code ignore = 0
trace_context_code extract = 1
trace_context_code inject = 2
trace_context_code propagate = 3

abbrev pub trace_context_unset : ℕ
trace_context_unset = 255

abbrev pub log_export_unset : ℕ
log_export_unset = 0

unfoldable pub trace_context_of : (word : List ℕ) → Option TraceContextMode
trace_context_of word =
    if bytes_eq word (codes "ignore")
    then some ignore
    else if bytes_eq word (codes "extract")
    then some extract
    else if bytes_eq word (codes "inject")
    then some inject
    else if bytes_eq word (codes "propagate")
    then some propagate
    else none

unfoldable pub selects : (mode : LogExportMode) → Bool
selects unset = false
selects off = false
selects all = true
selects if_cond = true

-- A pointer to a value that nginx compiled is that value, or none.
pub record LocationConf (V : Type 0) : Type 0 where
  pub otel_trace : Option V
  pub trace_context_raw : ℕ
  pub span_name_cv : Option V
  pub span_attrs : List KvPair
  pub log_export_raw : ℕ
  pub log_export_cv : Option V

module _ {V : Type 0} where
  abbrev pub default_location : LocationConf V
  default_location = record {
    otel_trace = none;
    trace_context_raw = trace_context_unset;
    span_name_cv = none;
    span_attrs = [];
    log_export_raw = log_export_unset;
    log_export_cv = none;
  }

  unfoldable pub trace_context : (conf : LocationConf V) → TraceContextMode
  trace_context conf =
      if conf.trace_context_raw == 0
      then ignore
      else if conf.trace_context_raw == 1
      then extract
      else if conf.trace_context_raw == 2
      then inject
      else if conf.trace_context_raw == 3
      then propagate
      else extract

  abbrev pub trace_context_is_set : LocationConf V → Bool
  trace_context_is_set conf = not (conf.trace_context_raw == trace_context_unset)

  unfoldable pub log_export_mode : (conf : LocationConf V) → LogExportMode
  log_export_mode conf =
      if conf.log_export_raw == 1
      then off
      else if conf.log_export_raw == 2
      then all
      else if conf.log_export_raw == 3
      then if_cond
      else unset

  abbrev pub log_export_is_set : LocationConf V → Bool
  log_export_is_set conf = not (conf.log_export_raw == log_export_unset)

  unfoldable pub or_inherited : (own inherited : Option V) → Option V
  or_inherited none inherited = inherited
  or_inherited (some v) inherited = some v

  unfoldable pub merge : (conf prev : LocationConf V) → LocationConf V
  merge conf prev =
      let log_set = log_export_is_set conf in
      record {
        otel_trace = or_inherited conf.otel_trace prev.otel_trace;
        trace_context_raw =
            if trace_context_is_set conf then conf.trace_context_raw else prev.trace_context_raw;
        span_name_cv = or_inherited conf.span_name_cv prev.span_name_cv;
        span_attrs = conf.span_attrs;
        log_export_raw = if log_set then conf.log_export_raw else prev.log_export_raw;
        log_export_cv = if log_set then conf.log_export_cv else prev.log_export_cv;
      }

  unfoldable pub cmd_add_otel_span_attr :
      (args : List (List ℕ)) (lcf : LocationConf V) → ConfError ⊎ LocationConf V
  cmd_add_otel_span_attr args lcf = inr (record lcf {
    span_attrs = lcf.span_attrs ++ (record { key = arg 1 args; value = arg 2 args } ∷ []);
  })

  unfoldable pub cmd_set_otel_trace_context :
      (args : List (List ℕ)) (lcf : LocationConf V) → ConfError ⊎ LocationConf V
  cmd_set_otel_trace_context args lcf =
      if trace_context_is_set lcf then inl is_duplicate else elim (trace_context_of (arg 1 args)) [
        | none ↦ inl conf_error
        | some mode ↦ inr (record lcf { trace_context_raw = trace_context_code mode })
      ]

  unfoldable pub with_log_export :
      (mode : LogExportMode) (cond : Option V) (lcf : LocationConf V) → LocationConf V
  with_log_export mode none lcf = record lcf { log_export_raw = log_export_code mode }
  with_log_export mode (some v) lcf = record lcf {
    log_export_raw = log_export_code mode;
    log_export_cv = some v;
  }

  -- `compile` allocates and compiles a complex value; none is a failure of either.
  module _ (compile : List ℕ → Option V) where
    unfoldable pub cmd_set_otel_trace :
        (args : List (List ℕ)) (lcf : LocationConf V) → ConfError ⊎ LocationConf V
    cmd_set_otel_trace args lcf = elim lcf.otel_trace [
      | some v ↦ inl is_duplicate
      | none ↦ elim (compile (arg 1 args)) as (λ _. ConfError ⊎ LocationConf V) [
        | none ↦ inl conf_error
        | some v ↦ inr (record lcf { otel_trace = some v })
      ]
    ]

    unfoldable pub cmd_set_otel_span_name :
        (args : List (List ℕ)) (lcf : LocationConf V) → ConfError ⊎ LocationConf V
    cmd_set_otel_span_name args lcf = elim lcf.span_name_cv [
      | some v ↦ inl is_duplicate
      | none ↦ elim (compile (arg 1 args)) as (λ _. ConfError ⊎ LocationConf V) [
        | none ↦ inl conf_error
        | some v ↦ inr (record lcf { span_name_cv = some v })
      ]
    ]

    -- The mode of the words, with the condition of `if=`.
    unfoldable pub log_export_of : (args : List (List ℕ)) → Option (LogExportMode × Option V)
    log_export_of args =
        if ltb (length args) 2 || bytes_eq (arg 1 args) (codes "on")
        then some (all, none)
        else if bytes_eq (arg 1 args) (codes "off")
        then some (off, none)
        else if bytes_eq (take 3 (arg 1 args)) (codes "if=")
        then elim (compile (drop 3 (arg 1 args))) as (λ _. Option (LogExportMode × Option V)) [
          | none ↦ none
          | some v ↦ some (if_cond, some v)
        ]
        else none

    -- A mode that selects records also raises the flag of the main configuration.
    unfoldable pub cmd_set_otel_log_export :
        (args : List (List ℕ)) (lcf : LocationConf V) (amcf : MainConfig)
        → ConfError ⊎ (LocationConf V × MainConfig)
    cmd_set_otel_log_export args lcf amcf =
        if log_export_is_set lcf then inl is_duplicate else elim (log_export_of args) [
          | none ↦ inl conf_error
          | some (mode, cond) ↦ inr (
            with_log_export mode cond lcf,
            (if selects mode then record amcf { any_log_export = true } else amcf),
          )
        ]
