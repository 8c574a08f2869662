-- ===== src/Directives/WellFormed.antt =====
-- config/directives.rs: what holds of every configuration that the directives accept.
use ngx_otel_rust.Base.{
  ℕ, ◌%◌, ◌≤◌, ◌<◌, ◌≡◌, refl, ◌⊎◌, inl, inr, Bool, true, false, not, Bool-cases, Option, none,
  some, List, [], ◌∷◌, ◌++◌, ltb, ltb→lt, ◌==◌, if◌then◌else◌, All, All-append, bytes_eq, arith,
}
use ngx_otel_rust.Base.Text.{codes}
use ngx_otel_rust.Config.{parse_duration_ms, parse_size_bytes}
use ngx_otel_rust.Directives.{
  ExporterConfig, MainConfig, ConfError, is_duplicate, conf_error, unset_flag, unset_u64, arg,
  check_header_kv, cmd_exporter_set_ssl_verify, cmd_set_metric_interval,
  cmd_exporter_block_ignore_batch_size, cmd_exporter_block_ignore_batch_count,
  cmd_add_exporter_header,
}
use ngx_otel_rust.Directives.Block.{in_exporter}

-- Of the configuration that a handler answers, if it answers one.
abbrev pub Post : (MainConfig → Type 0) → ConfError ⊎ MainConfig → Type 0
Post P (inl e) = Unit {0}
Post P (inr amcf) = P amcf

-- Every header passed the check, the interval is not 0, the ring size is a multiple of 8, the
-- verification is unset, off or on, and the floor of the error log is a level of nginx.
pub record WellFormed (name_is_valid value_is_valid : List ℕ → Bool) (amcf : MainConfig)
    : Type 0 where
  pub headers :
      All
        (λ h. check_header_kv name_is_valid value_is_valid h.key h.value ≡ none)
        amcf.exporter_headers
  pub positive : 0 < amcf.metric_interval_ms
  pub aligned : amcf.log_ring_size % 8 ≡ 0
  pub verify :
      (amcf.exporter.ssl_verify ≡ unset_flag)
      ⊎ ((amcf.exporter.ssl_verify ≡ 0) ⊎ (amcf.exporter.ssl_verify ≡ 1))
  pub level : (1 ≤ amcf.error_log_level) × (amcf.error_log_level ≤ 8)

pub set_once :
    (P : MainConfig → Type 0) (amcf : MainConfig) (b : Bool) (e : ConfError) (ecf : ExporterConfig)
    → P (record amcf { exporter = ecf })
    → Post P (in_exporter amcf (if b then inl e else inr ecf))
unfolding in_exporter
set_once P amcf true e ecf h = tt
set_once P amcf false e ecf h = h

-- A test that refuses.
pub Post-unless :
    (P : MainConfig → Type 0) (b : Bool) (e : ConfError) (other : ConfError ⊎ MainConfig)
    → Post P other
    → Post P (if b then inl e else other)
Post-unless P true e other h = tt
Post-unless P false e other h = h

module _ (name_is_valid value_is_valid : List ℕ → Bool) where
  abbrev pub Good : MainConfig → Type 0
  Good = WellFormed name_is_valid value_is_valid

  -- Another exporter with the same verification.
  pub exporter_Good :
      (amcf : MainConfig) (ecf : ExporterConfig)
      → Good amcf
      → ecf.ssl_verify ≡ amcf.exporter.ssl_verify
      → Good (record amcf { exporter = ecf })
  exporter_Good amcf ecf h same = record {
    headers = h.headers;
    positive = h.positive;
    aligned = h.aligned;
    verify = ground (arith, same, h.verify);
    level = h.level;
  }

  pub ssl_verify_Good :
      (args : List (List ℕ)) (amcf : MainConfig)
      → Good amcf
      → Post Good (in_exporter amcf (cmd_exporter_set_ssl_verify args amcf.exporter))
  unfolding cmd_exporter_set_ssl_verify in_exporter
  ssl_verify_Good args amcf h = elim (Bool-cases (not (amcf.exporter.ssl_verify == unset_flag))) [
    | inl twice ↦ rw (twice) tt
    | inr first ↦ elim (Bool-cases (bytes_eq (arg 1 args) (codes "on"))) [
      | inl on ↦ rw (first, on) (with_verify 1 (inr refl))
      | inr not_on ↦ elim (Bool-cases (bytes_eq (arg 1 args) (codes "off"))) [
        | inl off ↦ rw (first, not_on, off) (with_verify 0 (inl refl))
        | inr neither ↦ rw (first, not_on, neither) tt
      ]
    ]
  ]
    where
      with_verify :
          (v : ℕ)
          → (v ≡ 0) ⊎ (v ≡ 1)
          → Good (record amcf { exporter = record amcf.exporter { ssl_verify = v } })
      with_verify v is = record {
        headers = h.headers;
        positive = h.positive;
        aligned = h.aligned;
        verify = inr is;
        level = h.level;
      }

  pub metric_interval_Good :
      (args : List (List ℕ)) (amcf : MainConfig)
      → Good amcf
      → Post Good (cmd_set_metric_interval args amcf)
  unfolding cmd_set_metric_interval
  metric_interval_Good args amcf h =
      Post-unless Good (not (amcf.metric_interval_ms == unset_u64)) is_duplicate _
        (parsed (parse_duration_ms (arg 1 args)))
    where
      with_interval : (ms : ℕ) → 0 < ms → Good (record amcf { metric_interval_ms = ms })
      with_interval ms some_ms = record {
        headers = h.headers;
        positive = some_ms;
        aligned = h.aligned;
        verify = h.verify;
        level = h.level;
      }

      parsed :
          (ms : Option ℕ)
          → Post Good (elim ms [
            | none ↦ inl conf_error
            | some ms ↦
                if ltb 0 ms then inr (record amcf { metric_interval_ms = ms }) else inl conf_error
          ])
      parsed none = tt
      parsed (some ms) = elim (Bool-cases (ltb 0 ms)) [
        | inl some_ms ↦ rw (some_ms) (with_interval ms (ltb→lt 0 ms some_ms))
        | inr zero_ms ↦ rw (zero_ms) tt
      ]

  pub header_Good :
      (args : List (List ℕ)) (amcf : MainConfig)
      → Good amcf
      → Post Good (cmd_add_exporter_header name_is_valid value_is_valid args amcf)
  unfolding cmd_add_exporter_header
  header_Good args amcf h =
      added (check_header_kv name_is_valid value_is_valid (arg 1 args) (arg 2 args)) refl
    where
      added :
          (answer : Option Bool)
          → check_header_kv name_is_valid value_is_valid (arg 1 args) (arg 2 args) ≡ answer
          → Post Good (elim answer [
            | some bad_name ↦ inl conf_error
            | none ↦ inr (record amcf {
              exporter_headers =
                  amcf.exporter_headers ++ (record { key = arg 1 args; value = arg 2 args } ∷ []);
            })
          ])
      added (some bad_name) e = tt
      added none e = record {
        headers = All-append _ amcf.exporter_headers _ h.headers (e, tt);
        positive = h.positive;
        aligned = h.aligned;
        verify = h.verify;
        level = h.level;
      }

  pub size_Good :
      (args : List (List ℕ)) (amcf : MainConfig)
      → Good amcf
      → Post Good (cmd_exporter_block_ignore_batch_size args amcf)
        × Post Good (cmd_exporter_block_ignore_batch_count args amcf)
  unfolding cmd_exporter_block_ignore_batch_size cmd_exporter_block_ignore_batch_count
  size_Good args amcf h =
      (either (parse_size_bytes (arg 1 args)), either (parse_size_bytes (arg 1 args)))
    where
      either :
          (size : Option ℕ) → Post Good (elim size [ none ↦ inl conf_error | some n ↦ inr amcf ])
      either none = tt
      either (some n) = h
