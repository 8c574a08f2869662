-- ===== src/Directives/Duplicate.antt =====
-- config/directives.rs: a directive of the exporter's block that is given twice.
use ngx_otel_rust.Base.{
  ℕ, ◌≡◌, ◌≢◌, refl, ap, ◌⊎◌, Option, none, some, ltb, arith, inl, inr, Bool, true, false, not,
  ◌==◌, List, if◌then◌else◌, is_empty, bytes_eq, Bool-cases,
}
use mathlib.Core.Path.{subst}
use ngx_otel_rust.Base.Text.{codes}
use ngx_otel_rust.Directives.{
  ExporterConfig, MainConfig, ConfError, is_duplicate, conf_error, unset_flag, unset_u64,
  cmd_set_metric_interval, arg, cmd_exporter_set_endpoint, cmd_exporter_set_trusted_cert,
  cmd_exporter_set_ssl_cert, cmd_exporter_set_ssl_cert_key, cmd_exporter_set_ssl_verify,
  cmd_exporter_set_metrics_endpoint, cmd_exporter_set_logs_endpoint,
  cmd_exporter_set_traces_endpoint,
}
use ngx_otel_rust.Config.{parse_duration_ms}
use ngx_otel_rust.Directives.Block.{
  BlockCommand, endpoint, trusted_certificate, ssl_certificate, ssl_certificate_key, ssl_verify,
  metrics_endpoint, logs_endpoint, traces_endpoint, header, interval, batch_size, batch_count,
  in_exporter, run_block_command,
}
use ngx_otel_rust.Directives.WellFormed.{Post}

-- The directives that set one thing. The headers add up, and the batch limits set nothing.
unfoldable pub is_single : (command : BlockCommand) → Bool
is_single endpoint = true
is_single trusted_certificate = true
is_single ssl_certificate = true
is_single ssl_certificate_key = true
is_single ssl_verify = true
is_single metrics_endpoint = true
is_single logs_endpoint = true
is_single traces_endpoint = true
is_single header = false
is_single interval = true
is_single batch_size = false
is_single batch_count = false

-- What an accepted directive leaves.
accepted_lem :
    (amcf after : MainConfig) (b : Bool) (ecf : ExporterConfig)
    → in_exporter amcf (if b then inl is_duplicate else inr ecf) ≡ inr after
    → after ≡ record amcf { exporter = ecf }
unfolding in_exporter
accepted_lem amcf after true ecf e = cc e
accepted_lem amcf after false ecf e = cc e

Given : MainConfig → Type 0
Given amcf = (amcf.exporter.ssl_verify == unset_flag) ≡ false

verify-Given :
    (args : List (List ℕ)) (amcf : MainConfig)
    → Post Given (in_exporter amcf (cmd_exporter_set_ssl_verify args amcf.exporter))
unfolding Given in_exporter cmd_exporter_set_ssl_verify
verify-Given args amcf = elim (Bool-cases (not (amcf.exporter.ssl_verify == unset_flag))) [
  | inl twice ↦ rw (twice) tt
  | inr first ↦ elim (Bool-cases (bytes_eq (arg 1 args) (codes "on"))) [
    | inl on ↦ rw (first, on) refl
    | inr not_on ↦ elim (Bool-cases (bytes_eq (arg 1 args) (codes "off"))) [
      | inl off ↦ rw (first, not_on, off) refl
      | inr neither ↦ rw (first, not_on, neither) tt
    ]
  ]
]

verify_lem :
    (args : List (List ℕ)) (amcf after : MainConfig)
    → in_exporter amcf (cmd_exporter_set_ssl_verify args amcf.exporter) ≡ inr after
    → (after.exporter.ssl_verify == unset_flag) ≡ false
unfolding Given
verify_lem args amcf after e = subst (Post Given) e (verify-Given args amcf)

FirstInterval : MainConfig → Type 0
FirstInterval amcf = (amcf.metric_interval_ms == unset_u64) ≡ false

interval-FirstInterval :
    (args : List (List ℕ)) (amcf : MainConfig)
    → parse_duration_ms (arg 1 args) ≢ some unset_u64
    → Post FirstInterval (cmd_set_metric_interval args amcf)
unfolding FirstInterval cmd_set_metric_interval
interval-FirstInterval args amcf other = elim (Bool-cases (amcf.metric_interval_ms == unset_u64)) [
  | inl first ↦ rw first (parsed (parse_duration_ms (arg 1 args)) other)
  | inr twice ↦ rw twice tt
]
  where
    parsed :
        (ms : Option ℕ)
        → ms ≢ some unset_u64
        → Post FirstInterval (elim ms as (λ _. ConfError ⊎ MainConfig) [
          | none ↦ inl conf_error
          | some n ↦
              if ltb 0 n then inr (record amcf { metric_interval_ms = n }) else inl conf_error
        ])
    parsed none differ = tt
    parsed (some n) differ = elim (Bool-cases (ltb 0 n)) [
      | inl positive ↦ rw positive (ground (arith, λ (e : n ≡ unset_u64). differ (ap some e)))
      | inr zero_ms ↦ rw zero_ms tt
    ]

interval_lem :
    (args : List (List ℕ)) (amcf after : MainConfig)
    → parse_duration_ms (arg 1 args) ≢ some unset_u64
    → cmd_set_metric_interval args amcf ≡ inr after
    → (after.metric_interval_ms == unset_u64) ≡ false
unfolding FirstInterval
interval_lem args amcf after other e =
    subst (Post FirstInterval) e (interval-FirstInterval args amcf other)

module _ (name_is_valid value_is_valid : List ℕ → Bool) where
  -- A directive of the block that sets one thing, that is each but the headers and the ignored batch
  -- limits: once it was accepted with a text that is not empty, it is refused as a duplicate the next
  -- time, whatever its words are. For the interval the text must not stand for 2 ^ 64 - 1 milliseconds,
  -- which the code stores as the mark of an unset interval.
  pub second-is_duplicate :
      (command : BlockCommand) (args again : List (List ℕ)) (amcf after : MainConfig)
      → is_single command ≡ true
      → is_empty (arg 1 args) ≡ false
      → (command ≡ interval → parse_duration_ms (arg 1 args) ≢ some unset_u64)
      → run_block_command name_is_valid value_is_valid command args amcf ≡ inr after
      → run_block_command name_is_valid value_is_valid command again after ≡ inl is_duplicate
  unfolding is_single run_block_command in_exporter cmd_exporter_set_endpoint
      cmd_exporter_set_trusted_cert cmd_exporter_set_ssl_cert cmd_exporter_set_ssl_cert_key
      cmd_exporter_set_ssl_verify cmd_exporter_set_metrics_endpoint cmd_exporter_set_logs_endpoint
      cmd_exporter_set_traces_endpoint cmd_set_metric_interval
  second-is_duplicate endpoint args again amcf after single some_text longest e =
      let left = accepted_lem amcf after _ _ e in
      simp (ap (λ (c : MainConfig). c.exporter.endpoint) left, some_text) refl
  second-is_duplicate trusted_certificate args again amcf after single some_text longest e =
      let left = accepted_lem amcf after _ _ e in
      simp (ap (λ (c : MainConfig). c.exporter.trusted_cert) left, some_text) refl
  second-is_duplicate ssl_certificate args again amcf after single some_text longest e =
      let left = accepted_lem amcf after _ _ e in
      simp (ap (λ (c : MainConfig). c.exporter.ssl_cert) left, some_text) refl
  second-is_duplicate ssl_certificate_key args again amcf after single some_text longest e =
      let left = accepted_lem amcf after _ _ e in
      simp (ap (λ (c : MainConfig). c.exporter.ssl_cert_key) left, some_text) refl
  second-is_duplicate ssl_verify args again amcf after single some_text longest e =
      simp (verify_lem args amcf after e) refl
  second-is_duplicate metrics_endpoint args again amcf after single some_text longest e =
      let left = accepted_lem amcf after _ _ e in
      simp (ap (λ (c : MainConfig). c.exporter.metrics_endpoint) left, some_text) refl
  second-is_duplicate logs_endpoint args again amcf after single some_text longest e =
      let left = accepted_lem amcf after _ _ e in
      simp (ap (λ (c : MainConfig). c.exporter.logs_endpoint) left, some_text) refl
  second-is_duplicate traces_endpoint args again amcf after single some_text longest e =
      let left = accepted_lem amcf after _ _ e in
      simp (ap (λ (c : MainConfig). c.exporter.traces_endpoint) left, some_text) refl
  second-is_duplicate header args again amcf after single some_text longest e = cc single
  second-is_duplicate interval args again amcf after single some_text longest e =
      rw (interval_lem args amcf after (longest refl) e) refl
  second-is_duplicate batch_size args again amcf after single some_text longest e = cc single
  second-is_duplicate batch_count args again amcf after single some_text longest e = cc single
