-- ===== src/Directives/Block.antt =====
-- config/directives.rs and config/mod.rs: the block `otel_exporter` and its command table.
use ngx_otel_rust.Base.{
  ℕ, ◌-◌, ◌/◌, ◌%◌, ◌^◌, ◌⊎◌, inl, inr, Bool, not, ◌||◌, List, [], ◌∷◌, ltb, ◌==◌, if◌then◌else◌,
  length, is_empty, bytes_eq,
}
use ngx_otel_rust.Base.Text.{codes}
use ngx_otel_rust.Directives.{
  ExporterConfig, MainConfig, ConfError, conf_error, is_set, arg, cmd_exporter_set_endpoint,
  cmd_exporter_set_trusted_cert, cmd_exporter_set_ssl_cert, cmd_exporter_set_ssl_cert_key,
  cmd_exporter_set_ssl_verify, cmd_exporter_set_metrics_endpoint, cmd_exporter_set_logs_endpoint,
  cmd_exporter_set_traces_endpoint, cmd_set_metric_interval, cmd_exporter_block_ignore_batch_size,
  cmd_exporter_block_ignore_batch_count, cmd_add_exporter_header,
}

-- NGX_CONF_NOARGS, NGX_CONF_TAKE1, NGX_CONF_TAKE2 and NGX_CONF_FLAG of nginx, as bits.
abbrev pub has_bit : ℕ → ℕ → Bool
has_bit bit t = t / bit % 2 == 1

-- The least and the greatest number of words, the name included.
unfoldable pub cmd_nargs : (type : ℕ) → ℕ × ℕ
cmd_nargs type =
    if has_bit 1 type
    then (1, 1)
    else if has_bit 2 type
    then (2, 2)
    else if has_bit 4 type
    then (3, 3)
    else if has_bit 512 type
    then (2, 2)
    else (1, 2 ^ 64 - 1)

-- The handlers of the table.
pub data BlockCommand : Type 0 where
  endpoint : BlockCommand
  trusted_certificate : BlockCommand
  ssl_certificate : BlockCommand
  ssl_certificate_key : BlockCommand
  ssl_verify : BlockCommand
  metrics_endpoint : BlockCommand
  logs_endpoint : BlockCommand
  traces_endpoint : BlockCommand
  header : BlockCommand
  interval : BlockCommand
  batch_size : BlockCommand
  batch_count : BlockCommand

abbrev pub exporter_commands : List (List ℕ × ℕ × BlockCommand)
exporter_commands =
    (codes "endpoint", 2, endpoint)
    ∷ (codes "trusted_certificate", 2, trusted_certificate)
    ∷ (codes "ssl_certificate", 2, ssl_certificate)
    ∷ (codes "ssl_certificate_key", 2, ssl_certificate_key)
    ∷ (codes "ssl_verify", 2, ssl_verify)
    ∷ (codes "metrics_endpoint", 2, metrics_endpoint)
    ∷ (codes "logs_endpoint", 2, logs_endpoint)
    ∷ (codes "traces_endpoint", 2, traces_endpoint)
    ∷ (codes "header", 4, header)
    ∷ (codes "interval", 2, interval)
    ∷ (codes "batch_size", 2, batch_size)
    ∷ (codes "batch_count", 2, batch_count)
    ∷ []

-- A handler of the exporter's part, on the whole configuration.
unfoldable pub in_exporter :
    (amcf : MainConfig) → ConfError ⊎ ExporterConfig → ConfError ⊎ MainConfig
in_exporter amcf (inl e) = inl e
in_exporter amcf (inr ecf) = inr (record amcf { exporter = ecf })

-- The same code as `otel_metric_interval`.
abbrev pub cmd_exporter_block_set_interval : List (List ℕ) → MainConfig → ConfError ⊎ MainConfig
cmd_exporter_block_set_interval args amcf = cmd_set_metric_interval args amcf

module _ (name_is_valid value_is_valid : List ℕ → Bool) where
  -- The same code as `otel_exporter_header`.
  abbrev pub cmd_exporter_block_add_header : List (List ℕ) → MainConfig → ConfError ⊎ MainConfig
  cmd_exporter_block_add_header args amcf =
      cmd_add_exporter_header name_is_valid value_is_valid args amcf

  unfoldable pub run_block_command :
      (command : BlockCommand) (args : List (List ℕ)) (amcf : MainConfig) → ConfError ⊎ MainConfig
  run_block_command endpoint args amcf =
      in_exporter amcf (cmd_exporter_set_endpoint args amcf.exporter)
  run_block_command trusted_certificate args amcf =
      in_exporter amcf (cmd_exporter_set_trusted_cert args amcf.exporter)
  run_block_command ssl_certificate args amcf =
      in_exporter amcf (cmd_exporter_set_ssl_cert args amcf.exporter)
  run_block_command ssl_certificate_key args amcf =
      in_exporter amcf (cmd_exporter_set_ssl_cert_key args amcf.exporter)
  run_block_command ssl_verify args amcf =
      in_exporter amcf (cmd_exporter_set_ssl_verify args amcf.exporter)
  run_block_command metrics_endpoint args amcf =
      in_exporter amcf (cmd_exporter_set_metrics_endpoint args amcf.exporter)
  run_block_command logs_endpoint args amcf =
      in_exporter amcf (cmd_exporter_set_logs_endpoint args amcf.exporter)
  run_block_command traces_endpoint args amcf =
      in_exporter amcf (cmd_exporter_set_traces_endpoint args amcf.exporter)
  run_block_command header args amcf = cmd_exporter_block_add_header args amcf
  run_block_command interval args amcf = cmd_exporter_block_set_interval args amcf
  run_block_command batch_size args amcf = cmd_exporter_block_ignore_batch_size args amcf
  run_block_command batch_count args amcf = cmd_exporter_block_ignore_batch_count args amcf

  -- The loop over the table.
  unfoldable pub dispatch :
      (commands : List (List ℕ × ℕ × BlockCommand)) (args : List (List ℕ)) (amcf : MainConfig)
      → ConfError ⊎ MainConfig
  dispatch [] args amcf = inl conf_error
  dispatch ((name, type, command) ∷ commands) args amcf =
      let later = dispatch commands args amcf in
      let (least, most) = cmd_nargs type in
      if not (bytes_eq (arg 0 args) name)
      then later
      else if ltb (length args) least || ltb most (length args)
      then inl conf_error
      else run_block_command command args amcf

  unfoldable pub cmd_exporter_block_handler :
      (args : List (List ℕ)) (amcf : MainConfig) → ConfError ⊎ MainConfig
  cmd_exporter_block_handler args amcf = dispatch exporter_commands args amcf

  -- `conf_parse` is nginx's parser, which calls the handler at each directive of the block.
  unfoldable pub cmd_set_exporter_block :
      (conf_parse : (List (List ℕ) → MainConfig → ConfError ⊎ MainConfig)
        → MainConfig
        → ConfError ⊎ MainConfig)
      (amcf : MainConfig)
      → ConfError ⊎ MainConfig
  cmd_set_exporter_block conf_parse amcf =
      if is_set amcf.exporter
      then inl conf_error
      else elim (conf_parse cmd_exporter_block_handler amcf) [
        | inl e ↦ inl e
        | inr parsed ↦ if is_empty parsed.exporter.endpoint then inl conf_error else inr parsed
      ]
