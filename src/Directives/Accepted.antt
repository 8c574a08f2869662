-- ===== src/Directives/Accepted.antt =====
-- config/directives.rs: every command of the block and of the http block keeps the configuration well
-- formed.
use ngx_otel_rust.Base.{
  ℕ, ◌≡◌, refl, ◌⊎◌, inl, inr, Bool, false, not, ◌||◌, Bool-cases, List, [], ◌∷◌, ltb,
  if◌then◌else◌, is_empty, length, bytes_eq,
}
use ngx_otel_rust.Directives.{
  ExporterConfig, MainConfig, ConfError, is_duplicate, conf_error, is_set, arg,
  cmd_exporter_set_endpoint, cmd_exporter_set_trusted_cert, cmd_exporter_set_ssl_cert,
  cmd_exporter_set_ssl_cert_key, cmd_exporter_set_metrics_endpoint, cmd_exporter_set_logs_endpoint,
  cmd_exporter_set_traces_endpoint,
}
use ngx_otel_rust.Directives.Block.{
  BlockCommand, endpoint, trusted_certificate, ssl_certificate, ssl_certificate_key, ssl_verify,
  metrics_endpoint, logs_endpoint, traces_endpoint, header, interval, batch_size, batch_count,
  cmd_nargs, in_exporter, run_block_command, dispatch, exporter_commands,
  cmd_exporter_block_handler, cmd_set_exporter_block,
}
use ngx_otel_rust.Directives.WellFormed.{
  Post, WellFormed, set_once, Post-unless, exporter_Good, ssl_verify_Good, metric_interval_Good,
  header_Good, size_Good,
}

-- nginx's parser changes the configuration only by the handler.
abbrev pub OnlyHandles :
    ((List (List ℕ) → MainConfig → ConfError ⊎ MainConfig) → MainConfig → ConfError ⊎ MainConfig)
    → Type 1
OnlyHandles conf_parse =
    (P : MainConfig → Type 0)
    → (handler : List (List ℕ) → MainConfig → ConfError ⊎ MainConfig)
    → ((args : List (List ℕ)) (amcf : MainConfig) → P amcf → Post P (handler args amcf))
    → (amcf : MainConfig) → P amcf
    → Post P (conf_parse handler amcf)

module _ (name_is_valid value_is_valid : List ℕ → Bool) where
  abbrev Good : MainConfig → Type 0
  Good = WellFormed name_is_valid value_is_valid

  -- A field of the exporter that is set once.
  once :
      (amcf : MainConfig) (b : Bool) (ecf : ExporterConfig)
      → Good amcf
      → ecf.ssl_verify ≡ amcf.exporter.ssl_verify
      → Post Good (in_exporter amcf (if b then inl is_duplicate else inr ecf))
  once amcf b ecf h same =
      set_once Good amcf b is_duplicate ecf
        (exporter_Good name_is_valid value_is_valid amcf ecf h same)

  block_command_Good :
      (command : BlockCommand) (args : List (List ℕ)) (amcf : MainConfig)
      → Good amcf
      → Post Good (run_block_command name_is_valid value_is_valid command args amcf)
  unfolding run_block_command cmd_exporter_set_endpoint cmd_exporter_set_trusted_cert
      cmd_exporter_set_ssl_cert cmd_exporter_set_ssl_cert_key cmd_exporter_set_metrics_endpoint
      cmd_exporter_set_logs_endpoint cmd_exporter_set_traces_endpoint
  block_command_Good endpoint args amcf h =
      once amcf (not (is_empty amcf.exporter.endpoint)) _ h refl
  block_command_Good trusted_certificate args amcf h =
      once amcf (not (is_empty amcf.exporter.trusted_cert)) _ h refl
  block_command_Good ssl_certificate args amcf h =
      once amcf (not (is_empty amcf.exporter.ssl_cert)) _ h refl
  block_command_Good ssl_certificate_key args amcf h =
      once amcf (not (is_empty amcf.exporter.ssl_cert_key)) _ h refl
  block_command_Good ssl_verify args amcf h =
      ssl_verify_Good name_is_valid value_is_valid args amcf h
  block_command_Good metrics_endpoint args amcf h =
      once amcf (not (is_empty amcf.exporter.metrics_endpoint)) _ h refl
  block_command_Good logs_endpoint args amcf h =
      once amcf (not (is_empty amcf.exporter.logs_endpoint)) _ h refl
  block_command_Good traces_endpoint args amcf h =
      once amcf (not (is_empty amcf.exporter.traces_endpoint)) _ h refl
  block_command_Good header args amcf h = header_Good name_is_valid value_is_valid args amcf h
  block_command_Good interval args amcf h =
      metric_interval_Good name_is_valid value_is_valid args amcf h
  block_command_Good batch_size args amcf h = (size_Good name_is_valid value_is_valid args amcf h).0
  block_command_Good batch_count args amcf h =
      (size_Good name_is_valid value_is_valid args amcf h).1

  dispatch-Good :
      (commands : List (List ℕ × ℕ × BlockCommand)) (args : List (List ℕ)) (amcf : MainConfig)
      → Good amcf
      → Post Good (dispatch name_is_valid value_is_valid commands args amcf)
  unfolding dispatch
  dispatch-Good [] args amcf h = tt
  dispatch-Good ((name, type, command) ∷ commands) args amcf h =
      let (least, most) = cmd_nargs type in
      let later = dispatch-Good commands args amcf h in
      let run = block_command_Good command args amcf h in
      elim (Bool-cases (not (bytes_eq (arg 0 args) name))) [
        | inl other ↦ rw (other) later
        | inr named ↦
            rw (named) (
              Post-unless Good (ltb (length args) least || ltb most (length args)) conf_error _ run)
      ]

  pub block_Good :
      (conf_parse : (List (List ℕ) → MainConfig → ConfError ⊎ MainConfig)
        → MainConfig
        → ConfError ⊎ MainConfig)
      → OnlyHandles conf_parse
      → (amcf : MainConfig) → Good amcf
      → Post
          (λ c. Good c × (is_empty c.exporter.endpoint ≡ false))
          (cmd_set_exporter_block name_is_valid value_is_valid conf_parse amcf)
  unfolding cmd_set_exporter_block cmd_exporter_block_handler
  block_Good conf_parse only amcf h = elim (Bool-cases (is_set amcf.exporter)) [
    | inl twice ↦ rw (twice) tt
    | inr first ↦ rw (first) (
        ended (conf_parse (cmd_exporter_block_handler name_is_valid value_is_valid) amcf) (
          only Good (cmd_exporter_block_handler name_is_valid value_is_valid)
            (dispatch-Good exporter_commands) amcf h))
  ]
    where
      ended :
          (answer : ConfError ⊎ MainConfig)
          → Post Good answer
          → Post
              (λ c. Good c × (is_empty c.exporter.endpoint ≡ false))
              (elim answer [
                | inl e ↦ inl e
                | inr parsed ↦
                    if is_empty parsed.exporter.endpoint then inl conf_error else inr parsed
              ])
      ended (inl e) k = tt
      ended (inr parsed) k = elim (Bool-cases (is_empty parsed.exporter.endpoint)) [
        | inl missing ↦ rw (missing) tt
        | inr there ↦ rw (there) (k, there)
      ]
