-- ===== src/Directives/Main.antt =====
-- config/directives.rs: the directives of the http block.
use ngx_otel_rust.Base.{
  ℕ, ◌⊎◌, inl, inr, Bool, true, false, Option, none, some, List, [], ◌∷◌, ◌++◌, ltb, if◌then◌else◌,
  length, bytes_eq,
}
use ngx_otel_rust.Base.Text.{codes}
use ngx_otel_rust.Config.{parse_size_bytes, align_ring_size}
use ngx_otel_rust.Writer.{
  OtelErrorWriterState, NgxLog, LogChain, parse_error_log_level, otel_log_insert,
}
use ngx_otel_rust.Directives.{
  otlp_http, otlp_grpc, MainConfig, ConfError, is_duplicate, conf_error, arg,
  cmd_set_metric_interval, cmd_add_exporter_header,
}

unfoldable pub cmd_add_resource_attr :
    (args : List (List ℕ)) (amcf : MainConfig) → ConfError ⊎ MainConfig
cmd_add_resource_attr args amcf = inr (record amcf {
  resource_attrs = amcf.resource_attrs ++ (record { key = arg 1 args; value = arg 2 args } ∷ []);
})

unfoldable pub cmd_set_export_protocol :
    (args : List (List ℕ)) (amcf : MainConfig) → ConfError ⊎ MainConfig
cmd_set_export_protocol args amcf = elim amcf.export_protocol [
  | some protocol ↦ inl is_duplicate
  | none ↦
      (if bytes_eq (arg 1 args) (codes "otlp_http")
        then inr (record amcf { export_protocol = some otlp_http })
        else if bytes_eq (arg 1 args) (codes "otlp_grpc")
        then inr (record amcf { export_protocol = some otlp_grpc })
        else inl conf_error)
]

-- The size in bytes, rounded up to a multiple of 8.
unfoldable pub cmd_set_log_ring_size :
    (args : List (List ℕ)) (amcf : MainConfig) → ConfError ⊎ MainConfig
cmd_set_log_ring_size args amcf =
    if ltb 0 amcf.log_ring_size then inl is_duplicate else elim (parse_size_bytes (arg 1 args)) [
      | none ↦ inl conf_error
      | some n ↦
          (if ltb 0 n
            then elim (align_ring_size n) as (λ _. ConfError ⊎ MainConfig) [
              | none ↦ inl conf_error
              | some aligned ↦ inr (record amcf { log_ring_size = aligned })
            ]
            else inl conf_error)
    ]

unfoldable pub cmd_set_error_log_coalesce :
    (args : List (List ℕ)) (amcf : MainConfig) → ConfError ⊎ MainConfig
cmd_set_error_log_coalesce args amcf =
    if bytes_eq (arg 1 args) (codes "on")
    then inr (record amcf { error_log_coalesce = true })
    else if bytes_eq (arg 1 args) (codes "off")
    then inr (record amcf { error_log_coalesce = false })
    else inl conf_error

-- The word behind the name, or NGX_LOG_ERR without one.
unfoldable pub parse_error_log_level_floor : (args : List (List ℕ)) → Option ℕ
parse_error_log_level_floor args =
    if ltb 1 (length args) then parse_error_log_level (arg 1 args) else some 4

-- Zeroed memory of the pool.
abbrev pub new_state : ℕ → OtelErrorWriterState
new_state level_floor = record {
  busy = false;
  cleanup = false;
  level_floor = level_floor;
  logs_zone = false;
  coalesce_table = none;
  coalesce_enabled = false;
  error_ring = none;
  error_rates = none;
}

abbrev pub new_node : ℕ → NgxLog
new_node level_floor = record {
  log_level = level_floor;
  other = 0;
  wdata = some (new_state level_floor);
}

-- The chain of the cycle is its head, whose memory is part of the cycle, and what follows.
pub record CycleLog : Type 0 where
  pub address : ℕ
  pub head : NgxLog
  pub next : LogChain

-- `allocated` is the address of the new node, none when the pool gives no memory.
unfoldable pub cmd_set_error_log :
    (allocated : Option ℕ) (args : List (List ℕ)) (log : CycleLog) (amcf : MainConfig)
    → ConfError ⊎ (LogChain × MainConfig)
cmd_set_error_log allocated args log amcf =
    if amcf.error_log_enabled then inl conf_error else elim (parse_error_log_level_floor args) [
      | none ↦ inl conf_error
      | some level_floor ↦ elim allocated as (λ _. ConfError ⊎ (LogChain × MainConfig)) [
        | none ↦ inl conf_error
        | some node ↦ inr (
          otel_log_insert log.address log.head log.next node (new_node level_floor),
          record amcf { error_log_enabled = true; error_log_level = level_floor },
        )
      ]
    ]

-- The directives of the http block that the module handles by itself.
pub data MainCommand : Type 0 where
  resource_attr : MainCommand
  exporter_header : MainCommand
  metric_interval : MainCommand
  export_protocol : MainCommand
  log_ring_size : MainCommand
  error_log_coalesce : MainCommand

module _ (name_is_valid value_is_valid : List ℕ → Bool) where
  unfoldable pub run_main_command :
      (command : MainCommand) (args : List (List ℕ)) (amcf : MainConfig) → ConfError ⊎ MainConfig
  run_main_command resource_attr args amcf = cmd_add_resource_attr args amcf
  run_main_command exporter_header args amcf =
      cmd_add_exporter_header name_is_valid value_is_valid args amcf
  run_main_command metric_interval args amcf = cmd_set_metric_interval args amcf
  run_main_command export_protocol args amcf = cmd_set_export_protocol args amcf
  run_main_command log_ring_size args amcf = cmd_set_log_ring_size args amcf
  run_main_command error_log_coalesce args amcf = cmd_set_error_log_coalesce args amcf
