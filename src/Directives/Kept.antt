-- ===== src/Directives/Kept.antt =====
-- config/directives.rs: the directives of the http block keep the configuration well formed.
use ngx_otel_rust.Base.{
  ℕ, ◌+◌, ◌*◌, ◌/◌, ◌%◌, ◌^◌, ◌≤◌, ◌≡◌, refl, ◌⊎◌, inl, inr, Bool, true, false, Bool-cases, Option,
  none, some, List, ltb, if◌then◌else◌, bytes_eq, arith,
}
use ngx_otel_rust.Base.Text.{codes}
use ngx_otel_rust.Config.{parse_size_bytes, align_ring_size, checked}
use ngx_otel_rust.Writer.{LogChain, parse_error_log_level, otel_log_insert}
use ngx_otel_rust.Directives.{
  MainConfig, ExportProtocol, ConfError, is_duplicate, conf_error, arg, otlp_http, otlp_grpc,
}
use ngx_otel_rust.Directives.Main.{
  MainCommand, resource_attr, exporter_header, metric_interval, export_protocol, log_ring_size,
  error_log_coalesce, cmd_add_resource_attr, cmd_set_export_protocol, cmd_set_log_ring_size,
  cmd_set_error_log_coalesce, parse_error_log_level_floor, CycleLog, new_node, cmd_set_error_log,
  run_main_command,
}
use ngx_otel_rust.Directives.WellFormed.{
  Post, WellFormed, Post-unless, metric_interval_Good, header_Good,
}

unfoldable pub configured : ConfError ⊎ (LogChain × MainConfig) → ConfError ⊎ MainConfig
configured (inl e) = inl e
configured (inr (chain, amcf)) = inr amcf

floor_lem :
    (args : List (List ℕ)) (l : ℕ) → parse_error_log_level_floor args ≡ some l → (1 ≤ l) × (l ≤ 8)
unfolding parse_error_log_level_floor parse_error_log_level
floor_lem args l e = ground (arith, e)

-- A configuration with another value of a field that the invariant does not read.
module _ (name_is_valid value_is_valid : List ℕ → Bool) (amcf : MainConfig)
    (h : WellFormed name_is_valid value_is_valid amcf) where
  abbrev Good : MainConfig → Type 0
  Good = WellFormed name_is_valid value_is_valid

  resource_attr_Good : (args : List (List ℕ)) → Post Good (cmd_add_resource_attr args amcf)
  unfolding cmd_add_resource_attr
  resource_attr_Good args = record {
    headers = h.headers;
    positive = h.positive;
    aligned = h.aligned;
    verify = h.verify;
    level = h.level;
  }

  export_protocol_Good : (args : List (List ℕ)) → Post Good (cmd_set_export_protocol args amcf)
  unfolding cmd_set_export_protocol
  export_protocol_Good args = go amcf.export_protocol
    where
      chosen : (p : ExportProtocol) → Good (record amcf { export_protocol = some p })
      chosen p = record {
        headers = h.headers;
        positive = h.positive;
        aligned = h.aligned;
        verify = h.verify;
        level = h.level;
      }

      go :
          (old : Option ExportProtocol)
          → Post Good (elim old [
            | some protocol ↦ inl is_duplicate
            | none ↦
                (if bytes_eq (arg 1 args) (codes "otlp_http")
                  then inr (record amcf { export_protocol = some otlp_http })
                  else if bytes_eq (arg 1 args) (codes "otlp_grpc")
                  then inr (record amcf { export_protocol = some otlp_grpc })
                  else inl conf_error)
          ])
      go (some protocol) = tt
      go none = elim (Bool-cases (bytes_eq (arg 1 args) (codes "otlp_http"))) [
        | inl over_http ↦ rw (over_http) (chosen otlp_http)
        | inr not_http ↦ elim (Bool-cases (bytes_eq (arg 1 args) (codes "otlp_grpc"))) [
          | inl over_grpc ↦ rw (not_http, over_grpc) (chosen otlp_grpc)
          | inr neither ↦ rw (not_http, neither) tt
        ]
      ]

  coalesce_Good : (args : List (List ℕ)) → Post Good (cmd_set_error_log_coalesce args amcf)
  unfolding cmd_set_error_log_coalesce
  coalesce_Good args = elim (Bool-cases (bytes_eq (arg 1 args) (codes "on"))) [
    | inl on ↦ rw (on) (chosen true)
    | inr not_on ↦ elim (Bool-cases (bytes_eq (arg 1 args) (codes "off"))) [
      | inl off ↦ rw (not_on, off) (chosen false)
      | inr neither ↦ rw (not_on, neither) tt
    ]
  ]
    where
      chosen : (b : Bool) → Good (record amcf { error_log_coalesce = b })
      chosen b = record {
        headers = h.headers;
        positive = h.positive;
        aligned = h.aligned;
        verify = h.verify;
        level = h.level;
      }

  ring_size_Good : (args : List (List ℕ)) → Post Good (cmd_set_log_ring_size args amcf)
  unfolding cmd_set_log_ring_size align_ring_size checked
  ring_size_Good args =
      Post-unless Good (ltb 0 amcf.log_ring_size) is_duplicate _
        (parsed (parse_size_bytes (arg 1 args)))
    where
      with_size : (n : ℕ) → n % 8 ≡ 0 → Good (record amcf { log_ring_size = n })
      with_size n eights = record {
        headers = h.headers;
        positive = h.positive;
        aligned = eights;
        verify = h.verify;
        level = h.level;
      }

      rounded :
          (n : ℕ)
          → Post Good (elim (align_ring_size n) as (λ _. ConfError ⊎ MainConfig) [
            | none ↦ inl conf_error
            | some aligned ↦ inr (record amcf { log_ring_size = aligned })
          ])
      rounded n = elim (Bool-cases (ltb ((n + 7) / 8 * 8) (2 ^ 64))) [
        | inl fits ↦ rw (fits) (with_size ((n + 7) / 8 * 8) (omega arith))
        | inr over ↦ rw (over) tt
      ]

      parsed :
          (size : Option ℕ)
          → Post Good (elim size [
            | none ↦ inl conf_error
            | some n ↦
                (if ltb 0 n
                  then elim (align_ring_size n) as (λ _. ConfError ⊎ MainConfig) [
                    | none ↦ inl conf_error
                    | some aligned ↦ inr (record amcf { log_ring_size = aligned })
                  ]
                  else inl conf_error)
          ])
      parsed none = tt
      parsed (some n) = elim (Bool-cases (ltb 0 n)) [
        | inl some_bytes ↦ rw (some_bytes) (rounded n)
        | inr no_bytes ↦ rw (no_bytes) tt
      ]

  pub error_log_Good :
      (allocated : Option ℕ) (args : List (List ℕ)) (log : CycleLog)
      → Post Good (configured (cmd_set_error_log allocated args log amcf))
  unfolding cmd_set_error_log configured
  error_log_Good allocated args log = elim (Bool-cases amcf.error_log_enabled) [
    | inl twice ↦ simp (twice) tt
    | inr first ↦ simp (first) (floored (parse_error_log_level_floor args) refl)
  ]
    where
      with_level :
          (l : ℕ)
          → (1 ≤ l) × (l ≤ 8)
          → Good (record amcf { error_log_enabled = true; error_log_level = l })
      with_level l is = record {
        headers = h.headers;
        positive = h.positive;
        aligned = h.aligned;
        verify = h.verify;
        level = is;
      }

      floored :
          (floor : Option ℕ)
          → parse_error_log_level_floor args ≡ floor
          → Post Good (
              configured (elim floor [
                | none ↦ inl conf_error
                | some level_floor ↦ elim allocated as (λ _. ConfError ⊎ (LogChain × MainConfig)) [
                  | none ↦ inl conf_error
                  | some node ↦ inr (
                    otel_log_insert log.address log.head log.next node (new_node level_floor),
                    record amcf { error_log_enabled = true; error_log_level = level_floor },
                  )
                ]
              ]))
      floored none e = tt
      floored (some l) e =
          elim allocated
            as (λ a. Post Good (
              configured (elim a as (λ _. ConfError ⊎ (LogChain × MainConfig)) [
                | none ↦ inl conf_error
                | some node ↦ inr (
                  otel_log_insert log.address log.head log.next node (new_node l),
                  record amcf { error_log_enabled = true; error_log_level = l },
                )
              ]))) [ none ↦ tt | some node ↦ with_level l (floor_lem args l e) ]

  pub main_command_Good :
      (command : MainCommand) (args : List (List ℕ))
      → Post Good (run_main_command name_is_valid value_is_valid command args amcf)
  unfolding run_main_command
  main_command_Good resource_attr args = resource_attr_Good args
  main_command_Good exporter_header args = header_Good name_is_valid value_is_valid args amcf h
  main_command_Good metric_interval args =
      metric_interval_Good name_is_valid value_is_valid args amcf h
  main_command_Good export_protocol args = export_protocol_Good args
  main_command_Good log_ring_size args = ring_size_Good args
  main_command_Good error_log_coalesce args = coalesce_Good args
