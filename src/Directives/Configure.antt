-- ===== src/Directives/Configure.antt =====
-- config/directives.rs: the directives of a configuration one after the other.
use ngx_otel_rust.Base.{ℕ, ◌<◌, ◌≡◌, refl, ◌⊎◌, inl, inr, Bool, Option, List, [], ◌∷◌, arith}
use mathlib.Core.Path.{subst}
use ngx_otel_rust.Directives.{MainConfig, ConfError, default_main, interval_ms}
use ngx_otel_rust.Directives.Block.{cmd_set_exporter_block}
use ngx_otel_rust.Directives.Main.{MainCommand, CycleLog, cmd_set_error_log, run_main_command}
use ngx_otel_rust.Directives.WellFormed.{Post, WellFormed}
use ngx_otel_rust.Directives.Accepted.{OnlyHandles, block_Good}
use ngx_otel_rust.Directives.Kept.{configured, error_log_Good, main_command_Good}

-- A directive of the http block: the exporter's block, the error log with the address of its new node, or
-- another one with its words.
pub data Directive : Type 0 where
  exporter_block : Directive
  error_log : (allocated : Option ℕ) (args : List (List ℕ)) → Directive
  main_command : (command : MainCommand) (args : List (List ℕ)) → Directive

module _ (name_is_valid value_is_valid : List ℕ → Bool)
    (conf_parse : (List (List ℕ) → MainConfig → ConfError ⊎ MainConfig)
      → MainConfig
      → ConfError ⊎ MainConfig)
    (log : CycleLog) where
  unfoldable pub run_directive : (d : Directive) (amcf : MainConfig) → ConfError ⊎ MainConfig
  run_directive exporter_block amcf =
      cmd_set_exporter_block name_is_valid value_is_valid conf_parse amcf
  run_directive (error_log allocated args) amcf =
      configured (cmd_set_error_log allocated args log amcf)
  run_directive (main_command command args) amcf =
      run_main_command name_is_valid value_is_valid command args amcf

  -- The first error ends it.
  unfoldable pub configure : (ds : List Directive) (amcf : MainConfig) → ConfError ⊎ MainConfig
  configure [] amcf = inr amcf
  configure (d ∷ ds) amcf = elim (run_directive d amcf) [
    | inl e ↦ inl e
    | inr next ↦ configure ds next
  ]

Post-mono :
    {P Q : MainConfig → Type 0}
    → ((amcf : MainConfig) → P amcf → Q amcf)
    → (answer : ConfError ⊎ MainConfig) → Post P answer
    → Post Q answer
Post-mono f (inl e) h = tt
Post-mono f (inr amcf) h = f amcf h

default_Good :
    (name_is_valid value_is_valid : List ℕ → Bool)
    → WellFormed name_is_valid value_is_valid default_main
default_Good name_is_valid value_is_valid = record {
  headers = tt;
  positive = omega arith;
  aligned = refl;
  verify = inl refl;
  level = omega arith;
}

interval_ms-positive : (amcf : MainConfig) → 0 < amcf.metric_interval_ms → 0 < interval_ms amcf
unfolding interval_ms
interval_ms-positive amcf h = ground (arith, h)

module _ (name_is_valid value_is_valid : List ℕ → Bool)
    (conf_parse : (List (List ℕ) → MainConfig → ConfError ⊎ MainConfig)
      → MainConfig
      → ConfError ⊎ MainConfig)
    (log : CycleLog) (only : OnlyHandles conf_parse) where
  abbrev Good : MainConfig → Type 0
  Good = WellFormed name_is_valid value_is_valid

  directive_Good :
      (d : Directive) (amcf : MainConfig)
      → Good amcf
      → Post Good (run_directive name_is_valid value_is_valid conf_parse log d amcf)
  unfolding run_directive
  directive_Good exporter_block amcf h =
      Post-mono (λ c. λ both. both.0)
        (cmd_set_exporter_block name_is_valid value_is_valid conf_parse amcf)
        (block_Good name_is_valid value_is_valid conf_parse only amcf h)
  directive_Good (error_log allocated args) amcf h =
      error_log_Good name_is_valid value_is_valid amcf h allocated args log
  directive_Good (main_command command args) amcf h =
      main_command_Good name_is_valid value_is_valid amcf h command args

  configure-Good :
      (ds : List Directive) (amcf : MainConfig)
      → Good amcf
      → Post Good (configure name_is_valid value_is_valid conf_parse log ds amcf)
  unfolding configure
  configure-Good [] amcf h = h
  configure-Good (d ∷ ds) amcf h =
      next (run_directive name_is_valid value_is_valid conf_parse log d amcf)
        (directive_Good d amcf h) (configure-Good ds)
    where
      next :
          (answer : ConfError ⊎ MainConfig)
          → Post Good answer
          → ((after : MainConfig)
              → Good after
              → Post Good (configure name_is_valid value_is_valid conf_parse log ds after))
          → Post Good (elim answer [
            | inl e ↦ inl e
            | inr next ↦ configure name_is_valid value_is_valid conf_parse log ds next
          ])
      next (inl e) k rest = tt
      next (inr after) k rest = rest after k

-- A configuration that the directives accept from the defaults on, with nginx's parser only calling the
-- handler of the block: its headers passed the check of hyper, its interval is not 0, neither as
-- stored nor in effect, its ring size is a multiple of 8, the verification is unset, off or on, and
-- the floor of the error log is a level from 1 to 8.
pub configure-WellFormed :
    (name_is_valid value_is_valid : List ℕ → Bool)
    (conf_parse : (List (List ℕ) → MainConfig → ConfError ⊎ MainConfig)
      → MainConfig
      → ConfError ⊎ MainConfig)
    (log : CycleLog) (ds : List Directive) (amcf : MainConfig)
    → OnlyHandles conf_parse
    → configure name_is_valid value_is_valid conf_parse log ds default_main ≡ inr amcf
    → WellFormed name_is_valid value_is_valid amcf × (0 < interval_ms amcf)
configure-WellFormed name_is_valid value_is_valid conf_parse log ds amcf only e =
    let h =
      configure-Good name_is_valid value_is_valid conf_parse log only ds default_main
        (default_Good name_is_valid value_is_valid) in
    let good = subst (Post (WellFormed name_is_valid value_is_valid)) e h in
    (good, interval_ms-positive amcf good.positive)
