-- ===== src/Directives/Runs.antt =====
-- The directives at concrete words.
use ngx_otel_rust.Base.{
  ℕ, ◌<◌, ◌≡◌, ◌≢◌, refl, sym, ◌∙◌, arith, ◌⊎◌, inl, inr, Bool, true, false, Option, none, some,
  List, [], ◌∷◌, ◌^◌, ◌-◌,
}
use Prim.{tt}
use ngx_otel_rust.Base.Text.{codes}
use ngx_otel_rust.Config.{
  checked, parse_u64_digits, parse_u64_ascii, has_suffix, last_or_zero, duration_unit,
  parse_duration_ms,
}
use ngx_otel_rust.Directives.{
  MainConfig, ConfError, is_duplicate, unset_u64, default_main, default_exporter, interval_ms,
  cmd_set_metric_interval, check_header_kv, cmd_exporter_set_endpoint, cmd_add_exporter_header,
  has_authority,
}
use ngx_otel_rust.Directives.Block.{
  interval, cmd_nargs, in_exporter, run_block_command, dispatch, cmd_exporter_block_handler,
  cmd_set_exporter_block,
}
use ngx_otel_rust.Directives.Main.{exporter_header, CycleLog, run_main_command}
use ngx_otel_rust.Directives.Location.{
  LocationConf, default_location, log_export_mode, if_cond, selects, log_export_of, log_export_code,
  with_log_export, merge, cmd_set_otel_log_export,
}
use ngx_otel_rust.Directives.WellFormed.{Post, WellFormed}
use ngx_otel_rust.Directives.Accepted.{OnlyHandles}
use ngx_otel_rust.Directives.Configure.{
  Directive, exporter_block, main_command, run_directive, configure, configure-WellFormed,
}
use ngx_otel_rust.Directives.Duplicate.{is_single, second-is_duplicate}
use ngx_otel_rust.Directives.Selection.{Located, fresh, directive, merged, Located-flagged}

-- Any name and value are taken that are not empty.
abbrev takes : List ℕ → Bool
takes [] = false
takes (b ∷ text) = true

-- A parser that calls the handler at each directive of a block.
parse_each :
    List (List (List ℕ))
    → (List (List ℕ) → MainConfig → ConfError ⊎ MainConfig)
    → MainConfig
    → ConfError ⊎ MainConfig
parse_each [] handler amcf = inr amcf
parse_each (args ∷ block) handler amcf = elim (handler args amcf) [
  | inl e ↦ inl e
  | inr next ↦ parse_each block handler next
]

parse_each-OnlyHandles : (block : List (List (List ℕ))) → OnlyHandles (parse_each block)
unfolding parse_each
parse_each-OnlyHandles [] P handler keeps amcf h = h
parse_each-OnlyHandles (args ∷ block) P handler keeps amcf h =
    next (handler args amcf) (keeps args amcf h) (parse_each-OnlyHandles block P handler keeps)
  where
    next :
        (answer : ConfError ⊎ MainConfig)
        → Post P answer
        → ((after : MainConfig) → P after → Post P (parse_each block handler after))
        → Post P (elim answer [ inl e ↦ inl e | inr next ↦ parse_each block handler next ])
    next (inl e) k rest = tt
    next (inr after) k rest = rest after k

abbrev block : List (List (List ℕ))
block =
    (codes "endpoint" ∷ codes "http://c:4318" ∷ [])
    ∷ (codes "interval" ∷ codes "2s" ∷ [])
    ∷ (codes "header" ∷ codes "k" ∷ codes "v" ∷ [])
    ∷ []

abbrev cycle_log : CycleLog
cycle_log = record {
  address = 1;
  head = record { log_level = 4; other = 0; wdata = none };
  next = [];
}

abbrev directives : List Directive
directives =
    exporter_block
    ∷ main_command exporter_header (codes "otel_exporter_header" ∷ codes "a" ∷ codes "b" ∷ [])
    ∷ []

abbrev configured_main : MainConfig
configured_main = record default_main {
  exporter = record default_exporter { endpoint = codes "http://c:4318" };
  metric_interval_ms = 2000;
  exporter_headers =
      record { key = codes "k"; value = codes "v" }
      ∷ record { key = codes "a"; value = codes "b" }
      ∷ [];
}

configured_run :
    configure takes takes (parse_each block) cycle_log directives default_main ≡ inr configured_main
unfolding configure run_directive run_main_command cmd_set_exporter_block cmd_exporter_block_handler
    dispatch cmd_nargs run_block_command in_exporter cmd_exporter_set_endpoint
    cmd_set_metric_interval cmd_add_exporter_header check_header_kv parse_each parse_duration_ms
    has_suffix last_or_zero duration_unit parse_u64_ascii parse_u64_digits checked
configured_run = refl

configure-WellFormed_example :
    WellFormed takes takes configured_main × (0 < interval_ms configured_main)
configure-WellFormed_example =
    configure-WellFormed takes takes (parse_each block) cycle_log directives configured_main
      (parse_each-OnlyHandles block) configured_run

two_seconds : parse_duration_ms (codes "2s") ≡ some 2000
unfolding parse_duration_ms has_suffix last_or_zero duration_unit parse_u64_ascii parse_u64_digits
    checked
two_seconds = refl

not_longest : ◌≢◌ {A = Option ℕ} (some 2000) (some unset_u64)
not_longest e = ground (arith, e)

second-is_duplicate_example :
    run_block_command takes takes interval (codes "interval" ∷ codes "3s" ∷ []) configured_main
    ≡ inl is_duplicate
unfolding run_block_command cmd_set_metric_interval is_single parse_duration_ms has_suffix
    last_or_zero duration_unit parse_u64_ascii parse_u64_digits checked
second-is_duplicate_example =
    second-is_duplicate takes takes interval (codes "interval" ∷ codes "2s" ∷ [])
      (codes "interval" ∷ codes "3s" ∷ [])
      (record configured_main { metric_interval_ms = unset_u64 }) configured_main refl refl
      (λ same. λ longest. not_longest (sym two_seconds ∙ longest)) refl

-- A compiler that keeps the text.
abbrev same_text : List ℕ → Option (List ℕ)
same_text text = some text

abbrev flagged : MainConfig
flagged = record default_main { any_log_export = true }

abbrev conditional : LocationConf (List ℕ)
conditional = record default_location { log_export_raw = 3; log_export_cv = some (codes "$bad") }

inherited : Located same_text flagged (merge default_location conditional)
unfolding cmd_set_otel_log_export log_export_of selects with_log_export log_export_code
inherited =
    merged (fresh flagged)
      (directive (codes "otel_log_export" ∷ codes "if=$bad" ∷ []) (fresh default_main) refl)

Located-flagged_example :
    (selects (log_export_mode (merge default_location conditional)) ≡ true
      → flagged.any_log_export ≡ true)
    × (log_export_mode (merge default_location conditional) ≡ if_cond
        → (v : List ℕ) × ((merge default_location conditional).log_export_cv ≡ some v))
Located-flagged_example =
    Located-flagged same_text flagged (merge default_location conditional) inherited

-- The longest duration of 64 bits is stored as the mark of an unset interval.
longest : MainConfig
longest = record default_main { metric_interval_ms = 2 ^ 64 - 1 }

longest_is_unset :
    cmd_set_metric_interval (codes "interval" ∷ codes "18446744073709551615ms" ∷ []) default_main
    ≡ inr longest
unfolding cmd_set_metric_interval parse_duration_ms has_suffix parse_u64_ascii parse_u64_digits
    checked longest
longest_is_unset = refl

longest_is_default : interval_ms longest ≡ 5000
unfolding interval_ms longest
longest_is_default = refl

scheme_warns : has_authority (codes "http://h/v1") ≡ true
unfolding has_authority
scheme_warns = refl
