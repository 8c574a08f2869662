-- ===== src/Writer/Runs.antt =====
-- The writer and its chain at concrete lines.
use ngx_otel_rust.Base.{
  ℕ, ◌+◌, ◌%◌, ◌^◌, ◌≡◌, refl, true, false, none, some, List, [], ◌∷◌, arith, get_or, replicate,
  if◌then◌else◌, leb,
}
use ngx_otel_rust.Base.Text.{codes}
use ngx_otel_rust.Coalesce.{empty_slot}
use ngx_otel_rust.Writer.{
  OtelErrorWriterState, NgxLog, otel_log_insert, cached_unix_nanos, parse_error_log_level,
  severity_class_index,
}
use ngx_otel_rust.Writer.Rates.{Line, write_lines, lines_of, rates_of, IsReady, write_lines-rates}
use ngx_otel_rust.Writer.Chain.{IsSorted, count_logs, address_of, otel_log_insert_lem}

abbrev ready : OtelErrorWriterState
ready = record {
  busy = false;
  cleanup = false;
  level_floor = 5;
  logs_zone = true;
  coalesce_table = some (replicate 256 empty_slot);
  coalesce_enabled = true;
  error_ring = none;
  error_rates = some (replicate 5 0);
}

ready-IsReady : IsReady 5 ready
unfolding IsReady
ready-IsReady = (refl, refl, refl, refl, refl)

abbrev three_lines : List Line
three_lines =
    (some (1700000000, 12), 4, codes "open() failed")
    ∷ (none, 7, codes "client closed")
    ∷ (none, 4, codes "open() failed")
    ∷ []

two_errors : lines_of 5 1 three_lines ≡ 2
unfolding lines_of severity_class_index
two_errors = refl

write_lines-rates_example :
    let after = write_lines true three_lines ready in
    IsReady 5 after
    × (get_or (rates_of after) 1 0 % 2 ^ 64
        ≡ (get_or (rates_of ready) 1 0 + lines_of 5 1 three_lines) % 2 ^ 64)
write_lines-rates_example = write_lines-rates three_lines ready 5 1 ready-IsReady (omega arith)

clock : cached_unix_nanos (some (1700000000, 12)) ≡ 1700000000012000000
unfolding cached_unix_nanos
clock = refl

warn_level : parse_error_log_level (codes "warn") ≡ some 5
unfolding parse_error_log_level
warn_level = refl

abbrev log_at : ℕ → NgxLog
log_at level = record { log_level = level; other = 0; wdata = none }

abbrev ours : NgxLog
ours = record { log_level = 8; other = 1; wdata = some ready }

otel_log_insert_lem_example :
    let chain = otel_log_insert 100 (log_at 5) ((200, log_at 4) ∷ []) 300 ours in
    IsSorted chain
    × (address_of chain ≡ 100)
    × (count_logs (λ log. leb 5 log.log_level) chain
        ≡ (if leb 5 ours.log_level then 1 else 0)
          + count_logs (λ log. leb 5 log.log_level) ((100, log_at 5) ∷ (200, log_at 4) ∷ []))
otel_log_insert_lem_example =
    otel_log_insert_lem 100 (log_at 5) ((200, log_at 4) ∷ []) 300 ours (λ log. leb 5 log.log_level)
      ((omega arith, tt), (tt, tt))
