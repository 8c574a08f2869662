-- ===== src/Coalesce/Runs.antt =====
-- The coalescing of error lines at concrete inputs.
use ngx_otel_rust.Base.{ℕ, ◌≤◌, ◌≡◌, ◌≢◌, refl, true, List, [], ◌∷◌, length, replicate, All}
use ngx_otel_rust.Base.Text.{codes}
use ngx_otel_rust.Coalesce.{
  CoalesceSlot, empty_slot, new_slot, coalesce, emit_verbatim, core_start_of, core_end_of,
  stable_core, drain_coalesce_table, coalesce_key, probe_table, skip_past, skip_connection,
  skip_digits, find_context, line_end, xor, fnv_fold,
}
use ngx_otel_rust.Coalesce.Core.{core_bounds}
use ngx_otel_rust.Coalesce.Probe.{
  samples, samples-flood, occurrences, reported, drain_coalesce_table_lem,
}

abbrev line : List ℕ
line = codes "t [error] 7#7: *3 open() failed, client: 127.0.0.1"

line-stable_core : stable_core line ≡ codes "open() failed"
unfolding stable_core core_start_of core_end_of skip_past skip_connection skip_digits find_context
    line_end
line-stable_core = refl

core_bounds_example : (core_start_of line ≤ core_end_of line) × (core_end_of line ≤ length line)
core_bounds_example = core_bounds line

abbrev table : List CoalesceSlot
table = replicate 256 empty_slot

tracked : (coalesce table 4 line true).0 ≢ emit_verbatim 0
unfolding coalesce probe_table coalesce_key fnv_fold xor stable_core core_start_of core_end_of
    skip_past skip_connection skip_digits find_context line_end
tracked e = cc e

samples-flood_example : samples 1000 (coalesce table 4 line true).1 4 line ≡ 0
samples-flood_example = samples-flood 1000 table 4 line refl tracked

abbrev two_slots : List CoalesceSlot
two_slots =
    new_slot 77 4
    ∷ empty_slot
    ∷ record { key_hash = 9; severity = 5; count = 40; sample_emitted = true }
    ∷ []

drain_coalesce_table_lem_example :
    ((key severity : ℕ)
      → 1 ≤ key
      → reported key severity (drain_coalesce_table two_slots).0
        ≡ occurrences key severity two_slots)
    × All (λ entry. (1 ≤ entry.0) × (1 ≤ entry.2)) (drain_coalesce_table two_slots).0
    × (length (drain_coalesce_table two_slots).1 ≡ 3)
    × All (λ slot. slot.key_hash ≡ 0) (drain_coalesce_table two_slots).1
drain_coalesce_table_lem_example = drain_coalesce_table_lem two_slots

forty_reported : reported 9 5 (drain_coalesce_table two_slots).0 ≡ 40
unfolding drain_coalesce_table
forty_reported = refl
