-- ===== src/Writer/Rates.antt =====
-- logs/error_writer.rs: the error-rate counters of a worker over any sequence of log lines.
use ngx_otel_rust.Base.{
  ℕ, ◌+◌, ◌%◌, ◌^◌, ◌<◌, ◌≡◌, refl, ◌∙◌, inl, inr, Bool, true, false, ◌&&◌, Option, none, some,
  List, [], ◌∷◌, ltb, leb, ◌==◌, if◌then◌else◌, Bool-cases, Option-cases, length, get_or, unwrap_or,
  arith,
}
use ngx_otel_rust.Shm.Histogram.Count.{get_or-fetch_add_at, length-fetch_add_at}
use ngx_otel_rust.Writer.{
  OtelErrorWriterState, ngx_otel_error_writer, count_and_coalesce, bump_rate, severity_class_index,
  n_severity_classes,
}

-- A line of the log: the clock, the level and the bytes.
abbrev pub Line : Type 0
Line = Option (ℕ × ℕ) × ℕ × List ℕ

unfoldable pub write_lines :
    (is_worker : Bool) (lines : List Line) (state : OtelErrorWriterState) → OtelErrorWriterState
write_lines is_worker [] state = state
write_lines is_worker ((now, level, buf) ∷ lines) state =
    write_lines is_worker lines (ngx_otel_error_writer is_worker now level buf state)

-- The lines at or above the severity floor that belong to a class.
unfoldable pub lines_of : (floor class : ℕ) (lines : List Line) → ℕ
lines_of floor class [] = 0
lines_of floor class ((now, level, buf) ∷ lines) =
    (if leb level floor && severity_class_index (level % 256) == class then 1 else 0)
    + lines_of floor class lines

abbrev pub rates_of : OtelErrorWriterState → List ℕ
rates_of state = unwrap_or state.error_rates []

-- The state of a worker that is set up and not inside the writer.
unfoldable pub IsReady : (floor : ℕ) (state : OtelErrorWriterState) → Type 0
IsReady floor state =
    (state.cleanup ≡ false)
    × (state.busy ≡ false)
    × (state.logs_zone ≡ true)
    × (state.level_floor ≡ floor)
    × (length (rates_of state) ≡ n_severity_classes)

severity_class_index-bound : (level : ℕ) → severity_class_index level < n_severity_classes
unfolding severity_class_index
severity_class_index-bound level = ground arith

count_and_coalesce_fields :
    (now : Option (ℕ × ℕ)) (level : ℕ) (buf : List ℕ) (state : OtelErrorWriterState)
    → let after = count_and_coalesce now level buf state in
      (after.error_rates ≡ bump_rate level state.error_rates)
      × (after.cleanup ≡ state.cleanup)
      × (after.logs_zone ≡ state.logs_zone)
      × (after.level_floor ≡ state.level_floor)
unfolding count_and_coalesce
count_and_coalesce_fields now level buf state = elim (Option-cases state.coalesce_table) [
  | inl e ↦ rw (count_and_coalesce, e) ((refl, refl, refl, refl))
  | inr (table, e) ↦ rw (count_and_coalesce, e) ((refl, refl, refl, refl))
]

bump_rate_lem :
    (level class : ℕ) (rates : Option (List ℕ))
    → length (unwrap_or rates []) ≡ n_severity_classes
    → class < n_severity_classes
    → (length (unwrap_or (bump_rate level rates) []) ≡ n_severity_classes)
      × (get_or (unwrap_or (bump_rate level rates) []) class 0 % 2 ^ 64
          ≡ (get_or (unwrap_or rates []) class 0
              + (if severity_class_index (level % 256) == class then 1 else 0))
            % 2 ^ 64)
unfolding bump_rate
bump_rate_lem level class none five inside = absurd (omega (arith, five))
bump_rate_lem level class (some counters) five inside =
    let i : ℕ = severity_class_index (level % 256) in
    (
      length-fetch_add_at counters i ∙ five,
      get_or-fetch_add_at counters class i (omega (arith, five, inside)),
    )

-- One line: the class counter of a line at or above the floor, and nothing of a line below it.
writer_step :
    (now : Option (ℕ × ℕ)) (level : ℕ) (buf : List ℕ) (state : OtelErrorWriterState)
    (floor class : ℕ)
    → IsReady floor state
    → class < n_severity_classes
    → let after = ngx_otel_error_writer true now level buf state in
      IsReady floor after
      × (get_or (rates_of after) class 0 % 2 ^ 64
          ≡ (get_or (rates_of state) class 0 + lines_of floor class ((now, level, buf) ∷ []))
            % 2 ^ 64)
unfolding ngx_otel_error_writer IsReady lines_of count_and_coalesce severity_class_index
writer_step now level buf state floor class ready inside =
    let entered = record state { busy = true } in
    let counted = count_and_coalesce_fields now level buf entered in
    let bumped = bump_rate_lem level class state.error_rates ready.4 inside in
    elim (Bool-cases (ltb state.level_floor level)) [
      | inl below ↦
          (let late : leb level floor ≡ false = ground (arith, below, ready.3) in
            rw (ngx_otel_error_writer, ready.0, ready.1, below, late)
              (((refl, refl, ready.2, ready.3, ready.4), ground arith)))
      | inr above ↦
          (let timely : leb level floor ≡ true = ground (arith, above, ready.3) in
            let rates = counted.0 in
            rw (ngx_otel_error_writer, ready.0, ready.1, above, ready.2, timely, counted.0)
              ((
                (counted.1 ∙ ready.0, refl, counted.2 ∙ ready.2, counted.3 ∙ ready.3, bumped.0),
                bumped.1 ∙ ground arith,
              )))
    ]

lines_of-cons :
    (floor class : ℕ) (line : Line) (lines : List Line)
    → lines_of floor class (line ∷ lines)
      ≡ lines_of floor class (line ∷ []) + lines_of floor class lines
unfolding lines_of
lines_of-cons floor class line lines = omega arith

-- From a worker that is set up, with its cleanup flag clear and not inside the writer, any sequence of
-- lines raises the error-rate counter of each severity class by exactly the number of lines of that class
-- at or above the severity floor (modulo 2^64), coalesced or not, and leaves the worker set up and not
-- inside the writer.
pub write_lines-rates :
    (lines : List Line) (state : OtelErrorWriterState) (floor class : ℕ)
    → IsReady floor state
    → class < n_severity_classes
    → let after = write_lines true lines state in
      IsReady floor after
      × (get_or (rates_of after) class 0 % 2 ^ 64
          ≡ (get_or (rates_of state) class 0 + lines_of floor class lines) % 2 ^ 64)
unfolding write_lines lines_of
write_lines-rates [] state floor class ready inside = (ready, omega arith)
write_lines-rates ((now, level, buf) ∷ lines) state floor class ready inside =
    let first = writer_step now level buf state floor class ready inside in
    let later =
      write_lines-rates lines (ngx_otel_error_writer true now level buf state) floor class first.0
        inside in
    (later.0, omega (arith, later.1, first.1, lines_of-cons floor class (now, level, buf) lines))
