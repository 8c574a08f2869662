-- ===== src/Ids.antt =====
-- traces/ctx.rs: the identifiers of traces and spans. The generator and the system's entropy are other
-- crates' code and parameters: a generator's next word, and the seeding, which may fail.
pub mod Fresh
mod Runs
use ngx_otel_rust.Base.{
  ℕ, zero, suc, ◌+◌, ◌/◌, ◌%◌, ◌^◌, Bool, true, false, not, ◌&&◌, ◌||◌, Option, none, some, List,
  [], ◌∷◌, ◌++◌, ◌==◌, if◌then◌else◌, is_some,
}

-- `u64::to_le_bytes`.
unfoldable pub le_bytes : (n v : ℕ) → List ℕ
le_bytes zero v = []
le_bytes (suc n) v = v % 256 ∷ le_bytes n (v / 256)

-- The thread-local state of a worker, with the system's entropy and the number of lines logged by the
-- lazy path.
pub record Worker (Rng Os : Type 0) : Type 0 where
  pub drbg : Option Rng
  pub tracing_disabled : Bool
  pub lazy_seed_emerg_logged : Bool
  pub emerg_lines : ℕ
  pub os : Os

abbrev pub max_id_retries : ℕ
max_id_retries = 3

module _ {Rng Os : Type 0} (next_u64 : Rng → ℕ × Rng) (try_seed : Os → Option Rng × Os) where
  -- Whether seeding failed now, and the state.
  unfoldable pub eager_seed_drbg : (w : Worker Rng Os) → Bool × Worker Rng Os
  eager_seed_drbg w =
      if w.tracing_disabled || is_some w.drbg then (false, w) else seeded (try_seed w.os)
    where
      seeded : Option Rng × Os → Bool × Worker Rng Os
      seeded (some rng, os) = (false, record w { drbg = some rng; os = os })
      seeded (none, os) = (true, record w { tracing_disabled = true; os = os })

  unfoldable pub log_lazy_seed_failure_once : (w : Worker Rng Os) → Worker Rng Os
  log_lazy_seed_failure_once w =
      if w.lazy_seed_emerg_logged
      then w
      else record w { lazy_seed_emerg_logged = true; emerg_lines = suc w.emerg_lines }

  unfoldable pub drawn_from : (w : Worker Rng Os) (rng : Rng) → ℕ × Worker Rng Os
  drawn_from w rng = let (val, rng') = next_u64 rng in (val, record w { drbg = some rng' })

  unfoldable pub lazily_seeded : (w : Worker Rng Os) (seeded : Option Rng × Os) → ℕ × Worker Rng Os
  lazily_seeded w (some rng, os) = drawn_from (record w { os = os }) rng
  lazily_seeded w (none, os) =
      (0, log_lazy_seed_failure_once (record w { tracing_disabled = true; os = os }))

  unfoldable pub drbg64 : (w : Worker Rng Os) → ℕ × Worker Rng Os
  drbg64 w = elim w.drbg [ some rng ↦ drawn_from w rng | none ↦ lazily_seeded w (try_seed w.os) ]

  -- The attempts that are left, then the tracing flag.
  unfoldable pub trace_id_attempts :
      (attempts : ℕ) (w : Worker Rng Os) → Option (List ℕ) × Worker Rng Os
  trace_id_attempts zero w = (none, record w { tracing_disabled = true })
  trace_id_attempts (suc attempts) w =
      let (a, w1) = drbg64 w in
      let (b, w2) = drbg64 w1 in
      let retry = trace_id_attempts attempts w2 in
      if not (a == 0) || not (b == 0) then (some (le_bytes 8 a ++ le_bytes 8 b), w2) else retry

  unfoldable pub gen_trace_id : (w : Worker Rng Os) → Option (List ℕ) × Worker Rng Os
  gen_trace_id w = trace_id_attempts max_id_retries w

  unfoldable pub span_id_attempts :
      (attempts : ℕ) (w : Worker Rng Os) → Option (List ℕ) × Worker Rng Os
  span_id_attempts zero w = (none, record w { tracing_disabled = true })
  span_id_attempts (suc attempts) w =
      let (v, w1) = drbg64 w in
      let retry = span_id_attempts attempts w1 in
      if not (v == 0) then (some (le_bytes 8 v), w1) else retry

  unfoldable pub gen_span_id : (w : Worker Rng Os) → Option (List ℕ) × Worker Rng Os
  gen_span_id w = span_id_attempts max_id_retries w
