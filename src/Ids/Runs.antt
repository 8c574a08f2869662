-- ===== src/Ids/Runs.antt =====
-- Identifiers from a counting generator, and without entropy.
use ngx_otel_rust.Base.{ℕ, suc, ◌%◌, ◌^◌, ◌≡◌, refl, false, Option, none, some, [], ◌∷◌, arith}
use ngx_otel_rust.Ids.{
  Worker, gen_trace_id, gen_span_id, span_id_attempts, drbg64, drawn_from, lazily_seeded, le_bytes,
}
use ngx_otel_rust.Ids.Fresh.{ValidOrOff, gen_ids-ValidOrOff}

abbrev count_up : ℕ → ℕ × ℕ
count_up rng = (rng % 2 ^ 64, suc rng)

abbrev seed_zero : ℕ → Option ℕ × ℕ
seed_zero os = (some 0, suc os)

abbrev no_entropy : ℕ → Option ℕ × ℕ
no_entropy os = (none, suc os)

abbrev unseeded : Worker ℕ ℕ
unseeded = record {
  drbg = none;
  tracing_disabled = false;
  lazy_seed_emerg_logged = false;
  emerg_lines = 0;
  os = 0;
}

-- The zero of the first attempt is not given out.
second_attempt :
    (gen_span_id count_up seed_zero unseeded).0 ≡ some (1 ∷ 0 ∷ 0 ∷ 0 ∷ 0 ∷ 0 ∷ 0 ∷ 0 ∷ [])
unfolding gen_span_id span_id_attempts drbg64 drawn_from lazily_seeded le_bytes
second_attempt = refl

gen_ids-ValidOrOff_example :
    ValidOrOff 16 (gen_trace_id count_up seed_zero unseeded)
    × ValidOrOff 8 (gen_span_id count_up seed_zero unseeded)
gen_ids-ValidOrOff_example = gen_ids-ValidOrOff count_up seed_zero (λ rng. omega arith) unseeded
