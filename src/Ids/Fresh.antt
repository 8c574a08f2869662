-- ===== src/Ids/Fresh.antt =====
-- traces/ctx.rs: the identifiers that are generated are valid, and a worker without entropy stops
-- tracing.
use ngx_otel_rust.Base.{
  ℕ, zero, suc, ◌+◌, ◌*◌, ◌/◌, ◌^◌, ◌<◌, ◌≡◌, ◌≢◌, refl, sym, ap, ◌∙◌, inl, inr, true, not, ◌||◌,
  Option, none, some, List, [], ◌∷◌, ◌++◌, ◌==◌, if◌then◌else◌, Bool-cases, length, length-append,
  replicate, Option-cases, append_split, arith,
}
use ngx_otel_rust.Ids.{
  le_bytes, Worker, log_lazy_seed_failure_once, drawn_from, lazily_seeded, drbg64,
  trace_id_attempts, gen_trace_id, span_id_attempts, gen_span_id,
}

-- The number that the bytes stand for, the lowest first.
unfoldable pub from_le : (bytes : List ℕ) → ℕ
from_le [] = 0
from_le (b ∷ bs) = b + 256 * from_le bs

from_le-le_bytes : (n v : ℕ) → v < 256 ^ n → from_le (le_bytes n v) ≡ v
unfolding from_le le_bytes
from_le-le_bytes zero v small = omega (arith, small)
from_le-le_bytes (suc n) v small =
    let rest : from_le (le_bytes n (v / 256)) ≡ v / 256 =
      from_le-le_bytes n (v / 256) (omega (arith, small)) in
    omega (arith, rest)

length-le_bytes : (n v : ℕ) → length (le_bytes n v) ≡ n
unfolding le_bytes
length-le_bytes zero v = refl
length-le_bytes (suc n) v = ap suc (length-le_bytes n (v / 256))

from_le-zeros : (n : ℕ) → from_le (replicate n 0) ≡ 0
unfolding from_le
from_le-zeros zero = refl
from_le-zeros (suc n) = omega (arith, from_le-zeros n)

le_bytes-nonzero : (v : ℕ) → v < 2 ^ 64 → v ≢ 0 → le_bytes 8 v ≢ replicate 8 0
le_bytes-nonzero v small nonzero e =
    nonzero (sym (from_le-le_bytes 8 v (omega (arith, small))) ∙ ap from_le e ∙ from_le-zeros 8)

two_words :
    (a b : ℕ)
    → a < 2 ^ 64
    → b < 2 ^ 64
    → (not (a == 0) || not (b == 0)) ≡ true
    → (length (le_bytes 8 a ++ le_bytes 8 b) ≡ 16) × (le_bytes 8 a ++ le_bytes 8 b ≢ replicate 16 0)
two_words a b small_a small_b some_one = (
  omega (
    arith,
    length-append (le_bytes 8 a) (le_bytes 8 b),
    length-le_bytes 8 a,
    length-le_bytes 8 b,
  ),
  λ e.
      let halves =
        append_split (le_bytes 8 a) (replicate 8 0) (le_bytes 8 b) (replicate 8 0)
          (length-le_bytes 8 a) e in
      elim (Bool-cases (a == 0)) [
        | inl z ↦ le_bytes-nonzero b small_b (λ q. ground (arith, some_one, z, q)) halves.1
        | inr n ↦ le_bytes-nonzero a small_a (λ q. ground (arith, n, q)) halves.0
      ],
)

-- A valid identifier, or none and no more tracing.
abbrev pub ValidOrOff : {Rng Os : Type 0} (size : ℕ) → Option (List ℕ) × Worker Rng Os → Type 0
ValidOrOff size (some id, w) = (length id ≡ size) × (id ≢ replicate size 0)
ValidOrOff size (none, w) = w.tracing_disabled ≡ true

-- What attempts without a generator leave: no identifier, no tracing, and one line unless it was
-- logged before.
abbrev pub LogsOnce : {Rng Os : Type 0} → Worker Rng Os → Option (List ℕ) × Worker Rng Os → Type 0
LogsOnce w result =
    (result.0 ≡ none)
    × (result.1.tracing_disabled ≡ true)
    × (result.1.emerg_lines
        ≡ (if w.lazy_seed_emerg_logged then w.emerg_lines else suc w.emerg_lines))

module _ {Rng Os : Type 0} (next_u64 : Rng → ℕ × Rng) (try_seed : Os → Option Rng × Os) where
  lazily_seeded-bound :
      ((rng : Rng) → (next_u64 rng).0 < 2 ^ 64)
      → (w : Worker Rng Os) (seeded : Option Rng × Os)
      → (lazily_seeded next_u64 try_seed w seeded).0 < 2 ^ 64
  unfolding lazily_seeded drawn_from
  lazily_seeded-bound word w (some rng, os) = word rng
  lazily_seeded-bound word w (none, os) = omega arith

  drbg64-bound :
      ((rng : Rng) → (next_u64 rng).0 < 2 ^ 64)
      → (w : Worker Rng Os) → (drbg64 next_u64 try_seed w).0 < 2 ^ 64
  unfolding drbg64 drawn_from
  drbg64-bound word w = elim (Option-cases w.drbg) [
    | inl e ↦ rw (drbg64, e) (lazily_seeded-bound word w (try_seed w.os))
    | inr (rng, e) ↦ rw (drbg64, e) (word rng)
  ]

  trace_id_attempts-ValidOrOff :
      ((rng : Rng) → (next_u64 rng).0 < 2 ^ 64)
      → (attempts : ℕ) (w : Worker Rng Os)
      → ValidOrOff 16 (trace_id_attempts next_u64 try_seed attempts w)
  unfolding trace_id_attempts
  trace_id_attempts-ValidOrOff word zero w = refl
  trace_id_attempts-ValidOrOff word (suc attempts) w =
      let a = drbg64 next_u64 try_seed w in
      let b = drbg64 next_u64 try_seed a.1 in
      elim (Bool-cases (not (a.0 == 0) || not (b.0 == 0))) [
        | inl e ↦
            rw (trace_id_attempts, e)
              (two_words a.0 b.0 (drbg64-bound word w) (drbg64-bound word a.1) e)
        | inr e ↦ rw (trace_id_attempts, e) (trace_id_attempts-ValidOrOff word attempts b.1)
      ]

  span_id_attempts-ValidOrOff :
      ((rng : Rng) → (next_u64 rng).0 < 2 ^ 64)
      → (attempts : ℕ) (w : Worker Rng Os)
      → ValidOrOff 8 (span_id_attempts next_u64 try_seed attempts w)
  unfolding span_id_attempts
  span_id_attempts-ValidOrOff word zero w = refl
  span_id_attempts-ValidOrOff word (suc attempts) w =
      let v = drbg64 next_u64 try_seed w in
      elim (Bool-cases (v.0 == 0)) [
        | inl e ↦ rw (span_id_attempts, e) (span_id_attempts-ValidOrOff word attempts v.1)
        | inr e ↦
            rw (span_id_attempts, e)
              (
                length-le_bytes 8 v.0,
                le_bytes-nonzero v.0 (drbg64-bound word w) (λ q. ground (arith, q, e)),
              )
      ]

  -- When every word of the generator fits 64 bits, then from every worker state and whatever the seeding
  -- gives, a generated trace identifier has 16 bytes and is not all zero, a span identifier has 8 bytes
  -- and is not all zero, and when there is none, tracing is disabled for the worker.
  pub gen_ids-ValidOrOff :
      ((rng : Rng) → (next_u64 rng).0 < 2 ^ 64)
      → (w : Worker Rng Os)
      → ValidOrOff 16 (gen_trace_id next_u64 try_seed w)
        × ValidOrOff 8 (gen_span_id next_u64 try_seed w)
  unfolding gen_trace_id gen_span_id
  gen_ids-ValidOrOff word w =
      (trace_id_attempts-ValidOrOff word 3 w, span_id_attempts-ValidOrOff word 3 w)

  -- A worker that has no generator, has stopped tracing, and has logged this once.
  IsStarved : Worker Rng Os → Type 0
  IsStarved w = (w.drbg ≡ none) × (w.tracing_disabled ≡ true) × (w.lazy_seed_emerg_logged ≡ true)

  drbg64-IsStarved :
      ((os : Os) → (try_seed os).0 ≡ none)
      → (w : Worker Rng Os) → w.drbg ≡ none
      → let (v, w') = drbg64 next_u64 try_seed w in
        (v ≡ 0)
        × IsStarved w'
        × (w'.emerg_lines ≡ (if w.lazy_seed_emerg_logged then w.emerg_lines else suc w.emerg_lines))
  unfolding drbg64 lazily_seeded log_lazy_seed_failure_once IsStarved
  drbg64-IsStarved none_left w unseeded =
      let dry : (try_seed w.os).0 ≡ none = none_left w.os in
      elim (Bool-cases w.lazy_seed_emerg_logged) [
        | inl e ↦
            rw (drbg64, unseeded, lazily_seeded, dry, e) ((refl, (unseeded, refl, refl), refl))
        | inr e ↦
            rw (drbg64, unseeded, lazily_seeded, dry, e) ((refl, (unseeded, refl, refl), refl))
      ]

  two_draws :
      ((os : Os) → (try_seed os).0 ≡ none)
      → (attempts : ℕ) (w : Worker Rng Os) → w.drbg ≡ none
      → (w2 : Worker Rng Os) × (trace_id_attempts next_u64 try_seed (suc attempts) w
          ≡ trace_id_attempts next_u64 try_seed attempts w2)
        × IsStarved w2
        × (w2.emerg_lines ≡ (if w.lazy_seed_emerg_logged then w.emerg_lines else suc w.emerg_lines))
  unfolding trace_id_attempts IsStarved
  two_draws none_left attempts w unseeded =
      let a = drbg64 next_u64 try_seed w in
      let first = drbg64-IsStarved none_left w unseeded in
      let b = drbg64 next_u64 try_seed a.1 in
      let second = drbg64-IsStarved none_left a.1 first.1.0 in
      let lines : b.1.emerg_lines ≡ a.1.emerg_lines = second.2 ∙ rw (first.1.2) refl in
      (b.1, rw (trace_id_attempts, first.0, second.0) refl, second.1, lines ∙ first.2)

  starved_attempts :
      ((os : Os) → (try_seed os).0 ≡ none)
      → (attempts : ℕ) (w : Worker Rng Os) → IsStarved w
      → LogsOnce w (trace_id_attempts next_u64 try_seed attempts w)
  unfolding IsStarved trace_id_attempts
  starved_attempts none_left zero w starved = (refl, refl, rw (starved.2) refl)
  starved_attempts none_left (suc attempts) w starved =
      let (w2, same, starved2, lines) = two_draws none_left attempts w starved.0 in
      let rest = starved_attempts none_left attempts w2 starved2 in
      rw (same) ((rest.0, rest.1, rest.2 ∙ rw (starved2.2) lines))

  -- When seeding always fails, a worker without a generator gets no trace identifier, stops tracing, and
  -- logs one line about it, or none if it has logged it before.
  pub gen_trace_id-LogsOnce :
      ((os : Os) → (try_seed os).0 ≡ none)
      → (w : Worker Rng Os) → w.drbg ≡ none
      → LogsOnce w (gen_trace_id next_u64 try_seed w)
  unfolding gen_trace_id IsStarved
  gen_trace_id-LogsOnce none_left w unseeded =
      let (w2, same, starved2, lines) = two_draws none_left 2 w unseeded in
      let rest = starved_attempts none_left 2 w2 starved2 in
      rw (same) ((rest.0, rest.1, rest.2 ∙ rw (starved2.2) lines))
