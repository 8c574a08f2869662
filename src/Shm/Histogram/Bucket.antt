-- ===== src/Shm/Histogram/Bucket.antt =====
-- shm/histogram.rs: the bucket of a duration, against the boundaries of the exponential histogram.
use native.Mathlib.Nat.{pow-le-pow_left, pow-le-pow_right, mul-le-mul_right}
use ngx_otel_rust.Base.{
  ℕ, zero, suc, ◌*◌, ◌^◌, ◌≤◌, ◌<◌, ◌≡◌, refl, ◌∙◌, inl, inr, ◌⊎◌, Bool, true, false, ◌&&◌, ◌||◌,
  List, [], ◌∷◌, ltb, leb, ◌==◌, Bool-cases, length, get_or, ltb→lt, le→ltb_false, arith,
}
use ngx_otel_rust.Base.Table.{every_under, every_under-at}
use ngx_otel_rust.Shm.Histogram.{seconds_bucket_upper_us, partition_point, bucket_of}

-- The bound of bucket `i` is `10^6 · 2^((i - 159) / 8)` microseconds: `v` is at most that when
-- `v^8 · 2^159 ≤ 10^48 · 2^i`.
unfoldable pub scaled_value : (v : ℕ) → ℕ
scaled_value v = v ^ 8 * 2 ^ 159

unfoldable pub scaled_bound : (i : ℕ) → ℕ
scaled_bound i = 2 ^ i * 10 ^ 48

-- `v` microseconds lie in the upper-inclusive bucket `i`: above the bound of the bucket before it, and
-- at most its own. The last bucket takes the durations that are longer still.
unfoldable pub in_spec_bucket : (i v : ℕ) → Bool
in_spec_bucket i v =
    ltb (scaled_bound i) (2 * scaled_value v) && (leb (scaled_value v) (scaled_bound i) || i == 191)

unfoldable upper : ℕ → ℕ
upper i = get_or seconds_bucket_upper_us i 0

entry_test : ℕ → Bool
unfolding upper
entry_test i =
    leb (scaled_value (upper i)) (scaled_bound i)
    && ltb (scaled_bound i) (scaled_value (suc (upper i)))

every_entry : every_under entry_test 192 ≡ true
unfolding every_under entry_test upper scaled_value scaled_bound
every_entry = refl

module _ (v : ℕ) where
  partition_point_first :
      (ts : List ℕ) (k : ℕ)
      → k < length ts
      → v ≤ get_or ts k 0
      → partition_point (λ t. ltb t v) ts ≤ k
  partition_point_first [] k inside small = absurd (omega arith)
  partition_point_first (t ∷ ts) zero inside small = rw (le→ltb_false t v small) (omega arith)
  partition_point_first (t ∷ ts) (suc k) inside small =
      let rest = partition_point_first ts k (omega arith) small in
      elim (Bool-cases (ltb t v)) [
        | inl e ↦ rw (e) (omega (arith, rest))
        | inr e ↦ rw (e) (omega arith)
      ]

  partition_point_reaches :
      (ts : List ℕ) (p : ℕ)
      → partition_point (λ t. ltb t v) ts ≡ p
      → p < length ts
      → v ≤ get_or ts p 0
  partition_point_reaches [] p e inside = absurd (omega arith)
  partition_point_reaches (t ∷ ts) zero e inside = ground arith
  partition_point_reaches (t ∷ ts) (suc p) e inside =
      partition_point_reaches ts p (ground arith) (omega arith)

  partition_point_before :
      (ts : List ℕ) (j : ℕ) → j < partition_point (λ t. ltb t v) ts → get_or ts j 0 < v
  partition_point_before [] j below = absurd (omega arith)
  partition_point_before (t ∷ ts) zero below = ground arith
  partition_point_before (t ∷ ts) (suc j) below = partition_point_before ts j (ground arith)

-- The bounds of the table are the exact ones, rounded down.
entry_at :
    (j : ℕ)
    → j < 192
    → (scaled_value (upper j) ≤ scaled_bound j) × (scaled_bound j < scaled_value (suc (upper j)))
unfolding entry_test
entry_at j inside =
    let passed : entry_test j ≡ true = every_under-at entry_test 192 j inside every_entry in
    (ground (arith, passed), ground (arith, passed))

scaled_value_mono : (v w : ℕ) → v ≤ w → scaled_value v ≤ scaled_value w
unfolding scaled_value
scaled_value_mono v w le = mul-le-mul_right (2 ^ 159) (pow-le-pow_left le 8)

scaled_bound-suc : (i : ℕ) → scaled_bound (suc i) ≡ 2 * scaled_bound i
unfolding scaled_bound
scaled_bound-suc i = omega arith

scaled_bound_mono : (i j : ℕ) → i ≤ j → scaled_bound i ≤ scaled_bound j
unfolding scaled_bound
scaled_bound_mono i j le = mul-le-mul_right (10 ^ 48) (pow-le-pow_right (omega arith) le)

upper_within : (j v : ℕ) → j < 192 → v ≤ upper j → scaled_value v ≤ scaled_bound j
upper_within j v inside small =
    omega (arith, entry_at j inside, scaled_value_mono v (upper j) small)

upper_above : (j v : ℕ) → j < 192 → upper j < v → scaled_bound j < scaled_value v
upper_above j v inside large =
    omega (arith, entry_at j inside, scaled_value_mono (suc (upper j)) v large)

-- Below the bound of its bucket, or in the last one.
bucket_of-at_most : (v : ℕ) → (scaled_value v ≤ scaled_bound (bucket_of v)) ⊎ (bucket_of v ≡ 191)
unfolding bucket_of upper
bucket_of-at_most v =
    let p : ℕ = partition_point (λ t. ltb t v) seconds_bucket_upper_us in
    elim (Bool-cases (ltb p 192)) [
      | inl e ↦
          (let inside : p < 192 = ltb→lt p 192 e in
            let clamped : bucket_of v ≡ p = omega (arith, inside) in
            inl (
              rw (clamped) (
                upper_within p v inside
                  (partition_point_reaches v seconds_bucket_upper_us p refl inside))))
      | inr e ↦ inr (ground (arith, e))
    ]

-- Above the bound of the bucket before it.
bucket_of-above : (v j : ℕ) → suc j ≡ bucket_of v → scaled_bound (suc j) < 2 * scaled_value v
unfolding bucket_of upper
bucket_of-above v j is_suc =
    let p : ℕ = partition_point (λ t. ltb t v) seconds_bucket_upper_us in
    omega (
      arith,
      scaled_bound-suc j,
      upper_above j v (omega (arith, is_suc))
          (partition_point_before v seconds_bucket_upper_us j (omega (arith, is_suc))),
    )

bucket_of-lower : (v b : ℕ) → b ≡ bucket_of v → 0 < v → scaled_bound b < 2 * scaled_value v
unfolding scaled_bound scaled_value
bucket_of-lower v zero e positive =
    let one : scaled_value 1 ≤ scaled_value v = scaled_value_mono 1 v positive in omega (arith, one)
bucket_of-lower v (suc j) e positive = bucket_of-above v j e

bucket_of-in : (v : ℕ) → 0 < v → in_spec_bucket (bucket_of v) v ≡ true
unfolding in_spec_bucket
bucket_of-in v positive =
    let lower = bucket_of-lower v (bucket_of v) refl positive in
    elim (bucket_of-at_most v) [
      | inl e ↦ ground (arith, lower, e)
      | inr e ↦ ground (arith, lower, e)
    ]

-- A duration lies in one bucket.
one_bucket : (i j v : ℕ) → i < j → j < 192 → in_spec_bucket i v ≡ true → in_spec_bucket j v ≡ false
unfolding in_spec_bucket
one_bucket i j v below inside in_i =
    let step : scaled_bound (suc i) ≤ scaled_bound j = scaled_bound_mono (suc i) j below in
    ground (arith, scaled_bound-suc i, step, in_i)

pub bucket_of-bound : (v : ℕ) → bucket_of v < 192
unfolding bucket_of
bucket_of-bound v = omega arith

trichotomy : (a b : ℕ) → (a < b) ⊎ ((a ≡ b) ⊎ (b < a))
trichotomy a b = omega arith

-- For every duration of at least one microsecond and every bucket `i` of the 192: the code's bucket is
-- `i` exactly if the duration lies above `10^6 · 2^((i - 160) / 8)` microseconds and, unless `i` is the
-- last bucket, at or below `10^6 · 2^((i - 159) / 8)`, the bounds being compared without rounding.
pub bucket_of_lem : (v i : ℕ) → 0 < v → i < 192 → in_spec_bucket i v ≡ (bucket_of v == i)
bucket_of_lem v i positive inside =
    let own : in_spec_bucket (bucket_of v) v ≡ true = bucket_of-in v positive in
    elim (trichotomy i (bucket_of v)) [
      | inl e ↦
          (let no_other : in_spec_bucket i v ≡ true → in_spec_bucket (bucket_of v) v ≡ false =
              one_bucket i (bucket_of v) v e (bucket_of-bound v) in
            elim (Bool-cases (in_spec_bucket i v)) [
              | inl t ↦ ground (arith, no_other t, own)
              | inr f ↦ ground (arith, f, e)
            ])
      | inr (inl e) ↦ ground (arith, own, e)
      | inr (inr e) ↦ one_bucket (bucket_of v) i v e inside own ∙ ground (arith, e)
    ]
