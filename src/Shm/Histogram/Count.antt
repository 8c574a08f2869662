-- ===== src/Shm/Histogram/Count.antt =====
-- shm/histogram.rs: what the counters of a histogram hold after any number of observations.
use ngx_otel_rust.Base.{
  ℕ, zero, suc, ◌+◌, ◌^◌, ◌%◌, ◌≤◌, ◌<◌, ◌≡◌, ◌≢◌, refl, ◌∙◌, inl, inr, Bool, List, [], ◌∷◌, ltb,
  ◌==◌, if◌then◌else◌, Bool-cases, length, get_or, set, length-set, get_or-set_self, get_or-set_ne,
  arith,
}
use ngx_otel_rust.Shm.Histogram.{
  partition_point, fetch_add_at, ExpHistogramSlot, bucket_of, record_us, record_all, snapshot,
  Histogram, record_value,
}
use ngx_otel_rust.Shm.Histogram.Bucket.{in_spec_bucket, bucket_of-bound, bucket_of_lem}

unfoldable pub total : (counters : List ℕ) → ℕ
total [] = 0
total (c ∷ cs) = c + total cs

total-set :
    (cs : List ℕ) (i v : ℕ) → i < length cs → total (set cs i v) + get_or cs i 0 ≡ total cs + v
unfolding total
total-set [] i v inside = absurd (omega arith)
total-set (c ∷ cs) zero v inside = omega arith
total-set (c ∷ cs) (suc i) v inside = omega (arith, total-set cs i v (omega arith))

-- One more in the array, up to the wrap-around.
total-fetch_add_at :
    (cs : List ℕ) (i : ℕ)
    → i < length cs
    → total (fetch_add_at cs i) % 2 ^ 64 ≡ (total cs + 1) % 2 ^ 64
unfolding fetch_add_at
total-fetch_add_at cs i inside = omega (arith, total-set cs i ((get_or cs i 0 + 1) % 2 ^ 64) inside)

pub length-fetch_add_at : (cs : List ℕ) (i : ℕ) → length (fetch_add_at cs i) ≡ length cs
unfolding fetch_add_at
length-fetch_add_at cs i = length-set cs i ((get_or cs i 0 + 1) % 2 ^ 64)

-- All buckets are there, and they and the zeros make up the count.
unfoldable pub IsBalanced : (slot : ExpHistogramSlot) → Type 0
IsBalanced slot =
    (length slot.buckets ≡ 192)
    × ((total slot.buckets + slot.zero_count) % 2 ^ 64 ≡ slot.count % 2 ^ 64)

pub record_us-IsBalanced :
    (slot : ExpHistogramSlot) (v : ℕ) → IsBalanced slot → IsBalanced (record_us slot v)
unfolding record_us IsBalanced
record_us-IsBalanced slot zero balanced = (balanced.0, omega (arith, balanced.1))
record_us-IsBalanced slot (suc v) balanced =
    let b : ℕ = bucket_of (suc v) in
    (
      length-fetch_add_at slot.buckets b ∙ balanced.0,
      omega (
        arith,
        balanced.1,
        total-fetch_add_at slot.buckets b (omega (arith, bucket_of-bound (suc v), balanced.0)),
      ),
    )

-- From a balanced slot, whatever durations are recorded, the slot stays balanced: it has 192 buckets,
-- and the observations in them and the zeros together are, up to the wrap-around of 64 bits, the count.
pub record_all-IsBalanced :
    (vs : List ℕ) (slot : ExpHistogramSlot) → IsBalanced slot → IsBalanced (record_all slot vs)
unfolding record_all
record_all-IsBalanced [] slot balanced = balanced
record_all-IsBalanced (v ∷ vs) slot balanced =
    record_all-IsBalanced vs (record_us slot v) (record_us-IsBalanced slot v balanced)

-- The observations of the exact bucket `i`.
unfoldable pub observed_in : (i : ℕ) (vs : List ℕ) → ℕ
observed_in i [] = 0
observed_in i (zero ∷ vs) = observed_in i vs
observed_in i (suc v ∷ vs) = (if in_spec_bucket i (suc v) then 1 else 0) + observed_in i vs

pub get_or-fetch_add_at :
    (cs : List ℕ) (i j : ℕ)
    → i < length cs
    → get_or (fetch_add_at cs j) i 0 % 2 ^ 64 ≡ (get_or cs i 0 + (if j == i then 1 else 0)) % 2 ^ 64
unfolding fetch_add_at
get_or-fetch_add_at cs i j inside = elim (Bool-cases (j == i)) [
  | inl e ↦
      (let same : j ≡ i = ground (arith, e) in
        rw (same, get_or-set_self cs i ((get_or cs i 0 + 1) % 2 ^ 64) 0 inside) (ground arith))
  | inr e ↦
      (let differ : j ≢ i = λ q. ground (arith, e, q) in
        rw (get_or-set_ne cs j i ((get_or cs j 0 + 1) % 2 ^ 64) 0 differ) (ground (arith, e)))
]

unfoldable pub zeros : (vs : List ℕ) → ℕ
zeros [] = 0
zeros (zero ∷ vs) = suc (zeros vs)
zeros (suc v ∷ vs) = zeros vs

-- Each record counts in the exact bucket of its duration and in no other.
record_us-bucket :
    (slot : ExpHistogramSlot) (v i : ℕ)
    → i < 192
    → length slot.buckets ≡ 192
    → get_or (record_us slot v).buckets i 0 % 2 ^ 64
      ≡ (get_or slot.buckets i 0 + observed_in i (v ∷ [])) % 2 ^ 64
unfolding record_us observed_in
record_us-bucket slot zero i inside all = omega arith
record_us-bucket slot (suc v) i inside all =
    rw (bucket_of_lem (suc v) i (omega arith) inside)
      (get_or-fetch_add_at slot.buckets i (bucket_of (suc v)) (omega (arith, all)) ∙ ground arith)

record_us-length :
    (slot : ExpHistogramSlot) (v : ℕ) → length (record_us slot v).buckets ≡ length slot.buckets
unfolding record_us
record_us-length slot zero = refl
record_us-length slot (suc v) = length-fetch_add_at slot.buckets (bucket_of (suc v))

observed_in-cons :
    (i v : ℕ) (vs : List ℕ) → observed_in i (v ∷ vs) ≡ observed_in i (v ∷ []) + observed_in i vs
unfolding observed_in
observed_in-cons i zero vs = omega arith
observed_in-cons i (suc v) vs = omega arith

-- After any sequence of durations recorded into a slot of 192 buckets, every bucket has grown by the
-- number of those durations that lie in the exact bucket of the data model (durations above the last
-- bound count in the last bucket, zeros in none), up to the wrap-around of 64 bits.
pub record_all-buckets :
    (vs : List ℕ) (slot : ExpHistogramSlot) (i : ℕ)
    → i < 192
    → length slot.buckets ≡ 192
    → get_or (snapshot (record_all slot vs)).0 i 0 % 2 ^ 64
      ≡ (get_or (snapshot slot).0 i 0 + observed_in i vs) % 2 ^ 64
unfolding record_all snapshot observed_in
record_all-buckets [] slot i inside all = omega arith
record_all-buckets (v ∷ vs) slot i inside all = omega (
  arith,
  observed_in-cons i v vs,
  record_us-bucket slot v i inside all,
  record_all-buckets vs (record_us slot v) i inside (record_us-length slot v ∙ all),
)

pub record_all-length :
    (vs : List ℕ) (slot : ExpHistogramSlot)
    → length (record_all slot vs).buckets ≡ length slot.buckets
unfolding record_all
record_all-length [] slot = refl
record_all-length (v ∷ vs) slot = record_all-length vs (record_us slot v) ∙ record_us-length slot v

record_us-scalars :
    (slot : ExpHistogramSlot) (v : ℕ)
    → ((record_us slot v).zero_count % 2 ^ 64 ≡ (slot.zero_count + zeros (v ∷ [])) % 2 ^ 64)
      × ((record_us slot v).sum % 2 ^ 64 ≡ (slot.sum + v) % 2 ^ 64)
      × ((record_us slot v).count % 2 ^ 64 ≡ (slot.count + 1) % 2 ^ 64)
unfolding record_us zeros
record_us-scalars slot zero = (omega arith, omega arith, omega arith)
record_us-scalars slot (suc v) = (omega arith, omega arith, omega arith)

zeros-cons : (v : ℕ) (vs : List ℕ) → zeros (v ∷ vs) ≡ zeros (v ∷ []) + zeros vs
unfolding zeros
zeros-cons zero vs = omega arith
zeros-cons (suc v) vs = omega arith

-- After any sequence of durations, the zero count has grown by the number of zeros, the sum by the sum
-- of the durations and the count by their number, each up to the wrap-around of 64 bits.
pub record_all-scalars :
    (vs : List ℕ) (slot : ExpHistogramSlot)
    → ((snapshot (record_all slot vs)).1 % 2 ^ 64 ≡ (slot.zero_count + zeros vs) % 2 ^ 64)
      × ((snapshot (record_all slot vs)).2 % 2 ^ 64 ≡ (slot.sum + total vs) % 2 ^ 64)
      × ((snapshot (record_all slot vs)).3 % 2 ^ 64 ≡ (slot.count + length vs) % 2 ^ 64)
unfolding record_all snapshot total zeros
record_all-scalars [] slot = (omega arith, omega arith, omega arith)
record_all-scalars (v ∷ vs) slot =
    let rest = record_all-scalars vs (record_us slot v) in
    let step = record_us-scalars slot v in
    (
      omega (arith, zeros-cons v vs, rest.0, step.0),
      omega (arith, rest.1, step.1),
      omega (arith, rest.2, step.2),
    )

-- The explicit-boundary histogram: its buckets stay one more than the bounds, and make up the count.
unfoldable pub IsWhole : (h : Histogram) (bounds : List ℕ) → Type 0
IsWhole h bounds =
    (length h.bucket ≡ suc (length bounds)) × (total h.bucket % 2 ^ 64 ≡ h.count % 2 ^ 64)

partition_point-bound : (test : ℕ → Bool) (ts : List ℕ) → partition_point test ts ≤ length ts
partition_point-bound test [] = omega arith
partition_point-bound test (t ∷ ts) = ground (arith, partition_point-bound test ts)

-- For every boundary list, recording a value into a histogram that has one bucket more than bounds and
-- whose buckets make up its count keeps it so.
pub record_value-IsWhole :
    (h : Histogram) (value : ℕ) (bounds : List ℕ)
    → IsWhole h bounds
    → IsWhole (record_value h value bounds) bounds
unfolding record_value IsWhole
record_value-IsWhole h value bounds whole =
    let i : ℕ = partition_point (λ b. ltb b value) bounds in
    (
      length-fetch_add_at h.bucket i ∙ whole.0,
      omega (
        arith,
        whole.1,
        total-fetch_add_at h.bucket i
            (omega (arith, whole.0, partition_point-bound (λ b. ltb b value) bounds)),
      ),
    )
