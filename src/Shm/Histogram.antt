-- ===== src/Shm/Histogram.antt =====
-- shm/histogram.rs: the exponential histogram of durations and the explicit-boundary histogram. Every
-- counter is a `u64` that wraps around.
pub mod Bucket
pub mod Count
mod Runs
use ngx_otel_rust.Base.{
  ℕ, zero, suc, ◌+◌, ◌-◌, ◌^◌, ◌%◌, min, Bool, true, false, List, [], ◌∷◌, ltb, if◌then◌else◌,
  replicate, get_or, set,
}

abbrev pub n_exp_buckets : ℕ
n_exp_buckets = 192

abbrev pub n_bytes_buckets : ℕ
n_bytes_buckets = 7

abbrev pub n_duration_buckets : ℕ
n_duration_buckets = 15

abbrev pub duration_bounds_ms : List ℕ
duration_bounds_ms =
    5 ∷ 10 ∷ 25 ∷ 50 ∷ 75 ∷ 100 ∷ 250 ∷ 500 ∷ 750 ∷ 1000 ∷ 2500 ∷ 5000 ∷ 7500 ∷ 10000 ∷ []

abbrev pub bytes_bounds : List ℕ
bytes_bounds = 128 ∷ 512 ∷ 4096 ∷ 65536 ∷ 524288 ∷ 4194304 ∷ []

abbrev pub seconds_bucket_upper_us : List ℕ
seconds_bucket_upper_us =
    1 ∷ 1 ∷ 1 ∷ 1 ∷ 1 ∷ 1 ∷ 1 ∷ 1 ∷ 2 ∷ 2 ∷ 2 ∷ 2 ∷ 2 ∷ 3 ∷ 3 ∷ 3 ∷ 4 ∷ 4 ∷ 4 ∷ 5 ∷ 5 ∷ 6 ∷ 6 ∷ 7
    ∷ 8 ∷ 9 ∷ 9 ∷ 10 ∷ 11 ∷ 12 ∷ 13 ∷ 15 ∷ 16 ∷ 18 ∷ 19 ∷ 21 ∷ 23 ∷ 25 ∷ 27 ∷ 30 ∷ 33 ∷ 36 ∷ 39 ∷ 43
    ∷ 47 ∷ 51 ∷ 55 ∷ 61 ∷ 66 ∷ 72 ∷ 79 ∷ 86 ∷ 94 ∷ 102 ∷ 111 ∷ 122 ∷ 133 ∷ 145 ∷ 158 ∷ 172 ∷ 188
    ∷ 205 ∷ 223 ∷ 244 ∷ 266 ∷ 290 ∷ 316 ∷ 345 ∷ 376 ∷ 410 ∷ 447 ∷ 488 ∷ 532 ∷ 580 ∷ 633 ∷ 690 ∷ 753
    ∷ 821 ∷ 895 ∷ 976 ∷ 1064 ∷ 1161 ∷ 1266 ∷ 1381 ∷ 1506 ∷ 1642 ∷ 1791 ∷ 1953 ∷ 2129 ∷ 2322 ∷ 2532
    ∷ 2762 ∷ 3012 ∷ 3284 ∷ 3582 ∷ 3906 ∷ 4259 ∷ 4645 ∷ 5065 ∷ 5524 ∷ 6024 ∷ 6569 ∷ 7164 ∷ 7812
    ∷ 8519 ∷ 9290 ∷ 10131 ∷ 11048 ∷ 12048 ∷ 13139 ∷ 14328 ∷ 15625 ∷ 17039 ∷ 18581 ∷ 20263 ∷ 22097
    ∷ 24097 ∷ 26278 ∷ 28656 ∷ 31250 ∷ 34078 ∷ 37162 ∷ 40526 ∷ 44194 ∷ 48194 ∷ 52556 ∷ 57312 ∷ 62500
    ∷ 68156 ∷ 74325 ∷ 81052 ∷ 88388 ∷ 96388 ∷ 105112 ∷ 114625 ∷ 125000 ∷ 136313 ∷ 148650 ∷ 162104
    ∷ 176776 ∷ 192776 ∷ 210224 ∷ 229251 ∷ 250000 ∷ 272626 ∷ 297301 ∷ 324209 ∷ 353553 ∷ 385552
    ∷ 420448 ∷ 458502 ∷ 500000 ∷ 545253 ∷ 594603 ∷ 648419 ∷ 707106 ∷ 771105 ∷ 840896 ∷ 917004
    ∷ 1000000 ∷ 1090507 ∷ 1189207 ∷ 1296839 ∷ 1414213 ∷ 1542210 ∷ 1681792 ∷ 1834008 ∷ 2000000
    ∷ 2181015 ∷ 2378414 ∷ 2593679 ∷ 2828427 ∷ 3084421 ∷ 3363585 ∷ 3668016 ∷ 4000000 ∷ 4362030
    ∷ 4756828 ∷ 5187358 ∷ 5656854 ∷ 6168843 ∷ 6727171 ∷ 7336032 ∷ 8000000 ∷ 8724061 ∷ 9513656
    ∷ 10374716 ∷ 11313708 ∷ 12337686 ∷ 13454342 ∷ 14672064 ∷ 16000000 ∷ []

-- The index of the first element that does not pass, as `[T]::partition_point` on a sorted list.
abbrev pub partition_point : (ℕ → Bool) → List ℕ → ℕ
partition_point test [] = 0
partition_point test (t ∷ ts) = let rest = partition_point test ts in if test t then suc rest else 0

-- `fetch_add(1)` on one counter of an array.
unfoldable pub fetch_add_at : (counters : List ℕ) (i : ℕ) → List ℕ
fetch_add_at counters i = set counters i ((get_or counters i 0 + 1) % 2 ^ 64)

pub record ExpHistogramSlot : Type 0 where
  pub buckets : List ℕ
  pub zero_count : ℕ
  pub sum : ℕ
  pub count : ℕ

unfoldable pub bucket_of : (value_us : ℕ) → ℕ
bucket_of value_us =
    min (partition_point (λ t. ltb t value_us) seconds_bucket_upper_us) (n_exp_buckets - 1)

unfoldable pub record_us : (slot : ExpHistogramSlot) (value_us : ℕ) → ExpHistogramSlot
record_us slot zero = record {
  buckets = slot.buckets;
  zero_count = (slot.zero_count + 1) % 2 ^ 64;
  sum = slot.sum;
  count = (slot.count + 1) % 2 ^ 64;
}
record_us slot (suc v) = record {
  buckets = fetch_add_at slot.buckets (bucket_of (suc v));
  zero_count = slot.zero_count;
  sum = (slot.sum + suc v) % 2 ^ 64;
  count = (slot.count + 1) % 2 ^ 64;
}

-- The counters of a fresh zone.
abbrev pub empty_exp_slot : ExpHistogramSlot
empty_exp_slot = record { buckets = replicate 192 0; zero_count = 0; sum = 0; count = 0 }

unfoldable pub record_all : (slot : ExpHistogramSlot) (values : List ℕ) → ExpHistogramSlot
record_all slot [] = slot
record_all slot (v ∷ vs) = record_all (record_us slot v) vs

-- Buckets, zero count, sum and count, for export.
unfoldable pub snapshot : (slot : ExpHistogramSlot) → List ℕ × ℕ × ℕ × ℕ
snapshot slot = (slot.buckets, slot.zero_count, slot.sum, slot.count)

pub record Histogram : Type 0 where
  pub bucket : List ℕ
  pub sum : ℕ
  pub count : ℕ

unfoldable pub record_value : (h : Histogram) (value : ℕ) (bounds : List ℕ) → Histogram
record_value h value bounds = record {
  bucket = fetch_add_at h.bucket (partition_point (λ b. ltb b value) bounds);
  sum = (h.sum + value) % 2 ^ 64;
  count = (h.count + 1) % 2 ^ 64;
}
