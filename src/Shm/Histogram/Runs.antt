-- ===== src/Shm/Histogram/Runs.antt =====
-- The histograms at concrete durations.
use ngx_otel_rust.Base.{ℕ, ◌+◌, ◌^◌, ◌%◌, ◌≡◌, refl, List, [], ◌∷◌, ◌==◌, get_or, replicate, arith}
use ngx_otel_rust.Shm.Histogram.{bucket_of, record_all, snapshot, empty_exp_slot, Histogram}
use ngx_otel_rust.Shm.Histogram.Bucket.{in_spec_bucket, bucket_of_lem}
use ngx_otel_rust.Shm.Histogram.Count.{observed_in, record_all-buckets}

-- One second lies in the lower one of the two buckets that it bounds.
one_second : bucket_of 1000000 ≡ 159
unfolding bucket_of
one_second = refl

bucket_of_lem_example : in_spec_bucket 159 1000000 ≡ (bucket_of 1000000 == 159)
bucket_of_lem_example = bucket_of_lem 1000000 159 (omega arith) (omega arith)

abbrev durations : List ℕ
durations = 3 ∷ 0 ∷ 1000000 ∷ 1000001 ∷ 99000000 ∷ []

record_all-buckets_example :
    get_or (snapshot (record_all empty_exp_slot durations)).0 159 0 % 2 ^ 64
    ≡ (get_or (snapshot empty_exp_slot).0 159 0 + observed_in 159 durations) % 2 ^ 64
record_all-buckets_example = record_all-buckets durations empty_exp_slot 159 (omega arith) refl

abbrev empty_bytes : Histogram
empty_bytes = record { bucket = replicate 7 0; sum = 0; count = 0 }
