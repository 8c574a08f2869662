-- ===== src/Source/Merge.antt =====
-- metric_source/instrumented.rs: the sums over the workers are one histogram that saw every duration.
use ngx_otel_rust.Base.{
  ℕ, zero, suc, ◌+◌, ◌%◌, ◌^◌, ◌<◌, ◌≡◌, refl, sym, ap, ◌∙◌, List, [], ◌∷◌, ◌++◌, length,
  length-append, append-nil, append_assoc, get_or, replicate, length-replicate, arith,
}
use ngx_otel_rust.Shm.Combo.{n_combos}
use ngx_otel_rust.Shm.Histogram.{ExpHistogramSlot, empty_exp_slot, record_all, snapshot}
use ngx_otel_rust.Shm.Histogram.Count.{
  total, observed_in, zeros, record_all-buckets, record_all-scalars, record_all-length,
}
use ngx_otel_rust.Source.Aggregate.{
  WorkerSlots, ExpAgg, add_counts, add_exp, add_slots, add_worker, add_workers, zero_exp, zero_agg,
  WorkerAgg, aggregate_worker_slots,
}

length-add_counts : (acc counts : List ℕ) → length (add_counts acc counts) ≡ length acc
unfolding add_counts
length-add_counts [] counts = refl
length-add_counts (a ∷ acc) [] = refl
length-add_counts (a ∷ acc) (c ∷ counts) = ap suc (length-add_counts acc counts)

get_or-add_counts :
    (acc counts : List ℕ) (i : ℕ)
    → i < length acc
    → length counts ≡ length acc
    → get_or (add_counts acc counts) i 0 ≡ (get_or acc i 0 + get_or counts i 0) % 2 ^ 64
unfolding add_counts
get_or-add_counts [] counts i inside same = absurd (omega (arith, inside))
get_or-add_counts (a ∷ acc) [] i inside same = absurd (omega (arith, same))
get_or-add_counts (a ∷ acc) (c ∷ counts) zero inside same = refl
get_or-add_counts (a ∷ acc) (c ∷ counts) (suc i) inside same =
    get_or-add_counts acc counts i (omega (arith, inside)) (omega (arith, same))

length-add_slots :
    (acc : List ExpAgg) (slots : List ExpHistogramSlot) → length (add_slots acc slots) ≡ length acc
unfolding add_slots
length-add_slots [] slots = refl
length-add_slots (a ∷ acc) [] = refl
length-add_slots (a ∷ acc) (slot ∷ slots) = ap suc (length-add_slots acc slots)

get_or-add_slots :
    (acc : List ExpAgg) (slots : List ExpHistogramSlot) (c : ℕ)
    → c < length acc
    → length slots ≡ length acc
    → get_or (add_slots acc slots) c zero_exp
      ≡ add_exp (get_or acc c zero_exp) (snapshot (get_or slots c empty_exp_slot))
unfolding add_slots
get_or-add_slots [] slots c inside same = absurd (omega (arith, inside))
get_or-add_slots (a ∷ acc) [] c inside same = absurd (omega (arith, same))
get_or-add_slots (a ∷ acc) (slot ∷ slots) zero inside same = refl
get_or-add_slots (a ∷ acc) (slot ∷ slots) (suc c) inside same =
    get_or-add_slots acc slots c (omega (arith, inside)) (omega (arith, same))

-- A worker whose slot `c` recorded the durations `vs` since the zone was fresh.
pub record Recorded (c : ℕ) (w : WorkerSlots) (vs : List ℕ) : Type 0 where
  pub size : length w.request_duration_combos ≡ n_combos
  pub slot : get_or w.request_duration_combos c empty_exp_slot ≡ record_all empty_exp_slot vs

unfoldable pub workers_of : (ws : List (WorkerSlots × List ℕ)) → List WorkerSlots
workers_of [] = []
workers_of ((w, vs) ∷ ws) = w ∷ workers_of ws

unfoldable pub durations_of : (ws : List (WorkerSlots × List ℕ)) → List ℕ
durations_of [] = []
durations_of ((w, vs) ∷ ws) = vs ++ durations_of ws

abbrev pub AllRecorded : ℕ → List (WorkerSlots × List ℕ) → Type 0
AllRecorded c [] = Unit {0}
AllRecorded c ((w, vs) ∷ ws) = Recorded c w vs × AllRecorded c ws

-- An aggregate holds these durations, up to the wrap-around of 64 bits.
pub record Holds (agg : ExpAgg) (vs : List ℕ) : Type 0 where
  pub size : length agg.0 ≡ 192
  pub buckets : (i : ℕ) → i < 192 → get_or agg.0 i 0 % 2 ^ 64 ≡ observed_in i vs % 2 ^ 64
  pub zero_count : agg.1 % 2 ^ 64 ≡ zeros vs % 2 ^ 64
  pub sum : agg.2 % 2 ^ 64 ≡ total vs % 2 ^ 64
  pub count : agg.3 % 2 ^ 64 ≡ length vs % 2 ^ 64

observed_in-append :
    (i : ℕ) (us vs : List ℕ) → observed_in i (us ++ vs) ≡ observed_in i us + observed_in i vs
unfolding observed_in
observed_in-append i [] vs = omega arith
observed_in-append i (zero ∷ us) vs = observed_in-append i us vs
observed_in-append i (suc u ∷ us) vs = omega (arith, observed_in-append i us vs)

zeros-append : (us vs : List ℕ) → zeros (us ++ vs) ≡ zeros us + zeros vs
unfolding zeros
zeros-append [] vs = omega arith
zeros-append (zero ∷ us) vs = omega (arith, zeros-append us vs)
zeros-append (suc u ∷ us) vs = zeros-append us vs

total-append : (us vs : List ℕ) → total (us ++ vs) ≡ total us + total vs
unfolding total
total-append [] vs = omega arith
total-append (u ∷ us) vs = omega (arith, total-append us vs)

get_or-replicate : {A : Type 0} → (n i : ℕ) (a : A) → get_or (replicate n a) i a ≡ a
get_or-replicate zero i a = refl
get_or-replicate (suc n) zero a = refl
get_or-replicate (suc n) (suc i) a = get_or-replicate n i a

-- A slot that nothing was recorded in.
record IsFresh (slot : ExpHistogramSlot) : Type 0 where
  size : length slot.buckets ≡ 192
  buckets : (i : ℕ) → i < 192 → get_or slot.buckets i 0 ≡ 0
  zero_count : slot.zero_count ≡ 0
  sum : slot.sum ≡ 0
  count : slot.count ≡ 0

empty_exp_slot-IsFresh : IsFresh empty_exp_slot
empty_exp_slot-IsFresh = record {
  size = refl;
  buckets = λ i inside. get_or-replicate {A = ℕ} 192 i 0;
  zero_count = refl;
  sum = refl;
  count = refl;
}

record_all-Holds :
    (vs : List ℕ) (slot : ExpHistogramSlot)
    → IsFresh slot
    → Holds (snapshot (record_all slot vs)) vs
unfolding snapshot
record_all-Holds vs slot fresh =
    let scalars = record_all-scalars vs slot in
    record {
      size = record_all-length vs slot ∙ fresh.size;
      buckets = λ i inside.
          omega (arith, record_all-buckets vs slot i inside fresh.size, fresh.buckets i inside);
      zero_count = omega (arith, scalars.0, fresh.zero_count);
      sum = omega (arith, scalars.1, fresh.sum);
      count = omega (arith, scalars.2, fresh.count);
    }

add_exp-Holds :
    (a b : ExpAgg) (us vs : List ℕ) → Holds a us → Holds b vs → Holds (add_exp a b) (us ++ vs)
unfolding add_exp
add_exp-Holds a b us vs h k = record {
  size = length-add_counts a.0 b.0 ∙ h.size;
  buckets = λ i inside. omega (
    arith,
    get_or-add_counts a.0 b.0 i (omega (arith, inside, h.size)) (k.size ∙ sym h.size),
    h.buckets i inside,
    k.buckets i inside,
    observed_in-append i us vs,
  );
  zero_count = omega (arith, h.zero_count, k.zero_count, zeros-append us vs);
  sum = omega (arith, h.sum, k.sum, total-append us vs);
  count = omega (arith, h.count, k.count, length-append us vs);
}

no_durations-Holds : Holds zero_exp []
unfolding observed_in zeros total
no_durations-Holds = record {
  size = length-replicate {A = ℕ} 192 0;
  buckets = λ i inside. omega (arith, get_or-replicate {A = ℕ} 192 i 0);
  zero_count = refl;
  sum = refl;
  count = refl;
}

add_workers-Holds :
    (ws : List (WorkerSlots × List ℕ)) (c : ℕ) (acc : WorkerAgg) (us : List ℕ)
    → c < n_combos
    → length acc.combo_agg ≡ n_combos
    → Holds (get_or acc.combo_agg c zero_exp) us
    → AllRecorded c ws
    → Holds (get_or (add_workers acc (workers_of ws)).combo_agg c zero_exp) (us ++ durations_of ws)
unfolding add_workers add_worker workers_of durations_of
add_workers-Holds [] c acc us inside size h all = rw (append-nil us) h
add_workers-Holds ((w, vs) ∷ ws) c acc us inside size h all =
    let here =
      add_exp-Holds (get_or acc.combo_agg c zero_exp)
        (snapshot (get_or w.request_duration_combos c empty_exp_slot)) us vs h
        (rw (all.0.slot) (record_all-Holds vs empty_exp_slot empty_exp_slot-IsFresh)) in
    rw (sym (append_assoc us vs (durations_of ws))) (
      add_workers-Holds ws c (add_worker acc w) (us ++ vs) inside
        (length-add_slots acc.combo_agg w.request_duration_combos ∙ size)
        (rw
          (get_or-add_slots acc.combo_agg w.request_duration_combos c (omega (arith, inside, size))
            (all.0.size ∙ sym size))
          here)
        all.1)

-- When in every worker's zone the slot of a combination recorded some durations since it was fresh, the
-- aggregate of that combination holds all of them: each of its 192 buckets the number of durations in
-- the exact bucket, and the zero count, the sum and the count, up to the wrap-around of 64 bits.
pub aggregate_worker_slots-Holds :
    (ws : List (WorkerSlots × List ℕ)) (c : ℕ)
    → c < n_combos
    → AllRecorded c ws
    → Holds
        (get_or (aggregate_worker_slots (workers_of ws)).0.combo_agg c zero_exp)
        (durations_of ws)
unfolding aggregate_worker_slots
aggregate_worker_slots-Holds ws c inside all =
    add_workers-Holds ws c zero_agg [] inside (length-replicate n_combos zero_exp)
      (rw (get_or-replicate n_combos c zero_exp) no_durations-Holds) all
