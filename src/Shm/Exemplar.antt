-- ===== src/Shm/Exemplar.antt =====
-- shm/mod.rs: the exemplar reservoir of a data point. An entry keeps the numbers of its atomics.
pub mod Sample
mod Runs
use ngx_otel_rust.Base.{
  ℕ, zero, suc, ◌+◌, ◌*◌, ◌/◌, ◌%◌, ◌^◌, min, Bool, true, false, not, Option, none, some, List, [],
  ◌∷◌, ◌++◌, ltb, leb, ◌==◌, if◌then◌else◌, get_or, set, take, drop, replicate,
}
use ngx_otel_rust.Base.Bytes.{be_bytes, from_be}
use ngx_otel_rust.Coalesce.{xor}
use ngx_otel_rust.Logs.{SampledRequest}

abbrev pub exemplar_reservoir_size : ℕ
exemplar_reservoir_size = 2

pub record ExemplarEntry : Type 0 where
  pub value_us : ℕ
  pub trace_id_lo : ℕ
  pub trace_id_hi : ℕ
  pub span_id : ℕ
  pub ts_unix_nano : ℕ
  pub combo_idx : ℕ
  pub has_trace : ℕ

pub record ExemplarReservoir : Type 0 where
  pub seen : ℕ
  pub entries : List ExemplarEntry

pub record ExemplarSnapshot : Type 0 where
  pub value_us : ℕ
  pub combo_idx : ℕ
  pub has_trace : Bool
  pub trace_id : List ℕ
  pub span_id : List ℕ
  pub ts_unix_nano : ℕ

abbrev pub zeroed_entry : ExemplarEntry
zeroed_entry = record {
  value_us = 0;
  trace_id_lo = 0;
  trace_id_hi = 0;
  span_id = 0;
  ts_unix_nano = 0;
  combo_idx = 0;
  has_trace = 0;
}

unfoldable pub rand_index : (n : ℕ) → ℕ
rand_index n =
    let z = (n + 0x9e3779b97f4a7c15) % 2 ^ 64 in
    let z1 = xor 64 z (z / 2 ^ 30) * 0xbf58476d1ce4e5b9 % 2 ^ 64 in
    let z2 = xor 64 z1 (z1 / 2 ^ 27) * 0x94d049bb133111eb % 2 ^ 64 in xor 64 z2 (z2 / 2 ^ 31)

-- `n + 1` of the source overflows for the last `n` only.
unfoldable pub bucket_for : (n : ℕ) → ℕ
bucket_for n = if ltb n exemplar_reservoir_size then n else rand_index n % ((n + 1) % 2 ^ 64)

-- The identifiers stay as they were without a trace.
unfoldable pub store_trace : (e : ExemplarEntry) (trace : Option (List ℕ × List ℕ)) → ExemplarEntry
store_trace e none = record e { has_trace = 0 }
store_trace e (some (tid, sid)) = record e {
  trace_id_lo = from_be (take 8 tid);
  trace_id_hi = from_be (drop 8 tid);
  span_id = from_be sid;
  has_trace = 1;
}

unfoldable pub overwrite : (e : ExemplarEntry) (req : SampledRequest) → ExemplarEntry
overwrite e req =
    store_trace
      (record e {
        value_us = req.duration_us;
        ts_unix_nano = req.ts_unix_nano;
        combo_idx = req.combo_idx;
      })
      req.trace

unfoldable pub write : (r : ExemplarReservoir) (req : SampledRequest) → ExemplarReservoir
write r req =
    let n = r.seen in
    let bucket = bucket_for n in
    if leb exemplar_reservoir_size bucket then record r { seen = (n + 1) % 2 ^ 64 } else record r {
      seen = (n + 1) % 2 ^ 64;
      entries = set r.entries bucket (overwrite (get_or r.entries bucket zeroed_entry) req);
    }

unfoldable pub snapshot_of : (e : ExemplarEntry) → ExemplarSnapshot
snapshot_of e = record {
  value_us = e.value_us;
  combo_idx = e.combo_idx;
  has_trace = not (e.has_trace == 0);
  trace_id = be_bytes 8 e.trace_id_lo ++ be_bytes 8 e.trace_id_hi;
  span_id = be_bytes 8 e.span_id;
  ts_unix_nano = e.ts_unix_nano;
}

-- The entries from `i` on, as many as are filled.
unfoldable pub snapshots_from :
    (filled i : ℕ) (entries : List ExemplarEntry) → List ExemplarSnapshot
snapshots_from zero i entries = []
snapshots_from (suc filled) i entries =
    snapshot_of (get_or entries i zeroed_entry) ∷ snapshots_from filled (suc i) entries

unfoldable pub reservoir_snapshot : (r : ExemplarReservoir) → List ExemplarSnapshot
reservoir_snapshot r = snapshots_from (min r.seen exemplar_reservoir_size) 0 r.entries

unfoldable pub reset : (r : ExemplarReservoir) → ExemplarReservoir
reset r = record r { seen = 0 }

unfoldable pub write_all : (r : ExemplarReservoir) (reqs : List SampledRequest) → ExemplarReservoir
write_all r [] = r
write_all r (req ∷ reqs) = write_all (write r req) reqs
