-- ===== src/Shm/Exemplar/Runs.antt =====
-- A reservoir that keeps old identifiers, at concrete requests.
use ngx_otel_rust.Base.{
  ℕ, zero, suc, ◌<◌, ◌≡◌, refl, min, Option, none, some, List, [], ◌∷◌, length, replicate, All,
  arith,
}
use ngx_otel_rust.Base.Bytes.{IsByte}
use ngx_otel_rust.Base.Text.{codes}
use ngx_otel_rust.Logs.{SampledRequest}
use ngx_otel_rust.Shm.Exemplar.{
  ExemplarReservoir, reservoir_snapshot, reset, write_all, zeroed_entry,
}
use ngx_otel_rust.Shm.Exemplar.Sample.{Shows, OneOf, AllSampled, reservoir_snapshot_lem}

abbrev request : Option (List ℕ × List ℕ) → ℕ → SampledRequest
request trace duration_us = record {
  ts_unix_nano = 1000;
  trace = trace;
  url_path = codes "/";
  user_agent = [];
  duration_us = duration_us;
  combo_idx = 3;
  method = codes "GET";
  status = 200;
  request_length = 80;
  response_bytes = 612;
  client_addr = codes "127.0.0.1";
}

abbrev requests : List SampledRequest
requests = request none 5 ∷ request (some (replicate 16 7, replicate 8 5)) 9 ∷ request none 1 ∷ []

abbrev used : ExemplarReservoir
used = record {
  seen = 12;
  entries = zeroed_entry ∷ record zeroed_entry { trace_id_lo = 99; has_trace = 1 } ∷ [];
}

same_bytes : (n b : ℕ) → b < 256 → All IsByte (replicate n b)
same_bytes zero b small = tt
same_bytes (suc n) b small = (small, same_bytes n b small)

sampled : AllSampled requests
sampled =
    (tt, ((refl, refl, same_bytes 16 7 (omega arith), same_bytes 8 5 (omega arith)), (tt, tt)))

reservoir_snapshot_lem_example :
    let shown = reservoir_snapshot (write_all (reset used) requests) in
    (length shown ≡ min (length requests) 2) × All (λ s. OneOf (Shows s) requests) shown
reservoir_snapshot_lem_example = reservoir_snapshot_lem used requests refl sampled (omega arith)
