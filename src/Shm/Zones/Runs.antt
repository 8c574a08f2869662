-- ===== src/Shm/Zones/Runs.antt =====
-- The logs zone of two workers at concrete sizes.
use ngx_otel_rust.Base.{◌+◌, ◌≤◌, ◌≡◌, refl, inr, arith}
use ngx_otel_rust.Ring.{ring_size_bytes}
use ngx_otel_rust.Shm.Zones.{
  logs_slot_size, logs_zone_size_for, logs_n_workers_from_zone, stride_cap,
}
use ngx_otel_rust.Shm.Zones.Layout.{error_ring, coalesce_table, start_of, size_of, parts_apart}

two_workers : logs_n_workers_from_zone 28800 4096 ≡ 2
unfolding logs_n_workers_from_zone logs_slot_size ring_size_bytes
two_workers = refl

parts_apart_example :
    let end =
      start_of 4096 8192 (500 + 200) 1 error_ring + size_of (stride_cap 4096 8192) error_ring in
    (end ≤ 500 + logs_zone_size_for 200 2 (stride_cap 4096 8192))
    × (end ≤ start_of 4096 8192 (500 + 200) 1 coalesce_table)
parts_apart_example =
    parts_apart 200 2 4096 8192 500 1 1 error_ring coalesce_table (omega arith)
      (inr (refl, omega arith))
