-- ===== src/Shm/Zones.antt =====
-- shm/mod.rs: the sizes of the three zones and the places of the workers' parts in them. The sizes of
-- nginx's slab header and of `WorkerSlots` are parameters; the products of the source do not overflow.
pub mod Layout
mod Runs
use ngx_otel_rust.Base.{ℕ, ◌+◌, ◌-◌, ◌*◌, ◌/◌, max, ltb, ◌==◌, if◌then◌else◌}
use ngx_otel_rust.Coalesce.{coalesce_capacity}
use ngx_otel_rust.Ring.{ring_size_bytes}

-- Three words of eight bytes for each slot.
abbrev pub coalesce_table_bytes : ℕ
coalesce_table_bytes = coalesce_capacity * 24

abbrev pub default_span_ring_cap : ℕ
default_span_ring_cap = 256 * 1024

module _ (data_offset slots_size : ℕ) where
  unfoldable pub zone_size_for : (n_workers : ℕ) → ℕ
  zone_size_for n_workers = data_offset + n_workers * slots_size

  unfoldable pub n_workers_from_zone_size : (zone_size : ℕ) → ℕ
  n_workers_from_zone_size zone_size = (zone_size - data_offset) / slots_size

  unfoldable pub worker_slots : (base_addr worker_id : ℕ) → ℕ
  worker_slots base_addr worker_id = base_addr + worker_id * slots_size

unfoldable pub logs_slot_size : (cap : ℕ) → ℕ
logs_slot_size cap = 2 * ring_size_bytes cap + coalesce_table_bytes

unfoldable pub logs_zone_size_for : (data_offset n_workers cap : ℕ) → ℕ
logs_zone_size_for data_offset n_workers cap = data_offset + n_workers * logs_slot_size cap

unfoldable pub logs_n_workers_from_zone : (zone_data_bytes cap : ℕ) → ℕ
logs_n_workers_from_zone zone_data_bytes cap =
    let slot = logs_slot_size cap in max (if slot == 0 then 0 else zone_data_bytes / slot) 1

-- The capacity that the first header is stamped with, and before that the configured one.
unfoldable pub stride_cap : (hdr_cap cap : ℕ) → ℕ
stride_cap hdr_cap cap = if ltb 0 hdr_cap then hdr_cap else cap

module _ (hdr_cap : ℕ) where
  unfoldable pub logs_access_ring : (base_addr worker_id cap : ℕ) → ℕ
  logs_access_ring base_addr worker_id cap =
      base_addr + worker_id * logs_slot_size (stride_cap hdr_cap cap)

  unfoldable pub logs_error_ring : (base_addr worker_id cap : ℕ) → ℕ
  logs_error_ring base_addr worker_id cap =
      let stride = stride_cap hdr_cap cap in
      base_addr + (worker_id * logs_slot_size stride + ring_size_bytes stride)

  unfoldable pub logs_coalesce_table : (base_addr worker_id cap : ℕ) → ℕ
  logs_coalesce_table base_addr worker_id cap =
      let stride = stride_cap hdr_cap cap in
      base_addr + (worker_id * logs_slot_size stride + 2 * ring_size_bytes stride)

unfoldable pub spans_slot_size : (cap : ℕ) → ℕ
spans_slot_size cap = ring_size_bytes cap

unfoldable pub spans_zone_size_for : (data_offset n_workers cap : ℕ) → ℕ
spans_zone_size_for data_offset n_workers cap = data_offset + n_workers * spans_slot_size cap

unfoldable pub spans_n_workers_from_zone : (zone_data_bytes cap : ℕ) → ℕ
spans_n_workers_from_zone zone_data_bytes cap =
    let slot = spans_slot_size cap in max (if slot == 0 then 0 else zone_data_bytes / slot) 1

unfoldable pub spans_ring : (base_addr worker_id cap : ℕ) → ℕ
spans_ring base_addr worker_id cap = base_addr + worker_id * spans_slot_size cap
