-- ===== src/Shm/Zones/Layout.antt =====
-- shm/mod.rs: the workers' parts of the logs zone lie in the zone and do not overlap.
use native.Mathlib.Nat.{mul-le-mul_right}
use ngx_otel_rust.Base.{ℕ, suc, ◌+◌, ◌*◌, ◌≤◌, ◌<◌, ◌≡◌, ◌⊎◌, refl, inl, inr, arith}
use ngx_otel_rust.Ring.{ring_size_bytes}
use ngx_otel_rust.Shm.Zones.{
  coalesce_table_bytes, logs_slot_size, logs_zone_size_for, stride_cap, logs_access_ring,
  logs_error_ring, logs_coalesce_table,
}

pub data Part : Type 0 where
  access_ring error_ring coalesce_table : Part

-- The order of the parts of a slot.
abbrev pub rank : Part → ℕ
rank access_ring = 0
rank error_ring = 1
rank coalesce_table = 2

-- Where a part starts, and its size.
abbrev pub start_of : (hdr_cap cap base_addr worker_id : ℕ) → Part → ℕ
start_of hdr_cap cap base_addr worker_id access_ring =
    logs_access_ring hdr_cap base_addr worker_id cap
start_of hdr_cap cap base_addr worker_id error_ring =
    logs_error_ring hdr_cap base_addr worker_id cap
start_of hdr_cap cap base_addr worker_id coalesce_table =
    logs_coalesce_table hdr_cap base_addr worker_id cap

abbrev pub size_of : (stride : ℕ) → Part → ℕ
size_of stride access_ring = ring_size_bytes stride
size_of stride error_ring = ring_size_bytes stride
size_of stride coalesce_table = coalesce_table_bytes

-- The part's offset in its slot.
abbrev offset_of : ℕ → Part → ℕ
offset_of ring access_ring = 0
offset_of ring error_ring = ring
offset_of ring coalesce_table = 2 * ring

start_of_lem :
    (hdr_cap cap base_addr w : ℕ) (p : Part)
    → start_of hdr_cap cap base_addr w p
      ≡ base_addr
        + (w * logs_slot_size (stride_cap hdr_cap cap)
            + offset_of (ring_size_bytes (stride_cap hdr_cap cap)) p)
unfolding logs_access_ring logs_error_ring logs_coalesce_table
start_of_lem hdr_cap cap base_addr w access_ring = omega arith
start_of_lem hdr_cap cap base_addr w error_ring = refl
start_of_lem hdr_cap cap base_addr w coalesce_table = refl

part_in_slot :
    (stride : ℕ) (p : Part)
    → offset_of (ring_size_bytes stride) p + size_of stride p ≤ logs_slot_size stride
unfolding logs_slot_size
part_in_slot stride access_ring = omega arith
part_in_slot stride error_ring = omega arith
part_in_slot stride coalesce_table = omega arith

parts_in_order :
    (stride : ℕ) (p q : Part)
    → rank p < rank q
    → offset_of (ring_size_bytes stride) p + size_of stride p ≤ offset_of (ring_size_bytes stride) q
parts_in_order stride access_ring access_ring before = absurd (omega (arith, before))
parts_in_order stride access_ring error_ring before = omega arith
parts_in_order stride access_ring coalesce_table before = omega arith
parts_in_order stride error_ring access_ring before = absurd (omega (arith, before))
parts_in_order stride error_ring error_ring before = absurd (omega (arith, before))
parts_in_order stride error_ring coalesce_table before = omega arith
parts_in_order stride coalesce_table access_ring before = absurd (omega (arith, before))
parts_in_order stride coalesce_table error_ring before = absurd (omega (arith, before))
parts_in_order stride coalesce_table coalesce_table before = absurd (omega (arith, before))

later_slot : (w v slot : ℕ) → w < v → w * slot + slot ≤ v * slot
later_slot w v slot before =
    let scaled : suc w * slot ≤ v * slot = mul-le-mul_right slot before in omega (arith, scaled)

-- In a logs zone that was laid out with the capacity that its headers are stamped with (or, unstamped,
-- the configured one): an access ring, error ring or coalescer table of a worker below the worker count
-- ends inside the zone, and it ends before every part of a later worker and every later part of the same
-- worker starts.
pub parts_apart :
    (data_offset n_workers hdr_cap cap shm_addr w v : ℕ) (p q : Part)
    → w < n_workers
    → (w < v) ⊎ ((w ≡ v) × (rank p < rank q))
    → let base_addr = shm_addr + data_offset in
      let stride = stride_cap hdr_cap cap in
      let end = start_of hdr_cap cap base_addr w p + size_of stride p in
      (end ≤ shm_addr + logs_zone_size_for data_offset n_workers stride)
      × (end ≤ start_of hdr_cap cap base_addr v q)
unfolding logs_zone_size_for
parts_apart data_offset n_workers hdr_cap cap shm_addr w v p q inside (inl before) =
    let stride = stride_cap hdr_cap cap in
    let at_p = start_of_lem hdr_cap cap (shm_addr + data_offset) w p in
    let at_q = start_of_lem hdr_cap cap (shm_addr + data_offset) v q in
    (
      omega (
        arith,
        at_p,
        part_in_slot stride p,
        later_slot w n_workers (logs_slot_size stride) inside,
      ),
      omega
          (arith, at_p, at_q, part_in_slot stride p, later_slot w v (logs_slot_size stride) before),
    )
parts_apart data_offset n_workers hdr_cap cap shm_addr w v p q inside (inr (same, before)) =
    let stride = stride_cap hdr_cap cap in
    let at_p = start_of_lem hdr_cap cap (shm_addr + data_offset) w p in
    let at_q = start_of_lem hdr_cap cap (shm_addr + data_offset) w q in
    (
      omega (
        arith,
        at_p,
        part_in_slot stride p,
        later_slot w n_workers (logs_slot_size stride) inside,
      ),
      rw⁻¹ (same) (omega (arith, at_p, at_q, parts_in_order stride p q before)),
    )
