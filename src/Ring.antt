-- ===== src/Ring.antt =====
-- logs/ring.rs: the per-worker single-producer single-consumer byte ring.
-- The header's atomics are the fields of a record, and the payload region is a list of bytes.
pub mod Wrap
pub mod Queue
pub mod Pop
pub mod Trace
pub mod Spsc
mod Runs
use ngx_otel_rust.Base.{
  ℕ, ◌+◌, ◌-◌, ◌*◌, ◌%◌, ◌^◌, Bool, true, false, List, [], ◌∷◌, ◌++◌, ltb, leb, ◌==◌, if◌then◌else◌,
  length, set, take, drop, is_empty,
}
use ngx_otel_rust.Base.Bytes.{be_bytes, from_be}

-- The payload has `cap` bytes; `IsValid` in Queue says so.
pub record WorkerSignalRing : Type 0 where
  pub write_offset : ℕ
  pub read_offset : ℕ
  pub dropped : ℕ
  pub cap : ℕ
  pub payload : List ℕ

abbrev pub default_log_ring_cap : ℕ
default_log_ring_cap = 512 * 1024

-- Four `AtomicU64`s.
abbrev pub ring_header_size : ℕ
ring_header_size = 32

unfoldable pub ring_size_bytes : ℕ → ℕ
ring_size_bytes cap = ring_header_size + cap

-- `copy_nonoverlapping` into `xs` at `i`, byte by byte.
unfoldable pub splice : List ℕ → ℕ → List ℕ → List ℕ
splice xs i [] = xs
splice xs i (b ∷ bs) = splice (set xs i b) (i + 1) bs

unfoldable pub write_wrap : List ℕ → ℕ → ℕ → List ℕ → List ℕ
write_wrap base cap offset bs =
    let start = offset % cap in
    let end_space = cap - start in
    if is_empty bs
    then base
    else if leb (length bs) end_space
    then splice base start bs
    else splice (splice base start (take end_space bs)) 0 (drop end_space bs)

-- Fills a destination of `n` bytes.
unfoldable pub read_wrap : List ℕ → ℕ → ℕ → ℕ → List ℕ
read_wrap base cap offset n =
    let start = offset % cap in
    let end_space = cap - start in
    if n == 0
    then []
    else if leb n end_space
    then take n (drop start base)
    else take end_space (drop start base) ++ take (n - end_space) base

-- `wrapping_sub` on u64.
abbrev pub wrapping_sub : ℕ → ℕ → ℕ
wrapping_sub a b = (a + 2 ^ 64 - b) % 2 ^ 64

-- The offset store is modulo 2^64; `record_len as u32` truncates.
pub push : WorkerSignalRing → List ℕ → Bool × WorkerSignalRing
push r bytes =
    let record_len = length bytes in
    let total = 4 + record_len in
    let used = wrapping_sub r.write_offset r.read_offset in
    if r.cap == 0
    then (false, r)
    else if ltb r.cap (used + total)
    then (false, record r { dropped = (r.dropped + 1) % 2 ^ 64 })
    else (
      true,
      record r {
        write_offset = (r.write_offset + total) % 2 ^ 64;
        payload =
            write_wrap
              (write_wrap r.payload r.cap r.write_offset (be_bytes 4 (record_len % 2 ^ 32))) r.cap
              (r.write_offset + 4) bytes;
      },
    )

-- Returns whether a record was popped, the grown output and the ring.
pub pop_into : WorkerSignalRing → List ℕ → Bool × List ℕ × WorkerSignalRing
pop_into r out =
    let available = wrapping_sub r.write_offset r.read_offset in
    let record_len = from_be (read_wrap r.payload r.cap r.read_offset 4) in
    if r.cap == 0
    then (false, out, r)
    else if ltb available 4
    then (false, out, r)
    else if ltb available (4 + record_len)
    then (false, out, r)
    else (
      true,
      out ++ read_wrap r.payload r.cap (r.read_offset + 4) record_len,
      record r { read_offset = (r.read_offset + 4 + record_len) % 2 ^ 64 },
    )

abbrev pub drop_count : WorkerSignalRing → ℕ
drop_count r = r.dropped
