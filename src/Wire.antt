-- ===== src/Wire.antt =====
-- The record layouts of the rings: the write macros of traces/mod.rs and logs/access.rs, and the
-- reads at `pos` of their parsers. A cursor is the list of the bytes from `pos` on, so the tests
-- `pos + n > buf.len()` are tests of its length.
use ngx_otel_rust.Base.{
  ℕ, ◌^◌, ◌≤◌, ◌<◌, ◌≡◌, refl, false, Option, none, some, List, ◌++◌, append_assoc, arith, ltb,
  if◌then◌else◌, ◌>>=◌, length, take, drop, take-append_at, drop-append_at, length-append,
  length-take,
}
use ngx_otel_rust.Base.Bytes.{be_bytes, from_be, length-be_bytes, from_be-be_bytes}
use ngx_otel_rust.Base.Text.{from_utf8_lossy}

-- `write_capped` and `write_bytes_with_u16_len`: the length on two bytes, and the bytes that fit.
abbrev pub write_capped : List ℕ → ℕ → List ℕ
write_capped raw max = be_bytes 2 (length (take max raw)) ++ take max raw

unfoldable pub take_bytes : ℕ → List ℕ → Option (List ℕ × List ℕ)
take_bytes n r = if ltb (length r) n then none else some (take n r, drop n r)

unfoldable pub read_be : ℕ → List ℕ → Option (ℕ × List ℕ)
read_be n r = do (bs, r') ← take_bytes n r; some (from_be bs, r')

-- `read_capped_str`: a string behind its length.
unfoldable pub read_capped_str : List ℕ → Option (List ℕ × List ℕ)
read_capped_str r = do
  (len, r1) ← read_be 2 r
  (bs, r2) ← take_bytes len r1
  some (from_utf8_lossy bs, r2)

-- Reading what was written leaves what follows it.
pub take_bytes-append :
    (n : ℕ) (bs r : List ℕ) → length bs ≡ n → take_bytes n (bs ++ r) ≡ some (bs, r)
unfolding take_bytes
take_bytes-append n bs r h =
    let enough : ltb (length (bs ++ r)) n ≡ false = ground (arith, length-append bs r) in
    rw (enough, take-append_at n bs r h, drop-append_at n bs r h)

pub read_be-be_bytes :
    (n v : ℕ) (r : List ℕ) → v < 256 ^ n → read_be n (be_bytes n v ++ r) ≡ some (v, r)
unfolding read_be
read_be-be_bytes n v r h =
    rw (take_bytes-append n (be_bytes n v) r (length-be_bytes n v), from_be-be_bytes n v h)

pub length-take_cap : (max : ℕ) (raw : List ℕ) → length (take max raw) ≤ max
length-take_cap max raw = omega (arith, length-take max raw)

pub read_capped_str-write_capped :
    (raw : List ℕ) (max : ℕ) (r : List ℕ)
    → max < 2 ^ 16
    → read_capped_str (write_capped raw max ++ r) ≡ some (from_utf8_lossy (take max raw), r)
unfolding read_capped_str
read_capped_str-write_capped raw max r h =
    let bs = take max raw in
    rw (
      append_assoc (be_bytes 2 (length bs)) bs r,
      read_be-be_bytes 2 (length bs) (bs ++ r) (omega (arith, length-take_cap max raw)),
      take_bytes-append (length bs) bs r refl,
    )
