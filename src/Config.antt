-- ===== src/Config.antt =====
-- config/parse.rs: durations, sizes and decimal numbers of the directives.
pub mod Numbers
pub mod Durations
pub mod Tls
mod Runs
use ngx_otel_rust.Base.{
  ℕ, zero, suc, ◌+◌, ◌-◌, ◌*◌, ◌/◌, ◌%◌, ◌^◌, Bool, true, false, not, ◌&&◌, ◌||◌, Option, none,
  some, List, [], ◌∷◌, ltb, leb, ◌==◌, if◌then◌else◌, ◌>>=◌, ◌>>◌, guard, length, take, drop,
  is_empty, bytes_eq, get_or,
}
use ngx_otel_rust.Base.Text.{codes}

-- `checked_mul` and `checked_add` of `u64`, and of `usize` on 64 bits.
unfoldable pub checked : (n : ℕ) → Option ℕ
checked n = if ltb n (2 ^ 64) then some n else none

abbrev pub is_digit : ℕ → Bool
is_digit b = leb b'0' b && leb b b'9'

unfoldable pub parse_u64_digits : (v : ℕ) (s : List ℕ) → Option ℕ
parse_u64_digits v [] = some v
parse_u64_digits v (b ∷ s) =
    if is_digit b
    then (checked (v * 10) >>= λ tens.
        checked (tens + (b - b'0')) >>= λ next. parse_u64_digits next s)
    else none

unfoldable pub parse_u64_ascii : (s : List ℕ) → Option ℕ
parse_u64_ascii s = if is_empty s then none else parse_u64_digits 0 s

unfoldable pub has_suffix : (s suffix : List ℕ) → Bool
has_suffix s suffix =
    leb (length suffix) (length s) && bytes_eq (drop (length s - length suffix) s) suffix

-- The last byte; none is 0.
unfoldable pub last_or_zero : (s : List ℕ) → ℕ
last_or_zero s = get_or s (length s - 1) 0

-- The number of bytes of the suffix, and its factor.
unfoldable pub duration_unit : (last : ℕ) → ℕ × ℕ
duration_unit last =
    if last == b's'
    then (1, 1000)
    else if last == b'm'
    then (1, 60000)
    else if last == b'h'
    then (1, 3600000)
    else if last == b'd'
    then (1, 86400000)
    else (0, 1000)

unfoldable pub parse_duration_ms : (s : List ℕ) → Option ℕ
parse_duration_ms s =
    if is_empty s
    then none
    else if has_suffix s (codes "ms")
    then (parse_u64_ascii (take (length s - 2) s) >>= λ n. checked (n * 1))
    else let (suffix, factor) = duration_unit (last_or_zero s) in
      (parse_u64_ascii (take (length s - suffix) s) >>= λ n. checked (n * factor))

abbrev pub is_ascii_alphabetic : ℕ → Bool
is_ascii_alphabetic b = (leb b'a' b && leb b b'z') || (leb b'A' b && leb b b'Z')

abbrev pub to_ascii_lowercase : ℕ → ℕ
to_ascii_lowercase b = if leb b'A' b && leb b b'Z' then b + 32 else b

unfoldable pub size_unit : (last : ℕ) → Option (ℕ × ℕ)
size_unit last =
    if is_ascii_alphabetic last
    then if to_ascii_lowercase last == b'k'
      then some (1, 1024)
      else if to_ascii_lowercase last == b'm'
      then some (1, 1024 * 1024)
      else if to_ascii_lowercase last == b'g'
      then some (1, 1024 * 1024 * 1024)
      else none
    else some (0, 1)

unfoldable pub parse_size_bytes : (s : List ℕ) → Option ℕ
parse_size_bytes s =
    if is_empty s
    then none
    else (size_unit (last_or_zero s) >>= λ unit.
        parse_u64_ascii (take (length s - unit.0) s) >>= λ n. checked (n * unit.1))

unfoldable pub align_ring_size : (n : ℕ) → Option ℕ
align_ring_size n = checked ((n + 7) / 8 * 8)
