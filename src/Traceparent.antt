-- ===== src/Traceparent.antt =====
-- The W3C `traceparent` header: `parse_traceparent_full` and its helpers of logs/access.rs, and
-- `build_traceparent_value` of metric_source/span_start.rs. Text is a list of bytes.
pub mod Hex
pub mod RoundTrip
mod Runs
use Prim.Native.Nat.{bit_or, bit_and}
use ngx_otel_rust.Base.{
  ℕ, zero, suc, ◌+◌, ◌-◌, ◌*◌, ◌/◌, ◌%◌, Bool, true, false, ◌&&◌, ◌||◌, not, Option, none, some,
  List, [], ◌∷◌, ◌++◌, ltb, leb, ◌==◌, if◌then◌else◌, ◌>>=◌, ◌>>◌, guard, length, get_or, take,
  drop, replicate, bytes_eq,
}

-- Lower-case digits only.
unfoldable pub hex_nibble : ℕ → Option ℕ
hex_nibble c =
    if leb b'0' c && leb c b'9'
    then some (c - b'0')
    else if leb b'a' c && leb c b'f'
    then some (c - b'a' + 10)
    else none

-- `(h << 4) | l` on u8.
abbrev pub join_nibbles : ℕ → ℕ → ℕ
join_nibbles h l = bit_or (h * 16 % 256) l

-- The loop of the two decoders over `n` pairs of digits; `none` is their `false`.
unfoldable pub decode_pairs : ℕ → List ℕ → Option (List ℕ)
decode_pairs zero hex = some []
decode_pairs (suc n) (c ∷ (d ∷ hex)) = do
  h ← hex_nibble c
  l ← hex_nibble d
  rest ← decode_pairs n hex
  some (join_nibbles h l ∷ rest)
decode_pairs (suc n) hex = none

abbrev pub decode_hex16 : List ℕ → Option (List ℕ)
decode_hex16 hex = if ltb (length hex) 32 then none else decode_pairs 16 hex

abbrev pub decode_hex8 : List ℕ → Option (List ℕ)
decode_hex8 hex = if ltb (length hex) 16 then none else decode_pairs 8 hex

-- Trace id, parent span id and flags.
unfoldable pub parse_traceparent_full : List ℕ → Option (List ℕ × List ℕ × ℕ)
parse_traceparent_full header = do
  guard (not (ltb (length header) 55))
  guard (get_or header 0 0 == b'0' && get_or header 1 0 == b'0' && get_or header 2 0 == b'-')
  trace_id ← decode_hex16 (take 32 (drop 3 header))
  guard (get_or header 35 0 == b'-')
  parent_span_id ← decode_hex8 (take 16 (drop 36 header))
  guard (get_or header 52 0 == b'-')
  hi ← hex_nibble (get_or header 53 0)
  lo ← hex_nibble (get_or header 54 0)
  guard (length header == 55)
  guard (not (bytes_eq trace_id (replicate 16 0)))
  guard (not (bytes_eq parent_span_id (replicate 8 0)))
  some (trace_id, parent_span_id, join_nibbles hi lo)

unfoldable pub parse_traceparent : List ℕ → Option (List ℕ × List ℕ)
parse_traceparent header = do
  (trace_id, span_id, flags) ← parse_traceparent_full header
  some (trace_id, span_id)

-- `HEX[i]`.
abbrev pub hex_digit : ℕ → ℕ
hex_digit i = if ltb i 10 then b'0' + i else b'a' + (i - 10)

unfoldable pub hex_encode_into_slice : List ℕ → List ℕ
hex_encode_into_slice [] = []
hex_encode_into_slice (byte ∷ src) =
    hex_digit (byte / 16) ∷ (hex_digit (bit_and byte 0xf) ∷ hex_encode_into_slice src)

-- The ids are arrays of 16 and 8 bytes, so the parts fill the 55 bytes without gaps.
unfoldable pub build_traceparent_value : List ℕ → List ℕ → ℕ → List ℕ
build_traceparent_value trace_id span_id trace_flags =
    b'0'
    ∷ (b'0'
        ∷ (b'-'
            ∷ (hex_encode_into_slice trace_id
                ++ (b'-'
                    ∷ (hex_encode_into_slice span_id
                        ++ (b'-' ∷ hex_encode_into_slice (trace_flags ∷ [])))))))
