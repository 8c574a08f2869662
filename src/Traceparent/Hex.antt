-- ===== src/Traceparent/Hex.antt =====
-- The hexadecimal decoders of logs/access.rs and the encoder of metric_source/span_start.rs.
use Prim.Native.Nat.{bit_and}
use ngx_otel_rust.Base.{
  ℕ, zero, suc, ◌+◌, ◌*◌, ◌/◌, ◌%◌, ◌<◌, ◌≡◌, refl, ap, some, List, [], ◌∷◌, arith, length, All,
  >>=-eq-some, some-inj, ap₂, ◌∙◌,
}
use ngx_otel_rust.Base.Bytes.{IsByte}
use ngx_otel_rust.Base.Table.{every_under, eq_below}
use ngx_otel_rust.Traceparent.{
  hex_nibble, join_nibbles, decode_pairs, hex_digit, hex_encode_into_slice,
}

pub join_parts : (b : ℕ) → b < 256 → join_nibbles (b / 16) (b % 16) ≡ b
unfolding every_under
join_parts = eq_below 256 (λ b. join_nibbles (b / 16) (b % 16)) (λ b. b) refl

pub low_nibble : (b : ℕ) → b < 256 → bit_and b 0xf ≡ b % 16
unfolding every_under
low_nibble = eq_below 256 (λ b. bit_and b 0xf) (λ b. b % 16) refl

-- The two digits of a byte are read back as its nibbles.
pub join_nibbles_lem : (h l : ℕ) → h < 16 → l < 16 → join_nibbles h l ≡ h * 16 + l
join_nibbles_lem h l p q =
    let e : (h * 16 + l) / 16 ≡ h = omega arith in
    let f : (h * 16 + l) % 16 ≡ l = omega arith in
    let k : join_nibbles ((h * 16 + l) / 16) ((h * 16 + l) % 16) ≡ h * 16 + l =
      join_parts (h * 16 + l) (omega arith) in
    ground (arith, e, f, k)

pub hex_nibble-hex_digit : (n : ℕ) → n < 16 → hex_nibble (hex_digit n) ≡ some n
unfolding hex_nibble
hex_nibble-hex_digit n h = ground arith

-- A digit that is read stands for a number below 16, and is that number's digit.
pub hex_nibble-eq-some : (c n : ℕ) → hex_nibble c ≡ some n → (n < 16) × (hex_digit n ≡ c)
unfolding hex_nibble
hex_nibble-eq-some c n h = ground arith

pub decode_pairs-hex_encode_into_slice :
    (bs : List ℕ) → All IsByte bs → decode_pairs (length bs) (hex_encode_into_slice bs) ≡ some bs
unfolding decode_pairs hex_encode_into_slice
decode_pairs-hex_encode_into_slice [] h = refl
decode_pairs-hex_encode_into_slice (b ∷ bs) h = ground (
  arith,
  low_nibble b h.0,
  hex_nibble-hex_digit (b / 16) (omega arith),
  hex_nibble-hex_digit (b % 16) (omega arith),
  join_parts b h.0,
  decode_pairs-hex_encode_into_slice bs h.1,
)

pub length-hex_encode_into_slice : (bs : List ℕ) → length (hex_encode_into_slice bs) ≡ 2 * length bs
unfolding hex_encode_into_slice
length-hex_encode_into_slice [] = omega arith
length-hex_encode_into_slice (b ∷ bs) = omega (arith, length-hex_encode_into_slice bs)

-- What is decoded encodes to the text again.
pub decode_pairs-eq-some :
    (n : ℕ) (hex bs : List ℕ)
    → length hex ≡ 2 * n
    → decode_pairs n hex ≡ some bs
    → (length bs ≡ n) × All IsByte bs × (hex_encode_into_slice bs ≡ hex)
unfolding decode_pairs hex_encode_into_slice
decode_pairs-eq-some zero [] bs l e = rw (← some-inj [] bs e) (refl, tt, refl)
decode_pairs-eq-some zero (c ∷ hex) bs l e = absurd (omega arith)
decode_pairs-eq-some (suc n) [] bs l e = absurd (omega arith)
decode_pairs-eq-some (suc n) (c ∷ []) bs l e = absurd (omega arith)
decode_pairs-eq-some (suc n) (c ∷ (d ∷ hex)) bs l e =
    let (h, eh, e1) = >>=-eq-some (hex_nibble c) _ e in
    let (k, ek, e2) = >>=-eq-some (hex_nibble d) _ e1 in
    let (rest, er, e3) = >>=-eq-some (decode_pairs n hex) _ e2 in
    let ih = decode_pairs-eq-some n hex rest (omega arith) er in
    let (lh, dh) = hex_nibble-eq-some c h eh in
    let (lk, dk) = hex_nibble-eq-some d k ek in
    let j : join_nibbles h k ≡ h * 16 + k = join_nibbles_lem h k lh lk in
    rw (← some-inj (join_nibbles h k ∷ rest) bs e3) (
      ap suc ih.0,
      (omega (arith, j), ih.1),
      ap₂ ◌∷◌ (high h k lh lk j ∙ dh) (ap₂ ◌∷◌ (low h k lh lk j ∙ dk) ih.2),
    )
  where
    high :
        (h k : ℕ)
        → h < 16
        → k < 16
        → join_nibbles h k ≡ h * 16 + k
        → hex_digit (join_nibbles h k / 16) ≡ hex_digit h
    high h k p q j = ap hex_digit (omega (arith, j))

    low :
        (h k : ℕ)
        → h < 16
        → k < 16
        → join_nibbles h k ≡ h * 16 + k
        → hex_digit (bit_and (join_nibbles h k) 0xf) ≡ hex_digit k
    low h k p q j =
        ap hex_digit (low_nibble (join_nibbles h k) (omega (arith, j)) ∙ omega (arith, j))
