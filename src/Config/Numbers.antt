-- ===== src/Config/Numbers.antt =====
-- config/parse.rs: the decimal numbers that are accepted, and their values.
use native.Mathlib.Nat.{mul-le-mul_left}
use ngx_otel_rust.Base.{
  ℕ, zero, suc, ◌+◌, ◌-◌, ◌*◌, ◌^◌, ◌≤◌, ◌<◌, ◌≡◌, refl, ◌∙◌, inl, inr, Bool, true, false, not,
  ◌&&◌, Option, none, some, List, [], ◌∷◌, ltb, if◌then◌else◌, ◌>>=◌, Bool-cases, length, is_empty,
  get_or, ltb→lt, lt→ltb, arith,
}
use ngx_otel_rust.Config.{checked, is_digit, parse_u64_digits, parse_u64_ascii}

unfoldable pub every_digit : (s : List ℕ) → Bool
every_digit [] = true
every_digit (b ∷ s) = is_digit b && every_digit s

-- The number that the digits after `v` stand for.
unfoldable pub decimal_value : (v : ℕ) (s : List ℕ) → ℕ
decimal_value v [] = v
decimal_value v (b ∷ s) = decimal_value (v * 10 + (b - b'0')) s

-- A number that fits 64 bits.
unfoldable pub fitting : (n : ℕ) → Option ℕ
fitting n = if ltb n (2 ^ 64) then some n else none

decimal_value-grows : (v : ℕ) (s : List ℕ) → v ≤ decimal_value v s
unfolding decimal_value
decimal_value-grows v [] = omega arith
decimal_value-grows v (b ∷ s) = omega (arith, decimal_value-grows (v * 10 + (b - b'0')) s)

none_either : {A : Type 0} (b : Bool) → ◌≡◌ {A = Option A} none (if b then none else none)
none_either true = refl
none_either false = refl

parse_digits_lem :
    (s : List ℕ) (v : ℕ)
    → v < 2 ^ 64
    → parse_u64_digits v s ≡ (if every_digit s then fitting (decimal_value v s) else none)
unfolding parse_u64_digits every_digit decimal_value fitting checked
parse_digits_lem [] v small = rw (lt→ltb v (2 ^ 64) small) refl
parse_digits_lem (b ∷ s) v small =
    let next = v * 10 + (b - b'0') in
    let grows = decimal_value-grows next s in
    elim (Bool-cases (is_digit b)) [
      | inr e ↦ rw (e) refl
      | inl e ↦ elim (Bool-cases (ltb next (2 ^ 64))) [
        | inl room ↦
            (let tens : ltb (v * 10) (2 ^ 64) ≡ true = ground (arith, room) in
              let rest = parse_digits_lem s next (ltb→lt next (2 ^ 64) room) in
              rw (e, tens, room) rest)
        | inr over ↦
            (let too_big : ltb (decimal_value next s) (2 ^ 64) ≡ false =
                ground (arith, over, grows) in
              elim (Bool-cases (ltb (v * 10) (2 ^ 64))) [
                | inl tens ↦ rw (e, tens, over, too_big) (none_either (every_digit s))
                | inr tens ↦ rw (e, tens, too_big) (none_either (every_digit s))
              ])
      ]
    ]

-- A string is accepted exactly if it is not empty, has only digits and its value fits 64 bits, and it is
-- read as that value.
pub parse_u64_ascii_lem :
    (s : List ℕ)
    → parse_u64_ascii s
      ≡ (if not (is_empty s) && every_digit s then fitting (decimal_value 0 s) else none)
unfolding parse_u64_ascii
parse_u64_ascii_lem [] = refl
parse_u64_ascii_lem (b ∷ s) = parse_digits_lem (b ∷ s) 0 (omega arith)

-- A number of a unit: the number and the product each have to fit, which the product decides.
pub checked_scale :
    (s : List ℕ) (factor : ℕ)
    → is_empty s ≡ false
    → every_digit s ≡ true
    → 1 ≤ factor
    → (parse_u64_ascii s >>= λ n. checked (n * factor)) ≡ fitting (decimal_value 0 s * factor)
unfolding checked fitting
checked_scale s factor filled digits positive =
    let v = decimal_value 0 s in
    let read : parse_u64_ascii s ≡ fitting v = parse_u64_ascii_lem s ∙ rw (filled, digits) refl in
    let scaled : v * 1 ≤ v * factor = mul-le-mul_left v positive in
    elim (Bool-cases (ltb v (2 ^ 64))) [
      | inl small ↦ rw (read, fitting, small) refl
      | inr large ↦
          (let too_big : ltb (v * factor) (2 ^ 64) ≡ false = ground (arith, large, scaled) in
            rw (read, fitting, large, too_big) refl)
    ]

pub digit_at :
    (s : List ℕ) (i : ℕ) → every_digit s ≡ true → i < length s → is_digit (get_or s i 0) ≡ true
unfolding every_digit
digit_at [] i digits inside = absurd (omega arith)
digit_at (b ∷ s) zero digits inside = ground (arith, digits)
digit_at (b ∷ s) (suc i) digits inside = digit_at s i (ground (arith, digits)) (omega arith)
