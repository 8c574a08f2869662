-- ===== src/Decimal/Digits.antt =====
-- The decimal text of a number is read back as the number.
use ngx_otel_rust.Base.{
  ℕ, zero, suc, ◌+◌, ◌-◌, ◌*◌, ◌/◌, ◌%◌, ◌^◌, ◌≤◌, ◌<◌, ◌≡◌, refl, ap, ◌∙◌, inl, inr, false, ◌&&◌,
  some, List, [], ◌∷◌, ◌++◌, ltb, ◌>>=◌, Bool-cases, All, ltb→lt, arith, is_empty,
}
use ngx_otel_rust.Decimal.{digits, decimal_u16}
use ngx_otel_rust.Http.Date.{parse_digits, is_ascii_digit}

parse_digits-append :
    (bound : ℕ) (xs : List ℕ) (c v : ℕ)
    → parse_digits bound (xs ++ c ∷ []) v
      ≡ (parse_digits bound xs v >>= λ w. parse_digits bound (c ∷ []) w)
unfolding parse_digits
parse_digits-append bound [] c v = refl
parse_digits-append bound (x ∷ xs) c v =
    let next = v * 10 + (x - 48) in
    let rest = parse_digits-append bound xs c next in
    elim (Bool-cases (is_ascii_digit x && (ltb (v * 10) bound && ltb next bound))) [
      | inl e ↦ rw (e) rest
      | inr e ↦ rw (e) refl
    ]

one_digit :
    (bound d v : ℕ)
    → d < 10
    → v * 10 + d < bound
    → parse_digits bound ((48 + d) ∷ []) v ≡ some (v * 10 + d)
unfolding parse_digits
one_digit bound d v small fits =
    let value : 48 + d - 48 ≡ d = omega arith in rw (value) (ground (arith, small, fits))

parse_digits-digits :
    (f bound n : ℕ) → n < 10 ^ f → n < bound → parse_digits bound (digits f n) 0 ≡ some n
unfolding digits parse_digits
parse_digits-digits zero bound n small fits =
    let nought : 0 ≡ n = omega (arith, small) in ap some nought
parse_digits-digits (suc f) bound n small fits = elim (Bool-cases (ltb n 10)) [
  | inl e ↦
      rw (e) (one_digit bound n 0 (ltb→lt n 10 e) (omega (arith, fits)) ∙ ap some (omega arith))
  | inr e ↦
      (let high =
          parse_digits-digits f bound (n / 10) (omega (arith, small)) (omega (arith, fits)) in
        let whole : n / 10 * 10 + n % 10 ≡ n = omega arith in
        rw (e, parse_digits-append bound (digits f (n / 10)) (48 + n % 10) 0, high)
          (one_digit bound (n % 10) (n / 10) (omega arith) (omega (arith, fits)) ∙ ap some whole))
]

abbrev pub IsDigit : ℕ → Type 0
IsDigit c = (48 ≤ c) × (c ≤ 57)

All-snoc : (xs : List ℕ) (c : ℕ) → All IsDigit xs → IsDigit c → All IsDigit (xs ++ c ∷ [])
All-snoc [] c h d = (d, tt)
All-snoc (x ∷ xs) c h d = (h.0, All-snoc xs c h.1 d)

digits-All : (f n : ℕ) → All IsDigit (digits f n)
unfolding digits parse_digits
digits-All zero n = tt
digits-All (suc f) n = elim (Bool-cases (ltb n 10)) [
  | inl e ↦
      (let small : n < 10 = ltb→lt n 10 e in rw (e) (((omega arith, omega (arith, small)), tt)))
  | inr e ↦ rw (e) (
      All-snoc (digits f (n / 10)) (48 + n % 10) (digits-All f (n / 10)) (omega arith, omega arith))
]

snoc_filled : (xs : List ℕ) (c : ℕ) → is_empty (xs ++ c ∷ []) ≡ false
snoc_filled [] c = refl
snoc_filled (x ∷ xs) c = refl

digits_filled : (f n : ℕ) → is_empty (digits (suc f) n) ≡ false
unfolding digits parse_digits
digits_filled f n = elim (Bool-cases (ltb n 10)) [
  | inl e ↦ rw (e) refl
  | inr e ↦ rw (e) (snoc_filled (digits f (n / 10)) (48 + n % 10))
]

-- The text of a port: digits only, at least one, and read back as the port.
pub decimal_u16_lem :
    (n : ℕ)
    → n < 2 ^ 16
    → All IsDigit (decimal_u16 n)
      × (is_empty (decimal_u16 n) ≡ false)
      × (parse_digits (2 ^ 16) (decimal_u16 n) 0 ≡ some n)
unfolding decimal_u16
decimal_u16_lem n small = (
  digits-All 5 n,
  digits_filled 4 n,
  parse_digits-digits 5 (2 ^ 16) n (omega (arith, small)) small,
)
