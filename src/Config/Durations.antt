-- ===== src/Config/Durations.antt =====
-- config/parse.rs: the durations that are accepted, and their milliseconds.
use ngx_otel_rust.Base.{
  ℕ, zero, suc, ◌+◌, ◌-◌, ◌*◌, ◌≤◌, ◌<◌, ◌≡◌, refl, sym, ap, ◌∙◌, inl, inr, true, false, List, [],
  ◌∷◌, ◌++◌, leb, Bool-cases, length, take, drop, is_empty, get_or, length-append, take-append,
  take_all, append-nil, drop-append_at, drop-get_or, get_or-append_at, arith,
}
use ngx_otel_rust.Base.Text.{codes}
use ngx_otel_rust.Config.{is_digit, has_suffix, last_or_zero, duration_unit, parse_duration_ms}
use ngx_otel_rust.Config.Numbers.{every_digit, decimal_value, fitting, checked_scale, digit_at}

get_or-append_left : (s r : List ℕ) (i : ℕ) → i < length s → get_or (s ++ r) i 0 ≡ get_or s i 0
get_or-append_left [] r i inside = absurd (omega arith)
get_or-append_left (b ∷ s) r zero inside = refl
get_or-append_left (b ∷ s) r (suc i) inside = get_or-append_left s r i (omega arith)

positive_length : (s : List ℕ) → is_empty s ≡ false → 1 ≤ length s
positive_length [] filled = cc filled
positive_length (b ∷ s) filled = omega arith

-- Digits and at most one more byte do not end with the suffix for milliseconds.
not_ms :
    (s r : List ℕ)
    → every_digit s ≡ true
    → is_empty s ≡ false
    → length r ≤ 1
    → has_suffix (s ++ r) (codes "ms") ≡ false
unfolding has_suffix
not_ms s r digits filled short =
    let x = s ++ r in
    let k = length x - 2 in
    let size : length x ≡ length s + length r = length-append s r in
    elim (Bool-cases (leb 2 (length x))) [
      | inr e ↦ rw (e) refl
      | inl e ↦
          (let inside : k < length s = ground (arith, size, short, e, positive_length s filled) in
            let split : drop k x ≡ get_or x k 0 ∷ drop (suc k) x =
              drop-get_or k x 0 (omega (arith, inside, size)) in
            let digit : is_digit (get_or x k 0) ≡ true =
              ap is_digit (get_or-append_left s r k inside) ∙ digit_at s k digits inside in
            rw (e, split) (ground (arith, digit)))
    ]

pub data TimeUnit : Type 0 where
  bare milliseconds seconds minutes hours days : TimeUnit

abbrev pub suffix_of : TimeUnit → List ℕ
suffix_of bare = []
suffix_of milliseconds = codes "ms"
suffix_of seconds = codes "s"
suffix_of minutes = codes "m"
suffix_of hours = codes "h"
suffix_of days = codes "d"

-- A bare number is seconds.
abbrev pub factor_of : TimeUnit → ℕ
factor_of bare = 1000
factor_of milliseconds = 1
factor_of seconds = 1000
factor_of minutes = 60000
factor_of hours = 3600000
factor_of days = 86400000

take_back : (s r : List ℕ) (n : ℕ) → length r ≡ n → take (length (s ++ r) - n) (s ++ r) ≡ s
take_back s r n size =
    ap (λ k. take k (s ++ r)) (omega (arith, length-append s r, size)) ∙ take-append s r

last_or_zero-append : (s : List ℕ) (c : ℕ) → last_or_zero (s ++ c ∷ []) ≡ c
unfolding last_or_zero
last_or_zero-append s c =
    get_or-append_at s (c ∷ []) (length (s ++ c ∷ []) - 1) 0 0
      (omega (arith, length-append s (c ∷ [])))

is_empty-append : (s r : List ℕ) → is_empty s ≡ false → is_empty (s ++ r) ≡ false
is_empty-append [] r filled = cc filled
is_empty-append (b ∷ s) r filled = refl

one_letter :
    (s : List ℕ) (c factor : ℕ)
    → is_empty s ≡ false
    → every_digit s ≡ true
    → duration_unit c ≡ (1, factor)
    → 1 ≤ factor
    → parse_duration_ms (s ++ c ∷ []) ≡ fitting (decimal_value 0 s * factor)
unfolding parse_duration_ms
one_letter s c factor filled digits unit positive =
    rw
      (
        is_empty-append s (c ∷ []) filled,
        not_ms s (c ∷ []) digits filled (omega arith),
        last_or_zero-append s c,
        unit,
        take_back s (c ∷ []) 1 refl,
      )
      (checked_scale s factor filled digits positive)

digit_unit : (d : ℕ) → is_digit d ≡ true → duration_unit d ≡ (0, 1000)
unfolding duration_unit
digit_unit d digit = ground (arith, digit)

bare_number :
    (s : List ℕ)
    → is_empty s ≡ false
    → every_digit s ≡ true
    → parse_duration_ms s ≡ fitting (decimal_value 0 s * 1000)
unfolding parse_duration_ms last_or_zero
bare_number s filled digits =
    let last : is_digit (last_or_zero s) ≡ true =
      digit_at s (length s - 1) digits (omega (arith, positive_length s filled)) in
    let plain : has_suffix s (codes "ms") ≡ false =
      ap (λ x. has_suffix x (codes "ms")) (sym (append-nil s))
      ∙ not_ms s [] digits filled (omega arith) in
    let whole : take (length s - 0) s ≡ s = take_all (length s - 0) s (omega arith) in
    rw (filled, plain, digit_unit (last_or_zero s) last, whole)
      (checked_scale s 1000 filled digits (omega arith))

in_milliseconds :
    (s : List ℕ)
    → is_empty s ≡ false
    → every_digit s ≡ true
    → parse_duration_ms (s ++ codes "ms") ≡ fitting (decimal_value 0 s * 1)
unfolding parse_duration_ms has_suffix
in_milliseconds s filled digits =
    let size = length-append s (codes "ms") in
    let enough : leb 2 (length (s ++ codes "ms")) ≡ true = ground (arith, size) in
    let suffix : drop (length (s ++ codes "ms") - 2) (s ++ codes "ms") ≡ codes "ms" =
      drop-append_at (length (s ++ codes "ms") - 2) s (codes "ms") (omega (arith, size)) in
    rw (is_empty-append s (codes "ms") filled, enough, suffix, take_back s (codes "ms") 2 refl)
      (checked_scale s 1 filled digits (omega arith))

-- A number of digits with one of the units, or without one as seconds, is read as that many milliseconds
-- if these fit 64 bits, and refused otherwise.
pub parse_duration_ms_lem :
    (s : List ℕ) (unit : TimeUnit)
    → is_empty s ≡ false
    → every_digit s ≡ true
    → parse_duration_ms (s ++ suffix_of unit) ≡ fitting (decimal_value 0 s * factor_of unit)
unfolding duration_unit
parse_duration_ms_lem s bare filled digits =
    ap parse_duration_ms (append-nil s) ∙ bare_number s filled digits
parse_duration_ms_lem s milliseconds filled digits = in_milliseconds s filled digits
parse_duration_ms_lem s seconds filled digits =
    one_letter s b's' 1000 filled digits refl (omega arith)
parse_duration_ms_lem s minutes filled digits =
    one_letter s b'm' 60000 filled digits refl (omega arith)
parse_duration_ms_lem s hours filled digits =
    one_letter s b'h' 3600000 filled digits refl (omega arith)
parse_duration_ms_lem s days filled digits =
    one_letter s b'd' 86400000 filled digits refl (omega arith)
