-- ===== src/Http/Date.antt =====
-- The HTTP date of transport/hyper_http.rs.
use ngx_otel_rust.Base.{
  ℕ, ◌+◌, ◌*◌, ◌/◌, ◌-◌, ◌%◌, ◌^◌, Bool, not, ◌&&◌, ◌||◌, Option, none, some, List, [], ◌∷◌, ltb,
  leb, ◌==◌, if◌then◌else◌, ◌>>=◌, ◌>>◌, guard, length, take, drop, get_or, bytes_eq, min,
}
use ngx_otel_rust.Base.Text.{codes}

abbrev pub is_ascii_digit : ℕ → Bool
is_ascii_digit c = leb 48 c && leb c 57

-- The digits after `v`, each product and sum checked against the bound of the type.
unfoldable pub parse_digits : ℕ → List ℕ → ℕ → Option ℕ
parse_digits bound [] v = some v
parse_digits bound (c ∷ b) v =
    let rest = parse_digits bound b (v * 10 + (c - 48)) in
    if is_ascii_digit c && (ltb (v * 10) bound && ltb (v * 10 + (c - 48)) bound) then rest else none

unfoldable pub parse_decimal : ℕ → List ℕ → Option ℕ
parse_decimal bound [] = none
parse_decimal bound (c ∷ b) = parse_digits bound (c ∷ b) 0

abbrev pub parse_u32_bytes : List ℕ → Option ℕ
parse_u32_bytes b = parse_decimal (2 ^ 32) b

unfoldable pub parse_month_name : List ℕ → Option ℕ
parse_month_name b =
    if bytes_eq b (codes "Jan")
    then some 1
    else if bytes_eq b (codes "Feb")
    then some 2
    else if bytes_eq b (codes "Mar")
    then some 3
    else if bytes_eq b (codes "Apr")
    then some 4
    else if bytes_eq b (codes "May")
    then some 5
    else if bytes_eq b (codes "Jun")
    then some 6
    else if bytes_eq b (codes "Jul")
    then some 7
    else if bytes_eq b (codes "Aug")
    then some 8
    else if bytes_eq b (codes "Sep")
    then some 9
    else if bytes_eq b (codes "Oct")
    then some 10
    else if bytes_eq b (codes "Nov")
    then some 11
    else if bytes_eq b (codes "Dec")
    then some 12
    else none

abbrev pub is_leap : ℕ → Bool
is_leap year = (year % 4 == 0) && (not (year % 100 == 0) || (year % 400 == 0))

unfoldable pub days_in_month : ℕ → ℕ → ℕ
days_in_month year month =
    if (month == 1)
      || ((month == 3)
          || ((month == 5) || ((month == 7) || ((month == 8) || ((month == 10) || (month == 12))))))
    then 31
    else if (month == 4) || ((month == 6) || ((month == 9) || (month == 11)))
    then 30
    else if month == 2
    then if is_leap year then 29 else 28
    else 0

abbrev pub checked_sub : ℕ → ℕ → Option ℕ
checked_sub a b = if leb b a then some (a - b) else none

-- The year and month with March as month 0.
abbrev pub march_based : ℕ → ℕ → Option (ℕ × ℕ)
march_based year month =
    if leb month 2 then (do y ← checked_sub year 1; some (y, month + 9)) else some (year, month - 3)

-- The days from the first of March of year 0.
abbrev pub era_days : ℕ → ℕ → ℕ → ℕ
era_days y m d =
    let era = y / 400 in
    let yoe = y - era * 400 in
    let doy = (153 * m + 2) / 5 + d - 1 in
    let doe = yoe * 365 + yoe / 4 - yoe / 100 + doy in era * 146097 + doe

unfoldable pub days_from_civil : ℕ → ℕ → ℕ → Option ℕ
days_from_civil year month day = do
  (y, m) ← march_based year month
  guard (not (ltb y 1969))
  checked_sub (era_days y m day) 719468

abbrev pub byte_is : List ℕ → ℕ → ℕ → Bool
byte_is b i c = get_or b i 0 == c

abbrev pub slice : List ℕ → ℕ → ℕ → List ℕ
slice b start end = take (end - start) (drop start b)

-- The separators at their places.
unfoldable pub has_separators : List ℕ → Bool
has_separators b =
    (byte_is b 3 44 && byte_is b 4 32)
    && ((byte_is b 7 32 && (byte_is b 11 32 && byte_is b 16 32))
        && ((byte_is b 19 58 && byte_is b 22 58)
            && (byte_is b 25 32 && (byte_is b 26 71 && (byte_is b 27 77 && byte_is b 28 84)))))

-- `u64` products and sums, checked.
abbrev pub checked_u64 : ℕ → Option ℕ
checked_u64 n = if ltb n (2 ^ 64) then some n else none

-- The seconds since the epoch.
unfoldable pub parse_imf_fixdate : List ℕ → Option ℕ
parse_imf_fixdate b = do
  guard (length b == 29)
  guard (has_separators b)
  day ← parse_u32_bytes (slice b 5 7)
  month ← parse_month_name (slice b 8 11)
  year ← parse_u32_bytes (slice b 12 16)
  hour ← parse_u32_bytes (slice b 17 19)
  min ← parse_u32_bytes (slice b 20 22)
  sec ← parse_u32_bytes (slice b 23 25)
  guard (not ((month == 0) || ltb 12 month))
  guard (not ((day == 0) || ltb (days_in_month year month) day))
  guard (not (ltb 23 hour || (ltb 59 min || ltb 60 sec)))
  unix_days ← days_from_civil year month day
  days_secs ← checked_u64 (unix_days * 86400)
  with_hours ← checked_u64 (days_secs + hour * 3600)
  with_mins ← checked_u64 (with_hours + min * 60)
  checked_u64 (with_mins + sec)
