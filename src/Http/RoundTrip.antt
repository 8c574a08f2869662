-- ===== src/Http/RoundTrip.antt =====
-- The HTTP date of transport/hyper_http.rs against its text.
use ngx_otel_rust.Base.{
  ℕ, suc, ◌+◌, ◌*◌, ◌/◌, ◌-◌, ◌%◌, ◌^◌, ◌≤◌, ◌<◌, ◌≡◌, refl, sym, ap, ◌∙◌, Bool, true, false, ◌&&◌,
  ◌||◌, Option, none, some, List, [], ◌∷◌, arith, ltb, leb, ◌==◌, get_or, take, drop,
}
use ngx_otel_rust.Base.Table.{every_under, every_under-at}
use ngx_otel_rust.Base.Text.{codes}
use ngx_otel_rust.Http.Date.{
  parse_digits, parse_decimal, parse_month_name, days_in_month, days_from_civil, has_separators,
  parse_imf_fixdate,
}

abbrev pub month_name : ℕ → List ℕ
month_name m = take 3 (drop (3 * (m - 1)) (codes "JanFebMarAprMayJunJulAugSepOctNovDec"))

abbrev pub digit : ℕ → ℕ
digit v = 48 + v % 10

-- The text of a date: any three bytes for the day of the week.
abbrev pub imf_fixdate : (w0 w1 w2 y m d hour mins sec : ℕ) → List ℕ
imf_fixdate w0 w1 w2 y m d hour mins sec =
    w0
    ∷ w1
    ∷ w2
    ∷ 44
    ∷ 32
    ∷ digit (d / 10)
    ∷ digit d
    ∷ 32
    ∷ get_or (month_name m) 0 0
    ∷ get_or (month_name m) 1 0
    ∷ get_or (month_name m) 2 0
    ∷ 32
    ∷ digit (y / 1000)
    ∷ digit (y / 100)
    ∷ digit (y / 10)
    ∷ digit y
    ∷ 32
    ∷ digit (hour / 10)
    ∷ digit hour
    ∷ 58
    ∷ digit (mins / 10)
    ∷ digit mins
    ∷ 58
    ∷ digit (sec / 10)
    ∷ digit sec
    ∷ 32
    ∷ 71
    ∷ 77
    ∷ 84
    ∷ []

parse_digit :
    (v acc : ℕ) (b : List ℕ)
    → acc * 10 + v % 10 < 2 ^ 32
    → parse_digits (2 ^ 32) (digit v ∷ b) acc ≡ parse_digits (2 ^ 32) b (acc * 10 + v % 10)
unfolding parse_digits
parse_digit v acc b h = rw (is_digit, room) (ap (λ k. parse_digits (2 ^ 32) b (acc * 10 + k)) value)
  where
    value : digit v - 48 ≡ v % 10
    value = omega arith

    is_digit : (leb 48 (digit v) && leb (digit v) 57) ≡ true
    is_digit = ground arith

    room : (ltb (acc * 10) (2 ^ 32) && ltb (acc * 10 + (digit v - 48)) (2 ^ 32)) ≡ true
    room = ground (arith, h)

two_digits : (v : ℕ) → v < 100 → parse_decimal (2 ^ 32) (digit (v / 10) ∷ digit v ∷ []) ≡ some v
unfolding parse_decimal parse_digits
two_digits v h =
    parse_digit (v / 10) 0 (digit v ∷ []) (omega arith)
    ∙ parse_digit v (0 * 10 + v / 10 % 10) [] (omega (arith, h))
    ∙ last
  where
    last : parse_digits (2 ^ 32) [] ((0 * 10 + v / 10 % 10) * 10 + v % 10) ≡ some v
    last = ap some (omega (arith, h))

four_digits :
    (v : ℕ)
    → v < 10000
    → parse_decimal (2 ^ 32) (digit (v / 1000) ∷ digit (v / 100) ∷ digit (v / 10) ∷ digit v ∷ [])
      ≡ some v
unfolding parse_decimal parse_digits
four_digits v h =
    parse_digit (v / 1000) 0 (digit (v / 100) ∷ digit (v / 10) ∷ digit v ∷ []) (omega arith)
    ∙ parse_digit (v / 100) (0 * 10 + v / 1000 % 10) (digit (v / 10) ∷ digit v ∷ []) (omega arith)
    ∙ parse_digit (v / 10) ((0 * 10 + v / 1000 % 10) * 10 + v / 100 % 10) (digit v ∷ [])
        (omega arith)
    ∙ parse_digit v (((0 * 10 + v / 1000 % 10) * 10 + v / 100 % 10) * 10 + v / 10 % 10) []
        (omega arith)
    ∙ ap some (omega (arith, h))

abbrev month_text : ℕ → List ℕ
month_text m =
    get_or (month_name m) 0 0 ∷ get_or (month_name m) 1 0 ∷ get_or (month_name m) 2 0 ∷ []

abbrev is_some_of : Option ℕ → ℕ → Bool
is_some_of none m = false
is_some_of (some k) m = k == m

is_some_of_sound : (o : Option ℕ) (m : ℕ) → is_some_of o m ≡ true → o ≡ some m
is_some_of_sound none m h = ground (arith, h)
is_some_of_sound (some k) m h = ap some (ground (arith, h))

month_back : (m : ℕ) → 1 ≤ m → m ≤ 12 → parse_month_name (month_text m) ≡ some m
unfolding parse_month_name every_under
month_back m h1 h12 =
    let e : suc (m - 1) ≡ m = omega arith in
    let at = is_some_of_sound (parse_month_name (month_text (suc (m - 1)))) (suc (m - 1)) (
      every_under-at (λ k. is_some_of (parse_month_name (month_text (suc k))) (suc k)) 12 (m - 1)
        (omega arith) refl) in
    rw (sym e) at

days_in_month_bound : (y m : ℕ) → days_in_month y m ≤ 31
unfolding days_in_month
days_in_month_bound y m = ground arith

-- A date of the calendar up to the year 9999 whose day number exists and is below 2 ^ 32, written as
-- the header has it, is read as its seconds: those of its days, hours, minutes and seconds.
pub parse_imf_fixdate-imf_fixdate :
    (w0 w1 w2 y m d hour mins sec days : ℕ)
    → y < 10000
    → 1 ≤ m
    → m ≤ 12
    → 1 ≤ d
    → d ≤ days_in_month y m
    → hour < 24
    → mins < 60
    → sec ≤ 60
    → days_from_civil y m d ≡ some days
    → days < 2 ^ 32
    → parse_imf_fixdate (imf_fixdate w0 w1 w2 y m d hour mins sec)
      ≡ some (days * 86400 + hour * 3600 + mins * 60 + sec)
unfolding parse_imf_fixdate has_separators
parse_imf_fixdate-imf_fixdate w0 w1 w2 y m d hour mins sec days hy h1 h12 hd hdim hh hm hs is_day
      small =
    rw (
      two_digits d d_small,
      month_back m h1 h12,
      four_digits y hy,
      two_digits hour (omega (arith, hh)),
      two_digits mins (omega (arith, hm)),
      two_digits sec (omega (arith, hs)),
      month_ok,
      day_ok,
      time_ok,
      is_day,
      s1,
      s2,
      s3,
      s4,
    )
  where
    d_small : d < 100
    d_small = omega (arith, hdim, days_in_month_bound y m)

    month_ok : ((m == 0) || ltb 12 m) ≡ false
    month_ok = ground (arith, h1, h12)

    day_ok : ((d == 0) || ltb (days_in_month y m) d) ≡ false
    day_ok = ground (arith, hd, hdim)

    time_ok : (ltb 23 hour || (ltb 59 mins || ltb 60 sec)) ≡ false
    time_ok = ground (arith, hh, hm, hs)

    s1 : ltb (days * 86400) (2 ^ 64) ≡ true
    s1 = ground (arith, small)

    s2 : ltb (days * 86400 + hour * 3600) (2 ^ 64) ≡ true
    s2 = ground (arith, small, hh)

    s3 : ltb (days * 86400 + hour * 3600 + mins * 60) (2 ^ 64) ≡ true
    s3 = ground (arith, small, hh, hm)

    s4 : ltb (days * 86400 + hour * 3600 + mins * 60 + sec) (2 ^ 64) ≡ true
    s4 = ground (arith, small, hh, hm, hs)
