-- ===== src/Http/Civil.antt =====
-- The day count of transport/hyper_http.rs.
use ngx_otel_rust.Base.{
  ℕ, suc, ◌+◌, ◌*◌, ◌/◌, ◌-◌, ◌%◌, ◌≤◌, ◌<◌, ◌≡◌, inl, inr, refl, sym, ap, ap₂, ◌∙◌, true, false,
  not, ◌&&◌, ◌||◌, some, arith, ltb, leb, ◌==◌, if◌then◌else◌, Bool-cases, ==_iff, le→leb, leb→le,
  le→ltb_false,
}
use mathlib.Core.Path.{subst}
use ngx_otel_rust.Base.Table.{eq_below, every_under}
use ngx_otel_rust.Http.Date.{is_leap, days_in_month, era_days, days_from_civil}

-- The day after, by the calendar.
abbrev pub next_date : ℕ → ℕ → ℕ → ℕ × ℕ × ℕ
next_date y m d =
    if ltb d (days_in_month y m)
    then (y, m, suc d)
    else if ltb m 12
    then (y, suc m, 1)
    else (suc y, 1, 1)

pub era_days_next : (y m d : ℕ) → 1 ≤ d → era_days y m (suc d) ≡ suc (era_days y m d)
era_days_next y m d h = omega arith

-- The leap rule within one period of 400 years.
abbrev yoe_days : ℕ → ℕ
yoe_days yoe = yoe * 365 + yoe / 4 - yoe / 100

yoe_days_leap :
    (r : ℕ)
    → r < 400
    → yoe_days r ≡ yoe_days (r - 1) + (if r == 0 then 0 else 337 + (if is_leap r then 29 else 28))
unfolding every_under
yoe_days_leap =
    eq_below 400 yoe_days
      (λ r. yoe_days (r - 1) + (if r == 0 then 0 else 337 + (if is_leap r then 29 else 28))) refl

leap_mod : (y : ℕ) → is_leap y ≡ is_leap (y % 400)
leap_mod y =
    let four : y % 4 ≡ y % 400 % 4 = omega arith in
    let hundred : y % 100 ≡ y % 400 % 100 = omega arith in
    let all : y % 400 ≡ y % 400 % 400 = omega arith in
    ap₂ (λ a b. (a == 0) && b) four (ap₂ (λ a b. not (a == 0) || (b == 0)) hundred all)

era_days_step :
    (y r l : ℕ)
    → y % 400 ≡ r
    → 1 ≤ r
    → 28 ≤ l
    → yoe_days r ≡ yoe_days (r - 1) + (337 + l)
    → suc (era_days (y - 1) 11 l) ≡ era_days y 0 1
era_days_step y r l is_r pos few h =
    let era : (y - 1) / 400 ≡ y / 400 = omega arith in
    let yoe : (y - 1) - (y - 1) / 400 * 400 ≡ r - 1 = omega arith in
    let yoe' : y - y / 400 * 400 ≡ r = omega arith in
    rw (era) (omega (arith, h, ap yoe_days yoe, ap yoe_days yoe'))

era_days_wrap : (y : ℕ) → 1 ≤ y → y % 400 ≡ 0 → suc (era_days (y - 1) 11 29) ≡ era_days y 0 1
era_days_wrap y h is_0 =
    let era : suc ((y - 1) / 400) ≡ y / 400 = omega arith in
    let yoe : (y - 1) - (y - 1) / 400 * 400 ≡ 399 = omega arith in
    let yoe' : y - y / 400 * 400 ≡ 0 = omega arith in
    omega (arith, era, ap yoe_days yoe, ap yoe_days yoe')

-- The last day of February comes before the first of March.
era_days_leap :
    (y : ℕ) → 1 ≤ y → suc (era_days (y - 1) 11 (if is_leap y then 29 else 28)) ≡ era_days y 0 1
era_days_leap y h = elim (Bool-cases (y % 400 == 0)) [
  | inl multiple ↦
      (let is_0 : y % 400 ≡ 0 = ground (arith, multiple) in
        let leap : is_leap y ≡ true = leap_mod y ∙ ap is_leap is_0 in
        rw (leap) (era_days_wrap y h is_0))
  | inr other ↦
      (let table = yoe_days_leap (y % 400) (omega arith) in
        elim (Bool-cases (is_leap (y % 400))) [
          | inl leap ↦
              rw (leap_mod y, leap)
                (era_days_step y (y % 400) 29 refl (ground (arith, other)) (omega arith)
                  (table ∙ rw (other, leap) refl))
          | inr plain ↦
              rw (leap_mod y, plain)
                (era_days_step y (y % 400) 28 refl (ground (arith, other)) (omega arith)
                  (table ∙ rw (other, plain) refl))
        ])
]

era_days_epoch : (y m d : ℕ) → 1970 ≤ y → 1 ≤ d → 719468 ≤ era_days y m d
era_days_epoch y m d h hd = omega arith

-- The days since the epoch in both halves of the calendar.
days_from_civil_early :
    (y m d : ℕ)
    → 1970 ≤ y
    → 1 ≤ m
    → m ≤ 2
    → 1 ≤ d
    → (719468 ≤ era_days (y - 1) (m + 9) d)
      × (days_from_civil y m d ≡ some (era_days (y - 1) (m + 9) d - 719468))
unfolding days_from_civil
days_from_civil_early y m d h h1 h2 hd =
    let late : 719468 ≤ era_days (y - 1) (m + 9) d = omega arith in
    (
      late,
      rw
          (
            le→leb m 2 h2,
            le→leb 1 y (omega arith),
            le→ltb_false (y - 1) 1969 (omega arith),
            le→leb 719468 (era_days (y - 1) (m + 9) d) late,
          )
          refl,
    )

days_from_civil_late :
    (y m d : ℕ)
    → 1970 ≤ y
    → 3 ≤ m
    → 1 ≤ d
    → (719468 ≤ era_days y (m - 3) d)
      × (days_from_civil y m d ≡ some (era_days y (m - 3) d - 719468))
unfolding days_from_civil
days_from_civil_late y m d h hm hd =
    let late : 719468 ≤ era_days y (m - 3) d = omega arith in
    let after : leb m 2 ≡ false = ground arith in
    (
      late,
      rw (after, le→ltb_false y 1969 (omega arith), le→leb 719468 (era_days y (m - 3) d) late) refl,
    )

-- A date and the number that it has, with its successor.
abbrev pub Follows : ℕ × ℕ × ℕ → ℕ × ℕ × ℕ → Type 0
Follows (y, m, d) (y', m', d') =
    (n : ℕ) × (days_from_civil y m d ≡ some n) × (days_from_civil y' m' d' ≡ some (suc n))

same_month : (y m d : ℕ) → 1970 ≤ y → 1 ≤ m → 1 ≤ d → Follows (y, m, d) (y, m, suc d)
same_month y m d h hm hd = elim (Bool-cases (leb m 2)) [
  | inl early ↦
      (let m2 = leb→le m 2 early in
        let now = days_from_civil_early y m d h hm m2 hd in
        let next = days_from_civil_early y m (suc d) h hm m2 (omega arith) in
        (_, now.1, next.1 ∙ ap some (omega (arith, era_days_next (y - 1) (m + 9) d hd, now.0))))
  | inr late ↦
      (let m3 : 3 ≤ m = ground (arith, late) in
        let now = days_from_civil_late y m d h m3 hd in
        let next = days_from_civil_late y m (suc d) h m3 (omega arith) in
        (_, now.1, next.1 ∙ ap some (omega (arith, era_days_next y (m - 3) d hd, now.0))))
]

late_end :
    (y m : ℕ)
    → 3 ≤ m
    → m ≤ 11
    → suc ((153 * (m - 3) + 2) / 5 + days_in_month y m - 1) ≡ (153 * (suc m - 3) + 2) / 5
unfolding days_in_month
late_end y m h3 h11 = ground (arith, h3, h11)

january : (y : ℕ) → 1970 ≤ y → Follows (y, 1, 31) (y, 2, 1)
january y h =
    let now = days_from_civil_early y 1 31 h (omega arith) (omega arith) (omega arith) in
    let next = days_from_civil_early y 2 1 h (omega arith) (omega arith) (omega arith) in
    (_, now.1, next.1 ∙ ap some (omega (arith, now.0)))

february : (y : ℕ) → 1970 ≤ y → Follows (y, 2, if is_leap y then 29 else 28) (y, 3, 1)
february y h =
    let last : 1 ≤ (if is_leap y then 29 else 28) = ground arith in
    let now = days_from_civil_early y 2 _ h (omega arith) (omega arith) last in
    let next = days_from_civil_late y 3 1 h (omega arith) (omega arith) in
    (_, now.1, next.1 ∙ ap some (omega (arith, era_days_leap y (omega arith), now.0)))

march_on : (y m : ℕ) → 1970 ≤ y → 3 ≤ m → m ≤ 11 → Follows (y, m, days_in_month y m) (y, suc m, 1)
march_on y m h h3 h11 =
    let last : 1 ≤ days_in_month y m = omega (arith, late_end y m h3 h11) in
    let now = days_from_civil_late y m _ h h3 last in
    let next = days_from_civil_late y (suc m) 1 h (omega arith) (omega arith) in
    (_, now.1, next.1 ∙ ap some (omega (arith, late_end y m h3 h11, last, now.0, next.0)))

december : (y : ℕ) → 1970 ≤ y → Follows (y, 12, 31) (suc y, 1, 1)
december y h =
    let now = days_from_civil_late y 12 31 h (omega arith) (omega arith) in
    let next =
      days_from_civil_early (suc y) 1 1 (omega arith) (omega arith) (omega arith) (omega arith) in
    (_, now.1, next.1 ∙ ap some (omega (arith, now.0)))

-- The last day of a month comes before the first of the next one.
month_end :
    (y m : ℕ)
    → 1970 ≤ y
    → 1 ≤ m
    → m ≤ 12
    → Follows (y, m, days_in_month y m) (if ltb m 12 then (y, suc m, 1) else (suc y, 1, 1))
unfolding days_in_month
month_end y m h h1 h12 = elim (Bool-cases (ltb m 3)) [
  | inl early ↦ elim (Bool-cases (m == 1)) [
    | inl one ↦ subst_month 1 ((==_iff m 1).0 one) (january y h)
    | inr two ↦ subst_month 2 (ground (arith, early, two)) (february y h)
  ]
  | inr late ↦ elim (Bool-cases (ltb m 12)) [
    | inl before ↦ rw (before) (march_on y m h (ground (arith, late)) (ground (arith, before)))
    | inr last ↦ subst_month 12 (ground (arith, last)) (december y h)
  ]
]
  where
    Ends : ℕ → Type 0
    Ends k = Follows (y, k, days_in_month y k) (if ltb k 12 then (y, suc k, 1) else (suc y, 1, 1))

    subst_month : (k : ℕ) → m ≡ k → Ends k → Ends m
    subst_month k e t = subst Ends (sym e) t

days_from_civil_epoch : days_from_civil 1970 1 1 ≡ some 0
unfolding days_from_civil
days_from_civil_epoch = refl

-- For a valid date from the epoch on, the day count follows the calendar: it is 0 on the first of January 1970, and
-- the next date has the next number.
pub days_from_civil_lem :
    (y m d : ℕ)
    → 1970 ≤ y
    → 1 ≤ m
    → m ≤ 12
    → 1 ≤ d
    → d ≤ days_in_month y m
    → (days_from_civil 1970 1 1 ≡ some 0) × Follows (y, m, d) (next_date y m d)
days_from_civil_lem y m d h h1 h12 hd last = (
  days_from_civil_epoch,
  elim (Bool-cases (ltb d (days_in_month y m))) [
    | inl before ↦ rw (before) (same_month y m d h h1 hd)
    | inr end ↦
        (let is_last : d ≡ days_in_month y m = ground (arith, end) in
          rw (is_last, le→ltb_false (days_in_month y m) (days_in_month y m) (omega arith))
            (month_end y m h h1 h12))
  ],
)
