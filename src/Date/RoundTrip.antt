-- ===== src/Date/RoundTrip.antt =====
-- muduo/base/Date.cpp: `getYearMonthDay` undoes `getJulianDayNumber`.
use learn_muduo.Prelude.{
  ℕ, zero, suc, ◌+◌, ◌-◌, ◌*◌, ◌/◌, ◌%◌, ◌≤◌, ◌<◌, ◌≡◌, ◌∙◌, refl, ap, inl, inr, true, arith, some,
  le→leb, ◌>>=◌, ◌==◌, if◌then◌else◌, Bool-cases, ==_iff,
}
use learn_muduo.Date.{julian_number, civil_date, get_julian_day_number, get_year_month_day, int_max}
use learn_muduo.Date.Calendar.{IsDate, is_leap, days_in_month}

-- The year that starts in March, its day from 0, and the leap day at its end.
-- 36524 days and a quarter make a century, 365 and a quarter a year.
century_of :
    (q r doy : ℕ)
    → r < 100
    → doy ≤ 365
    → (r ≡ 99 → doy ≡ 365 → q % 4 ≡ 3)
    → (4 * (36524 * q + q / 4 + (365 * r + r / 4 + doy)) + 3) / 146097 ≡ q
century_of q r doy hr hd leap = elim (Bool-cases (365 * r + r / 4 + doy == 36524)) [
  | inl last ↦
      let e : 365 * r + r / 4 + doy ≡ 36524 = (==_iff _ 36524).0 last in
      let er : r ≡ 99 = omega arith in let ed : doy ≡ 365 = omega arith in omega (arith, leap er ed)
  | inr other ↦ let less : 365 * r + r / 4 + doy < 36524 = ground (arith, other) in omega arith
]

year_of :
    (r doy : ℕ)
    → r < 100
    → doy ≤ 365
    → (doy ≡ 365 → r % 4 ≡ 3)
    → (4 * (365 * r + r / 4 + doy) + 3) / 1461 ≡ r
year_of r doy hr hd leap = elim (Bool-cases (doy == 365)) [
  | inl last ↦ let e : doy ≡ 365 = (==_iff doy 365).0 last in omega (arith, leap e)
  | inr other ↦ let less : doy < 365 = ground arith in omega arith
]

-- The days before the first of a month, counted from March; the lengths follow from it.
month_of :
    (k day : ℕ)
    → 1 ≤ day
    → k ≤ 11
    → day + (153 * k + 2) / 5 ≤ (153 * (k + 1) + 2) / 5
    → (5 * (day + (153 * k + 2) / 5 - 1) + 2) / 153 ≡ k
month_of k day from to fits = omega arith

-- A day of the year that starts in March, with that year split at 100, is read back.
read_back :
    (q r k day : ℕ)
    → r < 100
    → k ≤ 11
    → 1 ≤ day
    → day + (153 * k + 2) / 5 ≤ (153 * (k + 1) + 2) / 5
    → day + (153 * k + 2) / 5 ≤ 366
    → (day + (153 * k + 2) / 5 ≡ 366 → r % 4 ≡ 3)
    → (r ≡ 99 → day + (153 * k + 2) / 5 ≡ 366 → q % 4 ≡ 3)
    → (j : ℕ) → j + 32044 ≡ 36524 * q + q / 4 + (365 * r + r / 4 + (day + (153 * k + 2) / 5 - 1))
    → civil_date j
      ≡ record { year = q * 100 + r + k / 10 - 4800; month = k + 3 - 12 * (k / 10); day = day }
read_back q r k day hr hk hd fits bound leap leap100 j e =
    let doy = day + (153 * k + 2) / 5 - 1 in
    let eb : (4 * (j + 32044) + 3) / 146097 ≡ q =
      rw e (century_of q r doy hr (omega arith) (λ p d. leap100 p (omega arith))) in
    let ec : j + 32044 - q * 146097 / 4 ≡ 365 * r + r / 4 + doy = omega arith in
    let ed : (4 * (365 * r + r / 4 + doy) + 3) / 1461 ≡ r =
      year_of r doy hr (omega arith) (λ d. leap (omega arith)) in
    let ee : 365 * r + r / 4 + doy - 1461 * r / 4 ≡ doy = omega arith in
    let em : (5 * doy + 2) / 153 ≡ k = month_of k day hd hk fits in
    unfold civil_date in
    rw (eb, ec, ed, ee, em)
      (ap
        (λ (x : ℕ). record {
          year = q * 100 + r + k / 10 - 4800;
          month = k + 3 - 12 * (k / 10);
          day = x;
        })
        (omega arith))

-- The same with the year whole.
read_back_year :
    (y k day : ℕ)
    → k ≤ 11
    → 1 ≤ day
    → day + (153 * k + 2) / 5 ≤ (153 * (k + 1) + 2) / 5
    → day + (153 * k + 2) / 5 ≤ 366
    → (day + (153 * k + 2) / 5 ≡ 366 → (y + 1) % 4 ≡ 0)
    → (day + (153 * k + 2) / 5 ≡ 366 → (y + 1) % 100 ≡ 0 → (y + 1) % 400 ≡ 0)
    → (j : ℕ) → j + 32044 ≡ 365 * y + y / 4 - y / 100 + y / 400 + (day + (153 * k + 2) / 5 - 1)
    → civil_date j ≡ record { year = y + k / 10 - 4800; month = k + 3 - 12 * (k / 10); day = day }
read_back_year y k day hk hd fits bound leap leap100 j e =
    read_back (y / 100) (y % 100) k day (omega arith) hk hd fits bound (λ p. omega (arith, leap p))
      (λ p p'. omega (arith, leap100 p' (omega arith))) j (omega arith)
    ∙ ap (λ (x : ℕ). record { year = x + k / 10 - 4800; month = k + 3 - 12 * (k / 10); day = day })
        (omega arith)

leap_day : (y d : ℕ) → d ≤ (if is_leap y then 29 else 28) → d ≡ 29 → is_leap y ≡ true
leap_day y d h e = ground arith

leap_four : (y : ℕ) → is_leap y ≡ true → y % 4 ≡ 0
leap_four y h = ground arith

leap_hundred : (y : ℕ) → is_leap y ≡ true → y % 100 ≡ 0 → y % 400 ≡ 0
leap_hundred y h e = ground arith

later_month :
    (y k d : ℕ)
    → k ≤ 9
    → 1 ≤ d
    → d + (153 * k + 2) / 5 ≤ (153 * (k + 1) + 2) / 5
    → civil_date (julian_number y (k + 3) d) ≡ record { year = y; month = k + 3; day = d }
later_month y k d h from to =
    unfold julian_number in
    read_back_year (y + 4800) k d (omega arith) from to (omega arith) (λ p. absurd (omega arith))
      (λ p _. absurd (omega arith)) _ (omega arith)
    ∙ λ i. record { year = years i; month = months i; day = d }
  where
    years : y + 4800 + k / 10 - 4800 ≡ y
    years = omega arith

    months : k + 3 - 12 * (k / 10) ≡ k + 3
    months = omega arith

-- The formulas undo each other on every day of the calendar.
civil_date-julian :
    (y m d : ℕ)
    → IsDate y m d
    → civil_date (julian_number y m d) ≡ record { year = y; month = m; day = d }
unfolding julian_number
civil_date-julian y zero d h = absurd (omega (arith, h.month_from))
civil_date-julian y (suc zero) d h =
    read_back_year (y + 4799) 10 d (omega arith) h.day_from (omega (arith, h.day_to))
      (omega (arith, h.day_to)) (λ p. absurd (omega (arith, h.day_to)))
      (λ p _. absurd (omega (arith, h.day_to))) _ (omega (arith, h.day_from))
    ∙ ap (λ (x : ℕ). record { year = x; month = 1; day = d }) (omega arith)
civil_date-julian y (suc (suc zero)) d h =
    read_back_year (y + 4799) 11 d (omega arith) h.day_from (ground (arith, h.day_to))
      (ground (arith, h.day_to))
      (λ p. omega (arith, leap_four y (leap_day y d h.day_to (omega arith))))
      (λ p p'. omega (arith, leap_hundred y (leap_day y d h.day_to (omega arith)) (omega arith))) _
      (omega (arith, h.day_from))
    ∙ ap (λ (x : ℕ). record { year = x; month = 2; day = d }) (omega arith)
civil_date-julian y (suc (suc (suc zero))) d h =
    later_month y 0 d (omega arith) h.day_from (omega (arith, h.day_to))
civil_date-julian y (suc (suc (suc (suc zero)))) d h =
    later_month y 1 d (omega arith) h.day_from (omega (arith, h.day_to))
civil_date-julian y (suc (suc (suc (suc (suc zero))))) d h =
    later_month y 2 d (omega arith) h.day_from (omega (arith, h.day_to))
civil_date-julian y (suc (suc (suc (suc (suc (suc zero)))))) d h =
    later_month y 3 d (omega arith) h.day_from (omega (arith, h.day_to))
civil_date-julian y (suc (suc (suc (suc (suc (suc (suc zero))))))) d h =
    later_month y 4 d (omega arith) h.day_from (omega (arith, h.day_to))
civil_date-julian y (suc (suc (suc (suc (suc (suc (suc (suc zero)))))))) d h =
    later_month y 5 d (omega arith) h.day_from (omega (arith, h.day_to))
civil_date-julian y (suc (suc (suc (suc (suc (suc (suc (suc (suc zero))))))))) d h =
    later_month y 6 d (omega arith) h.day_from (omega (arith, h.day_to))
civil_date-julian y (suc (suc (suc (suc (suc (suc (suc (suc (suc (suc zero)))))))))) d h =
    later_month y 7 d (omega arith) h.day_from (omega (arith, h.day_to))
civil_date-julian y (suc (suc (suc (suc (suc (suc (suc (suc (suc (suc (suc zero))))))))))) d h =
    later_month y 8 d (omega arith) h.day_from (omega (arith, h.day_to))
civil_date-julian y (suc (suc (suc (suc (suc (suc (suc (suc (suc (suc (suc (suc zero)))))))))))) d
      h =
    later_month y 9 d (omega arith) h.day_from (omega (arith, h.day_to))
civil_date-julian y (suc (suc (suc (suc (suc (suc (suc (suc (suc (suc (suc (suc (suc m)))))))))))))
      d h =
    absurd (omega (arith, h.month_to))

-- The last year on none of whose days an intermediate value is beyond the largest `int`.
abbrev pub last_year : ℕ
last_year = 1465101

julian-fits :
    (y m d : ℕ)
    → IsDate y m d
    → y ≤ last_year
    → (d
          + (153 * (m + 12 * ((14 - m) / 12) - 3) + 2) / 5
          + 365 * (y + 4800 - (14 - m) / 12)
          + (y + 4800 - (14 - m) / 12) / 4
        ≤ int_max)
      × (4 * (julian_number y m d + 32044) + 3 ≤ int_max)
unfolding julian_number
julian-fits y m d h within =
    let short : d ≤ 31 = day-le y m d h.day_to in
    let shift : (14 - m) / 12 ≤ 1 = omega arith in
    let march : m + 12 * ((14 - m) / 12) - 3 ≤ 11 = omega (arith, h.month_from, h.month_to) in
    (omega (arith, short, march), omega (arith, short, march))
  where
    day-le : (y m d : ℕ) → d ≤ days_in_month y m → d ≤ 31
    day-le y m d h = ground arith

pub get_julian_day_number-fits :
    (y m d : ℕ)
    → IsDate y m d
    → y ≤ last_year
    → get_julian_day_number y m d ≡ some (julian_number y m d)
unfolding get_julian_day_number
get_julian_day_number-fits y m d h within =
    let (first, second) = julian-fits y m d h within in rw (le→leb _ int_max first) refl

pub get_year_month_day-fits :
    (y m d : ℕ)
    → IsDate y m d
    → y ≤ last_year
    → get_year_month_day (julian_number y m d) ≡ some (record { year = y; month = m; day = d })
unfolding get_year_month_day
get_year_month_day-fits y m d h within =
    let (first, second) = julian-fits y m d h within in
    rw (le→leb _ int_max second) (ap some (civil_date-julian y m d h))

-- Up to the year 1 465 101, `getJulianDayNumber` of a day of the Gregorian calendar and then
-- `getYearMonthDay` give that day back, and no value in between is beyond the largest `int`.
pub year_month_day-julian :
    (y m d : ℕ)
    → IsDate y m d
    → y ≤ last_year
    → (get_julian_day_number y m d >>= get_year_month_day)
      ≡ some (record { year = y; month = m; day = d })
year_month_day-julian y m d h within =
    rw (get_julian_day_number-fits y m d h within) (get_year_month_day-fits y m d h within)
