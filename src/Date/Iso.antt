-- ===== src/Date/Iso.antt =====
-- muduo/base/Date.cpp: `toIsoString`.
use learn_muduo.Prelude.{
  zero_padded, length-zero_padded, ℕ, ◌^◌, ◌≤◌, ◌<◌, ◌≡◌, ap, List, ◌∷◌, ◌++◌, arith, length,
  snprintf-fits, length-append, some, ◌>>=◌,
}
use learn_muduo.Date.{of_year_month_day, year_month_day, to_iso_string}
use learn_muduo.Date.Calendar.{IsDate, days_in_month}
use learn_muduo.Date.RoundTrip.{last_year, get_julian_day_number-fits, get_year_month_day-fits}

abbrev pub iso_text : ℕ → ℕ → ℕ → List ℕ
iso_text y m d = zero_padded 4 y ++ (b'-' ∷ zero_padded 2 m ++ (b'-' ∷ zero_padded 2 d))

length-iso_text : (y m d : ℕ) → y < 10 ^ 4 → m < 10 ^ 2 → d < 10 ^ 2 → length (iso_text y m d) ≡ 10
length-iso_text y m d hy hm hd = omega (
  arith,
  length-append (zero_padded 4 y) (b'-' ∷ zero_padded 2 m ++ (b'-' ∷ zero_padded 2 d)),
  length-append (zero_padded 2 m) (b'-' ∷ zero_padded 2 d),
  length-zero_padded 3 y hy,
  length-zero_padded 1 m hm,
  length-zero_padded 1 d hd,
)

day-lt : (y m d : ℕ) → d ≤ days_in_month y m → d < 10 ^ 2
day-lt y m d h = ground arith

-- For a day of the calendar in the years 0 to 9999, `toIsoString` prints the year, month and day that
-- the date was made of, zero-padded, in exactly ten characters.
to_iso_string-text :
    (y m d : ℕ)
    → IsDate y m d
    → y < 10 ^ 4
    → ((of_year_month_day y m d >>= to_iso_string) ≡ some (iso_text y m d))
      × (length (iso_text y m d) ≡ 10)
to_iso_string-text y m d h hy =
    let size = length-iso_text y m d hy (omega (arith, h.month_to)) (day-lt y m d h.day_to) in
    let within : y ≤ last_year = omega arith in
    (
      unfold of_year_month_day to_iso_string year_month_day in
          rw (get_julian_day_number-fits y m d h within) (
            rw (get_year_month_day-fits y m d h within)
              (ap some (snprintf-fits 32 (iso_text y m d) (omega (arith, size))))),
      size,
    )
