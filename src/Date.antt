-- ===== src/Date.antt =====
-- muduo/base/Date.h and Date.cpp: Julian day numbers. For years from 0 on no intermediate value is
-- negative; where one would be beyond the largest `int`, the result is undefined, and the function is
-- `none`. `julian_number` and `civil_date` are the formulas.
pub mod Tests
pub mod Calendar
pub mod RoundTrip
pub mod Iso
use learn_muduo.Prelude.{
  ℕ, ◌+◌, ◌-◌, ◌*◌, ◌/◌, ◌%◌, ◌≤◌, ◌<◌, ◌^◌, Bool, List, [], ◌∷◌, ◌++◌, Option, none, some, ◌>>=◌,
  ◌>>◌, assert, leb, ltb, ◌==◌, length, replicate, decimal, snprintf, zero_padded,
}

pub record YearMonthDay : Type 0 where
  pub year : ℕ
  pub month : ℕ
  pub day : ℕ

abbrev pub int_max : ℕ
int_max = 2 ^ 31 - 1

unfoldable pub julian_number : ℕ → ℕ → ℕ → ℕ
julian_number year month day =
    let a = (14 - month) / 12 in
    let y = year + 4800 - a in
    let m = month + 12 * a - 3 in
    day + (153 * m + 2) / 5 + 365 * y + y / 4 - y / 100 + y / 400 - 32045

-- The year is computed with its subtraction last.
unfoldable pub civil_date : ℕ → YearMonthDay
civil_date julian_day_number =
    let a = julian_day_number + 32044 in
    let b = (4 * a + 3) / 146097 in
    let c = a - b * 146097 / 4 in
    let d = (4 * c + 3) / 1461 in
    let e = c - 1461 * d / 4 in
    let m = (5 * e + 2) / 153 in
    record {
      day = e - (153 * m + 2) / 5 + 1;
      month = m + 3 - 12 * (m / 10);
      year = b * 100 + d + m / 10 - 4800;
    }

-- The largest intermediate value is the sum before the first subtraction.
unfoldable pub get_julian_day_number : ℕ → ℕ → ℕ → Option ℕ
unfolding julian_number
get_julian_day_number year month day = do
  let a = (14 - month) / 12
  let y = year + 4800 - a
  let m = month + 12 * a - 3
  assert (leb (day + (153 * m + 2) / 5 + 365 * y + y / 4) int_max)
  some (julian_number year month day)

-- The largest intermediate value is `4 * a + 3`.
unfoldable pub get_year_month_day : ℕ → Option YearMonthDay
unfolding civil_date
get_year_month_day julian_day_number = do
  let a = julian_day_number + 32044
  assert (leb (4 * a + 3) int_max)
  some (civil_date julian_day_number)

pub record Date : Type 0 where
  pub julian_day_number : ℕ

abbrev pub days_per_week : ℕ
days_per_week = 7

unfoldable pub of_year_month_day : ℕ → ℕ → ℕ → Option Date
of_year_month_day y m d = do
  number ← get_julian_day_number y m d
  some (record { julian_day_number = number })

-- The three fields of `struct tm` that the constructor reads.
unfoldable pub of_tm : ℕ → ℕ → ℕ → Option Date
of_tm tm_year tm_mon tm_mday = do
  number ← get_julian_day_number (tm_year + 1900) (tm_mon + 1) tm_mday
  some (record { julian_day_number = number })

unfoldable pub year_month_day : Date → Option YearMonthDay
year_month_day x = get_year_month_day x.julian_day_number

unfoldable pub is_valid : Date → Bool
is_valid x = ltb 0 x.julian_day_number

unfoldable pub week_day : Date → ℕ
week_day x = (x.julian_day_number + 1) % days_per_week

unfoldable pub lt_date : Date → Date → Bool
lt_date x y = ltb x.julian_day_number y.julian_day_number

unfoldable pub eq_date : Date → Date → Bool
eq_date x y = x.julian_day_number == y.julian_day_number

unfoldable pub to_iso_string : Date → Option (List ℕ)
to_iso_string x = do
  ymd ← year_month_day x
  some (
      snprintf 32 (
        zero_padded 4 ymd.year
        ++ (b'-' ∷ zero_padded 2 ymd.month ++ (b'-' ∷ zero_padded 2 ymd.day))))
