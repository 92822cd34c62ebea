-- ===== src/Date/Tests.antt =====
-- muduo/base/Date.cpp: the theorems at the leap day of 2024.
use learn_muduo.Prelude.{◌≡◌, some, ◌>>=◌, arith}
use learn_muduo.Date.{get_julian_day_number, get_year_month_day}
use learn_muduo.Date.Calendar.{IsDate}
use learn_muduo.Date.RoundTrip.{year_month_day-julian}

leap_day-IsDate : IsDate 2024 2 29
leap_day-IsDate = record {
  month_from = omega arith;
  month_to = omega arith;
  day_from = omega arith;
  day_to = omega arith;
}

year_month_day-julian_example :
    (get_julian_day_number 2024 2 29 >>= get_year_month_day)
    ≡ some (record { year = 2024; month = 2; day = 29 })
year_month_day-julian_example = year_month_day-julian 2024 2 29 leap_day-IsDate (omega arith)
