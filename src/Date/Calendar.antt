-- ===== src/Date/Calendar.antt =====
-- muduo/base/Date.cpp against the Gregorian calendar.
use learn_muduo.Prelude.{
  ℕ, zero, suc, inl, inr, Bool-cases, ◌+◌, ◌%◌, ◌≤◌, ◌<◌, ◌≡◌, Bool, ◌&&◌, ◌||◌, not, arith, ltb,
  ◌==◌, ==_iff, if◌then◌else◌,
}
use learn_muduo.Date.{YearMonthDay, julian_number}

abbrev pub is_leap : ℕ → Bool
is_leap y = (y % 4 == 0 && not (y % 100 == 0)) || y % 400 == 0

abbrev pub days_in_month : ℕ → ℕ → ℕ
days_in_month y m =
    if m == 2
    then if is_leap y then 29 else 28
    else if m == 4 || m == 6 || m == 9 || m == 11
    then 30
    else 31

pub record IsDate (y m d : ℕ) : Type 0 where
  pub month_from : 1 ≤ m
  pub month_to : m ≤ 12
  pub day_from : 1 ≤ d
  pub day_to : d ≤ days_in_month y m

-- The day after.
abbrev pub next_day : ℕ → ℕ → ℕ → YearMonthDay
next_day y m d =
    if ltb d (days_in_month y m)
    then record { year = y; month = m; day = d + 1 }
    else if m == 12
    then record { year = y + 1; month = 1; day = 1 }
    else record { year = y; month = m + 1; day = 1 }

abbrev pub julian_of : YearMonthDay → ℕ
julian_of x = julian_number x.year x.month x.day

julian-same_month :
    (y m d : ℕ) → 1 ≤ m → m ≤ 12 → julian_number y m (d + 1) ≡ julian_number y m d + 1
unfolding julian_number
julian-same_month y m d h k = omega arith

february_ends : (y : ℕ) → julian_number y 3 1 ≡ julian_number y 2 (if is_leap y then 29 else 28) + 1
unfolding julian_number
february_ends y = ground arith

julian-next_month :
    (y m : ℕ)
    → 1 ≤ m
    → m < 12
    → julian_number y (m + 1) 1 ≡ julian_number y m (days_in_month y m) + 1
unfolding julian_number
julian-next_month y zero h k = absurd (omega arith)
julian-next_month y (suc zero) h k = omega arith
julian-next_month y (suc (suc zero)) h k = february_ends y
julian-next_month y (suc (suc (suc zero))) h k = omega arith
julian-next_month y (suc (suc (suc (suc zero)))) h k = omega arith
julian-next_month y (suc (suc (suc (suc (suc zero))))) h k = omega arith
julian-next_month y (suc (suc (suc (suc (suc (suc zero)))))) h k = omega arith
julian-next_month y (suc (suc (suc (suc (suc (suc (suc zero))))))) h k = omega arith
julian-next_month y (suc (suc (suc (suc (suc (suc (suc (suc zero)))))))) h k = omega arith
julian-next_month y (suc (suc (suc (suc (suc (suc (suc (suc (suc zero))))))))) h k = omega arith
julian-next_month y (suc (suc (suc (suc (suc (suc (suc (suc (suc (suc zero)))))))))) h k =
    omega arith
julian-next_month y (suc (suc (suc (suc (suc (suc (suc (suc (suc (suc (suc zero))))))))))) h k =
    omega arith
julian-next_month y (suc (suc (suc (suc (suc (suc (suc (suc (suc (suc (suc (suc n)))))))))))) h k =
    absurd (omega arith)

julian-next_year : (y : ℕ) → julian_number (y + 1) 1 1 ≡ julian_number y 12 31 + 1
unfolding julian_number
julian-next_year y = omega arith

-- Every day of the calendar has the Julian day number after that of the day before.
pub julian-next_day :
    (y m d : ℕ) → IsDate y m d → julian_of (next_day y m d) ≡ julian_number y m d + 1
julian-next_day y m d h = elim (Bool-cases (ltb d (days_in_month y m))) [
  | inl within ↦ rw within (julian-same_month y m d h.month_from h.month_to)
  | inr last ↦
      let end : d ≡ days_in_month y m = ground (arith, h.day_to, last) in
      elim (Bool-cases (m == 12)) [
        | inl december ↦ rw (last, december, end, (==_iff m 12).0 december) (julian-next_year y)
        | inr before ↦
            rw (last, before, end)
              (julian-next_month y m h.month_from (ground (arith, h.month_to, before)))
      ]
]
