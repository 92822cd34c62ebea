-- ===== src/Timestamp/Text.antt =====
-- muduo/base/Timestamp.cpp: what `toString` prints.
use learn_muduo.Prelude.{
  zero_padded, length-zero_padded, ℕ, ◌+◌, ◌*◌, ◌^◌, ◌<◌, ◌≡◌, ◌∙◌, ap₂, List, ◌++◌, codes, decimal,
  length-decimal, snprintf, snprintf-fits, length, length-append, arith,
}
use learn_muduo.Timestamp.{to_string, from_unix_time}

-- The seconds, a dot, and six digits.
abbrev pub shown : ℕ → ℕ → List ℕ
shown seconds microseconds = decimal seconds ++ (codes "." ++ zero_padded 6 microseconds)

-- A time of 63 bits, made of seconds and less than a million microseconds, prints as the seconds, a dot
-- and the microseconds on exactly six digits, uncut.
pub to_string-shown :
    (seconds microseconds : ℕ)
    → microseconds < 1000000
    → seconds * 1000000 + microseconds < 2 ^ 63
    → (to_string (from_unix_time seconds microseconds) ≡ shown seconds microseconds)
      × (length (zero_padded 6 microseconds) ≡ 6)
unfolding to_string from_unix_time
to_string-shown seconds microseconds h small =
    let size : length (shown seconds microseconds)
        ≡ length (decimal seconds) + length (codes "." ++ zero_padded 6 microseconds) =
      length-append (decimal seconds) (codes "." ++ zero_padded 6 microseconds) in
    (
      ap₂ (λ s m. snprintf 31 (shown s m)) (omega (arith, h)) (omega (arith, h))
          ∙ snprintf-fits 31 (shown seconds microseconds) (
              omega (
                arith,
                size,
                length-append (codes ".") (zero_padded 6 microseconds),
                length-zero_padded 5 microseconds (omega (arith, h)),
                length-decimal seconds 12 (omega (arith, small)),
              )),
      length-zero_padded 5 microseconds (omega (arith, h)),
    )
