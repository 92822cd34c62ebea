-- ===== src/Timestamp.antt =====
-- muduo/base/Timestamp.h and Timestamp.cpp. A time is its microseconds since the epoch.
pub mod Text
pub mod Tests
use learn_muduo.Prelude.{
  ℕ, zero, suc, ◌+◌, ◌-◌, ◌*◌, ◌/◌, ◌%◌, Bool, List, [], ◌∷◌, ◌++◌, codes, ltb, ◌==◌, decimal,
  snprintf, zero_padded, length, replicate,
}

pub record Timestamp : Type 0 where
  pub micro_seconds_since_epoch : ℕ

abbrev pub micro_seconds_per_second : ℕ
micro_seconds_per_second = 1000 * 1000

unfoldable pub invalid : Timestamp
invalid = record { micro_seconds_since_epoch = 0 }

unfoldable pub is_valid : Timestamp → Bool
is_valid t = ltb 0 t.micro_seconds_since_epoch

unfoldable pub seconds_since_epoch : Timestamp → ℕ
seconds_since_epoch t = t.micro_seconds_since_epoch / micro_seconds_per_second

unfoldable pub from_unix_time : ℕ → ℕ → Timestamp
from_unix_time t microseconds = record {
  micro_seconds_since_epoch = t * micro_seconds_per_second + microseconds;
}

unfoldable pub lt_timestamp : Timestamp → Timestamp → Bool
lt_timestamp lhs rhs = ltb lhs.micro_seconds_since_epoch rhs.micro_seconds_since_epoch

unfoldable pub eq_timestamp : Timestamp → Timestamp → Bool
eq_timestamp lhs rhs = lhs.micro_seconds_since_epoch == rhs.micro_seconds_since_epoch

unfoldable pub to_string : Timestamp → List ℕ
to_string t =
    let seconds = t.micro_seconds_since_epoch / micro_seconds_per_second in
    let microseconds = t.micro_seconds_since_epoch % micro_seconds_per_second in
    snprintf 31 (decimal seconds ++ (codes "." ++ zero_padded 6 microseconds))
