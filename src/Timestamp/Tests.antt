-- ===== src/Timestamp/Tests.antt =====
-- muduo/base/Timestamp.cpp: the theorem at a time with leading zeros in its microseconds.
use learn_muduo.Prelude.{◌≡◌, arith, length, zero_padded}
use learn_muduo.Timestamp.{to_string, from_unix_time}
use learn_muduo.Timestamp.Text.{shown, to_string-shown}

to_string-shown_example :
    (to_string (from_unix_time 1700000000 42) ≡ shown 1700000000 42)
    × (length (zero_padded 6 42) ≡ 6)
to_string-shown_example = to_string-shown 1700000000 42 (omega arith) (omega arith)
