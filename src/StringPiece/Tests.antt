-- ===== src/StringPiece/Tests.antt =====
-- muduo/base/StringPiece.h: the theorems at pieces of a text.
use learn_muduo.Prelude.{ℕ, ◌≡◌, not, List, codes, arith, eq_bytes, lt_bytes, if◌then◌else◌}
use learn_muduo.StringPiece.{
  StringPiece, less, same, greater, equals, differs, less_than, at_most, greater_than, at_least,
  compare, as_string,
}
use learn_muduo.StringPiece.Order.{operators-bytes}

abbrev text : List ℕ
text = codes "key: keys"

abbrev key : StringPiece
key = record { ptr = 0; size = 3 }

abbrev keys : StringPiece
keys = record { ptr = 5; size = 4 }

operators-bytes_example :
    (equals text key keys ≡ eq_bytes (as_string text key) (as_string text keys))
    × (differs text key keys ≡ not (eq_bytes (as_string text key) (as_string text keys)))
    × (less_than text key keys ≡ lt_bytes (as_string text key) (as_string text keys))
    × (at_most text key keys ≡ not (lt_bytes (as_string text keys) (as_string text key)))
    × (greater_than text key keys ≡ lt_bytes (as_string text keys) (as_string text key))
    × (at_least text key keys ≡ not (lt_bytes (as_string text key) (as_string text keys)))
    × (compare text key keys ≡ (
        if lt_bytes (as_string text key) (as_string text keys)
        then less
        else if lt_bytes (as_string text keys) (as_string text key)
        then greater
        else same))
operators-bytes_example = operators-bytes text key keys (omega arith) (omega arith)
