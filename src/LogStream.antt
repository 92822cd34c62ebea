-- ===== src/LogStream.antt =====
-- muduo/base/LogStream.h and LogStream.cpp: the fixed buffer, the conversion of integers, and the
-- inserters. What is behind the end of the written part of the buffer is not kept.
pub mod Tests
pub mod Convert
pub mod Bounds
use learn_muduo.Prelude.{
  ℕ, zero, suc, ◌+◌, ◌-◌, ◌*◌, ◌/◌, ◌%◌, ◌^◌, Bool, true, false, List, [], ◌∷◌, ◌++◌, Option, none,
  some, codes, length, get_elem?, ltb, leb, ◌==◌, if◌then◌else◌,
}
use mathlib.Core.List.{reverse}

-- An integer of C++: `negsuc n` is `-n - 1`.
pub data ℤ : Type 0 where
  pos negsuc : ℕ → ℤ

abbrev pub neg : ℕ → ℤ
neg zero = pos 0
neg (suc n) = negsuc n

-- `i / 10` and `i % 10`: the quotient is rounded toward zero, and the rest has the sign of `i`.
abbrev pub quotient : ℤ → ℤ
quotient (pos n) = pos (n / 10)
quotient (negsuc n) = neg (suc n / 10)

abbrev pub remainder : ℤ → ℤ
remainder (pos n) = pos (n % 10)
remainder (negsuc n) = neg (suc n % 10)

abbrev pub is_zero : ℤ → Bool
is_zero (pos zero) = true
is_zero (pos (suc n)) = false
is_zero (negsuc n) = false

abbrev pub digits : List ℕ
digits = codes "9876543210123456789"

-- An element of an array, and 0 outside of it.
abbrev pub or_zero : Option ℕ → ℕ
or_zero none = 0
or_zero (some c) = c

-- `zero[lsd]`, where `zero` is `digits + 9`.
abbrev pub zero_at : ℤ → ℕ
zero_at (pos n) = or_zero (get_elem? digits (9 + n))
zero_at (negsuc n) = or_zero (get_elem? digits (8 - n))

-- The digits as the loop of `convert` writes them, the last one first.
unfoldable pub convert_loop : ℕ → ℤ → List ℕ
convert_loop zero i = []
convert_loop (suc fuel) i =
    let rest = convert_loop fuel (quotient i) in
    zero_at (remainder i) ∷ (if is_zero (quotient i) then [] else rest)

abbrev pub magnitude : ℤ → ℕ
magnitude (pos n) = n
magnitude (negsuc n) = suc n

abbrev pub sign : ℤ → List ℕ
sign (pos n) = []
sign (negsuc n) = b'-' ∷ []

-- `convert`, without the NUL. A round of the loop divides the magnitude by 10.
unfoldable pub convert : ℤ → List ℕ
unfolding convert_loop
convert value = reverse (convert_loop (suc (magnitude value)) value ++ sign value)

abbrev pub digits_hex : List ℕ
digits_hex = codes "0123456789ABCDEF"

unfoldable pub convert_hex_loop : ℕ → ℕ → List ℕ
convert_hex_loop zero i = []
convert_hex_loop (suc fuel) i =
    let rest = convert_hex_loop fuel (i / 16) in
    or_zero (get_elem? digits_hex (i % 16)) ∷ (if i / 16 == 0 then [] else rest)

unfoldable pub convert_hex : ℕ → List ℕ
unfolding convert_hex_loop
convert_hex value = reverse (convert_hex_loop (suc value) value)

-- `FixedBuffer<kSmallBuffer>`: what is written, of 4000 bytes.
pub record LogStream : Type 0 where
  pub text : List ℕ

abbrev pub small_buffer : ℕ
small_buffer = 4000

abbrev pub max_numeric_size : ℕ
max_numeric_size = 32

unfoldable pub empty : LogStream
empty = record { text = [] }

abbrev pub avail : LogStream → ℕ
avail s = small_buffer - length s.text

unfoldable pub append : LogStream → List ℕ → LogStream
append s text = if ltb (length text) (avail s) then record s { text = s.text ++ text } else s

-- What is written directly and then added.
abbrev pub add : LogStream → List ℕ → LogStream
add s text = record s { text = s.text ++ text }

unfoldable pub format_integer : LogStream → ℤ → LogStream
format_integer s v = if leb max_numeric_size (avail s) then add s (convert v) else s

-- What the inserters take; a floating-point number comes as what `%.12g` prints of it.
pub data Item : Type 0 where
  bool_item : Bool → Item
  integer : ℤ → Item
  pointer : ℕ → Item
  double : List ℕ → Item
  char : ℕ → Item
  c_string : Option (List ℕ) → Item
  bytes : List ℕ → Item

abbrev pub text_or_null : Option (List ℕ) → List ℕ
text_or_null none = codes "(null)"
text_or_null (some str) = str

-- The inserters `<<`.
unfoldable pub insert : LogStream → Item → LogStream
insert s (bool_item v) = append s (if v then codes "1" else codes "0")
insert s (integer v) = format_integer s v
insert s (pointer v) =
    if leb max_numeric_size (avail s) then add s (codes "0x" ++ convert_hex v) else s
insert s (double text) = if leb max_numeric_size (avail s) then add s text else s
insert s (char v) = append s (v ∷ [])
insert s (c_string str) = append s (text_or_null str)
insert s (bytes v) = append s v
