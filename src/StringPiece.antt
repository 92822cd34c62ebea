-- ===== src/StringPiece.antt =====
-- muduo/base/StringPiece.h. A pointer is an index into a memory of bytes, which are unsigned as memcmp
-- reads them. A length that would be negative is no piece any more: the source does not check it.
pub mod Order
pub mod Pieces
pub mod Tests
use learn_muduo.Prelude.{
  ℕ, zero, suc, ◌+◌, ◌-◌, Bool, true, false, ◌&&◌, ◌||◌, not, List, [], ◌∷◌, Option, none, some,
  length, take, drop, get_elem?, ltb, leb, ◌==◌, if◌then◌else◌, ◌>>=◌, ◌>>◌, find_byte,
}

-- NULL is 0.
pub record StringPiece : Type 0 where
  pub ptr : ℕ
  pub size : ℕ

unfoldable pub init : StringPiece
init = record { ptr = 0; size = 0 }

-- `strlen`: the bytes before the next NUL.
abbrev pub strlen : List ℕ → ℕ → ℕ
strlen memory ptr = find_byte 0 (drop ptr memory)

unfoldable pub of_c_string : List ℕ → ℕ → StringPiece
of_c_string memory str = record { ptr = str; size = strlen memory str }

-- Of a `string` with its data and size, and of a pointer and a length.
unfoldable pub of_range : ℕ → ℕ → StringPiece
of_range offset len = record { ptr = offset; size = len }

unfoldable pub is_empty : StringPiece → Bool
is_empty s = s.size == 0

unfoldable pub end : StringPiece → ℕ
end s = s.ptr + s.size

unfoldable pub clear : StringPiece → StringPiece
clear s = record { ptr = 0; size = 0 }

unfoldable pub set_range : StringPiece → ℕ → ℕ → StringPiece
set_range s buffer len = record { ptr = buffer; size = len }

unfoldable pub set_c_string : List ℕ → StringPiece → ℕ → StringPiece
set_c_string memory s str = record { ptr = str; size = strlen memory str }

unfoldable pub byte_at : List ℕ → StringPiece → ℕ → Option ℕ
byte_at memory s i = get_elem? memory (s.ptr + i)

unfoldable pub remove_prefix : StringPiece → ℕ → Option StringPiece
remove_prefix s n =
    if leb n s.size then some (record { ptr = s.ptr + n; size = s.size - n }) else none

unfoldable pub remove_suffix : StringPiece → ℕ → Option StringPiece
remove_suffix s n = if leb n s.size then some (record s { size = s.size - n }) else none

-- The sign of a comparison.
pub data Sign : Type 0 where
  less same greater : Sign

abbrev pub is_less : Sign → Bool
is_less less = true
is_less r = false

abbrev pub is_same : Sign → Bool
is_same same = true
is_same r = false

abbrev pub is_greater : Sign → Bool
is_greater greater = true
is_greater r = false

-- `memcmp` of the first bytes.
unfoldable pub memcmp : ℕ → List ℕ → List ℕ → Sign
memcmp zero xs ys = same
memcmp (suc n) [] ys = same
memcmp (suc n) (x ∷ xs) [] = same
memcmp (suc n) (x ∷ xs) (y ∷ ys) =
    let rest = memcmp n xs ys in if ltb x y then less else if ltb y x then greater else rest

-- The bytes of a memory from a piece's pointer on.
abbrev pub from : List ℕ → StringPiece → List ℕ
from memory s = drop s.ptr memory

abbrev pub shorter : ℕ → ℕ → ℕ
shorter a b = if ltb a b then a else b

module _ (memory : List ℕ) where
  unfoldable pub equals : StringPiece → StringPiece → Bool
  equals s x = s.size == x.size && is_same (memcmp s.size (from memory s) (from memory x))

  unfoldable pub differs : StringPiece → StringPiece → Bool
  unfolding equals
  differs s x = not (equals s x)

  -- `r` of the macro and of `compare`.
  abbrev pub common : StringPiece → StringPiece → Sign
  common s x = memcmp (shorter s.size x.size) (from memory s) (from memory x)

  -- `STRINGPIECE_BINARY_PREDICATE(cmp, auxcmp)`.
  unfoldable pub binary_predicate :
      (ℕ → ℕ → Bool) → (Sign → Bool) → StringPiece → StringPiece → Bool
  binary_predicate cmp auxcmp s x =
      auxcmp (common s x) || (is_same (common s x) && cmp s.size x.size)

  unfoldable pub less_than : StringPiece → StringPiece → Bool
  unfolding binary_predicate
  less_than s x = binary_predicate ltb is_less s x

  unfoldable pub at_most : StringPiece → StringPiece → Bool
  unfolding binary_predicate
  at_most s x = binary_predicate leb is_less s x

  unfoldable pub greater_than : StringPiece → StringPiece → Bool
  unfolding binary_predicate
  greater_than s x = binary_predicate (λ a b. ltb b a) is_greater s x

  unfoldable pub at_least : StringPiece → StringPiece → Bool
  unfolding binary_predicate
  at_least s x = binary_predicate (λ a b. leb b a) is_greater s x

  unfoldable pub compare : StringPiece → StringPiece → Sign
  compare s x =
      if is_same (common s x)
      then (if ltb s.size x.size then less else if ltb x.size s.size then greater else common s x)
      else common s x

  -- `as_string` and `CopyToString`.
  unfoldable pub as_string : StringPiece → List ℕ
  as_string s = take s.size (from memory s)

  unfoldable pub starts_with : StringPiece → StringPiece → Bool
  starts_with s x = leb x.size s.size && is_same (memcmp x.size (from memory s) (from memory x))
