-- ===== src/LogStream/Bounds.antt =====
-- muduo/base/LogStream.cpp: the inserters stay inside of the buffer.
use learn_muduo.Prelude.{
  ℕ, ◌+◌, ◌^◌, ◌≤◌, ◌<◌, ◌≡◌, ◌⊎◌, refl, subst, inl, inr, true, false, List, [], ◌∷◌, ◌++◌, none,
  some, arith, length, length-append, ltb, codes, leb, if◌then◌else◌, Bool-cases, decimal,
}
use learn_muduo.LogStream.{
  LogStream, magnitude, sign, convert, convert_hex, small_buffer, avail, append, add,
  format_integer, Item, bool_item, integer, pointer, double, char, c_string, bytes, insert,
  max_numeric_size,
}
use learn_muduo.LogStream.Convert.{convert-decimal, length-convert, length-convert_hex}

-- There is room for a NUL behind what is written.
abbrev pub IsBounded : LogStream → Type 0
IsBounded s = length s.text < small_buffer

-- The values of the types that the inserters take: integers of up to 64 bits, and what `snprintf` makes
-- of a floating-point number in a buffer of 32 bytes.
abbrev pub IsItem : Item → Type 0
IsItem (integer v) = magnitude v < 2 ^ 64
IsItem (pointer v) = v < 2 ^ 64
IsItem (double t) = length t < max_numeric_size
IsItem item = Unit {0}

-- What an item looks like.
abbrev pub shown : Item → List ℕ
shown (bool_item true) = codes "1"
shown (bool_item false) = codes "0"
shown (integer v) = sign v ++ decimal (magnitude v)
shown (pointer v) = codes "0x" ++ convert_hex v
shown (double t) = t
shown (char v) = v ∷ []
shown (c_string none) = codes "(null)"
shown (c_string (some t)) = t
shown (bytes v) = v

-- All of a text was added, or, where it does not fit, nothing.
pub record Adds (text : List ℕ) (s s' : LogStream) : Type 0 where
  bounded : IsBounded s'
  all_or_none :
      (s'.text ≡ s.text ++ text)
      ⊎ ((s'.text ≡ s.text) × (small_buffer ≤ length s.text + (length text + max_numeric_size)))

append-Adds : (s : LogStream) (text : List ℕ) → IsBounded s → Adds text s (append s text)
append-Adds s text b = elim (Bool-cases (ltb (length text) (avail s))) [
  | inl fits ↦
      unfold append in
      rw fits
        (record { bounded = ground (arith, length-append s.text text, b); all_or_none = inl refl })
  | inr full ↦
      unfold append in rw full (record { bounded = b; all_or_none = inr (refl, ground arith) })
]

direct-Adds :
    (s : LogStream) (text : List ℕ)
    → IsBounded s
    → length text < max_numeric_size
    → Adds text s (if leb max_numeric_size (avail s) then add s text else s)
direct-Adds s text b h = elim (Bool-cases (leb max_numeric_size (avail s))) [
  | inl fits ↦
      rw fits (record {
        bounded = ground (arith, length-append s.text text, b, h);
        all_or_none = inl refl;
      })
  | inr full ↦ rw full (record { bounded = b; all_or_none = inr (refl, ground arith) })
]

-- An inserter with an item of the listed types adds all of its text to a stream with room for a NUL, or
-- nothing where the stream is nearly full, and leaves room for a NUL.
pub insert-Adds :
    (s : LogStream) (item : Item) → IsBounded s → IsItem item → Adds (shown item) s (insert s item)
unfolding insert format_integer
insert-Adds s (bool_item true) b h = append-Adds s (codes "1") b
insert-Adds s (bool_item false) b h = append-Adds s (codes "0") b
insert-Adds s (integer v) b h =
    subst (λ t. Adds t s (if leb max_numeric_size (avail s) then add s (convert v) else s))
      (convert-decimal v) (direct-Adds s (convert v) b (omega (arith, length-convert v h)))
insert-Adds s (pointer v) b h =
    direct-Adds s (codes "0x" ++ convert_hex v) b
      (omega (arith, length-append (codes "0x") (convert_hex v), length-convert_hex v h))
insert-Adds s (double t) b h = direct-Adds s t b h
insert-Adds s (char v) b h = append-Adds s (v ∷ []) b
insert-Adds s (c_string none) b h = append-Adds s (codes "(null)") b
insert-Adds s (c_string (some t)) b h = append-Adds s t b
insert-Adds s (bytes v) b h = append-Adds s v b
