-- ===== src/LogStream/Convert.antt =====
-- muduo/base/LogStream.cpp: what `convert` and `convertHex` write.
use mathlib.Core.List.{reverse, reverse-cons, reverse-append, foldl, foldl-append}
use native.Mathlib.Nat.{pow-suc}
use learn_muduo.Prelude.{
  ℕ, zero, suc, ◌+◌, ◌-◌, ◌*◌, ◌/◌, ◌%◌, ◌^◌, ◌≤◌, ◌<◌, ◌≡◌, ◌∙◌, refl, sym, ap, ap₂, append-nil,
  inl, inr, List, [], ◌∷◌, ◌++◌, arith, length, length-append, length-decimal, get_elem?, ltb, ◌==◌,
  ==_iff, ne→==, eq→==, if◌then◌else◌, Bool-cases, decimal, decimal_digits,
}
use learn_muduo.LogStream.{
  ℤ, pos, negsuc, neg, quotient, remainder, is_zero, zero_at, or_zero, convert_loop, magnitude,
  sign, convert, convert_hex, convert_hex_loop, digits_hex,
}

-- The digits 0 to 9, on both sides of `zero`.
zero_at-pos : (d : ℕ) → d < 10 → zero_at (pos d) ≡ b'0' + d
zero_at-pos zero h = refl
zero_at-pos (suc zero) h = refl
zero_at-pos (suc (suc zero)) h = refl
zero_at-pos (suc (suc (suc zero))) h = refl
zero_at-pos (suc (suc (suc (suc zero)))) h = refl
zero_at-pos (suc (suc (suc (suc (suc zero))))) h = refl
zero_at-pos (suc (suc (suc (suc (suc (suc zero)))))) h = refl
zero_at-pos (suc (suc (suc (suc (suc (suc (suc zero))))))) h = refl
zero_at-pos (suc (suc (suc (suc (suc (suc (suc (suc zero)))))))) h = refl
zero_at-pos (suc (suc (suc (suc (suc (suc (suc (suc (suc zero))))))))) h = refl
zero_at-pos (suc (suc (suc (suc (suc (suc (suc (suc (suc (suc d)))))))))) h =
    absurd (omega (arith, h))

zero_at-neg : (d : ℕ) → d < 10 → zero_at (neg d) ≡ b'0' + d
zero_at-neg zero h = refl
zero_at-neg (suc zero) h = refl
zero_at-neg (suc (suc zero)) h = refl
zero_at-neg (suc (suc (suc zero))) h = refl
zero_at-neg (suc (suc (suc (suc zero)))) h = refl
zero_at-neg (suc (suc (suc (suc (suc zero))))) h = refl
zero_at-neg (suc (suc (suc (suc (suc (suc zero)))))) h = refl
zero_at-neg (suc (suc (suc (suc (suc (suc (suc zero))))))) h = refl
zero_at-neg (suc (suc (suc (suc (suc (suc (suc (suc zero)))))))) h = refl
zero_at-neg (suc (suc (suc (suc (suc (suc (suc (suc (suc zero))))))))) h = refl
zero_at-neg (suc (suc (suc (suc (suc (suc (suc (suc (suc (suc d)))))))))) h =
    absurd (omega (arith, h))

zero_at-remainder : (i : ℤ) → zero_at (remainder i) ≡ b'0' + magnitude i % 10
zero_at-remainder (pos n) = zero_at-pos (n % 10) (omega arith)
zero_at-remainder (negsuc n) = zero_at-neg (suc n % 10) (omega arith)

magnitude-neg : (n : ℕ) → magnitude (neg n) ≡ n
magnitude-neg zero = refl
magnitude-neg (suc n) = refl

magnitude-quotient : (i : ℤ) → magnitude (quotient i) ≡ magnitude i / 10
magnitude-quotient (pos n) = refl
magnitude-quotient (negsuc n) = magnitude-neg (suc n / 10)

is_zero-magnitude : (i : ℤ) → is_zero i ≡ magnitude i == 0
is_zero-magnitude (pos zero) = refl
is_zero-magnitude (pos (suc n)) = sym (ne→== (suc n) 0 (λ e. omega (arith, e)))
is_zero-magnitude (negsuc n) = sym (ne→== (suc n) 0 (λ e. omega (arith, e)))

last : (i : ℤ) → is_zero (quotient i) ≡ magnitude i / 10 == 0
last i = is_zero-magnitude (quotient i) ∙ ap (λ m. m == 0) (magnitude-quotient i)

convert_loop-reverse :
    (fuel : ℕ) (i : ℤ) → reverse (convert_loop fuel i) ≡ decimal_digits fuel (magnitude i)
unfolding convert_loop decimal_digits
convert_loop-reverse zero i = refl
convert_loop-reverse (suc fuel) i = elim (Bool-cases (ltb (magnitude i) 10)) [
  | inl small ↦
      rw (last i ∙ eq→== (magnitude i / 10) 0 (ground arith), small)
        (ap (λ d. d ∷ []) (zero_at-remainder i ∙ ground arith))
  | inr large ↦
      rw (last i ∙ ne→== (magnitude i / 10) 0 (λ e. ground arith), large)
        (reverse-cons (zero_at (remainder i)) (convert_loop fuel (quotient i))
          ∙ ap₂ (λ xs d. xs ++ d ∷ [])
              (convert_loop-reverse fuel (quotient i)
                ∙ ap (decimal_digits fuel) (magnitude-quotient i))
              (zero_at-remainder i))
]

-- `convert` writes a minus for a negative number, then the decimal digits of the magnitude, without
-- leading zeros, and this for the least number of the type as for the others.
pub convert-decimal : (value : ℤ) → convert value ≡ sign value ++ decimal (magnitude value)
unfolding convert decimal
convert-decimal (pos n) =
    ap reverse (append-nil (convert_loop (suc n) (pos n))) ∙ convert_loop-reverse (suc n) (pos n)
convert-decimal (negsuc n) =
    reverse-append (convert_loop (suc (suc n)) (negsuc n)) (b'-' ∷ [])
    ∙ ap (λ xs. b'-' ∷ xs) (convert_loop-reverse (suc (suc n)) (negsuc n))

abbrev pub hex_digit : ℕ → ℕ
hex_digit c = if ltb c b'A' then c - b'0' else c - b'A' + 10

-- The number that hexadecimal digits spell.
abbrev pub hex_value : List ℕ → ℕ
hex_value = foldl (λ acc c. acc * 16 + hex_digit c) 0

hex_digit-lookup : (d : ℕ) → d < 16 → hex_digit (or_zero (get_elem? digits_hex d)) ≡ d
hex_digit-lookup zero h = refl
hex_digit-lookup (suc zero) h = refl
hex_digit-lookup (suc (suc zero)) h = refl
hex_digit-lookup (suc (suc (suc zero))) h = refl
hex_digit-lookup (suc (suc (suc (suc zero)))) h = refl
hex_digit-lookup (suc (suc (suc (suc (suc zero))))) h = refl
hex_digit-lookup (suc (suc (suc (suc (suc (suc zero)))))) h = refl
hex_digit-lookup (suc (suc (suc (suc (suc (suc (suc zero))))))) h = refl
hex_digit-lookup (suc (suc (suc (suc (suc (suc (suc (suc zero)))))))) h = refl
hex_digit-lookup (suc (suc (suc (suc (suc (suc (suc (suc (suc zero))))))))) h = refl
hex_digit-lookup (suc (suc (suc (suc (suc (suc (suc (suc (suc (suc zero)))))))))) h = refl
hex_digit-lookup (suc (suc (suc (suc (suc (suc (suc (suc (suc (suc (suc zero))))))))))) h = refl
hex_digit-lookup (suc (suc (suc (suc (suc (suc (suc (suc (suc (suc (suc (suc zero)))))))))))) h =
    refl
hex_digit-lookup (suc (suc (suc (suc (suc (suc (suc (suc (suc (suc (suc (suc (suc zero)))))))))))))
      h =
    refl
hex_digit-lookup
      (suc (suc (suc (suc (suc (suc (suc (suc (suc (suc (suc (suc (suc (suc zero)))))))))))))) h =
    refl
hex_digit-lookup
      (suc (suc (suc (suc (suc (suc (suc (suc (suc (suc (suc (suc (suc (suc (suc zero)))))))))))))))
      h =
    refl
hex_digit-lookup
      (suc
        (suc (suc (suc (suc (suc (suc (suc (suc (suc (suc (suc (suc (suc (suc (suc d))))))))))))))))
      h =
    absurd (omega (arith, h))

hex_value-snoc : (xs : List ℕ) (c : ℕ) → hex_value (xs ++ c ∷ []) ≡ hex_value xs * 16 + hex_digit c
hex_value-snoc xs c = foldl-append _ 0 xs (c ∷ [])

convert_hex_loop-value : (fuel i : ℕ) → i < fuel → hex_value (reverse (convert_hex_loop fuel i)) ≡ i
unfolding convert_hex_loop
convert_hex_loop-value zero i h = absurd (omega arith)
convert_hex_loop-value (suc fuel) i h = elim (Bool-cases (i / 16 == 0)) [
  | inl done ↦ rw done (
      let low : i / 16 ≡ 0 = (==_iff (i / 16) 0).0 done in
      omega (arith, hex_digit-lookup (i % 16) (omega arith), low))
  | inr more ↦ rw more (
      ap hex_value
        (reverse-cons (or_zero (get_elem? digits_hex (i % 16))) (convert_hex_loop fuel (i / 16)))
      ∙ hex_value-snoc (reverse (convert_hex_loop fuel (i / 16)))
          (or_zero (get_elem? digits_hex (i % 16)))
      ∙ omega (
        arith,
        convert_hex_loop-value fuel (i / 16) (ground arith),
        hex_digit-lookup (i % 16) (omega arith),
      ))
]

-- The digits that `convertHex` writes spell the number.
pub convert_hex-value : (value : ℕ) → hex_value (convert_hex value) ≡ value
unfolding convert_hex
convert_hex-value value = convert_hex_loop-value (suc value) value (omega arith)

length-convert_hex_loop : (fuel i k : ℕ) → i < 16 ^ suc k → length (convert_hex_loop fuel i) ≤ suc k
unfolding convert_hex_loop
length-convert_hex_loop zero i k h = omega arith
length-convert_hex_loop (suc fuel) i zero h = rw (eq→== (i / 16) 0 (omega (arith, h))) (omega arith)
length-convert_hex_loop (suc fuel) i (suc k) h = elim (Bool-cases (i / 16 == 0)) [
  | inl done ↦ rw done (omega arith)
  | inr more ↦
      rw more
        (omega (arith, length-convert_hex_loop fuel (i / 16) k (omega (arith, pow-suc 16 (suc k)))))
]

length-reverse : (xs : List ℕ) → length (reverse xs) ≡ length xs
length-reverse [] = refl
length-reverse (x ∷ xs) =
    ap length (reverse-cons x xs)
    ∙ omega (arith, length-append (reverse xs) (x ∷ []), length-reverse xs)

-- A pointer of 64 bits gives at most 16 digits.
pub length-convert_hex : (value : ℕ) → value < 2 ^ 64 → length (convert_hex value) ≤ 16
unfolding convert_hex
length-convert_hex value h = omega (
  arith,
  length-reverse (convert_hex_loop (suc value) value),
  length-convert_hex_loop (suc value) value 15 (omega (arith, h)),
)

-- An integer whose magnitude fits in 64 bits gives at most 20 digits and a sign.
pub length-convert : (value : ℤ) → magnitude value < 2 ^ 64 → length (convert value) ≤ 21
length-convert (pos n) h =
    omega (arith, ap length (convert-decimal (pos n)), length-decimal n 19 (omega (arith, h)))
length-convert (negsuc n) h =
    omega
      (arith, ap length (convert-decimal (negsuc n)), length-decimal (suc n) 19 (omega (arith, h)))
