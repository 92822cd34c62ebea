-- ===== src/Prelude/Decimal.antt =====
-- Decimal print of a number, as `printf` makes it, and `snprintf`.
use Prim.Native.Nat.{ℕ, zero, suc, ◌+◌, ◌-◌, ◌*◌, ◌/◌, ◌%◌, ◌^◌, ◌≤◌, ◌<◌}
use mathlib.Core.Path.{◌≡◌}
use mathlib.Core.Logic.{inl, inr}
use mathlib.Core.List.{List, [], ◌∷◌, ◌++◌, foldl, foldl-append}
use native.Mathlib.Omega.{arith}
use native.Mathlib.Nat.{pow-suc}
use learn_muduo.Prelude.Tests.{ltb, lt→ltb, if◌then◌else◌, Bool-cases}
use learn_muduo.Prelude.Lists.{length, replicate, length-replicate, take, take-all, length-append}

-- The digits of `n`, most significant first; `n < 2 ^ fuel` is enough fuel.
unfoldable pub decimal_digits : ℕ → ℕ → List ℕ
decimal_digits zero n = []
decimal_digits (suc fuel) n =
    let more = decimal_digits fuel (n / 10) ++ (b'0' + n % 10) ∷ [] in
    if ltb n 10 then (b'0' + n) ∷ [] else more

-- `%d` and `%zd` of a number that is not negative.
unfoldable pub decimal : ℕ → List ℕ
unfolding decimal_digits
decimal n = decimal_digits (suc n) n

-- The number that digits spell.
abbrev pub decimal_value : List ℕ → ℕ
decimal_value = foldl (λ acc c. acc * 10 + (c - b'0')) 0

decimal_value-snoc :
    (xs : List ℕ) (c : ℕ) → decimal_value (xs ++ c ∷ []) ≡ decimal_value xs * 10 + (c - b'0')
decimal_value-snoc xs c = foldl-append _ 0 xs (c ∷ [])

decimal_digits-value : (fuel n : ℕ) → n < fuel → decimal_value (decimal_digits fuel n) ≡ n
unfolding decimal_digits
decimal_digits-value zero n h = absurd (omega arith)
decimal_digits-value (suc fuel) n h = elim (Bool-cases (ltb n 10)) [
  | inl small ↦ rw small (omega arith)
  | inr large ↦ rw large (
      let above : 10 ≤ n = ground arith in
      omega (
        arith,
        decimal_value-snoc (decimal_digits fuel (n / 10)) (b'0' + n % 10),
        decimal_digits-value fuel (n / 10) (omega arith),
      ))
]

pub decimal_value-decimal : (n : ℕ) → decimal_value (decimal n) ≡ n
unfolding decimal
decimal_value-decimal n = decimal_digits-value (suc n) n (omega arith)

length-decimal_digits : (fuel n k : ℕ) → n < 10 ^ suc k → length (decimal_digits fuel n) ≤ suc k
unfolding decimal_digits
length-decimal_digits zero n k h = omega arith
length-decimal_digits (suc fuel) n zero h = rw (lt→ltb n 10 h) (omega arith)
length-decimal_digits (suc fuel) n (suc k) h = elim (Bool-cases (ltb n 10)) [
  | inl small ↦ rw small (omega arith)
  | inr large ↦ rw large (
      omega (
        arith,
        length-append (decimal_digits fuel (n / 10)) ((b'0' + n % 10) ∷ []),
        length-decimal_digits fuel (n / 10) k (omega (arith, pow-suc 10 (suc k))),
      ))
]

pub length-decimal : (n k : ℕ) → n < 10 ^ suc k → length (decimal n) ≤ suc k
unfolding decimal
length-decimal n k h = length-decimal_digits (suc n) n k h

-- `snprintf(buf, size, …)`: what the buffer holds up to its NUL.
unfoldable pub snprintf : ℕ → List ℕ → List ℕ
snprintf size text = take (size - 1) text

pub snprintf-fits : (size : ℕ) (text : List ℕ) → length text < size → snprintf size text ≡ text
unfolding snprintf
snprintf-fits size text h = take-all (size - 1) text (omega arith)

-- `%0*d`: zeros in front, up to a width.
unfoldable pub zero_padded : ℕ → ℕ → List ℕ
zero_padded width n = replicate (width - length (decimal n)) b'0' ++ decimal n

pub length-zero_padded : (k n : ℕ) → n < 10 ^ suc k → length (zero_padded (suc k) n) ≡ suc k
unfolding zero_padded
length-zero_padded k n h = omega (
  arith,
  length-append (replicate (suc k - length (decimal n)) b'0') (decimal n),
  length-replicate {A = ℕ} (suc k - length (decimal n)) b'0',
  length-decimal n k h,
)
