-- ===== src/Buffer/Search.antt =====
-- muduo/net/Buffer.h: `findCRLF` and `findEOL`.
use mathlib.Core.Option
use learn_muduo.Prelude.{
  ℕ, zero, suc, ◌+◌, ◌≤◌, ◌<◌, ◌≡◌, refl, inl, inr, false, ◌&&◌, List, [], ◌∷◌, ◌++◌, Option, none,
  some, arith, length, ◌==◌, Bool-cases, Lacks,
}
use learn_muduo.Buffer.{Buffer, content, search_crlf, find_crlf, readable_bytes, IsValid}
use learn_muduo.Buffer.Content.{length-content}

-- "\r\n" stands at offset `i` of the text.
abbrev pub CrlfAt : List ℕ → ℕ → Type 0
CrlfAt [] i = ⊥
CrlfAt (x ∷ []) i = ⊥
CrlfAt (x ∷ y ∷ xs) zero = (x ≡ b'\r') × (y ≡ b'\n')
CrlfAt (x ∷ y ∷ xs) (suc i) = CrlfAt (y ∷ xs) i

-- What a search finds: the first position, or that there is none.
abbrev pub FirstCrlf : List ℕ → Option ℕ → Type 0
FirstCrlf xs none = (i : ℕ) → ¬ CrlfAt xs i
FirstCrlf xs (some i) = CrlfAt xs i × ((j : ℕ) → j < i → ¬ CrlfAt xs j)

search_crlf-next :
    (x y : ℕ) (xs : List ℕ) (o : Option ℕ)
    → (x == b'\r' && y == b'\n') ≡ false
    → FirstCrlf (y ∷ xs) o
    → FirstCrlf (x ∷ y ∷ xs) (Option.map suc o)
search_crlf-next x y xs none h f = λ i. not_at i
  where
    not_at : (i : ℕ) → ¬ CrlfAt (x ∷ y ∷ xs) i
    not_at zero p = ground arith
    not_at (suc i) p = f i p
search_crlf-next x y xs (some k) h f = (f.0, λ j lt. not_at j lt)
  where
    not_at : (j : ℕ) → j < suc k → ¬ CrlfAt (x ∷ y ∷ xs) j
    not_at zero lt p = ground arith
    not_at (suc j) lt p = f.1 j (omega arith) p

-- `std::search` returns the first occurrence, and fails only where there is none.
pub search_crlf-FirstCrlf : (xs : List ℕ) → FirstCrlf xs (search_crlf xs)
unfolding search_crlf
search_crlf-FirstCrlf [] = λ i p. p
search_crlf-FirstCrlf (x ∷ []) = λ i p. p
search_crlf-FirstCrlf (x ∷ y ∷ xs) = elim (Bool-cases (x == b'\r' && y == b'\n')) [
  | inl here ↦ rw here (ground (arith, here), λ j lt. absurd (omega arith))
  | inr later ↦
      rw later
        (search_crlf-next x y xs (search_crlf (y ∷ xs)) later (search_crlf-FirstCrlf (y ∷ xs)))
]

pub search_crlf-bound : (xs : List ℕ) (i : ℕ) → search_crlf xs ≡ some i → i + 2 ≤ length xs
unfolding search_crlf
search_crlf-bound [] i e = cc
search_crlf-bound (x ∷ []) i e = cc
search_crlf-bound (x ∷ y ∷ xs) zero e = omega arith
search_crlf-bound (x ∷ y ∷ xs) (suc i) e = ground (arith, search_crlf-bound (y ∷ xs) i)

-- A line with no carriage return is found whole.
pub search_crlf-line :
    (line rest : List ℕ)
    → Lacks b'\r' line
    → search_crlf (line ++ b'\r' ∷ b'\n' ∷ rest) ≡ some (length line)
unfolding search_crlf
search_crlf-line [] rest h = refl
search_crlf-line (x ∷ []) rest h = ground arith
search_crlf-line (x ∷ y ∷ line) rest h = ground (arith, search_crlf-line (y ∷ line) rest h.1)

-- `findCRLF` answers with the first "\r\n" of the content, and with null only where there is none.
pub find_crlf-FirstCrlf : (b : Buffer) → FirstCrlf (content b) (find_crlf b)
unfolding find_crlf
find_crlf-FirstCrlf b = search_crlf-FirstCrlf (content b)

pub find_crlf-bound :
    (b : Buffer) (i : ℕ) → IsValid b → find_crlf b ≡ some i → i + 2 ≤ readable_bytes b
unfolding find_crlf
find_crlf-bound b i v e = omega (arith, search_crlf-bound (content b) i e, length-content b v)
