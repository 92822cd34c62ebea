-- ===== src/StringPiece/Pieces.antt =====
-- muduo/base/StringPiece.h: prefixes and suffixes.
use learn_muduo.Prelude.{
  ℕ, zero, suc, ◌+◌, ◌-◌, ◌≤◌, ◌<◌, ◌≡◌, ◌∙◌, refl, sym, ap, inl, inr, false, ◌&&◌, List, [], ◌∷◌,
  none, some, length-drop, take, drop, drop-drop, take-take, leb, eq_bytes, Bool-cases, arith,
  le→leb, leb→le,
}
use learn_muduo.StringPiece.{
  StringPiece, from, remove_prefix, remove_suffix, as_string, starts_with,
}
use learn_muduo.StringPiece.Order.{Inside, prefix-bytes}

drop-take : (n m : ℕ) (xs : List ℕ) → n ≤ m → drop n (take m xs) ≡ take (m - n) (drop n xs)
drop-take zero m xs h = ap (λ k. take k xs) (omega arith)
drop-take (suc n) zero xs h = absurd (omega (arith, h))
drop-take (suc n) (suc m) [] h = take_nil (suc m - suc n)
  where
    take_nil : (k : ℕ) → ◌≡◌ {A = List ℕ} [] (take k [])
    take_nil zero = refl
    take_nil (suc k) = refl
drop-take (suc n) (suc m) (x ∷ xs) h =
    drop-take n m xs (omega (arith, h)) ∙ ap (λ k. take k (drop n xs)) (omega arith)

module _ (memory : List ℕ) (s : StringPiece) (n : ℕ) where
  -- Where a prefix or a suffix of a number of bytes is taken away from a piece that is at least that
  -- long, the rest is the piece without them, in the same memory: the bytes of both together are those
  -- of the piece; with more bytes there is no piece.
  pub removals-split :
      (n ≤ s.size
        → (t : StringPiece) × (u : StringPiece) × (remove_prefix s n ≡ some t)
          × (remove_suffix s (s.size - n) ≡ some u)
          × (as_string memory t ≡ drop n (as_string memory s))
          × (as_string memory u ≡ take n (as_string memory s))
          × (Inside memory s → Inside memory t × Inside memory u))
      × (s.size < n → (remove_prefix s n ≡ none) × (remove_suffix s n ≡ none))
  unfolding remove_prefix remove_suffix as_string
  removals-split = (
    λ fits. (
      record { ptr = s.ptr + n; size = s.size - n },
      record s { size = n },
      rw (le→leb n s.size fits) refl,
      rw (le→leb (s.size - n) s.size (omega arith))
          (ap (λ k. some (record s { size = k })) (omega (arith, fits))),
      ap (take (s.size - n)) (sym (drop-drop s.ptr n (s.ptr + n) memory refl))
          ∙ sym (drop-take n s.size (from memory s) fits),
      sym (take-take n s.size (from memory s) fits),
      λ inside. (omega (arith, inside, fits), omega (arith, inside, fits)),
    ),
    λ short. (rw (beyond n s.size short) refl, rw (beyond n s.size short) refl),
  )
    where
      beyond : (a b : ℕ) → b < a → leb a b ≡ false
      beyond a b h = ground arith

-- On pieces that lie in the memory, `starts_with` holds exactly where the first bytes of the piece, as
-- many as the other piece has, are the bytes of the other piece.
pub starts_with-take :
    (memory : List ℕ) (s x : StringPiece)
    → Inside memory s
    → Inside memory x
    → starts_with memory s x
      ≡ (leb x.size s.size && eq_bytes (take x.size (as_string memory s)) (as_string memory x))
unfolding starts_with as_string
starts_with-take memory s x hs hx = elim (Bool-cases (leb x.size s.size)) [
  | inl fits ↦ rw fits (
      prefix-bytes x.size (from memory s) (from memory x)
        (omega (arith, hs, leb→le x.size s.size fits, length-drop s.ptr memory))
        (omega (arith, hx, length-drop x.ptr memory))
      ∙ ap (λ xs. eq_bytes xs (take x.size (from memory x)))
          (sym (take-take x.size s.size (from memory s) (leb→le x.size s.size fits))))
  | inr long ↦ rw long refl
]
