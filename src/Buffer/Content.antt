-- ===== src/Buffer/Content.antt =====
-- How the bytes between the indices change with each primitive step of muduo/net/Buffer.h.
use learn_muduo.Prelude.{
  ℕ, zero, suc, ◌+◌, ◌≤◌, ◌≡◌, ◌∙◌, ap, sym, refl, List, [], ◌∷◌, ◌++◌, append_assoc, arith, length,
  take, drop, length-append, length-take, length-drop, take-append_left, drop-append_left,
  drop-append_le,
}
use learn_muduo.Buffer.{Buffer, IsValid, content, readable_bytes, copy_to}

pub length-content : (b : Buffer) → IsValid b → length (content b) ≡ readable_bytes b
length-content b v = omega (
  arith,
  length-drop b.reader_index (take b.writer_index b.bytes),
  length-take b.writer_index b.bytes,
)

pub length-copy_to :
    (xs : List ℕ) (i : ℕ) (ys : List ℕ)
    → i + length ys ≤ length xs
    → length (copy_to xs i ys) ≡ length xs
length-copy_to xs i ys h = omega (
  arith,
  length-append (take i xs) (ys ++ drop (i + length ys) xs),
  length-append ys (drop (i + length ys) xs),
  length-take i xs,
  length-drop (i + length ys) xs,
)

-- What a copy leaves before its end: the old front, and the copied bytes.
pub take-copy_to :
    (xs : List ℕ) (i n : ℕ) (ys : List ℕ)
    → i ≤ length xs
    → n ≡ i + length ys
    → take n (copy_to xs i ys) ≡ take i xs ++ ys
take-copy_to xs i n ys h e = rw (← append_assoc (take i xs) ys (drop (i + length ys) xs)) (
    take-append_left n (take i xs ++ ys) _
      (omega (arith, length-append (take i xs) ys, length-take i xs)))

-- Bytes written at the writer index join the content.
pub content-write :
    (b : Buffer) (ys : List ℕ)
    → IsValid b
    → drop b.reader_index (take (b.writer_index + length ys) (copy_to b.bytes b.writer_index ys))
      ≡ content b ++ ys
content-write b ys v =
    ap (drop b.reader_index) (take-copy_to b.bytes b.writer_index _ ys v.inside refl)
    ∙ drop-append_le b.reader_index (take b.writer_index b.bytes) ys
        (omega (arith, length-take b.writer_index b.bytes, v.ordered, v.inside))

-- Content copied to another place and read from there is the same.
pub content-move :
    (xs : List ℕ) (i n : ℕ) (ys : List ℕ)
    → i ≤ length xs
    → n ≡ i + length ys
    → drop i (take n (copy_to xs i ys)) ≡ ys
content-move xs i n ys h e =
    ap (drop i) (take-copy_to xs i n ys h e)
    ∙ drop-append_left i (take i xs) ys (omega (arith, length-take i xs))

take-append_add :
    (n m : ℕ) (xs ys : List ℕ) → n ≡ length xs + m → take n (xs ++ ys) ≡ xs ++ take m ys
take-append_add n m [] ys h = ap (λ k. take k ys) (omega arith)
take-append_add zero m (x ∷ xs) ys h = absurd (omega arith)
take-append_add (suc n) m (x ∷ xs) ys h = ap (◌∷◌ x) (take-append_add n m xs ys (omega arith))

pub take-drop : (i n k : ℕ) (xs : List ℕ) → n ≡ i + k → drop i (take n xs) ≡ take k (drop i xs)
take-drop zero n k xs h = ap (λ j. take j xs) (omega arith)
take-drop (suc i) zero k xs h = absurd (omega arith)
take-drop (suc i) (suc n) zero [] h = refl
take-drop (suc i) (suc n) (suc k) [] h = refl
take-drop (suc i) (suc n) k (x ∷ xs) h = take-drop i n k xs (omega arith)

-- Bytes written just before the reader index come first.
pub content-write_front :
    (b : Buffer) (ys : List ℕ) (start : ℕ)
    → IsValid b
    → b.reader_index ≡ start + length ys
    → drop start (take b.writer_index (copy_to b.bytes start ys)) ≡ ys ++ content b
content-write_front b ys start v e =
    ap (drop start) (
      take-append_add b.writer_index (length ys + readable_bytes b) (take start b.bytes) _
        (omega (arith, length-take start b.bytes, v.ordered, v.inside, e)))
    ∙ (drop-append_left start (take start b.bytes) _
          (omega (arith, length-take start b.bytes, v.ordered, v.inside, e))
        ∙ (take-append_add _ (readable_bytes b) ys _ refl
            ∙ ap (λ zs. ys ++ zs)
                (ap (λ i. take (readable_bytes b) (drop i b.bytes)) (sym e)
                  ∙ sym (
                      take-drop b.reader_index b.writer_index (readable_bytes b) b.bytes
                        (omega (arith, v.ordered))))))
