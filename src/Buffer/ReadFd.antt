-- ===== src/Buffer/ReadFd.antt =====
-- `Buffer::readFd` (muduo/net/Buffer.cpp): scattered input lands behind the content.
use learn_muduo.Prelude.{
  ℕ, ◌+◌, ◌≤◌, ◌≡◌, ◌∙◌, ap, sym, refl, inl, inr, List, [], ◌++◌, append_assoc, some, arith, length,
  take, drop, leb, leb→le, Bool-cases, take-all, take-append-drop, length-take, append-nil,
}
use learn_muduo.Buffer.{
  Buffer, IsValid, content, writable_bytes, copy_to, append, Received, failed, got, vector_lengths,
  take_received, read_fd,
}
use learn_muduo.Buffer.Content.{content-write, length-copy_to}
use learn_muduo.Buffer.Space.{Holds, append-Holds}

-- The bytes that an answer of `readv` carries.
abbrev pub received_bytes : Received → List ℕ
received_bytes (failed errno) = []
received_bytes (got xs) = xs

module _ (b : Buffer) (xs : List ℕ) (v : IsValid b) where
  abbrev room : ℕ
  room = writable_bytes b

  abbrev filled : Buffer
  filled = record b { bytes = copy_to b.bytes b.writer_index (take room xs) }

  size : length (copy_to b.bytes b.writer_index (take room xs)) ≡ length b.bytes
  size =
      length-copy_to b.bytes b.writer_index (take room xs)
        (omega (arith, length-take room xs, v.inside))

  fits_case :
      length xs ≤ room
      → Holds (content b ++ xs) (record filled { writer_index = b.writer_index + length xs })
  fits_case h = record {
    valid = record {
      ordered = omega (arith, v.ordered);
      inside = omega (arith, size, v.inside);
      large = omega (arith, size, v.large);
    };
    same =
        ap
          (λ ys.
            drop b.reader_index
              (take (b.writer_index + length xs) (copy_to b.bytes b.writer_index ys)))
          (take-all room xs h)
        ∙ content-write b xs v;
  }

  whole : Buffer
  whole = record filled { writer_index = length filled.bytes }

  whole-Holds : room ≤ length xs → Holds (content b ++ take room xs) whole
  unfolding whole
  whole-Holds h = record {
    valid = record {
      ordered = omega (arith, size, v.ordered, v.inside);
      inside = omega arith;
      large = omega (arith, size, v.large);
    };
    same =
        ap (λ n. drop b.reader_index (take n filled.bytes))
          (omega (arith, size, length-take room xs, v.inside))
        ∙ content-write b (take room xs) v;
  }

  overflow_case :
      room ≤ length xs
      → (b' : Buffer) × (append whole (drop room xs) ≡ some b') × Holds (content b ++ xs) b'
  overflow_case h =
      let before = whole-Holds h in
      let (b', made, holds) = append-Holds whole (drop room xs) before.valid in
      (
        b',
        made,
        record {
          valid = holds.valid;
          same =
              holds.same
              ∙ (ap (λ ys. ys ++ drop room xs) before.same
                  ∙ (append_assoc (content b) (take room xs) (drop room xs)
                      ∙ ap (λ ys. content b ++ ys) (take-append-drop room xs)));
        },
      )

  got-Holds : (b' : Buffer) × (take_received b (got xs) ≡ some b') × Holds (content b ++ xs) b'
  got-Holds = elim (Bool-cases (leb (length xs) room)) [
    | inl fits ↦ (
      record filled { writer_index = b.writer_index + length xs },
      unfold take_received in rw fits,
      fits_case (leb→le _ _ fits),
    )
    | inr over ↦
        let (b', made, holds) = overflow_case (ground arith) in
        (b', unfold take_received whole in rw over made, holds)
  ]

pub take_received-Holds :
    (b : Buffer) (r : Received)
    → IsValid b
    → (b' : Buffer) × (take_received b r ≡ some b') × Holds (content b ++ received_bytes r) b'
take_received-Holds b (failed errno) v =
    (b, unfold take_received in refl, record { valid = v; same = sym (append-nil (content b)) })
take_received-Holds b (got xs) v = got-Holds b xs v

-- Whatever `readv` delivers, `readFd` succeeds on a valid buffer, adds the delivered bytes behind the
-- content, in order and none lost, also where they spill into the local buffer, and reports the
-- answer; after an error the content is unchanged.
pub read_fd-Holds :
    (readv : List ℕ → Received) (b : Buffer)
    → IsValid b
    → (b' : Buffer) × (read_fd readv b ≡ some (b', readv (vector_lengths b)))
      × Holds (content b ++ received_bytes (readv (vector_lengths b))) b'
read_fd-Holds readv b v =
    let (b', made, holds) = take_received-Holds b (readv (vector_lengths b)) v in
    (b', unfold read_fd in rw made, holds)
