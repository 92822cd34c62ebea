-- ===== src/Buffer/Space.antt =====
-- muduo/net/Buffer.h: `makeSpace`, `ensureWritableBytes`, `append`, `prepend`, `retrieve` and
-- `unwrite` as operations on the content.
use learn_muduo.Prelude.{
  ℕ, ◌+◌, ◌-◌, ◌≤◌, ◌<◌, ◌≡◌, ◌∙◌, ap, sym, refl, inl, inr, List, [], ◌++◌, some, arith, length,
  take, drop, replicate, ltb, le→leb, ltb→lt, Bool-cases, length-append, length-take,
  length-replicate, take-all, take-take, take-append_le, drop-drop, drop-all,
}
use learn_muduo.Buffer.{
  Buffer, IsValid, content, readable_bytes, writable_bytes, prependable_bytes, cheap_prepend,
  copy_to, resize, retrieve, retrieve_all, make_space, ensure_writable_bytes, has_written, unwrite,
  append, prepend,
}
use learn_muduo.Buffer.Content.{
  length-content, length-copy_to, content-write, content-move, content-write_front, take-drop,
}

-- A result with the same content and room for `len` more bytes.
pub record Fits (b : Buffer) (len : ℕ) (b' : Buffer) : Type 0 where
  pub valid : IsValid b'
  pub same : content b' ≡ content b
  pub room : len ≤ writable_bytes b'

grown : Buffer → ℕ → Buffer
grown b len = record b { bytes = resize (b.writer_index + len) b.bytes }

length-resize : (n : ℕ) (xs : List ℕ) → length xs ≤ n → length (resize n xs) ≡ n
length-resize n xs h = omega (
  arith,
  length-append (take n xs) (replicate (n - length xs) 0),
  length-take n xs,
  length-replicate {A = ℕ} (n - length xs) 0,
)

grown-Fits : (b : Buffer) (len : ℕ) → IsValid b → writable_bytes b < len → Fits b len (grown b len)
unfolding grown
grown-Fits b len v short = record {
  valid = record {
    ordered = v.ordered;
    inside = omega (arith, size, v.inside);
    large = omega (arith, size, v.large);
  };
  same = ap (drop b.reader_index) (
      ap (λ xs. take b.writer_index (xs ++ replicate (b.writer_index + len - length b.bytes) 0))
        (take-all (b.writer_index + len) b.bytes (omega (arith, v.inside)))
      ∙ take-append_le b.writer_index b.bytes _ v.inside);
  room = omega (arith, size);
}
  where
    size : length (resize (b.writer_index + len) b.bytes) ≡ b.writer_index + len
    size = length-resize (b.writer_index + len) b.bytes (omega (arith, v.inside))

moved : Buffer → Buffer
moved b = record b {
  bytes = copy_to b.bytes cheap_prepend (content b);
  reader_index = cheap_prepend;
  writer_index = cheap_prepend + readable_bytes b;
}

moved-Fits :
    (b : Buffer) (len : ℕ)
    → IsValid b
    → len + cheap_prepend ≤ writable_bytes b + prependable_bytes b
    → cheap_prepend < b.reader_index
    → Fits b len (moved b)
unfolding moved
moved-Fits b len v enough late = record {
  valid = record {
    ordered = omega arith;
    inside = omega (arith, size, v.ordered, v.inside);
    large = omega (arith, size, v.large);
  };
  same =
      content-move b.bytes cheap_prepend (cheap_prepend + readable_bytes b) (content b)
        (omega (arith, late, v.ordered, v.inside)) (omega (arith, length-content b v));
  room = omega (arith, size, enough, v.ordered, v.inside);
}
  where
    size : length (copy_to b.bytes cheap_prepend (content b)) ≡ length b.bytes
    size =
        length-copy_to b.bytes cheap_prepend (content b)
          (omega (arith, length-content b v, late, v.ordered, v.inside))

-- Either branch of `makeSpace` makes the room, and its assertions hold.
make_space-Fits :
    (b : Buffer) (len : ℕ)
    → IsValid b
    → writable_bytes b < len
    → (b' : Buffer) × (make_space b len ≡ some b') × Fits b len b'
make_space-Fits b len v short =
    elim (Bool-cases (ltb (writable_bytes b + prependable_bytes b) (len + cheap_prepend))) [
      | inl tight ↦
          (grown b len, unfold make_space grown in ground (arith, tight), grown-Fits b len v short)
      | inr wide ↦
          let enough : len + cheap_prepend ≤ writable_bytes b + prependable_bytes b =
            ground arith in
          (
            moved b,
            unfold make_space moved in ground (arith, wide),
            moved-Fits b len v enough (omega arith),
          )
    ]

-- `ensureWritableBytes` succeeds on every valid buffer, keeps the content and makes the room.
pub ensure_writable_bytes-Fits :
    (b : Buffer) (len : ℕ)
    → IsValid b
    → (b' : Buffer) × (ensure_writable_bytes b len ≡ some b') × Fits b len b'
ensure_writable_bytes-Fits b len v = elim (Bool-cases (ltb (writable_bytes b) len)) [
  | inl short ↦
      let (b', made, fits) = make_space-Fits b len v (ltb→lt _ _ short) in
      (b', unfold ensure_writable_bytes in rw (short, made, le→leb _ _ fits.room), fits)
  | inr enough ↦
      let room : len ≤ writable_bytes b = ground arith in
      (
        b,
        unfold ensure_writable_bytes in rw (enough, le→leb _ _ room),
        record { valid = v; same = refl; room = room },
      )
]

-- A result whose content is the given list.
pub record Holds (xs : List ℕ) (b : Buffer) : Type 0 where
  pub valid : IsValid b
  pub same : content b ≡ xs

has_written-Holds :
    (b : Buffer) (xs : List ℕ)
    → IsValid b
    → length xs ≤ writable_bytes b
    → (b' : Buffer) × (has_written
          (record b { bytes = copy_to b.bytes b.writer_index xs })
          (length xs)
        ≡ some b')
      × Holds (content b ++ xs) b'
has_written-Holds b xs v room = (
  record b { bytes = copy_to b.bytes b.writer_index xs; writer_index = b.writer_index + length xs },
  unfold has_written in
      rw (
        le→leb (length xs) (length (copy_to b.bytes b.writer_index xs) - b.writer_index)
          (omega (arith, size, room, v.inside))),
  record {
    valid = record {
      ordered = omega (arith, v.ordered);
      inside = omega (arith, size, room, v.inside);
      large = omega (arith, size, v.large);
    };
    same = content-write b xs v;
  },
)
  where
    size : length (copy_to b.bytes b.writer_index xs) ≡ length b.bytes
    size = length-copy_to b.bytes b.writer_index xs (omega (arith, room, v.inside))

-- `append` never fails on a valid buffer, and adds its bytes behind the content.
pub append-Holds :
    (b : Buffer) (xs : List ℕ)
    → IsValid b
    → (b' : Buffer) × (append b xs ≡ some b') × Holds (content b ++ xs) b'
append-Holds b xs v =
    let (b', made, fits) = ensure_writable_bytes-Fits b (length xs) v in
    let (b'', written, holds) = has_written-Holds b' xs fits.valid fits.room in
    (
      b'',
      unfold append in rw made written,
      record { valid = holds.valid; same = holds.same ∙ ap (λ ys. ys ++ xs) fits.same },
    )

-- `prepend` succeeds on a valid buffer if the space before the reader index holds its bytes, and
-- puts them before the content.
pub prepend-Holds :
    (b : Buffer) (xs : List ℕ)
    → IsValid b
    → length xs ≤ prependable_bytes b
    → (b' : Buffer) × (prepend b xs ≡ some b') × Holds (xs ++ content b) b'
prepend-Holds b xs v room = (
  record b { reader_index = start; bytes = copy_to b.bytes start xs },
  unfold prepend in rw (le→leb _ _ room),
  record {
    valid = record {
      ordered = omega (arith, v.ordered);
      inside = omega (arith, v.inside, size);
      large = omega (arith, v.large, size);
    };
    same = content-write_front b xs start v (omega arith);
  },
)
  where
    start : ℕ
    start = b.reader_index - length xs

    size : length (copy_to b.bytes start xs) ≡ length b.bytes
    size = length-copy_to b.bytes start xs (omega (arith, room, v.ordered, v.inside))

pub retrieve_all-Holds : (b : Buffer) → IsValid b → Holds [] (retrieve_all b)
unfolding retrieve_all
retrieve_all-Holds b h = record {
  valid = record { ordered = omega arith; inside = h.large; large = h.large };
  same =
      drop-all cheap_prepend (take cheap_prepend b.bytes)
        (omega (arith, length-take cheap_prepend b.bytes));
}

-- `retrieve` of no more than the content of a valid buffer succeeds and drops that many bytes from
-- the front of it.
pub retrieve-Holds :
    (b : Buffer) (len : ℕ)
    → IsValid b
    → len ≤ readable_bytes b
    → (b' : Buffer) × (retrieve b len ≡ some b') × Holds (drop len (content b)) b'
retrieve-Holds b len v fits = elim (Bool-cases (ltb len (readable_bytes b))) [
  | inl part ↦ (
    record b { reader_index = b.reader_index + len },
    unfold retrieve in rw (le→leb _ _ fits, part),
    record {
      valid = record { ordered = ground arith; inside = v.inside; large = v.large };
      same = sym (drop-drop b.reader_index len _ (take b.writer_index b.bytes) refl);
    },
  )
  | inr all ↦
      let holds = retrieve_all-Holds b v in
      (
        retrieve_all b,
        unfold retrieve in rw (le→leb _ _ fits, all),
        record {
          valid = holds.valid;
          same = holds.same ∙ sym (drop-all len (content b) (ground (arith, length-content b v)));
        },
      )
]

-- `unwrite` drops bytes from the back of the content.
pub unwrite-Holds :
    (b : Buffer) (len : ℕ)
    → IsValid b
    → len ≤ readable_bytes b
    → (b' : Buffer) × (unwrite b len ≡ some b')
      × Holds (take (readable_bytes b - len) (content b)) b'
unwrite-Holds b len v fits = (
  record b { writer_index = b.writer_index - len },
  unfold unwrite in rw (le→leb _ _ fits),
  record {
    valid = record { ordered = omega arith; inside = omega (arith, v.inside); large = v.large };
    same =
        take-drop b.reader_index (b.writer_index - len) (readable_bytes b - len) b.bytes
          (omega arith)
        ∙ sym (
            ap (take (readable_bytes b - len)) (
              take-drop b.reader_index b.writer_index (readable_bytes b) b.bytes
                (omega (arith, v.ordered)))
            ∙ take-take (readable_bytes b - len) (readable_bytes b) (drop b.reader_index b.bytes)
                (omega arith));
  },
)
