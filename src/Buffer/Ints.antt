-- ===== src/Buffer/Ints.antt =====
-- muduo/net/Buffer.h: the integers of the wire format, `appendInt*`, `prependInt*`, `peekInt*` and
-- `readInt*`.
use learn_muduo.Prelude.{
  ℕ, ◌^◌, ◌≤◌, ◌<◌, ◌≡◌, ◌∙◌, ap, sym, refl, List, [], ◌∷◌, ◌++◌, append_assoc, append-nil, Option,
  some, ◌>>=◌, arith, All, length, drop, le→leb, length-append, take-append_left, drop-append_left,
  suc, zero,
}
use learn_muduo.Endian.{
  host_to_network, network_to_host, length-host_to_network, network_to_host-host_to_network,
}
use learn_muduo.Buffer.{
  Buffer, IsValid, content, readable_bytes, prependable_bytes, append_int, prepend_int, peek_int,
  read_int,
}
use learn_muduo.Buffer.Content.{length-content}
use learn_muduo.Buffer.Space.{Holds, append-Holds, prepend-Holds, retrieve-Holds}

module _ (width x : ℕ) (rest : List ℕ) (b : Buffer)
    (holds : Holds (host_to_network width x ++ rest) b) where
  enough : width ≤ readable_bytes b
  enough = omega (
    arith,
    length-content b holds.valid,
    ap length holds.same,
    length-append (host_to_network width x) rest,
    length-host_to_network width x,
  )

  peek_int-Holds : x < 256 ^ width → peek_int width b ≡ some x
  unfolding peek_int
  peek_int-Holds h =
      rw (le→leb _ _ enough, holds.same)
        (ap some (
          ap network_to_host (
            take-append_left width (host_to_network width x) rest
              (sym (length-host_to_network width x)))
          ∙ network_to_host-host_to_network width x h))

  -- An integer at the front of the content is read, and its bytes are dropped.
  pub read_int-Holds :
      x < 256 ^ width → (b' : Buffer) × (read_int width b ≡ some (x, b')) × Holds rest b'
  read_int-Holds h =
      let (b', taken, left) = retrieve-Holds b width holds.valid enough in
      (
        b',
        unfold read_int in rw (peek_int-Holds h, taken),
        record {
          valid = left.valid;
          same =
              left.same
              ∙ (ap (drop width) holds.same
                  ∙ drop-append_left width (host_to_network width x) rest
                      (sym (length-host_to_network width x)));
        },
      )

-- On a valid buffer with space for the width, an integer that fits its width and is written before
-- the content, in network byte order, is what a reader sees first.
pub peek_int-prepend_int :
    (width x : ℕ) (b : Buffer)
    → IsValid b
    → width ≤ prependable_bytes b
    → x < 256 ^ width
    → (b' : Buffer) × (prepend_int width b x ≡ some b')
      × (peek_int width b' ≡ some x)
      × (content b' ≡ host_to_network width x ++ content b)
peek_int-prepend_int width x b v room h =
    let (b', made, holds) =
      prepend-Holds b (host_to_network width x) v (omega (arith, length-host_to_network width x)) in
    (b', unfold prepend_int in made, peek_int-Holds width x (content b) b' holds h, holds.same)

-- The calls `appendInt` for each of a list of integers, and as many calls `readInt`.
pub append_ints : ℕ → List ℕ → Buffer → Option Buffer
append_ints width [] b = some b
append_ints width (x ∷ xs) b = do b' ← append_int width b x; append_ints width xs b'

pub read_ints : ℕ → ℕ → Buffer → Option (List ℕ × Buffer)
read_ints width zero b = some ([], b)
read_ints width (suc n) b = do
  (x, b') ← read_int width b
  (xs, b'') ← read_ints width n b'
  some (x ∷ xs, b'')

wire : ℕ → List ℕ → List ℕ
wire width [] = []
wire width (x ∷ xs) = host_to_network width x ++ wire width xs

append_ints-Holds :
    (width : ℕ) (xs : List ℕ) (b : Buffer)
    → IsValid b
    → (b' : Buffer) × (append_ints width xs b ≡ some b') × Holds (content b ++ wire width xs) b'
unfolding append_ints wire append_int
append_ints-Holds width [] b v =
    (b, refl, record { valid = v; same = sym (append-nil (content b)) })
append_ints-Holds width (x ∷ xs) b v =
    let (b', made, holds) = append-Holds b (host_to_network width x) v in
    let (b'', rest, ends) = append_ints-Holds width xs b' holds.valid in
    (
      b'',
      rw (made, rest),
      record {
        valid = ends.valid;
        same =
            ends.same
            ∙ rw holds.same (append_assoc (content b) (host_to_network width x) (wire width xs));
      },
    )

read_ints-Holds :
    (width : ℕ) (xs rest : List ℕ) (b : Buffer)
    → All (λ x. x < 256 ^ width) xs
    → Holds (wire width xs ++ rest) b
    → (b' : Buffer) × (read_ints width (length xs) b ≡ some (xs, b')) × Holds rest b'
unfolding read_ints wire
read_ints-Holds width [] rest b h holds = (b, refl, holds)
read_ints-Holds width (x ∷ xs) rest b h holds =
    let front : Holds (host_to_network width x ++ (wire width xs ++ rest)) b = record {
      valid = holds.valid;
      same = holds.same ∙ append_assoc (host_to_network width x) (wire width xs) rest;
    } in
    let (b', first, left) = read_int-Holds width x (wire width xs ++ rest) b front h.0 in
    let (b'', others, ends) = read_ints-Holds width xs rest b' h.1 left in
    (b'', rw (first, others), ends)

-- Integers that fit one width, appended to a valid, empty buffer, are read back in order, and leave
-- it empty.
pub read_ints-append_ints :
    (width : ℕ) (xs : List ℕ) (b : Buffer)
    → IsValid b
    → content b ≡ []
    → All (λ x. x < 256 ^ width) xs
    → (b' : Buffer) × (b'' : Buffer) × (append_ints width xs b ≡ some b')
      × (read_ints width (length xs) b' ≡ some (xs, b''))
      × (content b'' ≡ [])
read_ints-append_ints width xs b v empty h =
    let (b', made, holds) = append_ints-Holds width xs b v in
    let start : Holds (wire width xs ++ []) b' = record {
      valid = holds.valid;
      same = holds.same ∙ (ap (λ ys. ys ++ wire width xs) empty ∙ sym (append-nil (wire width xs)));
    } in
    let (b'', read, ends) = read_ints-Holds width xs [] b' h start in
    (b', b'', made, read, ends.same)
