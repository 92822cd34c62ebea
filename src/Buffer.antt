-- ===== src/Buffer.antt =====
-- muduo/net/Buffer.h and Buffer.cpp: a vector of bytes with a reader and a writer index.
-- A method that asserts returns `none` where the assertion fails. Positions that the code gives as
-- pointers are offsets from `peek()`. Sizes are numbers that do not wrap. A cast of a size to `int`
-- drops the bits beyond 32; where that is negative, the next size is close to 2 ^ 64, and the model stops.
-- `toStringPiece` is refused where its `int` does not fit.
pub mod Content
pub mod Space
pub mod Ints
pub mod ReadFd
pub mod Search
pub mod Queue
pub mod Tests
use learn_muduo.Prelude.{
  ℕ, zero, suc, ◌+◌, ◌-◌, ◌^◌, ◌%◌, ◌≤◌, Bool, ◌&&◌, List, [], ◌∷◌, ◌++◌, Option, none, some,
  length, take, drop, replicate, ltb, leb, ◌==◌, if◌then◌else◌, ◌>>=◌, ◌>>◌, assert,
}
use mathlib.Core.Option
use learn_muduo.Endian.{host_to_network, network_to_host}

abbrev pub cheap_prepend : ℕ
cheap_prepend = 8

abbrev pub initial_size : ℕ
initial_size = 1024

pub record Buffer : Type 0 where
  pub bytes : List ℕ
  pub reader_index : ℕ
  pub writer_index : ℕ

-- The constructor. The vector's elements start as 0.
unfoldable pub init : ℕ → Buffer
init size = record {
  bytes = replicate (cheap_prepend + size) 0;
  reader_index = cheap_prepend;
  writer_index = cheap_prepend;
}

abbrev pub readable_bytes : Buffer → ℕ
readable_bytes b = b.writer_index - b.reader_index

abbrev pub writable_bytes : Buffer → ℕ
writable_bytes b = length b.bytes - b.writer_index

abbrev pub prependable_bytes : Buffer → ℕ
prependable_bytes b = b.reader_index

-- The bytes from `peek()` to `beginWrite()`.
abbrev pub content : Buffer → List ℕ
content b = drop b.reader_index (take b.writer_index b.bytes)

-- `std::copy(ys, ys + n, xs + i)`.
abbrev pub copy_to : List ℕ → ℕ → List ℕ → List ℕ
copy_to xs i ys = take i xs ++ (ys ++ drop (i + length ys) xs)

-- `std::vector<char>::resize`.
abbrev pub resize : ℕ → List ℕ → List ℕ
resize n xs = take n xs ++ replicate (n - length xs) 0

-- `std::search` for "\r\n".
unfoldable pub search_crlf : List ℕ → Option ℕ
search_crlf [] = none
search_crlf (a ∷ []) = none
search_crlf (a ∷ b ∷ xs) =
    let rest = search_crlf (b ∷ xs) in
    if a == b'\r' && b == b'\n' then some 0 else Option.map suc rest

unfoldable pub find_crlf : Buffer → Option ℕ
unfolding search_crlf
find_crlf b = search_crlf (content b)

unfoldable pub find_crlf_from : Buffer → ℕ → Option (Option ℕ)
unfolding search_crlf
find_crlf_from b start = do
  assert (leb start (readable_bytes b))
  some (Option.map (λ i. start + i) (search_crlf (drop start (content b))))

-- `memchr`.
unfoldable pub memchr : ℕ → List ℕ → Option ℕ
memchr c [] = none
memchr c (x ∷ xs) = if x == c then some 0 else Option.map suc (memchr c xs)

unfoldable pub find_eol : Buffer → Option ℕ
unfolding memchr
find_eol b = memchr b'\n' (content b)

unfoldable pub find_eol_from : Buffer → ℕ → Option (Option ℕ)
unfolding memchr
find_eol_from b start = do
  assert (leb start (readable_bytes b))
  some (Option.map (λ i. start + i) (memchr b'\n' (drop start (content b))))

unfoldable pub retrieve_all : Buffer → Buffer
retrieve_all b = record b { reader_index = cheap_prepend; writer_index = cheap_prepend }

unfoldable pub retrieve : Buffer → ℕ → Option Buffer
unfolding retrieve_all
retrieve b len = do
  assert (leb len (readable_bytes b))
  some (
      if ltb len (readable_bytes b)
      then record b { reader_index = b.reader_index + len }
      else retrieve_all b)

unfoldable pub retrieve_until : Buffer → ℕ → Option Buffer
retrieve_until b end = do assert (leb end (readable_bytes b)); retrieve b end

unfoldable pub retrieve_as_string : Buffer → ℕ → Option (List ℕ × Buffer)
retrieve_as_string b len = do
  assert (leb len (readable_bytes b))
  b' ← retrieve b len
  some (take len (content b), b')

unfoldable pub retrieve_all_as_string : Buffer → Option (List ℕ × Buffer)
retrieve_all_as_string b = retrieve_as_string b (readable_bytes b)

unfoldable pub to_string_piece : Buffer → Option (List ℕ)
to_string_piece b = if ltb (readable_bytes b) (2 ^ 31) then some (content b) else none

unfoldable pub make_space : Buffer → ℕ → Option Buffer
make_space b len =
    if ltb (writable_bytes b + prependable_bytes b) (len + cheap_prepend)
    then some (record b { bytes = resize (b.writer_index + len) b.bytes })
    else (do
      assert (ltb cheap_prepend b.reader_index)
      let readable = readable_bytes b
      let moved = record b {
        bytes = copy_to b.bytes cheap_prepend (content b);
        reader_index = cheap_prepend;
        writer_index = cheap_prepend + readable;
      }
      assert (readable == readable_bytes moved)
      some moved)

unfoldable pub ensure_writable_bytes : Buffer → ℕ → Option Buffer
ensure_writable_bytes b len = do
  b' ← if ltb (writable_bytes b) len then make_space b len else some b
  assert (leb len (writable_bytes b'))
  some b'

unfoldable pub has_written : Buffer → ℕ → Option Buffer
has_written b len = do
  assert (leb len (writable_bytes b))
  some (record b { writer_index = b.writer_index + len })

unfoldable pub unwrite : Buffer → ℕ → Option Buffer
unwrite b len = do
  assert (leb len (readable_bytes b))
  some (record b { writer_index = b.writer_index - len })

unfoldable pub append : Buffer → List ℕ → Option Buffer
append b xs = do
  b' ← ensure_writable_bytes b (length xs)
  has_written (record b' { bytes = copy_to b'.bytes b'.writer_index xs }) (length xs)

-- The `int` that a size is cast to, where that is not negative.
abbrev pub int_size : ℕ → Option ℕ
int_size n = if ltb (n % 2 ^ 32) (2 ^ 31) then some (n % 2 ^ 32) else none

-- `append(const StringPiece&)` of a string: the piece has the length of the string as an `int`.
unfoldable pub append_string : Buffer → List ℕ → Option Buffer
append_string b xs = do size ← int_size (length xs); append b (take size xs)

unfoldable pub prepend : Buffer → List ℕ → Option Buffer
prepend b xs = do
  assert (leb (length xs) (prependable_bytes b))
  let start = b.reader_index - length xs
  some (record b { reader_index = start; bytes = copy_to b.bytes start xs })

-- `appendInt64`, `appendInt32`, `appendInt16` and `appendInt8` at the widths 8, 4, 2 and 1.
unfoldable pub append_int : ℕ → Buffer → ℕ → Option Buffer
append_int width b x = append b (host_to_network width x)

unfoldable pub prepend_int : ℕ → Buffer → ℕ → Option Buffer
prepend_int width b x = prepend b (host_to_network width x)

unfoldable pub peek_int : ℕ → Buffer → Option ℕ
peek_int width b = do
  assert (leb width (readable_bytes b))
  some (network_to_host (take width (content b)))

unfoldable pub read_int : ℕ → Buffer → Option (ℕ × Buffer)
read_int width b = do x ← peek_int width b; b' ← retrieve b width; some (x, b')

unfoldable pub shrink : Buffer → ℕ → Option Buffer
unfolding init
shrink b reserve = do
  other ← ensure_writable_bytes (init initial_size) (readable_bytes b + reserve)
  piece ← to_string_piece b
  append other piece

-- `sockets::readv`: an error with its `errno`, or the bytes that the kernel delivered.
pub data Received : Type 0 where
  failed : ℕ → Received
  got : List ℕ → Received

abbrev pub extra_size : ℕ
extra_size = 65536

-- The lengths of the vectors that `readFd` hands to `readv`: the writable space, and the local
-- buffer unless the writable space is at least as large.
abbrev pub vector_lengths : Buffer → List ℕ
vector_lengths b =
    if ltb (writable_bytes b) extra_size
    then writable_bytes b ∷ extra_size ∷ []
    else writable_bytes b ∷ []

-- What `readFd` does with the answer of `readv`, which has filled the vectors in order.
unfoldable pub take_received : Buffer → Received → Option Buffer
take_received b (failed errno) = some b
take_received b (got xs) =
    let writable = writable_bytes b in
    let filled = record b { bytes = copy_to b.bytes b.writer_index (take writable xs) } in
    if leb (length xs) writable
    then some (record filled { writer_index = b.writer_index + length xs })
    else append (record filled { writer_index = length filled.bytes }) (drop writable xs)

-- The buffer, and what was read or the saved `errno`.
unfoldable pub read_fd : (List ℕ → Received) → Buffer → Option (Buffer × Received)
unfolding take_received
read_fd readv b = do
  let received = readv (vector_lengths b)
  b' ← take_received b received
  some (b', received)

-- The indices lie in order inside a vector that holds at least the initial prepend space.
pub record IsValid (b : Buffer) : Type 0 where
  pub ordered : b.reader_index ≤ b.writer_index
  pub inside : b.writer_index ≤ length b.bytes
  pub large : cheap_prepend ≤ length b.bytes
