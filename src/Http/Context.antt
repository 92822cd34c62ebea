-- ===== src/Http/Context.antt =====
-- muduo/net/http/HttpContext.h and HttpContext.cpp: the request parser.
-- A pointer into the buffer is an offset, a pair of pointers the bytes between them.
pub mod Line
pub mod Loop
pub mod Lines
pub mod Parse
use learn_muduo.Prelude.{
  ℕ, zero, suc, ◌+◌, ◌≡◌, refl, Bool, true, false, ◌&&◌, not, List, [], ◌∷◌, Option, none, some,
  codes, length, take, drop, get_elem?, ◌==◌, if◌then◌else◌, ◌>>=◌, ◌>>◌, assert, eq_bytes,
  find_byte,
}
use learn_muduo.Buffer.{Buffer, content, find_crlf, retrieve_until}
use learn_muduo.Http.Request.{
  HttpRequest, Version, http10, http11, empty_request, set_method, add_header,
}

pub data ParseState : Type 0 where
  expect_request_line expect_headers expect_body got_all : ParseState

pub record HttpContext : Type 0 where
  pub state : ParseState
  pub request : HttpRequest

-- The constructor, and what `reset` leaves.
abbrev pub fresh_context : HttpContext
fresh_context = record { state = expect_request_line; request = empty_request }

unfoldable pub reset : HttpContext → HttpContext
reset c = record c { state = expect_request_line; request = empty_request }

unfoldable pub is_got_all : ParseState → Bool
is_got_all got_all = true
is_got_all s = false

-- The part between the spaces: the path, and from a '?' on the query.
unfoldable pub set_target : HttpRequest → List ℕ → HttpRequest
set_target r target =
    let question = find_byte b'?' target in
    if question == length target
    then record r { path = target }
    else record r { path = take question target; query = drop question target }

-- The part behind the second space.
unfoldable pub set_http_version : HttpRequest → List ℕ → HttpRequest × Bool
set_http_version r text =
    if length text == 8 && eq_bytes (take 7 text) (codes "HTTP/1.")
    then elim (get_elem? text 7) [
      | none ↦ (r, false)
      | some c ↦
          if c == b'1'
          then (record r { version = http11 }, true)
          else if c == b'0'
          then (record r { version = http10 }, true)
          else (r, false)
    ]
    else (r, false)

-- The code behind a method that was recognised.
unfoldable pub process_target : HttpRequest → List ℕ → HttpRequest × Bool
process_target r text =
    let space = find_byte b' ' text in
    if space == length text
    then (r, false)
    else set_http_version (set_target r (take space text)) (drop (space + 1) text)

unfoldable pub process_request_line : HttpRequest → List ℕ → Option (HttpRequest × Bool)
process_request_line r line =
    let space = find_byte b' ' line in
    if space == length line then some (r, false) else (do
      (r', known) ← set_method r (take space line)
      some (if known then process_target r' (drop (space + 1) line) else (r', false)))

-- What a round of the loop leaves: the context, the buffer, `ok` and `hasMore`.
pub record Round : Type 0 where
  pub context : HttpContext
  pub buf : Buffer
  pub ok : Bool
  pub has_more : Bool

unfoldable pub request_line_round : HttpContext → Buffer → ℕ → Bool → Option Round
request_line_round c buf time ok = elim (find_crlf buf) [
  | none ↦ some (record { context = c; buf = buf; ok = ok; has_more = false })
  | some crlf ↦ (do
    (r, good) ← process_request_line c.request (take crlf (content buf))
    if good
        then (do
          buf' ← retrieve_until buf (crlf + 2)
          some (record {
            context = record { state = expect_headers; request = record r { receive_time = time } };
            buf = buf';
            ok = true;
            has_more = true;
          }))
        else some (record {
          context = record c { request = r };
          buf = buf;
          ok = false;
          has_more = false;
        }))
]

unfoldable pub header_round : HttpContext → Buffer → Bool → Option Round
header_round c buf ok = elim (find_crlf buf) [
  | none ↦ some (record { context = c; buf = buf; ok = ok; has_more = false })
  | some crlf ↦ (do
    let line = take crlf (content buf)
    let colon = find_byte b':' line
    buf' ← retrieve_until buf (crlf + 2)
    some (
        if colon == crlf
        then record {
          context = record c { state = got_all };
          buf = buf';
          ok = ok;
          has_more = false;
        }
        else record {
          context = record c { request = add_header c.request line colon };
          buf = buf';
          ok = ok;
          has_more = true;
        }))
]

-- One round; in the last two states the loop's body does nothing.
unfoldable pub round_in : ParseState → HttpContext → Buffer → ℕ → Bool → Option Round
round_in expect_request_line c buf time ok = request_line_round c buf time ok
round_in expect_headers c buf time ok = header_round c buf ok
round_in expect_body c buf time ok =
    some (record { context = c; buf = buf; ok = ok; has_more = true })
round_in got_all c buf time ok = some (record { context = c; buf = buf; ok = ok; has_more = true })

-- How the loop ends: with a result, by a failed assertion, or not within the fuel.
pub data Outcome : Type 0 where
  finished : HttpContext → Buffer → Bool → Outcome
  aborted running : Outcome

unfoldable pub parse_loop : ℕ → HttpContext → Buffer → ℕ → Bool → Outcome
parse_loop zero c buf time ok = running
parse_loop (suc fuel) c buf time ok = elim (round_in c.state c buf time ok) [
  | none ↦ aborted
  | some r ↦ elim r.has_more [
    | true ↦ parse_loop fuel r.context r.buf time r.ok
    | false ↦ finished r.context r.buf r.ok
  ]
]

-- Every round but the last drops two bytes or more, so this much fuel is enough
-- (`Loop.parse_request-Ends`).
unfoldable pub parse_request : HttpContext → Buffer → ℕ → Outcome
parse_request c buf time = parse_loop (suc (length (content buf))) c buf time true
