-- ===== src/Http/Context/Lines.antt =====
-- muduo/net/http/HttpContext.cpp: the rounds of `parseRequest` on lines of text.
use learn_muduo.Prelude.{
  ℕ, zero, suc, ◌+◌, ◌<◌, ◌≡◌, ◌∙◌, refl, ap, Bool, true, false, List, [], ◌∷◌, ◌++◌, some, arith,
  length, take, drop, find_byte, find_byte-append, Lacks, All, length-append, take-append_left,
  drop-append_cons, insert, ne→==,
}
use learn_muduo.Buffer.{Buffer, IsValid, content, find_crlf, retrieve_until}
use learn_muduo.Buffer.Space.{Holds}
use learn_muduo.Buffer.Search.{search_crlf-line, find_crlf-bound}
use learn_muduo.Http.Request.{HttpRequest, Headers, add_header, skip_spaces, trim_end, is_space}
use learn_muduo.Http.Context.{
  HttpContext, expect_request_line, expect_headers, got_all, Round, finished, request_line_round,
  header_round, round_in, parse_loop,
}
use learn_muduo.Http.Context.Loop.{retrieve_until-Holds}

-- A text with no blank at either end.
abbrev pub IsTrimmed : List ℕ → Type 0
IsTrimmed v = (skip_spaces v ≡ v) × (trim_end v ≡ v)

abbrev pub header_text : List ℕ × List ℕ → List ℕ
header_text (f, v) = f ++ b':' ∷ b' ' ∷ v

-- A header that a client may send: its field lacks the colon, its line the carriage return.
abbrev pub IsHeader : List ℕ × List ℕ → Type 0
IsHeader (f, v) = Lacks b':' f × Lacks b'\r' (header_text (f, v)) × IsTrimmed v

-- The header lines, the empty line, and what follows.
abbrev pub headers_text : List (List ℕ × List ℕ) → List ℕ → List ℕ
headers_text [] rest = b'\r' ∷ b'\n' ∷ rest
headers_text (h ∷ hs) rest = header_text h ++ b'\r' ∷ b'\n' ∷ headers_text hs rest

-- A field that occurs twice keeps its last value.
abbrev pub insert_all : Headers → List (List ℕ × List ℕ) → Headers
insert_all m [] = m
insert_all m ((f, v) ∷ hs) = insert_all (insert f v m) hs

add_header-text :
    (r : HttpRequest) (f v : List ℕ)
    → IsTrimmed v
    → add_header r (header_text (f, v)) (length f) ≡ record r { headers = insert f v r.headers }
add_header-text r f v t =
    unfold add_header in
    rw
      (
        take-append_left (length f) f (b':' ∷ b' ' ∷ v) refl,
        drop-append_cons (length f + 1) f (b' ' ∷ v) b':' refl,
      )
      (unfold skip_spaces is_space in
        ap (λ w. record r { headers = insert f w r.headers }) (ap trim_end t.0 ∙ t.1))

-- The next line of the content is found and taken off.
module _ (buf : Buffer) (line rest : List ℕ) (v : IsValid buf)
    (e : content buf ≡ line ++ b'\r' ∷ b'\n' ∷ rest) (k : Lacks b'\r' line) where
  pub find_line : find_crlf buf ≡ some (length line)
  unfolding find_crlf
  find_line = rw e (search_crlf-line line rest k)

  pub without_line : take (length line) (content buf) ≡ line
  without_line = rw e (take-append_left (length line) line _ refl)

  drop-two : (xs : List ℕ) (n : ℕ) → n ≡ length xs + 2 → drop n (xs ++ b'\r' ∷ b'\n' ∷ rest) ≡ rest
  drop-two [] n h = rw h refl
  drop-two (x ∷ xs) zero h = absurd (omega arith)
  drop-two (x ∷ xs) (suc n) h = drop-two xs n (omega arith)

  pub retrieve_line :
      (buf' : Buffer) × (retrieve_until buf (length line + 2) ≡ some buf') × Holds rest buf'
  retrieve_line =
      let (buf', made, holds) =
        retrieve_until-Holds buf (length line + 2) v
          (find_crlf-bound buf (length line) v find_line) in
      (
        buf',
        made,
        record {
          valid = holds.valid;
          same =
              holds.same ∙ (ap (drop (length line + 2)) e ∙ drop-two line (length line + 2) refl);
        },
      )

-- A round on a header line.
header_round-text :
    (c : HttpContext) (buf : Buffer) (f v rest : List ℕ)
    → IsValid buf
    → content buf ≡ header_text (f, v) ++ b'\r' ∷ b'\n' ∷ rest
    → IsHeader (f, v)
    → (buf' : Buffer) × (header_round c buf true
        ≡ some (record {
          context = record c {
            request = record c.request { headers = insert f v c.request.headers };
          };
          buf = buf';
          ok = true;
          has_more = true;
        }))
      × Holds rest buf'
header_round-text c buf f v rest valid e h =
    let line = header_text (f, v) in
    let (buf', made, holds) = retrieve_line buf line rest valid e h.1 in
    (
      buf',
      unfold header_round in
          rw (
            find_line buf line rest valid e h.1,
            header_round,
            without_line buf line rest valid e h.1,
            made,
            find_byte-append b':' f (b' ' ∷ v) h.0,
            ne→== (length f) (length line) (omega (arith, length-append f (b':' ∷ b' ' ∷ v))),
            add_header-text c.request f v h.2,
          ),
      holds,
    )

-- A round on the empty line.
header_round-end :
    (c : HttpContext) (buf : Buffer) (rest : List ℕ)
    → IsValid buf
    → content buf ≡ b'\r' ∷ b'\n' ∷ rest
    → (buf' : Buffer) × (header_round c buf true
        ≡ some (record {
          context = record c { state = got_all };
          buf = buf';
          ok = true;
          has_more = false;
        }))
      × Holds rest buf'
header_round-end c buf rest valid e =
    let (buf', made, holds) = retrieve_line buf [] rest valid e tt in
    (
      buf',
      unfold header_round in
          rw (find_line buf [] rest valid e tt, header_round) (unfold find_byte in rw made),
      holds,
    )

pub parse_loop-more :
    (fuel : ℕ) (c : HttpContext) (buf : Buffer) (time : ℕ) (ok : Bool) (r : Round)
    → round_in c.state c buf time ok ≡ some r
    → r.has_more ≡ true
    → parse_loop (suc fuel) c buf time ok ≡ parse_loop fuel r.context r.buf time r.ok
unfolding parse_loop
parse_loop-more fuel c buf time ok r e more = rw (e, parse_loop) (rw (more, parse_loop))

pub parse_loop-last :
    (fuel : ℕ) (c : HttpContext) (buf : Buffer) (time : ℕ) (ok : Bool) (r : Round)
    → round_in c.state c buf time ok ≡ some r
    → r.has_more ≡ false
    → parse_loop (suc fuel) c buf time ok ≡ finished r.context r.buf r.ok
unfolding parse_loop
parse_loop-last fuel c buf time ok r e last = rw (e, parse_loop) (rw (last, parse_loop))

round_in-headers :
    (c : HttpContext) (buf : Buffer) (time : ℕ) (r : Round)
    → c.state ≡ expect_headers
    → header_round c buf true ≡ some r
    → round_in c.state c buf time true ≡ some r
unfolding round_in
round_in-headers c buf time r s e = ap (λ st. round_in st c buf time true) s ∙ e

pub round_in-request_line :
    (c : HttpContext) (buf : Buffer) (time : ℕ) (r : Round)
    → c.state ≡ expect_request_line
    → request_line_round c buf time true ≡ some r
    → round_in c.state c buf time true ≡ some r
unfolding round_in
round_in-request_line c buf time r s e = ap (λ st. round_in st c buf time true) s ∙ e

pub parse_loop-headers :
    (hs : List (List ℕ × List ℕ)) (fuel : ℕ) (c : HttpContext) (buf : Buffer) (time : ℕ)
    (rest : List ℕ)
    → c.state ≡ expect_headers
    → IsValid buf
    → content buf ≡ headers_text hs rest
    → All IsHeader hs
    → length hs < fuel
    → (buf' : Buffer) × (parse_loop fuel c buf time true
        ≡ finished
            (record {
              state = got_all;
              request = record c.request { headers = insert_all c.request.headers hs };
            })
            buf'
            true)
      × Holds rest buf'
parse_loop-headers [] zero c buf time rest s valid e h n = absurd (omega arith)
parse_loop-headers [] (suc fuel) c buf time rest s valid e h n =
    let (buf', made, holds) = header_round-end c buf rest valid e in
    (
      buf',
      parse_loop-last fuel c buf time true _ (round_in-headers c buf time _ s made) refl,
      holds,
    )
parse_loop-headers (h ∷ hs) zero c buf time rest s valid e ok n = absurd (omega arith)
parse_loop-headers ((f, v) ∷ hs) (suc fuel) c buf time rest s valid e ok n =
    let (buf', made, holds) = header_round-text c buf f v (headers_text hs rest) valid e ok.0 in
    let c' = record c { request = record c.request { headers = insert f v c.request.headers } } in
    let (buf'', done, ends) =
      parse_loop-headers hs fuel c' buf' time rest s holds.valid holds.same ok.1 (omega arith) in
    (
      buf'',
      parse_loop-more fuel c buf time true _ (round_in-headers c buf time _ s made) refl ∙ done,
      ends,
    )

-- A request as a client writes it.
