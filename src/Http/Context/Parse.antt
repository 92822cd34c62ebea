-- ===== src/Http/Context/Parse.antt =====
-- muduo/net/http/HttpContext.cpp: `parseRequest` reads what a client writes.
use learn_muduo.Prelude.{
  ℕ, ◌+◌, ◌≤◌, ◌≡◌, ◌≢◌, ◌∙◌, refl, ap, true, List, [], ◌∷◌, ◌++◌, Option, some, arith, length,
  Lacks, All, length-append,
}
use learn_muduo.Buffer.{Buffer, IsValid, content}
use learn_muduo.Buffer.Space.{Holds}
use learn_muduo.Http.Request.{HttpRequest, empty_request, Method, Version, unknown}
use learn_muduo.Http.Context.{
  HttpContext, fresh_context, expect_headers, got_all, finished, request_line_round, parse_request,
}
use learn_muduo.Http.Context.Line.{request_line, query_text, process_request_line-text}
use learn_muduo.Http.Context.Lines.{
  retrieve_line, find_line, without_line, header_text, IsHeader, headers_text, insert_all,
  parse_loop-more, round_in-request_line, parse_loop-headers,
}

pub record Message : Type 0 where
  pub method : Method
  pub path : List ℕ
  pub query : Option (List ℕ)
  pub version : Version
  pub fields : List (List ℕ × List ℕ)

abbrev pub line_of : Message → List ℕ
line_of m = request_line m.method m.path m.query m.version

abbrev pub text_of : Message → List ℕ → List ℕ
text_of m rest = line_of m ++ b'\r' ∷ b'\n' ∷ headers_text m.fields rest

-- What the protocol asks of a message: a method and a version that the server knows, a path with no
-- '?', a target with no space, one line each, and headers with a colon and a trimmed value.
pub record IsMessage (m : Message) : Type 0 where
  pub known_method : m.method ≢ Method.invalid
  pub known_version : m.version ≢ unknown
  pub plain_path : Lacks b'?' m.path
  pub no_space : Lacks b' ' (m.path ++ query_text m.query)
  pub one_line : Lacks b'\r' (line_of m)
  pub headers : All IsHeader m.fields

-- The request that the parser should make of a message that came at a time.
abbrev pub request_of : Message → ℕ → HttpRequest
request_of m time = record {
  method = m.method;
  version = m.version;
  path = m.path;
  query = query_text m.query;
  receive_time = time;
  headers = insert_all [] m.fields;
}

length-headers_text :
    (hs : List (List ℕ × List ℕ)) (rest : List ℕ) → length hs + 2 ≤ length (headers_text hs rest)
length-headers_text [] rest = omega arith
length-headers_text ((f, v) ∷ hs) rest = omega (
  arith,
  length-append (header_text (f, v)) (b'\r' ∷ b'\n' ∷ headers_text hs rest),
  length-headers_text hs rest,
)

-- A message at the front of a valid buffer, whatever follows it, is parsed in one call from a fresh
-- context: the call succeeds, the context holds exactly the message's request and is complete, and
-- the buffer keeps just what follows.
pub parse_request-text :
    (m : Message) (buf : Buffer) (time : ℕ) (rest : List ℕ)
    → IsMessage m
    → IsValid buf
    → content buf ≡ text_of m rest
    → (buf' : Buffer) × (parse_request fresh_context buf time
        ≡ finished (record { state = got_all; request = request_of m time }) buf' true)
      × Holds rest buf'
parse_request-text m buf time rest good valid e =
    let (buf', made, holds) =
      retrieve_line buf (line_of m) (headers_text m.fields rest) valid e good.one_line in
    let parsed =
      process_request_line-text empty_request m.method m.path m.query m.version refl refl
        good.known_method good.plain_path good.no_space good.known_version in
    let c' : HttpContext = record {
      state = expect_headers;
      request = record (request_of m time) { headers = [] };
    } in
    let first : request_line_round fresh_context buf time true
        ≡ some (record { context = c'; buf = buf'; ok = true; has_more = true }) =
      unfold request_line_round in
      rw (
        find_line buf (line_of m) (headers_text m.fields rest) valid e good.one_line,
        request_line_round,
        without_line buf (line_of m) (headers_text m.fields rest) valid e good.one_line,
        parsed,
        made,
      ) in
    let (buf'', done, ends) =
      parse_loop-headers m.fields (length (content buf)) c' buf' time rest refl holds.valid
        holds.same good.headers
        (omega (
          arith,
          ap length e,
          length-append (line_of m) (b'\r' ∷ b'\n' ∷ headers_text m.fields rest),
          length-headers_text m.fields rest,
        )) in
    (
      buf'',
      unfold parse_request in
          parse_loop-more (length (content buf)) fresh_context buf time true _
            (round_in-request_line fresh_context buf time _ refl first) refl
          ∙ done,
      ends,
    )
