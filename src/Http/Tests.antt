-- ===== src/Http/Tests.antt =====
-- muduo/net/http: the theorems at a short request.
use learn_muduo.Prelude.{
  ℕ, ◌+◌, ◌≡◌, refl, Bool, true, false, ◌&&◌, not, List, [], ◌∷◌, ◌++◌, some, codes, arith, length,
  length-append, take-all, drop, ap, replicate, ◌==◌, Lacks,
}
use learn_muduo.Buffer.{Buffer, IsValid, content}
use learn_muduo.Buffer.Space.{Holds}
use learn_muduo.Http.Request.{method_string, Method, http11, skip_spaces, trim_end, is_space}
use learn_muduo.Http.Request.{HttpRequest}
use learn_muduo.Http.Response.{HttpResponse, ok200}
use learn_muduo.Http.Context.{HttpContext, fresh_context, got_all, finished, parse_request}
use learn_muduo.Http.Context.Parse.{Message, IsMessage, text_of, request_of, parse_request-text}
use learn_muduo.Http.Server.{default_http_callback, on_message, done, crashed, bad_request}
use learn_muduo.Http.Response.Text.{HasShort}
use learn_muduo.Http.Server.Replies.{response_to, replies, Sound, on_message-text, on_message-Sound}
use learn_muduo.Http.Server.Refused.{refused_context, on_message-cut}

abbrev lacks : ℕ → List ℕ → Bool
lacks c [] = true
lacks c (x ∷ xs) = not (x == c) && lacks c xs

lacks-Lacks : (c : ℕ) (xs : List ℕ) → lacks c xs ≡ true → Lacks c xs
lacks-Lacks c [] e = tt
lacks-Lacks c (x ∷ xs) e = (λ h. ground (arith, e, h), lacks-Lacks c xs (ground (arith, e)))

-- A GET with a query and one header.
abbrev message : Message
message = record {
  method = Method.get;
  path = codes "/hello";
  query = some (codes "a=1");
  version = http11;
  fields = (codes "Host", codes "muduo") ∷ [];
}

message-IsMessage : IsMessage message
unfolding method_string
message-IsMessage = record {
  known_method = λ e. cc;
  known_version = λ e. cc;
  plain_path = lacks-Lacks b'?' (codes "/hello") refl;
  no_space = lacks-Lacks b' ' (codes "/hello?a=1") refl;
  one_line = lacks-Lacks b'\r' (codes "GET /hello?a=1 HTTP/1.1") refl;
  headers = (
    (
      lacks-Lacks b':' (codes "Host") refl,
      lacks-Lacks b'\r' (codes "Host: muduo") refl,
      (unfold skip_spaces is_space in refl, unfold trim_end is_space in refl),
    ),
    tt,
  );
}

-- A buffer that holds a text behind the eight bytes for prepending.
abbrev holding : List ℕ → Buffer
holding text = record {
  bytes = replicate 8 0 ++ text;
  reader_index = 8;
  writer_index = 8 + length text;
}

holding-IsValid : (text : List ℕ) → IsValid (holding text)
holding-IsValid text = record {
  ordered = omega arith;
  inside = omega (arith, length-append (replicate 8 0) text);
  large = omega (arith, length-append (replicate 8 0) text);
}

holding-content : (text : List ℕ) → content (holding text) ≡ text
holding-content text = ap (drop 8) (
    take-all (8 + length text) (replicate 8 0 ++ text)
      (omega (arith, length-append (replicate 8 0) text)))

parse_request-text_example :
    (buf' : Buffer) × (parse_request fresh_context (holding (text_of message (codes "GET"))) 9
      ≡ finished (record { state = got_all; request = request_of message 9 }) buf' true)
    × Holds (codes "GET") buf'
parse_request-text_example =
    parse_request-text message (holding (text_of message (codes "GET"))) 9 (codes "GET")
      message-IsMessage (holding-IsValid (text_of message (codes "GET")))
      (holding-content (text_of message (codes "GET")))

abbrev complete : HttpContext
complete = record { state = got_all; request = request_of message 9 }

abbrev response : HttpResponse
response = record {
  headers = (codes "Server", codes "Muduo") ∷ [];
  status_code = ok200;
  status_message = codes "OK";
  close_connection = false;
  body = codes "hello, world";
}

default_http_callback-HasShort :
    (req : HttpRequest) → HasShort (response_to default_http_callback req)
unfolding default_http_callback
default_http_callback-HasShort req = record {
  message = omega arith;
  headers = tt;
  body = omega arith;
}

on_message-text_example :
    (buf' : Buffer) × (on_message default_http_callback fresh_context
        (holding (text_of message []))
        9
      ≡ done fresh_context buf' (replies default_http_callback (request_of message 9)))
    × Holds [] buf'
on_message-text_example =
    on_message-text default_http_callback message (holding (text_of message [])) 9 []
      message-IsMessage (holding-IsValid (text_of message []))
      (holding-content (text_of message [])) (default_http_callback-HasShort (request_of message 9))

on_message-Sound_example :
    Sound default_http_callback
      (on_message default_http_callback fresh_context (holding (codes "GET / HT")) 9)
on_message-Sound_example =
    on_message-Sound default_http_callback fresh_context (holding (codes "GET / HT")) 9
      default_http_callback-HasShort refl (holding-IsValid (codes "GET / HT"))

abbrev cut : Buffer
cut = holding (codes "GET /\r\n")

on_message-cut_example :
    (on_message default_http_callback fresh_context cut 9
      ≡ done (refused_context Method.get) cut bad_request)
    × ((more : List ℕ) (later : Buffer) (time' : ℕ)
        → IsValid later
        → content later ≡ content cut ++ more
        → on_message default_http_callback (refused_context Method.get) later time' ≡ crashed)
unfolding method_string
on_message-cut_example =
    on_message-cut Method.get (codes "/") (λ e. cc) (lacks-Lacks b' ' (codes "/") refl)
      (lacks-Lacks b'\r' (codes "GET /") refl) default_http_callback [] cut 9
      (holding-IsValid (codes "GET /\r\n")) (holding-content (codes "GET /\r\n"))
