-- ===== src/Http/Response.antt =====
-- muduo/net/http/HttpResponse.h and HttpResponse.cpp. A string is appended as a `StringPiece`, with its length
-- as an `int`.
pub mod Text
use learn_muduo.Prelude.{
  ℕ, Bool, true, false, List, [], ◌∷◌, ◌++◌, Option, some, codes, length, if◌then◌else◌, ◌>>=◌,
  insert, decimal, snprintf,
}
use learn_muduo.Buffer.{Buffer, append_string}

pub data StatusCode : Type 0 where
  unknown ok200 moved_permanently301 bad_request400 not_found404 : StatusCode

abbrev pub code_number : StatusCode → ℕ
code_number unknown = 0
code_number ok200 = 200
code_number moved_permanently301 = 301
code_number bad_request400 = 400
code_number not_found404 = 404

pub record HttpResponse : Type 0 where
  pub headers : List (List ℕ × List ℕ)
  pub status_code : StatusCode
  pub status_message : List ℕ
  pub close_connection : Bool
  pub body : List ℕ

-- The constructor.
abbrev pub init : Bool → HttpResponse
init close = record {
  headers = [];
  status_code = unknown;
  status_message = [];
  close_connection = close;
  body = [];
}

unfoldable pub add_header : HttpResponse → List ℕ → List ℕ → HttpResponse
add_header r key value = record r { headers = insert key value r.headers }

unfoldable pub set_content_type : HttpResponse → List ℕ → HttpResponse
unfolding add_header
set_content_type r value = add_header r (codes "Content-Type") value

abbrev pub crlf : List ℕ
crlf = b'\r' ∷ b'\n' ∷ []

-- The loop over the headers, in the order of the map.
unfoldable pub append_headers : List (List ℕ × List ℕ) → Buffer → Option Buffer
append_headers [] output = some output
append_headers ((key, value) ∷ rest) output = do
  a ← append_string output key
  b ← append_string a (codes ": ")
  c ← append_string b value
  d ← append_string c crlf
  append_headers rest d

unfoldable pub append_length : HttpResponse → Buffer → Option Buffer
append_length r output = do
  a ←
      append_string output
        (snprintf 32 (codes "Content-Length: " ++ (decimal (length r.body) ++ crlf)))
  append_string a (codes "Connection: Keep-ALive\r\n")

unfoldable pub append_to_buffer : HttpResponse → Buffer → Option Buffer
append_to_buffer r output = do
  a ←
      append_string output
        (snprintf 32 (codes "HTTP/1.1 " ++ (decimal (code_number r.status_code) ++ codes " ")))
  b ← append_string a r.status_message
  c ← append_string b (codes "\r\n")
  d ←
      if r.close_connection
      then append_string c (codes "Connection: close\r\n")
      else append_length r c
  e ← append_headers r.headers d
  f ← append_string e (codes "\r\n")
  append_string f r.body
