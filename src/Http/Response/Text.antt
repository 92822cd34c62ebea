-- ===== src/Http/Response/Text.antt =====
-- muduo/net/http/HttpResponse.cpp: the text that `appendToBuffer` writes.
use learn_muduo.Prelude.{
  ℕ, ◌^◌, ◌<◌, ◌≡◌, ◌∙◌, refl, sym, ap, subst, Bool, true, false, List, [], ◌∷◌, ◌++◌, Option, some,
  arith, codes, length, length-append, if◌then◌else◌, ◌>>=◌, append_assoc, append-nil, decimal, All,
  take-all, lt→ltb, ◌%◌, length-decimal, snprintf, snprintf-fits,
}
use learn_muduo.Buffer.{Buffer, IsValid, content, append, append_string, int_size}
use learn_muduo.Buffer.Space.{Holds, append-Holds}
use learn_muduo.Http.Response.{
  HttpResponse, StatusCode, code_number, append_headers, append_length, append_to_buffer, crlf,
  unknown, ok200, moved_permanently301, bad_request400, not_found404,
}

-- The call succeeds on every valid buffer, and adds the text behind the content.
pub record Writes (f : Buffer → Option Buffer) (text : List ℕ) : Type 0 where
  pub apply :
      (b : Buffer) → IsValid b → (b' : Buffer) × (f b ≡ some b') × Holds (content b ++ text) b'

-- A length below 2 ^ 31 is an `int`.
abbrev pub IsShort : List ℕ → Type 0
IsShort xs = length xs < 2 ^ 31

int_size-fits : (n : ℕ) → n < 2 ^ 31 → int_size n ≡ some n
int_size-fits n h =
    let small : n % 2 ^ 32 ≡ n = omega arith in rw small (rw (lt→ltb n (2 ^ 31) h) refl)

append_string-Writes : (xs : List ℕ) → IsShort xs → Writes (λ b. append_string b xs) xs
unfolding append_string
append_string-Writes xs h = record {
  apply = λ b v.
      let (b', made, holds) = append-Holds b xs v in
      (
        b',
        rw (int_size-fits (length xs) h)
            (ap (append b) (take-all (length xs) xs (omega arith)) ∙ made),
        holds,
      );
}

-- A call after another one adds its text behind.
then-Writes :
    (f g : Buffer → Option Buffer) (xs ys : List ℕ)
    → Writes f xs
    → Writes g ys
    → Writes (λ b. f b >>= g) (xs ++ ys)
then-Writes f g xs ys wf wg = record {
  apply = λ b v.
      let (b', made, holds) = wf.apply b v in
      let (b'', done, ends) = wg.apply b' holds.valid in
      (
        b'',
        rw made done,
        record {
          valid = ends.valid;
          same = ends.same ∙ (ap (λ zs. zs ++ ys) holds.same ∙ append_assoc (content b) xs ys);
        },
      );
}

-- The header lines in the order of the map.
abbrev pub header_lines : List (List ℕ × List ℕ) → List ℕ
header_lines [] = []
header_lines ((key, value) ∷ rest) = key ++ (codes ": " ++ (value ++ (crlf ++ header_lines rest)))

append_headers-Writes :
    (hs : List (List ℕ × List ℕ))
    → All (λ h. IsShort h.0 × IsShort h.1) hs
    → Writes (append_headers hs) (header_lines hs)
unfolding append_headers
append_headers-Writes [] short = record {
  apply = λ b v. (b, refl, record { valid = v; same = sym (append-nil (content b)) });
}
append_headers-Writes ((key, value) ∷ rest) ((short_key, short_value), short) =
    then-Writes (λ b. append_string b key) _ key _ (append_string-Writes key short_key)
      (then-Writes (λ b. append_string b (codes ": ")) _ (codes ": ") _
        (append_string-Writes _ (omega arith))
        (then-Writes (λ b. append_string b value) _ value _ (append_string-Writes value short_value)
          (then-Writes (λ b. append_string b crlf) (append_headers rest) crlf (header_lines rest)
            (append_string-Writes crlf (omega arith)) (append_headers-Writes rest short))))

-- The line on the connection: the close notice, or the length of the body and the keep-alive notice.
abbrev pub connection_lines : HttpResponse → List ℕ
connection_lines r =
    if r.close_connection
    then codes "Connection: close\r\n"
    else (codes "Content-Length: " ++ (decimal (length r.body) ++ crlf))
      ++ codes "Connection: Keep-ALive\r\n"

abbrev pub response_text : HttpResponse → List ℕ
response_text r =
    (codes "HTTP/1.1 " ++ (decimal (code_number r.status_code) ++ codes " "))
    ++ (r.status_message
        ++ (codes "\r\n"
            ++ (connection_lines r ++ (header_lines r.headers ++ (codes "\r\n" ++ r.body)))))

code_number-lt : (c : StatusCode) → code_number c < 10 ^ 3
code_number-lt unknown = omega arith
code_number-lt ok200 = omega arith
code_number-lt moved_permanently301 = omega arith
code_number-lt bad_request400 = omega arith
code_number-lt not_found404 = omega arith

status-fits :
    (c : StatusCode) → length (codes "HTTP/1.1 " ++ (decimal (code_number c) ++ codes " ")) < 32
status-fits c = omega (
  arith,
  length-append (decimal (code_number c)) (codes " "),
  length-decimal (code_number c) 2 (code_number-lt c),
)

length-fits : (n : ℕ) → n < 10 ^ 13 → length (codes "Content-Length: " ++ (decimal n ++ crlf)) < 32
length-fits n h = omega (arith, length-append (decimal n) crlf, length-decimal n 12 h)

append-snprintf-Writes :
    (text : List ℕ) → length text < 32 → Writes (λ b. append_string b (snprintf 32 text)) text
append-snprintf-Writes text h =
    subst (λ s. Writes (λ b. append_string b s) text) (sym (snprintf-fits 32 text h))
      (append_string-Writes text (omega (arith, h)))

connection-Writes :
    (r : HttpResponse) (close : Bool)
    → IsShort r.body
    → Writes
        (λ b. if close then append_string b (codes "Connection: close\r\n") else append_length r b)
        (if close
          then codes "Connection: close\r\n"
          else (codes "Content-Length: " ++ (decimal (length r.body) ++ crlf))
            ++ codes "Connection: Keep-ALive\r\n")
connection-Writes r true h = append_string-Writes _ (omega arith)
connection-Writes r false h =
    unfold append_length in
    then-Writes (λ b. append_string b (snprintf 32 sized)) _ sized _
      (append-snprintf-Writes sized (length-fits (length r.body) (omega (arith, h))))
      (append_string-Writes _ (omega arith))
  where
    sized : List ℕ
    sized = codes "Content-Length: " ++ (decimal (length r.body) ++ crlf)

-- The strings of a response have lengths that are an `int`.
pub record HasShort (r : HttpResponse) : Type 0 where
  pub message : IsShort r.status_message
  pub headers : All (λ h. IsShort h.0 × IsShort h.1) r.headers
  pub body : IsShort r.body

-- `appendToBuffer` succeeds on every valid buffer and adds the whole response behind the content:
-- the status line, the connection lines, the headers in the order of the map, the empty line and the
-- body, none cut off, where each string of the response has fewer than 2 ^ 31 bytes.
pub append_to_buffer-Writes :
    (r : HttpResponse) → HasShort r → Writes (append_to_buffer r) (response_text r)
unfolding append_to_buffer
append_to_buffer-Writes r h =
    then-Writes (λ b. append_string b (snprintf 32 status)) _ status _
      (append-snprintf-Writes status (status-fits r.status_code))
      (then-Writes (λ b. append_string b r.status_message) _ r.status_message _
        (append_string-Writes _ h.message)
        (then-Writes (λ b. append_string b (codes "\r\n")) _ (codes "\r\n") _
          (append_string-Writes _ (omega arith))
          (then-Writes _ _ (connection_lines r) _ (connection-Writes r r.close_connection h.body) (
            then-Writes (append_headers r.headers) _ (header_lines r.headers) _
              (append_headers-Writes r.headers h.headers)
              (then-Writes (λ b. append_string b (codes "\r\n")) _ (codes "\r\n") r.body
                (append_string-Writes _ (omega arith)) (append_string-Writes r.body h.body))))))
  where
    status : List ℕ
    status = codes "HTTP/1.1 " ++ (decimal (code_number r.status_code) ++ codes " ")
