-- ===== src/Http/Context/Loop.antt =====
-- muduo/net/http/HttpContext.cpp: the loop of `parseRequest` ends.
use learn_muduo.Prelude.{
  ℕ, zero, suc, ◌+◌, ◌≤◌, ◌<◌, ◌≡◌, refl, ap, ◌⊎◌, inl, inr, Bool, true, false, List, some, arith,
  length, take, drop, ◌==◌, Bool-cases, Option-cases, le→leb, find_byte, length-drop, not,
  if◌then◌else◌,
}
use learn_muduo.Buffer.{Buffer, IsValid, content, readable_bytes, find_crlf, retrieve_until}
use learn_muduo.Buffer.Content.{length-content}
use learn_muduo.Buffer.Space.{Holds, retrieve-Holds}
use learn_muduo.Buffer.Search.{find_crlf-bound}
use learn_muduo.Http.Request.{HttpRequest, Method, add_header, method_of, is_invalid, set_method}
use learn_muduo.Http.Context.{
  HttpContext, ParseState, expect_request_line, expect_headers, expect_body, got_all, Round,
  Outcome, finished, running, process_request_line, process_target, request_line_round,
  header_round, round_in, parse_loop, parse_request,
}

-- A context from which the parser may be called: no request is left complete, and the method is
-- unset as long as the request line is awaited.
abbrev pub ReadyIn : ParseState → Method → Type 0
ReadyIn expect_request_line m = m ≡ Method.invalid
ReadyIn expect_headers m = Unit {0}
ReadyIn expect_body m = ⊥
ReadyIn got_all m = ⊥

abbrev pub IsReady : HttpContext → Type 0
IsReady c = ReadyIn c.state c.request.method

-- A context after a successful call: ready for more input, or complete.
abbrev pub Settled : HttpContext → Type 0
Settled c = IsReady c ⊎ (c.state ≡ got_all)

pub retrieve_until-Holds :
    (b : Buffer) (n : ℕ)
    → IsValid b
    → n ≤ readable_bytes b
    → (b' : Buffer) × (retrieve_until b n ≡ some b') × Holds (drop n (content b)) b'
retrieve_until-Holds b n v h =
    let (b', made, holds) = retrieve-Holds b n v h in
    (b', unfold retrieve_until in rw (le→leb _ _ h) made, holds)

-- A round that goes on leaves a ready context and less input; one that stops leaves a settled
-- context if it succeeded.
record Goes (buf : Buffer) (r : Round) : Type 0 where
  valid : IsValid r.buf
  going :
      r.has_more ≡ true
      → IsReady r.context × (r.ok ≡ true) × (length (content r.buf) < length (content buf))
  stopped : r.has_more ≡ false → r.ok ≡ true → Settled r.context
  refused : r.ok ≡ false → r.context.state ≡ expect_request_line

invalid-ok : (m : Method) → m ≡ Method.invalid → is_invalid m ≡ true
unfolding is_invalid
invalid-ok m h = rw h

process_request_line-total :
    (r : HttpRequest) (line : List ℕ)
    → r.method ≡ Method.invalid
    → (r' : HttpRequest) × (good : Bool) × (process_request_line r line ≡ some (r', good))
process_request_line-total r line h = elim (Bool-cases (find_byte b' ' line == length line)) [
  | inl missing ↦ (r, false, unfold process_request_line in rw missing)
  | inr found ↦
      let s = find_byte b' ' line in
      let r' = record r { method = method_of (take s line) } in
      let known = not (is_invalid (method_of (take s line))) in
      let next : HttpRequest × Bool =
        if known then process_target r' (drop (s + 1) line) else (r', false) in
      (next.0, next.1, unfold process_request_line set_method in rw (found, invalid-ok r.method h))
]

-- What is left behind a line is valid and shorter.
after_line :
    (buf : Buffer) (crlf : ℕ)
    → IsValid buf
    → find_crlf buf ≡ some crlf
    → (buf' : Buffer) × (retrieve_until buf (crlf + 2) ≡ some buf')
      × IsValid buf'
      × (length (content buf') < length (content buf))
after_line buf crlf v e =
    let fits = find_crlf-bound buf crlf v e in
    let (buf', made, holds) = retrieve_until-Holds buf (crlf + 2) v fits in
    (
      buf',
      made,
      holds.valid,
      omega
          (arith, ap length holds.same, length-drop (crlf + 2) (content buf), length-content buf v),
    )

request_line-found :
    (c : HttpContext) (buf buf' : Buffer) (time crlf : ℕ) (r : HttpRequest) (good : Bool)
    → c.state ≡ expect_request_line
    → IsValid buf
    → find_crlf buf ≡ some crlf
    → process_request_line c.request (take crlf (content buf)) ≡ some (r, good)
    → retrieve_until buf (crlf + 2) ≡ some buf'
    → IsValid buf'
    → length (content buf') < length (content buf)
    → (r : Round) × (request_line_round c buf time true ≡ some r) × Goes buf r
request_line-found c buf buf' time crlf r true s v found e made valid less = (
  record {
    context = record { state = expect_headers; request = record r { receive_time = time } };
    buf = buf';
    ok = true;
    has_more = true;
  },
  unfold request_line_round in rw (found, request_line_round) (rw (e, made)),
  record { valid = valid; going = λ _. (tt, refl, less); stopped = λ e. cc; refused = λ e. cc },
)
request_line-found c buf buf' time crlf r false s v found e made valid less = (
  record { context = record c { request = r }; buf = buf; ok = false; has_more = false },
  unfold request_line_round in rw (found, request_line_round) (rw e),
  record { valid = v; going = λ e. cc; stopped = λ _ e. cc; refused = λ _. s },
)

request_line_round-Goes :
    (c : HttpContext) (buf : Buffer) (time : ℕ)
    → IsValid buf
    → c.state ≡ expect_request_line
    → c.request.method ≡ Method.invalid
    → (r : Round) × (request_line_round c buf time true ≡ some r) × Goes buf r
request_line_round-Goes c buf time v s m = elim (Option-cases (find_crlf buf)) [
  | inl missing ↦ (
    record { context = c; buf = buf; ok = true; has_more = false },
    unfold request_line_round in rw (missing, request_line_round),
    record { valid = v; going = λ e. cc; stopped = λ _ _. inl (rw s m); refused = λ e. cc },
  )
  | inr (crlf, found) ↦
      let (buf', made, valid, less) = after_line buf crlf v found in
      let (r, good, e) = process_request_line-total c.request (take crlf (content buf)) m in
      request_line-found c buf buf' time crlf r good s v found e made valid less
]

header_round-Goes :
    (c : HttpContext) (buf : Buffer)
    → IsValid buf
    → c.state ≡ expect_headers
    → (r : Round) × (header_round c buf true ≡ some r) × Goes buf r
header_round-Goes c buf v s = elim (Option-cases (find_crlf buf)) [
  | inl missing ↦ (
    record { context = c; buf = buf; ok = true; has_more = false },
    unfold header_round in rw (missing, header_round),
    record { valid = v; going = λ e. cc; stopped = λ _ _. inl (rw s tt); refused = λ e. cc },
  )
  | inr (crlf, found) ↦
      let (buf', made, valid, less) = after_line buf crlf v found in
      let colon = find_byte b':' (take crlf (content buf)) in
      elim (Bool-cases (colon == crlf)) [
        | inl ends ↦ (
          record {
            context = record c { state = got_all };
            buf = buf';
            ok = true;
            has_more = false;
          },
          unfold header_round in rw (found, header_round) (rw (made, ends)),
          record { valid = valid; going = λ e. cc; stopped = λ _ _. inr refl; refused = λ e. cc },
        )
        | inr field ↦ (
          record {
            context = record c { request = add_header c.request (take crlf (content buf)) colon };
            buf = buf';
            ok = true;
            has_more = true;
          },
          unfold header_round in rw (found, header_round) (rw (made, field)),
          record {
            valid = valid;
            going = λ _. (rw s tt, refl, less);
            stopped = λ e. cc;
            refused = λ e. cc;
          },
        )
      ]
]

round_in-Goes :
    (s : ParseState) (c : HttpContext) (buf : Buffer) (time : ℕ)
    → c.state ≡ s
    → ReadyIn s c.request.method
    → IsValid buf
    → (r : Round) × (round_in s c buf time true ≡ some r) × Goes buf r
round_in-Goes expect_request_line c buf time e h v =
    let (r, made, goes) = request_line_round-Goes c buf time v e h in
    (r, unfold round_in in made, goes)
round_in-Goes expect_headers c buf time e h v =
    let (r, made, goes) = header_round-Goes c buf v e in (r, unfold round_in in made, goes)
round_in-Goes expect_body c buf time e h v = elim h [ ]
round_in-Goes got_all c buf time e h v = elim h [ ]

-- The loop has ended with a valid buffer, and a settled context if it succeeded.
pub data Ends : Outcome → Type 0 where
  ends :
      (c : HttpContext) (buf : Buffer) (ok : Bool)
      → IsValid buf
      → (ok ≡ true → Settled c)
      → (ok ≡ false → c.state ≡ expect_request_line)
      → Ends (finished c buf ok)

parse_loop-Ends :
    (fuel : ℕ) (c : HttpContext) (buf : Buffer) (time : ℕ)
    → IsReady c
    → IsValid buf
    → length (content buf) < fuel
    → Ends (parse_loop fuel c buf time true)
parse_loop-Ends zero c buf time h v f = absurd (omega arith)
parse_loop-Ends (suc fuel) c buf time h v f =
    let (r, made, goes) = round_in-Goes c.state c buf time refl h v in
    after r made goes (λ c' buf' h' v' f'. parse_loop-Ends fuel c' buf' time h' v' f')
  where
    after :
        (r : Round)
        → round_in c.state c buf time true ≡ some r
        → Goes buf r
        → ((c' : HttpContext) (buf' : Buffer)
            → IsReady c'
            → IsValid buf'
            → length (content buf') < fuel
            → Ends (parse_loop fuel c' buf' time true))
        → Ends (parse_loop (suc fuel) c buf time true)
    after r made goes ih = elim (Bool-cases r.has_more) [
      | inl more ↦
          let (ready, fine, less) = goes.going more in
          unfold parse_loop in
          rw (made, parse_loop)
            (rw (more, parse_loop) (rw fine (ih r.context r.buf ready goes.valid (omega arith))))
      | inr last ↦
          unfold parse_loop in
          rw (made, parse_loop)
            (rw (last, parse_loop)
              (ends r.context r.buf r.ok goes.valid (goes.stopped last) goes.refused))
    ]

pub parse_request-Ends :
    (c : HttpContext) (buf : Buffer) (time : ℕ)
    → IsReady c
    → IsValid buf
    → Ends (parse_request c buf time)
unfolding parse_request
parse_request-Ends c buf time h v = parse_loop-Ends _ c buf time h v (omega arith)

round_in-stuck :
    (s : ParseState) (c : HttpContext) (buf : Buffer) (time : ℕ) (ok : Bool)
    → (s ≡ expect_body) ⊎ (s ≡ got_all)
    → round_in s c buf time ok ≡ some (record { context = c; buf = buf; ok = ok; has_more = true })
unfolding round_in
round_in-stuck expect_body c buf time ok h = refl
round_in-stuck got_all c buf time ok h = refl
round_in-stuck expect_request_line c buf time ok h = ground arith
round_in-stuck expect_headers c buf time ok h = ground arith

-- From a context that holds a complete request, or awaits a body, no fuel is enough: the loop of
-- `parseRequest` never ends, so the caller has to reset the context first.
pub parse_loop-running :
    (fuel : ℕ) (c : HttpContext) (buf : Buffer) (time : ℕ) (ok : Bool)
    → (c.state ≡ expect_body) ⊎ (c.state ≡ got_all)
    → parse_loop fuel c buf time ok ≡ running
unfolding parse_loop
parse_loop-running zero c buf time ok h = refl
parse_loop-running (suc fuel) c buf time ok h =
    rw (round_in-stuck c.state c buf time ok h, parse_loop)
      (parse_loop-running fuel c buf time ok h)
