-- ===== src/Http/Server/Refused.antt =====
-- muduo/net/http/HttpServer.cpp and HttpContext.cpp: what follows a request line that is refused.
use learn_muduo.Prelude.{
  ℕ, ◌+◌, ◌≡◌, ◌≢◌, ◌∙◌, refl, ap, true, false, List, ◌∷◌, ◌++◌, some, arith, length,
  find_byte-append, find_byte-Lacks, Lacks, take-append_left, drop-append_cons, ne→==, eq→==,
  length-append, append_assoc,
}
use learn_muduo.Buffer.{Buffer, IsValid, content}
use learn_muduo.Http.Request.{
  HttpRequest, Method, method_string, set_method, is_invalid, empty_request,
}
use learn_muduo.Http.Response.{HttpResponse}
use learn_muduo.Http.Context.{
  HttpContext, expect_request_line, fresh_context, finished, aborted, process_request_line,
  process_target, request_line_round, round_in, parse_loop, parse_request, is_got_all,
}
use learn_muduo.Http.Context.Line.{method_of-string, method_string-Lacks, is_invalid-known}
use learn_muduo.Http.Context.Lines.{find_line, without_line, parse_loop-last, round_in-request_line}
use learn_muduo.Http.Server.{done, crashed, bad_request, on_message, answer}

-- A request line that names a method, and whose target is not ended by a space.
abbrev pub cut_line : Method → List ℕ → List ℕ
cut_line m target = method_string m ++ b' ' ∷ target

process_request_line-cut :
    (m : Method) (target : List ℕ)
    → m ≢ Method.invalid
    → Lacks b' ' target
    → process_request_line empty_request (cut_line m target)
      ≡ some (record empty_request { method = m }, false)
process_request_line-cut m target known k =
    let name = method_string m in
    unfold process_request_line set_method process_target in
    rw
      (
        find_byte-append b' ' name target (method_string-Lacks m),
        take-append_left (length name) name (b' ' ∷ target) refl,
        drop-append_cons (length name + 1) name target b' ' refl,
        ne→== (length name) (length (name ++ b' ' ∷ target))
            (omega (arith, length-append name (b' ' ∷ target))),
        method_of-string m,
        is_invalid-known m known,
      )
      (unfold is_invalid in
        rw (find_byte-Lacks b' ' target k, eq→== (length target) (length target) refl))

-- The context that the refusal leaves.
abbrev pub refused_context : Method → HttpContext
refused_context m = record {
  state = expect_request_line;
  request = record empty_request { method = m };
}

module _ (m : Method) (target : List ℕ) (known : m ≢ Method.invalid) (k : Lacks b' ' target)
    (one_line : Lacks b'\r' (cut_line m target)) where
  parse_request-cut :
      (rest : List ℕ) (buf : Buffer) (time : ℕ)
      → IsValid buf
      → content buf ≡ cut_line m target ++ b'\r' ∷ b'\n' ∷ rest
      → parse_request fresh_context buf time ≡ finished (refused_context m) buf false
  parse_request-cut rest buf time v e =
      let line = cut_line m target in
      unfold parse_request in
      parse_loop-last (length (content buf)) fresh_context buf time true
        (record { context = refused_context m; buf = buf; ok = false; has_more = false })
        (round_in-request_line fresh_context buf time _ refl (
          unfold request_line_round in
          rw (
            find_line buf line rest v e one_line,
            request_line_round,
            without_line buf line rest v e one_line,
            process_request_line-cut m target known k,
          )))
        refl

  parse_request-again :
      (rest : List ℕ) (buf : Buffer) (time : ℕ)
      → IsValid buf
      → content buf ≡ cut_line m target ++ b'\r' ∷ b'\n' ∷ rest
      → parse_request (refused_context m) buf time ≡ aborted
  parse_request-again rest buf time v e =
      let line = cut_line m target in
      let name = method_string m in
      unfold parse_request parse_loop round_in request_line_round process_request_line set_method in
      rw (
        find_line buf line rest v e one_line,
        parse_loop,
        without_line buf line rest v e one_line,
        find_byte-append b' ' name target (method_string-Lacks m),
        ne→== (length name) (length (name ++ b' ' ∷ target))
            (omega (arith, length-append name (b' ' ∷ target))),
        is_invalid-known m known,
      )

  -- A request line that names a method but lacks its second space is answered with the 400 response
  -- and the shutdown, and stays in the buffer. The context keeps the method, so as soon as the client
  -- sends anything more, whatever it is, the assertion of `setMethod` fails and the server aborts.
  pub on_message-cut :
      (http_callback : HttpRequest → HttpResponse → HttpResponse) (rest : List ℕ) (buf : Buffer)
      (time : ℕ)
      → IsValid buf
      → content buf ≡ cut_line m target ++ b'\r' ∷ b'\n' ∷ rest
      → (on_message http_callback fresh_context buf time ≡ done (refused_context m) buf bad_request)
        × ((more : List ℕ) (later : Buffer) (time' : ℕ)
            → IsValid later
            → content later ≡ content buf ++ more
            → on_message http_callback (refused_context m) later time' ≡ crashed)
  on_message-cut http_callback rest buf time v e = (
    unfold on_message answer is_got_all in rw (parse_request-cut rest buf time v e, on_message),
    λ more later time' v' e'. unfold on_message in rw (crash more later time' v' e', on_message),
  )
    where
      crash :
          (more : List ℕ) (later : Buffer) (time' : ℕ)
          → IsValid later
          → content later ≡ content buf ++ more
          → parse_request (refused_context m) later time' ≡ aborted
      crash more later time' v' e' = parse_request-again (rest ++ more) later time' v' (
          e'
          ∙ (ap (λ xs. xs ++ more) e
              ∙ append_assoc (cut_line m target) (b'\r' ∷ b'\n' ∷ rest) more))
