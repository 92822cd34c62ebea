-- ===== src/Http/Server/Replies.antt =====
-- muduo/net/http/HttpServer.cpp: `onMessage` on requests of the protocol, and on any input.
use learn_muduo.Prelude.{
  ℕ, ◌≡◌, ◌∙◌, refl, ap, inl, inr, Bool, true, false, List, [], ◌∷◌, ◌++◌, some, if◌then◌else◌,
}
use learn_muduo.Buffer.{Buffer, IsValid, content, initial_size}
use learn_muduo.Buffer
use learn_muduo.Buffer.Space.{Holds}
use learn_muduo.Buffer.Queue.{init-Holds}
use learn_muduo.Http.Request.{HttpRequest, Method}
use learn_muduo.Http.Response.{HttpResponse, append_to_buffer}
use learn_muduo.Http.Response
use learn_muduo.Http.Response.Text.{HasShort, response_text, append_to_buffer-Writes}
use learn_muduo.Http.Context.{
  HttpContext, ParseState, expect_request_line, expect_headers, expect_body, got_all, fresh_context,
  Outcome, is_got_all, parse_request, reset,
}
use learn_muduo.Http.Context.Loop.{IsReady, ReadyIn, Settled, Ends, ends, parse_request-Ends}
use learn_muduo.Http.Context.Parse.{Message, IsMessage, text_of, request_of, parse_request-text}
use learn_muduo.Http.Server.{
  Action, sends, shuts_down, wants_close, Handled, done, bad_request, on_request, answer,
  on_message,
}

ready-not_complete : (s : ParseState) (m : Method) → ReadyIn s m → is_got_all s ≡ false
unfolding is_got_all
ready-not_complete expect_request_line m h = refl
ready-not_complete expect_headers m h = refl
ready-not_complete expect_body m h = refl
ready-not_complete got_all m h = elim h [ ]

module _ (http_callback : HttpRequest → HttpResponse → HttpResponse) where
  -- The response that the callback fills in for a request.
  abbrev pub response_to : HttpRequest → HttpResponse
  response_to req = http_callback req (Response.init (wants_close req))

  -- The calls that answer a request.
  abbrev pub replies : HttpRequest → List Action
  replies req =
      sends (response_text (response_to req))
      ∷ (if (response_to req).close_connection then shuts_down ∷ [] else [])

  on_request-replies :
      (req : HttpRequest)
      → HasShort (response_to req)
      → on_request http_callback req ≡ some (replies req)
  on_request-replies req h =
      let fresh = init-Holds initial_size in
      let (buf, made, holds) =
        (append_to_buffer-Writes (response_to req) h).apply (Buffer.init initial_size)
          fresh.valid in
      unfold on_request in
      rw (made, holds.same ∙ ap (λ xs. xs ++ response_text (response_to req)) fresh.same)

  -- A message at the front of a valid buffer, on a fresh context, is answered with the text of the
  -- response that the callback fills in for its request, and with a shutdown exactly if that response
  -- closes the connection; the context is fresh again, and the buffer keeps what follows the message.
  -- Each string of the response has fewer than 2 ^ 31 bytes.
  pub on_message-text :
      (m : Message) (buf : Buffer) (time : ℕ) (rest : List ℕ)
      → IsMessage m
      → IsValid buf
      → content buf ≡ text_of m rest
      → HasShort (response_to (request_of m time))
      → (buf' : Buffer) × (on_message http_callback fresh_context buf time
          ≡ done fresh_context buf' (replies (request_of m time)))
        × Holds rest buf'
  on_message-text m buf time rest good valid e h =
      let (buf', parsed, holds) = parse_request-text m buf time rest good valid e in
      (
        buf',
        unfold on_message answer is_got_all reset in
            rw (parsed, on_message) (rw (on_request-replies (request_of m time) h, answer)),
        holds,
      )

  -- What `onMessage` may leave behind.
  pub data Sound : Handled → Type 0 where
    ready :
        (c : HttpContext) (buf : Buffer) (calls : List Action)
        → IsReady c
        → IsValid buf
        → Sound (done c buf calls)
    refused : (c : HttpContext) (buf : Buffer) → IsValid buf → Sound (done c buf bad_request)

  answer-Sound :
      (c : HttpContext) (buf : Buffer) (ok : Bool)
      → ((req : HttpRequest) → HasShort (response_to req))
      → IsValid buf
      → (ok ≡ true → Settled c)
      → (ok ≡ false → c.state ≡ expect_request_line)
      → Sound (answer http_callback c buf (if ok then [] else bad_request))
  answer-Sound c buf true short v settled refusal = elim (settled refl) [
    | inl more ↦
        unfold answer in
        rw (ready-not_complete c.state c.request.method more) (ready c buf [] more v)
    | inr complete ↦
        unfold answer in
        rw (ap is_got_all complete) (
          unfold is_got_all in
          rw (on_request-replies c.request (short c.request))
            (ready (reset c) buf (replies c.request) (unfold reset in refl) v))
  ]
  answer-Sound c buf false short v settled refusal =
      unfold answer in rw (ap is_got_all (refusal refl)) (unfold is_got_all in refused c buf v)

  -- From a ready context and a valid buffer, whatever its bytes, `onMessage` returns, provided that the
  -- strings of the callback's responses have fewer than 2 ^ 31 bytes: no assertion fails, and either the context is
  -- ready for the next input, or the calls are the 400 response and the shutdown. The buffer is valid.
  pub on_message-Sound :
      (c : HttpContext) (buf : Buffer) (time : ℕ)
      → ((req : HttpRequest) → HasShort (response_to req))
      → IsReady c
      → IsValid buf
      → Sound (on_message http_callback c buf time)
  on_message-Sound c buf time short h v =
      after (parse_request c buf time) refl (parse_request-Ends c buf time h v)
    where
      after :
          (o : Outcome)
          → parse_request c buf time ≡ o
          → Ends o
          → Sound (on_message http_callback c buf time)
      after o e (ends c' buf' ok v' settled refusal) =
          unfold on_message in rw (e, on_message) (answer-Sound c' buf' ok short v' settled refusal)
