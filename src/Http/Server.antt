-- ===== src/Http/Server.antt =====
-- muduo/net/http/HttpServer.cpp: the handlers. The connection is what they ask of it: bytes to send,
-- and to shut down. The callback is a parameter, and returns the response that it fills in.
pub mod Replies
pub mod Refused
use learn_muduo.Prelude.{
  ℕ, Bool, true, false, ◌&&◌, ◌||◌, not, List, [], ◌∷◌, ◌++◌, Option, none, some, codes,
  if◌then◌else◌, ◌>>=◌, eq_bytes,
}
use learn_muduo.Buffer.{Buffer, content, initial_size}
use learn_muduo.Buffer
use learn_muduo.Http.Request.{HttpRequest, Version, http10, unknown, http11, get_header}
use learn_muduo.Http.Response.{HttpResponse, not_found404, append_to_buffer}
use learn_muduo.Http.Response
use learn_muduo.Http.Context.{
  HttpContext, fresh_context, finished, aborted, running, is_got_all, parse_request, reset,
}

pub data Action : Type 0 where
  sends : List ℕ → Action
  shuts_down : Action

unfoldable pub default_http_callback : HttpRequest → HttpResponse → HttpResponse
default_http_callback req resp = record resp {
  status_code = not_found404;
  status_message = codes "Not Found";
  close_connection = true;
}

-- `onConnection`: a connection that is up gets a context.
unfoldable pub on_connection : Bool → Option HttpContext → Option HttpContext
on_connection connected old = if connected then some fresh_context else old

abbrev is_http10 : Version → Bool
is_http10 http10 = true
is_http10 http11 = false
is_http10 unknown = false

-- Whether the client wants the connection closed behind the response.
unfoldable pub wants_close : HttpRequest → Bool
unfolding get_header
wants_close req =
    let connection = get_header req (codes "Connection") in
    eq_bytes connection (codes "close")
    || (is_http10 req.version && not (eq_bytes connection (codes "Keep-Alive")))

-- What a handler does: it returns with a context, a buffer and its calls on the connection, or an
-- assertion fails, or it does not return.
pub data Handled : Type 0 where
  done : HttpContext → Buffer → List Action → Handled
  crashed hung : Handled

abbrev pub bad_request : List Action
bad_request = sends (codes "HTTP/1.1 400 Bad Request\r\n\r\n") ∷ shuts_down ∷ []

module _ (http_callback : HttpRequest → HttpResponse → HttpResponse) where
  unfoldable pub on_request : HttpRequest → Option (List Action)
  unfolding wants_close
  on_request req = do
    let response = http_callback req (Response.init (wants_close req))
    buf ← append_to_buffer response (Buffer.init initial_size)
    some (sends (content buf) ∷ (if response.close_connection then shuts_down ∷ [] else []))

  -- The part behind the parse, with the calls made so far.
  unfoldable pub answer : HttpContext → Buffer → List Action → Handled
  answer context buf calls =
      if is_got_all context.state
      then elim (on_request context.request) [
        | none ↦ crashed
        | some more ↦ done (reset context) buf (calls ++ more)
      ]
      else done context buf calls

  unfoldable pub on_message : HttpContext → Buffer → ℕ → Handled
  on_message context buf time = elim (parse_request context buf time) [
    | running ↦ hung
    | aborted ↦ crashed
    | finished context' buf' ok ↦ answer context' buf' (if ok then [] else bad_request)
  ]
