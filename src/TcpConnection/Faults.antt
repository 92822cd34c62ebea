-- ===== src/TcpConnection/Faults.antt =====
-- muduo/net/TcpConnection.cpp: where the socket refuses a write.
use learn_muduo.Prelude.{
  ℕ, ◌-◌, ◌^◌, ◌<◌, ◌≡◌, ◌∙◌, refl, Bool, true, false, List, [], ◌∷◌, none, some, arith, length,
  lt→ltb, leb, leb→le, lt→ltb, if◌then◌else◌, take,
}
use learn_muduo.Buffer.{content, retrieve, readable_bytes}
use learn_muduo.Buffer.Content.{length-content}
use learn_muduo.Buffer.Space.{append-Holds}
use learn_muduo.Channel.{is_writing, enable_writing}
use learn_muduo.TcpConnection.{
  TcpConnection, connected, Effect, refused, would_block, attempt, written, high_water_effects,
  send_in_loop, handle_write, Errno,
}
use learn_muduo.TcpConnection.Laws.{IsSound}

nil_of : (xs : List ℕ) → length xs ≡ 0 → xs ≡ []
nil_of [] e = refl
nil_of (x ∷ xs) e = absurd (omega (arith, e))

-- On a sound, connected connection without pending output, a message that is not empty and that the
-- socket refuses for the time being is queued shifted: the byte in memory before it comes first,
-- and its own last byte is lost.
pub send_in_loop-shifted :
    (t : TcpConnection) (before : ℕ) (message : List ℕ)
    → IsSound t
    → t.state ≡ connected
    → readable_bytes t.output ≡ 0
    → 0 < length message
    → (t' : TcpConnection) × (effects : List Effect) × (send_in_loop t before message
          (refused would_block)
        ≡ some (t', effects))
      × (content t'.output ≡ take (length message) (before ∷ message))
send_in_loop-shifted t before message s up empty more =
    let (output, made, holds) =
      append-Holds t.output (take (length message) (before ∷ message)) s.output_valid in
    let idle = not_writing (is_writing t.channel) refl in
    (
      record t {
        output = output;
        channel = if is_writing t.channel then t.channel else enable_writing t.channel;
      },
      high_water_effects t (length message),
      unfold send_in_loop attempt written in
          rw (up, idle, empty) (rw (lt→ltb 0 (length message) more, made) refl),
      holds.same
          ∙ rw
              (nil_of (content t.output)
                (omega (arith, length-content t.output s.output_valid, empty)))
              refl,
    )
  where
    not_writing : (b : Bool) → is_writing t.channel ≡ b → is_writing t.channel ≡ false
    not_writing true e = absurd (omega (arith, s.waits e, empty))
    not_writing false e = e

-- Any error of `write` on a connection that waits to write, with less pending output than the
-- largest size, fails the assertion of `Buffer::retrieve`: the result -1 is read as that size.
pub handle_write-refused :
    (t : TcpConnection) (e : Errno)
    → is_writing t.channel ≡ true
    → readable_bytes t.output < 2 ^ 64 - 1
    → handle_write t (refused e) ≡ none
handle_write-refused t e waiting small =
    unfold handle_write retrieve in
    rw waiting (rw (beyond (leb (2 ^ 64 - 1) (readable_bytes t.output)) refl) refl)
  where
    beyond :
        (b : Bool)
        → leb (2 ^ 64 - 1) (readable_bytes t.output) ≡ b
        → leb (2 ^ 64 - 1) (readable_bytes t.output) ≡ false
    beyond true e = absurd (omega (arith, leb→le (2 ^ 64 - 1) (readable_bytes t.output) e, small))
    beyond false e = e
