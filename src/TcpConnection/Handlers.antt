-- ===== src/TcpConnection/Handlers.antt =====
-- muduo/net/TcpConnection.cpp: the handlers that read, come up and go down keep a connection sound.
use mathlib.Core.Bool.{false≢true}
use learn_muduo.Prelude.{
  ℕ, ◌≤◌, ◌<◌, ◌≡◌, ◌≢◌, ◌∙◌, refl, sym, ap, subst, inl, inr, Bool, true, false, List, [], ◌∷◌,
  some, arith, length, ltb, if◌then◌else◌, Bool-cases,
}
use learn_muduo.Buffer.{Buffer, Received, failed, got, vector_lengths, readable_bytes, IsValid}
use learn_muduo.Buffer.ReadFd.{read_fd-Holds}
use learn_muduo.Channel.{
  Channel, is_writing, remove, disable_all, enable_reading, tie, is_none_event,
}
use learn_muduo.Channel.Bits.{
  IsChannel, Watches, enable_reading-Watches, disable_all-Watches, nothing,
}
use learn_muduo.TcpConnection.{
  TcpConnection, StateE, disconnected, connecting, connected, disconnecting, is_open, is_connected,
  Effect, calls_message, wrote, refused, connect_established, connect_destroyed, handle_read,
  handle_close,
}
use learn_muduo.TcpConnection.Laws.{IsSound, Answers}
use learn_muduo.TcpConnection.Order.{OnResult}
use learn_muduo.TcpConnection.Run.{Call, sends, runs_send, reads, becomes_writable}

-- What the kernel and the users keep to: a write takes no more than it is given and a writable socket
-- does not refuse, a message callback leaves a valid buffer, and no connection is given bytes before it
-- is up.
abbrev pub Allowed : Call → TcpConnection → Type 0
Allowed (sends in_loop before message w) t = Answers w (length message)
Allowed (runs_send before message w) t = (t.state ≢ connecting) × Answers w (length message)
Allowed (reads message_callback readv) t = (b : Buffer) → IsValid b → IsValid (message_callback b)
Allowed (becomes_writable (wrote n)) t = n ≤ readable_bytes t.output
Allowed (becomes_writable (refused e)) t = ⊥
Allowed c t = Unit {0}

abbrev pub Sound : TcpConnection → List Effect → Type 0
Sound t effects = IsSound t

-- The same output and writing interest on a connection that is as open as before.
pub record Keeps (t u : TcpConnection) : Type 0 where
  pub input_valid : IsValid u.input
  pub output : u.output ≡ t.output
  pub interest : IsChannel u.channel
  pub writing : is_writing u.channel ≡ is_writing t.channel
  pub opened : is_open u.state ≡ is_open t.state
  pub starting : u.state ≡ connecting → t.state ≡ connecting

kept-IsSound : (t u : TcpConnection) → IsSound t → Keeps t u → IsSound u
kept-IsSound t u s k = record {
  input_valid = k.input_valid;
  output_valid = rw k.output s.output_valid;
  interest = k.interest;
  waits = λ e. rw k.output (s.waits (sym k.writing ∙ e));
  flushes = λ o p.
      k.writing ∙ s.flushes (sym k.opened ∙ o) (subst (λ b. 0 < readable_bytes b) k.output p);
  rests = λ o. k.writing ∙ s.rests (sym k.opened ∙ o);
  starts = λ e. ap readable_bytes k.output ∙ s.starts (k.starting e);
}

-- Another state and channel.
pub rewired-IsSound :
    (t : TcpConnection) (state : StateE) (reading : Bool) (channel : Channel)
    → IsSound t
    → IsChannel channel
    → is_writing channel ≡ is_writing t.channel
    → is_open state ≡ is_open t.state
    → (state ≡ connecting → t.state ≡ connecting)
    → IsSound (record t { state = state; reading = reading; channel = channel })
rewired-IsSound t state reading channel s i w o k = kept-IsSound t _ s (record {
  input_valid = s.input_valid;
  output = refl;
  interest = i;
  writing = w;
  opened = o;
  starting = k;
})

-- A connection that went down, with nothing watched.
closed-IsSound :
    (t : TcpConnection) (channel : Channel)
    → IsSound t
    → IsChannel channel
    → is_writing channel ≡ false
    → IsSound (record t { state = disconnected; channel = channel })
closed-IsSound t channel s i w = record {
  input_valid = s.input_valid;
  output_valid = s.output_valid;
  interest = i;
  waits = λ e. absurd (false≢true (sym w ∙ e));
  flushes = λ e. absurd (false≢true e);
  rests = λ _. w;
  starts = λ e. cc;
}

apart : ¬ (disconnecting ≡ connecting)
apart e = cc

pub handle_close-IsSound : (t : TcpConnection) → IsSound t → OnResult Sound (handle_close t)
handle_close-IsSound t s = elim (Bool-cases (is_open t.state)) [
  | inl up ↦
      let w = disable_all-Watches t.channel in
      unfold handle_close in rw up (closed-IsSound t (disable_all t.channel) s w.kept w.writes)
  | inr down ↦ unfold handle_close in rw down tt
]

-- What else is written of a channel leaves its interest alone.
removed-is_writing : (c : Channel) → is_writing (record c { added_to_loop = false }) ≡ is_writing c
unfolding is_writing
removed-is_writing c = refl

tie-Watches : (c : Channel) → IsChannel c → Watches (enable_reading (tie c)) true (is_writing c)
unfolding tie is_writing
tie-Watches c i = enable_reading-Watches (record c { tied = true }) i

pub connect_established-IsSound :
    (t : TcpConnection) → IsSound t → OnResult Sound (connect_established t)
connect_established-IsSound t s = by_state t.state refl
  where
    established : t.state ≡ connecting → OnResult Sound (connect_established t)
    established e =
        let w = tie-Watches t.channel s.interest in
        let idle = s.rests (rw e refl) in
        unfold connect_established in
        rw e (record {
          input_valid = s.input_valid;
          output_valid = s.output_valid;
          interest = w.kept;
          waits = λ p. absurd (false≢true (sym idle ∙ sym w.writes ∙ p));
          flushes = λ _ p. absurd (omega (arith, s.starts e, p));
          rests = λ o. absurd (false≢true (sym o));
          starts = λ _. s.starts e;
        })

    by_state : (st : StateE) → t.state ≡ st → OnResult Sound (connect_established t)
    by_state connecting e = established e
    by_state connected e = unfold connect_established in rw e tt
    by_state disconnecting e = unfold connect_established in rw e tt
    by_state disconnected e = unfold connect_established in rw e tt

pub connect_destroyed-IsSound :
    (t : TcpConnection) → IsSound t → OnResult Sound (connect_destroyed t)
connect_destroyed-IsSound t s = elim (Bool-cases (is_connected t.state)) [
  | inl up ↦
      let w = disable_all-Watches t.channel in
      unfold connect_destroyed remove is_none_event disable_all in
      rw up (
        closed-IsSound t (record t.channel { events = 0; added_to_loop = false }) s (nothing refl)
          (unfold is_writing in refl))
  | inr down ↦ elim (Bool-cases (is_none_event t.channel)) [
    | inl idle ↦
        unfold connect_destroyed remove in
        rw (down, idle)
          (rewired-IsSound t t.state t.reading (record t.channel { added_to_loop = false }) s
            s.interest (removed-is_writing t.channel) refl (λ e. e))
    | inr watched ↦ unfold connect_destroyed remove in rw (down, watched) tt
  ]
]

pub handle_read-IsSound :
    (cb : Buffer → Buffer) (t : TcpConnection) (readv : List ℕ → Received)
    → ((b : Buffer) → IsValid b → IsValid (cb b))
    → IsSound t
    → OnResult Sound (handle_read cb t readv)
handle_read-IsSound cb t readv good s =
    let (input, made, holds) = read_fd-Holds readv t.input s.input_valid in
    unfold handle_read in rw made (received (readv (vector_lengths t.input)) input holds.valid)
  where
    with_input : (input : Buffer) → IsValid input → IsSound (record t { input = input })
    with_input input v =
        kept-IsSound t (record t { input = input }) s
          (record {
            input_valid = v;
            output = refl;
            interest = s.interest;
            writing = refl;
            opened = refl;
            starting = λ e. e;
          })

    received :
        (r : Received) (input : Buffer)
        → IsValid input
        → OnResult Sound (elim r [
          | failed errno ↦ some (record t { input = input }, [])
          | got bytes ↦
              if ltb 0 (length bytes)
              then some (record t { input = cb input }, calls_message ∷ [])
              else handle_close (record t { input = input })
        ])
    received (failed errno) input v = with_input input v
    received (got bytes) input v = elim (Bool-cases (ltb 0 (length bytes))) [
      | inl more ↦ rw more (with_input (cb input) (good input v))
      | inr none_left ↦
          rw none_left (handle_close-IsSound (record t { input = input }) (with_input input v))
    ]

pub half_closed-IsSound :
    (t : TcpConnection)
    → IsSound t
    → is_open t.state ≡ true
    → IsSound (record t { state = disconnecting })
half_closed-IsSound t s up =
    rewired-IsSound t disconnecting t.reading t.channel s s.interest refl (sym up)
      (λ e. absurd (apart e))
