-- ===== src/TcpConnection/Laws.antt =====
-- muduo/net/TcpConnection.cpp: what the handlers keep of a connection.
use mathlib.Core.Bool.{false≢true}
use learn_muduo.Prelude.{
  ℕ, ◌-◌, ◌≤◌, ◌<◌, ◌≡◌, ◌≢◌, ◌∙◌, refl, sym, ap, inl, inr, true, false, ◌&&◌, not, List, [], ◌∷◌,
  ◌++◌, some, arith, length, take, drop, ltb, le→leb, ◌==◌, ==_iff, if◌then◌else◌, Bool-cases,
  length-append, length-take, length-drop,
}
use learn_muduo.Buffer.{Buffer, IsValid, content, readable_bytes}
use learn_muduo.Buffer.Content.{length-content}
use learn_muduo.Buffer.Space.{Holds, append-Holds, retrieve-Holds}
use learn_muduo.Channel.{Channel, is_writing, is_reading, enable_writing, disable_writing}
use learn_muduo.Channel.Bits.{IsChannel, Watches, enable_writing-Watches, disable_writing-Watches}
use learn_muduo.TcpConnection.{
  TcpConnection, StateE, disconnected, connecting, connected, disconnecting, is_open,
  is_disconnected, is_disconnecting, Effect, wrote_bytes, Written, wrote, refused, Attempt,
  high_water_effects, attempt, written, from_offset, within, send_in_loop, drained, handle_write,
}

-- The invariant. Output is pending exactly while an open connection waits to write; a connection that
-- is not open does not wait to write, and one that is not up yet has no output.
pub record IsSound (t : TcpConnection) : Type 0 where
  pub input_valid : IsValid t.input
  pub output_valid : IsValid t.output
  pub interest : IsChannel t.channel
  pub waits : is_writing t.channel ≡ true → 0 < readable_bytes t.output
  pub flushes : is_open t.state ≡ true → 0 < readable_bytes t.output → is_writing t.channel ≡ true
  pub rests : is_open t.state ≡ false → is_writing t.channel ≡ false
  pub starts : t.state ≡ connecting → readable_bytes t.output ≡ 0

-- `write` takes no more than it was given.
abbrev pub Answers : Written → ℕ → Type 0
Answers (wrote n) len = n ≤ len
Answers (refused e) len = Unit {0}

record IsAttempt (before : ℕ) (message : List ℕ) (a : Attempt) : Type 0 where
  fits : within a.nwrote (length message) ≡ true
  exact : length (take a.remaining (from_offset a.nwrote before message)) ≡ a.remaining

written-IsAttempt :
    (t : TcpConnection) (before : ℕ) (message : List ℕ) (w : Written)
    → Answers w (length message)
    → IsAttempt before message (written t message w)
unfolding written
written-IsAttempt t before message (wrote n) h = record {
  fits = le→leb _ _ h;
  exact = omega (arith, length-take (length message - n) (drop n message), length-drop n message);
}
written-IsAttempt t before message (refused e) h = record {
  fits = refl;
  exact = omega (arith, length-take (length message) (before ∷ message));
}

attempt-IsAttempt :
    (t : TcpConnection) (before : ℕ) (message : List ℕ) (w : Written)
    → Answers w (length message)
    → IsAttempt before message (attempt t message w)
attempt-IsAttempt t before message w h =
    elim (Bool-cases (not (is_writing t.channel) && readable_bytes t.output == 0)) [
      | inl direct ↦ unfold attempt in rw direct (written-IsAttempt t before message w h)
      | inr queued ↦
          unfold attempt in
          rw queued (record {
            fits = le→leb 0 (length message) (omega arith);
            exact = omega (arith, length-take (length message) message);
          })
    ]

-- More output on an open connection that then waits to write.
buffered-IsSound :
    (t : TcpConnection) (output : Buffer) (channel : Channel) (xs : List ℕ)
    → IsSound t
    → Holds (content t.output ++ xs) output
    → 0 < length xs
    → is_open t.state ≡ true
    → Watches channel (is_reading t.channel) true
    → IsSound (record t { output = output; channel = channel })
buffered-IsSound t output channel xs s holds more opened w = record {
  input_valid = s.input_valid;
  output_valid = holds.valid;
  interest = w.kept;
  waits = λ _. size;
  flushes = λ _ _. w.writes;
  rests = λ e. cc;
  starts = λ e. absurd (not_connecting t.state opened e);
}
  where
    size : 0 < readable_bytes output
    size = omega (
      arith,
      length-content output holds.valid,
      ap length holds.same,
      length-append (content t.output) xs,
    )

    not_connecting : (st : StateE) → is_open st ≡ true → ¬ (st ≡ connecting)
    not_connecting connecting h e = cc
    not_connecting connected h e = cc
    not_connecting disconnected h e = cc
    not_connecting disconnecting h e = cc

open_of : (s : StateE) → is_disconnected s ≡ false → s ≢ connecting → is_open s ≡ true
open_of connected h k = refl
open_of disconnecting h k = refl
open_of disconnected h k = cc
open_of connecting h k = absurd (k refl)

watching : (c : Channel) → IsChannel c → is_writing c ≡ true → Watches c (is_reading c) true
watching c i e = record { kept = i; reads = refl; writes = e }

-- The channel behind a buffered message.
then_writing :
    (c : Channel)
    → IsChannel c
    → Watches (if is_writing c then c else enable_writing c) (is_reading c) true
then_writing c i = elim (Bool-cases (is_writing c)) [
  | inl e ↦ rw e (watching c i e)
  | inr e ↦ rw e (enable_writing-Watches c i)
]

-- `sendInLoop` succeeds on a sound connection that has been up, keeps it sound and keeps its state,
-- whatever `write` answers, as long as it takes no more than it was given.
pub send_in_loop-IsSound :
    (t : TcpConnection) (before : ℕ) (message : List ℕ) (w : Written)
    → IsSound t
    → t.state ≢ connecting
    → Answers w (length message)
    → (t' : TcpConnection) × (effects : List Effect) × (send_in_loop t before message w
        ≡ some (t', effects))
      × IsSound t'
      × (t'.state ≡ t.state)
send_in_loop-IsSound t before message w s up h = elim (Bool-cases (is_disconnected t.state)) [
  | inl gone ↦ (t, [], unfold send_in_loop in rw gone, s, refl)
  | inr there ↦
      let a = attempt t message w in
      let good = attempt-IsAttempt t before message w h in
      let xs = take a.remaining (from_offset a.nwrote before message) in
      let (output, made, holds) = append-Holds t.output xs s.output_valid in
      elim (Bool-cases (not a.fault && ltb 0 a.remaining)) [
        | inl more ↦ (
          record t {
            output = output;
            channel = if is_writing t.channel then t.channel else enable_writing t.channel;
          },
          a.effects ++ high_water_effects t a.remaining,
          unfold send_in_loop in rw (there, good.fits) (rw (more, made)),
          buffered-IsSound t output _ xs s holds (ground (arith, good.exact, more))
              (open_of t.state there up) (then_writing t.channel s.interest),
          refl,
        )
        | inr nothing ↦
            (t, a.effects, unfold send_in_loop in rw (there, good.fits) (rw nothing), s, refl)
      ]
]

-- A connection that is open after less output, with the writing interest as before.
drained-IsSound :
    (t : TcpConnection) (output : Buffer)
    → IsSound t
    → IsValid output
    → readable_bytes output ≡ 0
    → IsSound (drained (record t { output = output })).0
unfolding drained
drained-IsSound t output s v e =
    let w = disable_writing-Watches t.channel s.interest in
    elim (Bool-cases (is_disconnecting t.state)) [
      | inl half ↦ rw half (sound w)
      | inr full ↦ rw full (sound w)
    ]
  where
    sound :
        Watches (disable_writing t.channel) (is_reading t.channel) false
        → IsSound (record t { output = output; channel = disable_writing t.channel })
    sound w = record {
      input_valid = s.input_valid;
      output_valid = v;
      interest = w.kept;
      waits = λ p. absurd (false≢true (sym w.writes ∙ p));
      flushes = λ _ p. absurd (omega arith);
      rests = λ _. w.writes;
      starts = λ _. e;
    }

drained_state : (t : TcpConnection) → (drained t).0.state ≡ t.state
unfolding drained
drained_state t = ground arith

-- `handleWrite` succeeds on a sound connection where `write` reports a number of bytes up to the
-- pending output, keeps it sound and keeps its state.
pub handle_write-IsSound :
    (t : TcpConnection) (n : ℕ)
    → IsSound t
    → n ≤ readable_bytes t.output
    → (t' : TcpConnection) × (effects : List Effect) × (handle_write t (wrote n)
        ≡ some (t', effects))
      × IsSound t'
      × (t'.state ≡ t.state)
handle_write-IsSound t n s h = elim (Bool-cases (is_writing t.channel)) [
  | inr idle ↦ (t, [], unfold handle_write in rw idle, s, refl)
  | inl waiting ↦ elim (Bool-cases (ltb 0 n)) [
    | inr nothing ↦ (t, [], unfold handle_write in rw (waiting, nothing), s, refl)
    | inl some_taken ↦
        let (output, made, holds) = retrieve-Holds t.output n s.output_valid h in
        elim (Bool-cases (readable_bytes output == 0)) [
          | inl empty ↦ (
            (drained (record t { output = output })).0,
            wrote_bytes (take n (content t.output)) ∷ (drained (record t { output = output })).1,
            unfold handle_write in rw (waiting, some_taken, made) (rw empty),
            drained-IsSound t output s holds.valid ((==_iff _ 0).0 empty),
            drained_state (record t { output = output }),
          )
          | inr more ↦ (
            record t { output = output },
            wrote_bytes (take n (content t.output)) ∷ [],
            unfold handle_write in rw (waiting, some_taken, made) (rw more),
            record {
              input_valid = s.input_valid;
              output_valid = holds.valid;
              interest = s.interest;
              waits = λ _. ground (arith, more);
              flushes = λ _ _. waiting;
              rests = s.rests;
              starts = λ e. absurd (false≢true (sym (s.rests (rw e refl)) ∙ waiting));
            },
            refl,
          )
        ]
  ]
]
