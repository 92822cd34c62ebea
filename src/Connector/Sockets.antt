-- ===== src/Connector/Sockets.antt =====
-- muduo/net/Connector.cpp: what becomes of the sockets.
use learn_muduo.Prelude.{
  ℕ, ◌+◌, ◌≡◌, refl, sym, ap₂, inl, inr, Bool, true, false, List, [], ◌∷◌, Option, none, some,
  arith, ◌==◌, if◌then◌else◌, Bool-cases, Option-cases,
}
use learn_muduo.Channel.{Channel, enable_writing, disable_all, remove, is_none_event}
use learn_muduo.Channel
use learn_muduo.Connector.{
  Connector, init_retry_delay_ms, States, disconnected, connecting, connected, is_disconnected,
  is_connecting, Effect, opens, closes, passes, queues_reset_channel, Stepped, Errno, retry,
  is_null, begin_connecting, Branch, goes_on, tries_again, gives_up, branch_of, connect,
  start_in_loop, start, stop, restart, remove_and_reset_channel, stop_in_loop, reset_channel,
  Report, so_error, self_connect, succeeds, on_report, handle_write, handle_error,
}

-- The calls of users, the functors that the loop runs, and the events of the channel.
pub data Call : Type 0 where
  starts stops resets stops_in_loop fails : Call
  starts_in_loop restarts : ℕ → Errno → Call
  becomes_writable : Report → Call

unfoldable pub step : Call → Connector → Stepped
step starts c = some (start c)
step stops c = some (stop c)
step resets c = some (reset_channel c, [])
step stops_in_loop c = stop_in_loop c
step fails c = handle_error c
step (starts_in_loop sockfd e) c = start_in_loop c sockfd e
step (restarts sockfd e) c = restart c sockfd e
step (becomes_writable report) c = handle_write c report

abbrev pub one_if : Bool → ℕ
one_if b = if b then 1 else 0

abbrev pub opened_by : ℕ → Effect → ℕ
opened_by fd (opens g) = one_if (g == fd)
opened_by fd e = 0

abbrev pub released_by : ℕ → Effect → ℕ
released_by fd (closes g) = one_if (g == fd)
released_by fd (passes g) = one_if (g == fd)
released_by fd e = 0

-- How often a socket was made, and how often it was closed or handed over.
abbrev pub opened : ℕ → List Effect → ℕ
opened fd [] = 0
opened fd (e ∷ es) = opened_by fd e + opened fd es

abbrev pub released : ℕ → List Effect → ℕ
released fd [] = 0
released fd (e ∷ es) = released_by fd e + released fd es

-- The socket that a connector in the state `kConnecting` waits on.
abbrev pub held_by : States → Option Channel → ℕ → ℕ
held_by connecting (some ch) fd = one_if (ch.fd == fd)
held_by connecting none fd = 0
held_by disconnected ch fd = 0
held_by connected ch fd = 0

abbrev pub held : Connector → ℕ → ℕ
held c fd = held_by c.state c.channel fd

-- Each socket that was held or made is closed, handed over or held.
pub record Balances (fd : ℕ) (c c' : Connector) (effects : List Effect) : Type 0 where
  pub even : held c fd + opened fd effects ≡ released fd effects + held c' fd

abbrev pub OnResult : (Connector → List Effect → Type 0) → Stepped → Type 0
OnResult P none = Unit {0}
OnResult P (some (c, effects)) = P c effects

-- `restart` and the functor that resets the channel come when the connector does not wait on a socket.
abbrev pub Allowed : Call → Connector → Type 0
Allowed resets c = is_connecting c.state ≡ false
Allowed (restarts sockfd e) c = is_connecting c.state ≡ false
Allowed call c = Unit {0}

retry-Balances :
    (fd : ℕ) (c : Connector) (sockfd : ℕ)
    → (released fd (retry c sockfd).1 ≡ one_if (sockfd == fd))
      × (opened fd (retry c sockfd).1 ≡ 0)
      × (held (retry c sockfd).0 fd ≡ 0)
unfolding retry
retry-Balances fd c sockfd = ground arith

is_connecting-connecting : (s : States) → is_connecting s ≡ true → s ≡ connecting
is_connecting-connecting connecting e = refl
is_connecting-connecting disconnected e = cc
is_connecting-connecting connected e = cc

not_connecting-held :
    (s : States) (channel : Option Channel) (fd : ℕ)
    → is_connecting s ≡ false
    → held_by s channel fd ≡ 0
not_connecting-held connecting channel fd e = cc
not_connecting-held disconnected channel fd e = refl
not_connecting-held connected channel fd e = refl

connecting-held :
    (fd : ℕ) (c : Connector) (ch : Channel)
    → is_connecting c.state ≡ true
    → c.channel ≡ some ch
    → held c fd ≡ one_if (ch.fd == fd)
connecting-held fd c ch e channel =
    ap₂ (λ s o. held_by s o fd) (is_connecting-connecting c.state e) channel

dereferenced :
    (c : Connector) (ch : Channel)
    → c.channel ≡ some ch
    → (c' : Connector) × (remove_and_reset_channel c ≡ some (c', ch.fd))
unfolding remove_and_reset_channel remove disable_all is_none_event
dereferenced c ch e =
    (record c { channel = some (record ch { events = 0; added_to_loop = false }) }, rw e refl)

dereferenced_null : (c : Connector) → c.channel ≡ none → remove_and_reset_channel c ≡ none
unfolding remove_and_reset_channel
dereferenced_null c e = rw e refl

-- The socket is closed by `retry`.
closed-even :
    (fd : ℕ) (c c' : Connector) (ch : Channel)
    → is_connecting c.state ≡ true
    → c.channel ≡ some ch
    → Balances fd c (retry c' ch.fd).0 (queues_reset_channel ∷ (retry c' ch.fd).1)
closed-even fd c c' ch e channel =
    let (closed, unopened, rests) = retry-Balances fd c' ch.fd in
    record { even = omega (arith, connecting-held fd c ch e channel, closed, unopened, rests) }

same-even : (fd : ℕ) (c : Connector) → Balances fd c c []
same-even fd c = record { even = omega arith }

stop_in_loop-Balances : (fd : ℕ) (c : Connector) → OnResult (Balances fd c) (stop_in_loop c)
stop_in_loop-Balances fd c = elim (Bool-cases (is_connecting c.state)) [
  | inr idle ↦ unfold stop_in_loop in rw idle (same-even fd c)
  | inl waits ↦ elim (Option-cases c.channel) [
    | inl null ↦
        unfold stop_in_loop in
        rw (waits, dereferenced_null (record c { state = disconnected }) null) tt
    | inr (ch, channel) ↦
        let (c', made) = dereferenced (record c { state = disconnected }) ch channel in
        unfold stop_in_loop in rw (waits, made) (closed-even fd c c' ch waits channel)
  ]
]

handle_error-Balances : (fd : ℕ) (c : Connector) → OnResult (Balances fd c) (handle_error c)
handle_error-Balances fd c = elim (Bool-cases (is_connecting c.state)) [
  | inr idle ↦ unfold handle_error in rw idle (same-even fd c)
  | inl waits ↦ elim (Option-cases c.channel) [
    | inl null ↦ unfold handle_error in rw (waits, dereferenced_null c null) tt
    | inr (ch, channel) ↦
        let (c', made) = dereferenced c ch channel in
        unfold handle_error in rw (waits, made) (closed-even fd c c' ch waits channel)
  ]
]

handle_write-Balances :
    (fd : ℕ) (c : Connector) (report : Report) → OnResult (Balances fd c) (handle_write c report)
handle_write-Balances fd c report = elim (Bool-cases (is_connecting c.state)) [
  | inr idle ↦ elim (Bool-cases (is_disconnected c.state)) [
    | inl down ↦ unfold handle_write in rw (idle, down) (same-even fd c)
    | inr up ↦ unfold handle_write in rw (idle, up) tt
  ]
  | inl waits ↦ elim (Option-cases c.channel) [
    | inl null ↦ unfold handle_write in rw (waits, dereferenced_null c null) tt
    | inr (ch, channel) ↦
        let (c', made) = dereferenced c ch channel in
        unfold handle_write in rw (waits, made) (reported report c' ch waits channel)
  ]
]
  where
    reported :
        (report : Report) (c' : Connector) (ch : Channel)
        → is_connecting c.state ≡ true
        → c.channel ≡ some ch
        → Balances fd c
            (on_report report c' ch.fd).0
            (queues_reset_channel ∷ (on_report report c' ch.fd).1)
    reported so_error c' ch e channel = closed-even fd c c' ch e channel
    reported self_connect c' ch e channel = closed-even fd c c' ch e channel
    reported succeeds c' ch e channel = elim (Bool-cases c'.connect_asked) [
      | inl asked ↦ rw asked (record { even = omega (arith, connecting-held fd c ch e channel) })
      | inr unasked ↦
          rw unasked (record { even = omega (arith, connecting-held fd c ch e channel) })
    ]

connect-Balances :
    (fd : ℕ) (c : Connector) (sockfd : ℕ) (e : Errno)
    → is_connecting c.state ≡ false
    → OnResult (Balances fd c) (connect c sockfd e)
connect-Balances fd c sockfd e idle = by_branch (branch_of e) refl
  where
    before : held c fd ≡ 0
    before = not_connecting-held c.state c.channel fd idle

    by_branch : (b : Branch) → branch_of e ≡ b → OnResult (Balances fd c) (connect c sockfd e)
    by_branch goes_on h = elim (Bool-cases (is_null c.channel)) [
      | inl free ↦
          unfold connect begin_connecting Channel.init enable_writing in
          rw h (rw free (record { even = omega (arith, before) }))
      | inr pending ↦ unfold connect begin_connecting in rw h (rw pending tt)
    ]
    by_branch tries_again h =
        let (closed, unopened, rests) = retry-Balances fd c sockfd in
        unfold connect in rw h (record { even = omega (arith, before, closed, unopened, rests) })
    by_branch gives_up h = unfold connect in rw h (record { even = omega (arith, before) })

disconnected-idle : (s : States) → is_disconnected s ≡ true → is_connecting s ≡ false
disconnected-idle disconnected e = refl
disconnected-idle connecting e = cc
disconnected-idle connected e = cc

start_in_loop-Balances :
    (fd : ℕ) (c : Connector) (sockfd : ℕ) (e : Errno)
    → OnResult (Balances fd c) (start_in_loop c sockfd e)
start_in_loop-Balances fd c sockfd e = elim (Bool-cases (is_disconnected c.state)) [
  | inr busy ↦ unfold start_in_loop in rw busy tt
  | inl down ↦
      unfold start_in_loop in rw down (asks c.connect_asked (disconnected-idle c.state down))
]
  where
    asks :
        (b : Bool)
        → is_connecting c.state ≡ false
        → OnResult (Balances fd c) (if b then connect c sockfd e else some (c, []))
    asks true idle = connect-Balances fd c sockfd e idle
    asks false idle = same-even fd c

-- From a connector that holds the same.
same_start :
    (fd : ℕ) (c u : Connector) (r : Stepped)
    → held u fd ≡ held c fd
    → OnResult (Balances fd u) r
    → OnResult (Balances fd c) r
same_start fd c u none h b = tt
same_start fd c u (some (v, effects)) h b = record { even = omega (arith, h, b.even) }

-- No call but a `restart` or the reset of the channel while the connector waits on a socket loses a
-- socket or closes it twice: a socket that `connect` makes, or that the connector waited on, is closed
-- once, handed over once, or waited on, for every answer of the system, where no assertion fails.
pub step-Balances :
    (fd : ℕ) (call : Call) (c : Connector) → Allowed call c → OnResult (Balances fd c) (step call c)
unfolding step
step-Balances fd starts c a = unfold start in record { even = omega arith }
step-Balances fd stops c a = unfold stop in record { even = omega arith }
step-Balances fd resets c a =
    unfold reset_channel in
    record {
      even = omega (
        arith,
        not_connecting-held c.state c.channel fd a,
        not_connecting-held c.state none fd a,
      );
    }
step-Balances fd stops_in_loop c a = stop_in_loop-Balances fd c
step-Balances fd fails c a = handle_error-Balances fd c
step-Balances fd (starts_in_loop sockfd e) c a = start_in_loop-Balances fd c sockfd e
step-Balances fd (restarts sockfd e) c a =
    let u = record c {
      state = disconnected;
      retry_delay_ms = init_retry_delay_ms;
      connect_asked = true;
    } in
    unfold restart in
    same_start fd c u (start_in_loop u sockfd e) (sym (not_connecting-held c.state c.channel fd a))
      (start_in_loop-Balances fd u sockfd e)
step-Balances fd (becomes_writable report) c a = handle_write-Balances fd c report
