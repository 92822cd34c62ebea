-- ===== src/TcpConnection/HalfClosed.antt =====
-- muduo/net/TcpConnection.cpp: a connection that is destroyed while it is up, or behind a shutdown.
use learn_muduo.Prelude.{
  ℕ, ◌≡◌, ◌∙◌, refl, sym, ap, subst, inl, inr, Bool, true, false, not, ◌&&◌, List, [], ◌∷◌, ◌++◌,
  none, some, length, min, ltb, ◌==◌, ◌>>=◌, Bool-cases, Option-cases, take, if◌then◌else◌,
}
use learn_muduo.Buffer.{append, retrieve, readable_bytes}
use learn_muduo.Channel.{
  Channel, is_reading, is_writing, is_none_event, enable_writing, enable_reading, disable_all,
  remove, tie,
}
use learn_muduo.Channel.Bits.{
  nothing, reads, writes, both, IsChannel, enable_writing-Watches, enable_reading-Watches,
  disable_writing-Watches,
}
use learn_muduo.TcpConnection.{
  TcpConnection, connecting, connected, disconnected, is_connected, is_disconnected,
  is_disconnecting, Effect, calls_connection, Written, wrote, as_size, attempt, within, from_offset,
  send_in_loop, handle_write, drained, shutdown, shutdown_in_loop, connect_established,
  connect_destroyed,
}
use learn_muduo.TcpConnection.Laws.{IsSound}
use learn_muduo.TcpConnection.Order.{OnResult}
use learn_muduo.TcpConnection.Handlers.{connect_established-IsSound}
use learn_muduo.TcpConnection.Stream.{
  Turn, says, flushes, turn, turns, result, turn-Carried, send_connected,
}

-- The reading interest of a result.
abbrev Reads : Bool → TcpConnection → List Effect → Type 0
Reads b u effects = is_reading u.channel ≡ b

send_in_loop-Reads :
    (t : TcpConnection) (before : ℕ) (message : List ℕ) (w : Written)
    → IsChannel t.channel
    → OnResult (Reads (is_reading t.channel)) (send_in_loop t before message w)
send_in_loop-Reads t before message w i = elim (Bool-cases (is_disconnected t.state)) [
  | inl gone ↦ unfold send_in_loop in rw gone refl
  | inr there ↦
      let a = attempt t message w in
      elim (Bool-cases (within a.nwrote (length message))) [
        | inr beyond ↦ unfold send_in_loop in rw (there, beyond) tt
        | inl fits ↦ elim (Bool-cases (not a.fault && ltb 0 a.remaining)) [
          | inr nothing_left ↦ unfold send_in_loop in rw (there, fits) (rw nothing_left refl)
          | inl more ↦
              elim (Option-cases
                (append t.output (take a.remaining (from_offset a.nwrote before message)))) [
                  | inl failed ↦ unfold send_in_loop in rw (there, fits) (rw (more, failed) tt)
                  | inr (output, made) ↦
                      unfold send_in_loop in rw (there, fits) (rw (more, made) channel)
                ]
        ]
      ]
]
  where
    channel :
        is_reading (if is_writing t.channel then t.channel else enable_writing t.channel)
        ≡ is_reading t.channel
    channel = elim (Bool-cases (is_writing t.channel)) [
      | inl e ↦ rw e refl
      | inr e ↦ rw e (enable_writing-Watches t.channel i).reads
    ]

drained-Reads :
    (t : TcpConnection)
    → IsChannel t.channel
    → is_reading (drained t).0.channel ≡ is_reading t.channel
unfolding drained
drained-Reads t i = elim (Bool-cases (is_disconnecting t.state)) [
  | inl half ↦ rw half (disable_writing-Watches t.channel i).reads
  | inr full ↦ rw full (disable_writing-Watches t.channel i).reads
]

handle_write-Reads :
    (t : TcpConnection) (w : Written)
    → IsChannel t.channel
    → OnResult (Reads (is_reading t.channel)) (handle_write t w)
handle_write-Reads t w i = elim (Bool-cases (is_writing t.channel)) [
  | inr idle ↦ unfold handle_write in rw idle refl
  | inl waits ↦ elim (Bool-cases (ltb 0 (as_size w))) [
    | inr nothing_sent ↦ unfold handle_write in rw (waits, nothing_sent) refl
    | inl some_sent ↦ elim (Option-cases (retrieve t.output (as_size w))) [
      | inl failed ↦ unfold handle_write in rw (waits, some_sent) (rw failed tt)
      | inr (output, made) ↦ elim (Bool-cases (readable_bytes output == 0)) [
        | inl empty ↦
            unfold handle_write in
            rw (waits, some_sent)
              (rw made (rw empty (drained-Reads (record t { output = output }) i)))
        | inr rest ↦ unfold handle_write in rw (waits, some_sent) (rw made (rw rest refl))
      ]
    ]
  ]
]

turn-Reads :
    (c : Turn) (t : TcpConnection)
    → IsSound t
    → t.state ≡ connected
    → OnResult (Reads (is_reading t.channel)) (turn c t)
unfolding turn
turn-Reads (says message n) t s up =
    subst (OnResult (Reads (is_reading t.channel)))
      (sym (send_connected t message (wrote (min n (length message))) (ap is_connected up)))
      (send_in_loop-Reads t 0 message (wrote (min n (length message))) s.interest)
turn-Reads (flushes n) t s up =
    handle_write-Reads t (wrote (min n (readable_bytes t.output))) s.interest

-- A connection that reads reads on behind sends and writable events.
turns-Reads :
    (cs : List Turn) (t : TcpConnection)
    → IsSound t
    → t.state ≡ connected
    → is_reading t.channel ≡ true
    → (u : TcpConnection) × (effects : List Effect) × (turns cs t ≡ some (u, effects))
      × IsSound u
      × (u.state ≡ connected)
      × (is_reading u.channel ≡ true)
unfolding turns
turns-Reads [] t s up reading = (t, [], refl, s, up, reading)
turns-Reads (c ∷ cs) t s up reading =
    let first = turn-Carried c t s up in
    let reads_on =
      result (Reads (is_reading t.channel)) (turn c t) first.made (turn-Reads c t s up) in
    let (u, effects, made, sound, up', reading') =
      turns-Reads cs first.after first.sound first.up (reads_on ∙ reading) in
    (u, first.effects ++ effects, rw (first.made, made) refl, sound, up', reading')

watched : (c : Channel) → IsChannel c → is_reading c ≡ true → is_none_event c ≡ false
unfolding is_reading is_none_event
watched c (nothing e) h =
    let bad : false ≡ true = sym (ap (λ n. is_reading (record c { events = n })) e) ∙ h in cc
watched c (reads e) h = rw e refl
watched c (writes e) h = rw e refl
watched c (both e) h = rw e refl

abbrev established : TcpConnection → TcpConnection
established t = record t { state = connected; channel = enable_reading (tie t.channel) }

connect_established-made :
    (t : TcpConnection)
    → t.state ≡ connecting
    → connect_established t ≡ some (established t, calls_connection ∷ [])
connect_established-made t e = unfold connect_established in rw e refl

connect_destroyed-up :
    (t : TcpConnection)
    → t.state ≡ connected
    → (u : TcpConnection) × (connect_destroyed t ≡ some (u, calls_connection ∷ []))
      × (u.state ≡ disconnected)
connect_destroyed-up t up = (
  record t {
    state = disconnected;
    channel = record t.channel { events = 0; added_to_loop = false };
  },
  unfold connect_destroyed remove is_none_event disable_all in rw up refl,
  refl,
)

shutdown-destroyed :
    (t : TcpConnection) (in_loop : Bool)
    → t.state ≡ connected
    → is_none_event t.channel ≡ false
    → connect_destroyed (shutdown t in_loop).0 ≡ none
unfolding shutdown shutdown_in_loop connect_destroyed remove
shutdown-destroyed t true up busy = rw up (rw busy refl)
shutdown-destroyed t false up busy = rw up (rw busy refl)

-- Whatever a user sends on a sound connection behind `connectEstablished`, and however little the writes,
-- which report no error, take: where the connection is then destroyed, it goes down, and its callback is
-- called; where its user shuts it down before, `connectDestroyed` fails an assertion.
pub connect_destroyed-half_closed :
    (t : TcpConnection) (cs : List Turn) (in_loop : Bool)
    → IsSound t
    → t.state ≡ connecting
    → (u : TcpConnection) × (down : TcpConnection) × (effects : List Effect) × ((do
      (t', first) ← connect_established t
      turns cs t')
        ≡ some (u, effects))
      × (connect_destroyed u ≡ some (down, calls_connection ∷ []))
      × (down.state ≡ disconnected)
      × (connect_destroyed (shutdown u in_loop).0 ≡ none)
connect_destroyed-half_closed t cs in_loop s e =
    let w = enable_reading-Watches (tie t.channel) (unfold tie in s.interest) in
    let made = connect_established-made t e in
    let sound = subst (OnResult (λ u effects. IsSound u)) made (connect_established-IsSound t s) in
    let (u, effects, runs, sound', up, reading) =
      turns-Reads cs (established t) sound refl w.reads in
    let (down, destroyed, ended) = connect_destroyed-up u up in
    (
      u,
      down,
      effects,
      rw made runs,
      destroyed,
      ended,
      shutdown-destroyed u in_loop up (watched u.channel sound'.interest reading),
    )
