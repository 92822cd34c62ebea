-- ===== src/TcpConnection/Stream.antt =====
-- muduo/net/TcpConnection.cpp: the bytes that the socket took, with those that wait in the output,
-- are what was sent, in order.
use learn_muduo.Prelude.{
  ℕ, ◌≡◌, ◌∙◌, refl, sym, ap, subst, true, List, [], ◌∷◌, ◌++◌, append-nil, append_assoc, min, some,
  arith, length, ◌>>=◌,
}
use learn_muduo.Buffer.{content, readable_bytes}
use learn_muduo.TcpConnection.{
  TcpConnection, connected, is_connected, Effect, Written, wrote, send, send_in_loop, handle_write,
  Stepped,
}
use learn_muduo.TcpConnection.Laws.{IsSound, send_in_loop-IsSound, handle_write-IsSound}
use learn_muduo.TcpConnection.Order.{OnResult}
use learn_muduo.TcpConnection.Sent.{
  sent, sent-append, Passes, send_in_loop-Passes, handle_write-Passes,
}

-- What the loop's thread does with an open connection where no write reports an error: its user sends a
-- message, of which a direct write takes at most `n` bytes, or the socket is writable and takes at most
-- `n` bytes.
pub data Turn : Type 0 where
  says : List ℕ → ℕ → Turn
  flushes : ℕ → Turn

unfoldable pub turn : Turn → TcpConnection → Stepped
turn (says message n) t = send t true 0 message (wrote (min n (length message)))
turn (flushes n) t = handle_write t (wrote (min n (readable_bytes t.output)))

unfoldable pub turns : List Turn → TcpConnection → Stepped
turns [] t = some (t, [])
turns (c ∷ cs) t = do (t', first) ← turn c t; (t'', rest) ← turns cs t'; some (t'', first ++ rest)

abbrev pub said : List Turn → List ℕ
said [] = []
said (says message n ∷ cs) = message ++ said cs
said (flushes n ∷ cs) = said cs

-- A turn that has a result: a sound and open connection, and the bytes of a message.
pub record Carried (t : TcpConnection) (message : List ℕ) (r : Stepped) : Type 0 where
  pub after : TcpConnection
  pub effects : List Effect
  pub made : r ≡ some (after, effects)
  pub sound : IsSound after
  pub up : after.state ≡ connected
  pub passes : Passes t message after effects

pub result :
    (P : TcpConnection → List Effect → Type 0) {u : TcpConnection} {effects : List Effect}
    (r : Stepped)
    → r ≡ some (u, effects)
    → OnResult P r
    → P u effects
result P r h f = subst (OnResult P) h f

pub send_connected :
    (t : TcpConnection) (message : List ℕ) (w : Written)
    → is_connected t.state ≡ true
    → send t true 0 message w ≡ send_in_loop t 0 message w
unfolding send
send_connected t message w up = rw up refl

pub turn-Carried :
    (c : Turn) (t : TcpConnection)
    → IsSound t
    → t.state ≡ connected
    → Carried t (said (c ∷ [])) (turn c t)
unfolding turn
turn-Carried (says message n) t s up =
    let (u, effects, made, sound, same) =
      send_in_loop-IsSound t 0 message (wrote (min n (length message))) s (λ e. cc) (omega arith) in
    record {
      after = u;
      effects = effects;
      made = send_connected t message (wrote (min n (length message))) (ap is_connected up) ∙ made;
      sound = sound;
      up = same ∙ up;
      passes =
          result (Passes t (message ++ []))
            (send_in_loop t 0 message (wrote (min n (length message)))) made
            (subst
              (λ xs.
                OnResult (Passes t xs) (send_in_loop t 0 message (wrote (min n (length message)))))
              (sym (append-nil message))
              (send_in_loop-Passes t 0 message (min n (length message)) s (rw up refl)));
    }
turn-Carried (flushes n) t s up =
    let (u, effects, made, sound, same) =
      handle_write-IsSound t (min n (readable_bytes t.output)) s (omega arith) in
    record {
      after = u;
      effects = effects;
      made = made;
      sound = sound;
      up = same ∙ up;
      passes =
          result (Passes t []) (handle_write t (wrote (min n (readable_bytes t.output)))) made
            (handle_write-Passes t _ s (omega arith));
    }

said_cons : (c : Turn) (cs : List Turn) → said (c ∷ []) ++ said cs ≡ said (c ∷ cs)
said_cons (says message n) cs = append_assoc message [] (said cs)
said_cons (flushes n) cs = refl

joined :
    (xs ys : List ℕ) {zs : List ℕ}
    → xs ++ ys ≡ zs
    → (first rest : List Effect) (t u v : TcpConnection) → Passes t xs u first
    → Passes u ys v rest
    → Passes t zs v (first ++ rest)
joined xs ys e first rest t u v p q =
    ap (λ s. s ++ content v.output) (sent-append first rest)
    ∙ append_assoc (sent first) (sent rest) (content v.output)
    ∙ ap (λ s. sent first ++ s) q
    ∙ sym (append_assoc (sent first) (content u.output) ys)
    ∙ ap (λ s. s ++ ys) p
    ∙ append_assoc (content t.output) xs ys
    ∙ ap (λ s. content t.output ++ s) e

pub turns-Carried :
    (cs : List Turn) (t : TcpConnection)
    → IsSound t
    → t.state ≡ connected
    → Carried t (said cs) (turns cs t)
unfolding turns
turns-Carried [] t s up = record {
  after = t;
  effects = [];
  made = refl;
  sound = s;
  up = up;
  passes = sym (append-nil (content t.output));
}
turns-Carried (c ∷ cs) t s up =
    let first = turn-Carried c t s up in
    let rest = turns-Carried cs first.after first.sound first.up in
    record {
      after = rest.after;
      effects = first.effects ++ rest.effects;
      made = rw (first.made, rest.made) refl;
      sound = rest.sound;
      up = rest.up;
      passes =
          joined (said (c ∷ [])) (said cs) (said_cons c cs) first.effects rest.effects t first.after
            rest.after first.passes rest.passes;
    }

-- On a sound, connected connection, any series of sends from the loop's thread and of writable events
-- in which no write reports an error runs without a failed assertion, however little the writes take,
-- nothing included, and leaves a sound, connected connection; the bytes that the socket took, then those
-- still in the output, are those that were in the output at first, then the messages, in order.
pub turns-in_order :
    (cs : List Turn) (t : TcpConnection)
    → IsSound t
    → t.state ≡ connected
    → (t' : TcpConnection) × (effects : List Effect) × (turns cs t ≡ some (t', effects))
      × IsSound t'
      × (sent effects ++ content t'.output ≡ content t.output ++ said cs)
turns-in_order cs t s up =
    let r = turns-Carried cs t s up in (r.after, r.effects, r.made, r.sound, r.passes)
