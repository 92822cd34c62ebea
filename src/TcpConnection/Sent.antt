-- ===== src/TcpConnection/Sent.antt =====
-- muduo/net/TcpConnection.cpp: what one send, or one writable event, does to the bytes.
use learn_muduo.Prelude.{
  ℕ, ◌+◌, ◌-◌, ◌≤◌, ◌≡◌, ◌∙◌, refl, sym, ap, ap₂, inl, inr, Bool, true, false, ◌&&◌, not, List, [],
  ◌∷◌, ◌++◌, append-nil, append_assoc, arith, length, ltb, ◌==◌, Bool-cases, take, drop, take-all,
  take-append-drop, length-drop, length-take,
}
use learn_muduo.Buffer.{content, readable_bytes}
use learn_muduo.Buffer.Content.{length-content}
use learn_muduo.Buffer.Space.{append-Holds, retrieve-Holds}
use learn_muduo.Channel.{is_writing}
use learn_muduo.TcpConnection.{
  TcpConnection, is_disconnected, write_complete, high_water, Effect, wrote_bytes, queues, wrote,
  Attempt, attempt, written, high_water_effects, effect_if, from_offset, within, send_in_loop,
  handle_write, drained, shutdown_in_loop,
}
use learn_muduo.TcpConnection.Laws.{IsSound}
use learn_muduo.TcpConnection.Order.{OnResult}

abbrev pub bytes_of : Effect → List ℕ
bytes_of (wrote_bytes xs) = xs
bytes_of e = []

-- The bytes that the socket took.
abbrev pub sent : List Effect → List ℕ
sent [] = []
sent (e ∷ es) = bytes_of e ++ sent es

pub sent-append : (xs ys : List Effect) → sent (xs ++ ys) ≡ sent xs ++ sent ys
sent-append [] ys = refl
sent-append (x ∷ xs) ys =
    ap (λ rest. bytes_of x ++ rest) (sent-append xs ys)
    ∙ sym (append_assoc (bytes_of x) (sent xs) (sent ys))

sent-effect_if : (b : Bool) (e : Effect) → bytes_of e ≡ [] → sent (effect_if b e) ≡ []
sent-effect_if true e h = rw h refl
sent-effect_if false e h = refl

-- `message` was given to the connection.
abbrev pub Passes : TcpConnection → List ℕ → TcpConnection → List Effect → Type 0
Passes t message t' effects = sent effects ++ content t'.output ≡ content t.output ++ message

nil_of : (xs : List ℕ) → length xs ≡ 0 → xs ≡ []
nil_of [] e = refl
nil_of (x ∷ xs) e = absurd (omega (arith, e))

-- What the direct write took, with what is left of the message behind it.
record Splits (t : TcpConnection) (before : ℕ) (message : List ℕ) (a : Attempt) : Type 0 where
  whole :
      sent a.effects ++ (content t.output ++ take a.remaining (from_offset a.nwrote before message))
      ≡ content t.output ++ message
  settled : a.fault ≡ false

take_rest : (n : ℕ) (xs : List ℕ) → take (length xs - n) (drop n xs) ≡ drop n xs
take_rest n xs = take-all (length xs - n) (drop n xs) (omega (arith, length-drop n xs))

written-Splits :
    (t : TcpConnection) (before : ℕ) (message : List ℕ) (n : ℕ)
    → content t.output ≡ []
    → Splits t before message (written t message (wrote n))
written-Splits t before message n empty = record {
  whole =
      unfold written in
      rw
        (
          empty,
          take_rest n message,
          sent-effect_if (n == length message && t.has_write_complete) (queues write_complete) refl,
        )
        (rw (append-nil (take n message)) (take-append-drop n message));
  settled = unfold written in refl;
}

attempt-Splits :
    (t : TcpConnection) (before : ℕ) (message : List ℕ) (n : ℕ)
    → IsSound t
    → Splits t before message (attempt t message (wrote n))
attempt-Splits t before message n s =
    elim (Bool-cases (not (is_writing t.channel) && readable_bytes t.output == 0)) [
      | inl direct ↦
          unfold attempt in
          rw direct (
            written-Splits t before message n (
              nil_of (content t.output)
                (ground (arith, direct, length-content t.output s.output_valid))))
      | inr queued ↦
          unfold attempt in
          rw queued (record {
            whole =
                ap (λ xs. content t.output ++ xs) (take-all (length message) message (omega arith));
            settled = refl;
          })
    ]

pub send_in_loop-Passes :
    (t : TcpConnection) (before : ℕ) (message : List ℕ) (n : ℕ)
    → IsSound t
    → is_disconnected t.state ≡ false
    → OnResult (Passes t message) (send_in_loop t before message (wrote n))
send_in_loop-Passes t before message n s there =
    let a = attempt t message (wrote n) in
    let split = attempt-Splits t before message n s in
    let rest = take a.remaining (from_offset a.nwrote before message) in
    let (output, made, holds) = append-Holds t.output rest s.output_valid in
    elim (Bool-cases (within a.nwrote (length message))) [
      | inr beyond ↦ unfold send_in_loop in rw (there, beyond) tt
      | inl fits ↦ elim (Bool-cases (ltb 0 a.remaining)) [
        | inr nothing ↦
            unfold send_in_loop in
            rw (there, fits, split.settled)
              (rw nothing (
                nothing_left a.remaining a.effects (from_offset a.nwrote before message) nothing
                  split.whole))
        | inl more ↦
            unfold send_in_loop in
            rw (there, fits, split.settled)
              (rw (more, made)
                (ap₂ (λ xs ys. xs ++ ys)
                    (sent-append a.effects (high_water_effects t a.remaining)
                      ∙ ap (λ xs. sent a.effects ++ xs)
                          (sent-effect_if _
                            (queues (high_water (readable_bytes t.output + a.remaining))) refl)
                      ∙ append-nil (sent a.effects))
                    holds.same
                  ∙ split.whole))
      ]
    ]
  where
    nothing_left :
        (m : ℕ) (effects : List Effect) (rest : List ℕ)
        → ltb 0 m ≡ false
        → sent effects ++ (content t.output ++ take m rest) ≡ content t.output ++ message
        → sent effects ++ content t.output ≡ content t.output ++ message
    nothing_left m effects rest h w =
        ap (λ xs. sent effects ++ xs)
          (sym (append-nil (content t.output))
            ∙ ap (λ xs. content t.output ++ xs)
                (sym (nil_of (take m rest) (ground (arith, h, length-take m rest)))))
        ∙ w

drained-sent : (t : TcpConnection) → (sent (drained t).1 ≡ []) × ((drained t).0.output ≡ t.output)
unfolding drained shutdown_in_loop
drained-sent t = ground arith

pub handle_write-Passes :
    (t : TcpConnection) (n : ℕ)
    → IsSound t
    → n ≤ readable_bytes t.output
    → OnResult (Passes t []) (handle_write t (wrote n))
handle_write-Passes t n s h = elim (Bool-cases (is_writing t.channel)) [
  | inr idle ↦ unfold handle_write in rw idle (sym (append-nil (content t.output)))
  | inl waiting ↦ elim (Bool-cases (ltb 0 n)) [
    | inr nothing ↦
        unfold handle_write in rw (waiting, nothing) (sym (append-nil (content t.output)))
    | inl more ↦
        let (output, made, holds) = retrieve-Holds t.output n s.output_valid h in
        let whole =
          ap (λ xs. take n (content t.output) ++ xs) holds.same
          ∙ take-append-drop n (content t.output)
          ∙ sym (append-nil (content t.output)) in
        elim (Bool-cases (readable_bytes output == 0)) [
          | inl empty ↦
              let (quiet, kept) = drained-sent (record t { output = output }) in
              unfold handle_write in
              rw (waiting, more, made)
                (rw empty (
                  ap₂ (λ xs b. (take n (content t.output) ++ xs) ++ content b) quiet kept
                  ∙ ap (λ xs. xs ++ content output) (append-nil (take n (content t.output)))
                  ∙ whole))
          | inr left ↦
              unfold handle_write in
              rw (waiting, more, made)
                (rw left (
                  ap (λ xs. xs ++ content output) (append-nil (take n (content t.output))) ∙ whole))
        ]
  ]
]
