-- ===== src/EventLoop/Quit.antt =====
-- muduo/net/EventLoop.cpp: how a loop ends.
use learn_muduo.Prelude.{
  ℕ, suc, ◌≡◌, ◌∙◌, refl, sym, ap, inl, inr, Bool, true, false, ◌||◌, List, [], ◌∷◌, ◌++◌, none,
  some, if◌then◌else◌, ◌==◌, Bool-cases, ltb, arith, append-nil, ◌>>=◌, or_assoc, or_false,
  or_right_true,
}
use learn_muduo.EventLoop.{
  EventLoop, Call, queues, runs, quits, wakes, Poll, call, calls, queue_in_loop, run_in_loop,
  quit_loop, wakeup, late_wakeup, handle_read, run_all, do_pending_functors, handle_event,
  handle_all, handle_events, round, rounds, loop,
}
use learn_muduo.EventLoop.Functors.{calls_of, before_functors, handling, calls-wakeup_channel}

module _ {F : Type 0} where
  abbrev pub has_quit : List (Call F) → Bool
  has_quit [] = false
  has_quit (queues b f ∷ cs) = has_quit cs
  has_quit (runs b f ∷ cs) = has_quit cs
  has_quit (quits b ∷ cs) = true
  has_quit (wakes ∷ cs) = has_quit cs

  has_quit-append : (xs ys : List (Call F)) → has_quit (xs ++ ys) ≡ (has_quit xs || has_quit ys)
  has_quit-append [] ys = refl
  has_quit-append (queues b f ∷ xs) ys = has_quit-append xs ys
  has_quit-append (runs b f ∷ xs) ys = has_quit-append xs ys
  has_quit-append (quits b ∷ xs) ys = refl
  has_quit-append (wakes ∷ xs) ys = has_quit-append xs ys

  call-quit : (c : Call F) (s : EventLoop F) → (call c s).quit ≡ (s.quit || has_quit (c ∷ []))
  unfolding call run_in_loop queue_in_loop quit_loop late_wakeup wakeup
  call-quit (queues true f) s = ground arith
  call-quit (queues false f) s = ground arith
  call-quit (runs true f) s = ground arith
  call-quit (runs false f) s = ground arith
  call-quit (quits true) s = ground arith
  call-quit (quits false) s = ground arith
  call-quit wakes s = elim (Bool-cases (ltb 0 s.waking)) [
    | inl some_waking ↦ rw some_waking (or_false s.quit)
    | inr none_waking ↦ rw none_waking (or_false s.quit)
  ]

  -- A loop is told to end where it was before, or where a call told it.
  calls-quit : (cs : List (Call F)) (s : EventLoop F) → (calls cs s).quit ≡ (s.quit || has_quit cs)
  unfolding calls
  calls-quit [] s = or_false s.quit
  calls-quit (c ∷ cs) s =
      calls-quit cs (call c s)
      ∙ ap (λ b. b || has_quit cs) (call-quit c s)
      ∙ or_assoc s.quit (has_quit (c ∷ [])) (has_quit cs)
      ∙ ap (λ b. s.quit || b) (sym (has_quit-append (c ∷ []) cs))

module _ {F : Type 0} (does : F → List (Call F)) (handles : ℕ → List (Call F)) where
  step_quit :
      (a b c : Bool) (xs ys : List (Call F))
      → b ≡ (a || has_quit xs)
      → c ≡ (b || has_quit ys)
      → c ≡ (a || has_quit (xs ++ ys))
  step_quit a b c xs ys h k =
      k
      ∙ ap (λ t. t || has_quit ys) h
      ∙ or_assoc a (has_quit xs) (has_quit ys)
      ∙ ap (λ t. a || t) (sym (has_quit-append xs ys))

  run_all-quit :
      (fs : List F) (s : EventLoop F)
      → (run_all does handles fs s).quit ≡ (s.quit || has_quit (calls_of does handles fs))
  unfolding run_all
  run_all-quit [] s = or_false s.quit
  run_all-quit (f ∷ fs) s =
      step_quit s.quit (calls (does f) s).quit (run_all does handles fs (calls (does f) s)).quit
        (does f) (calls_of does handles fs) (calls-quit (does f) s)
        (run_all-quit fs (calls (does f) s))

  handle_event-quit :
      (c : ℕ) (s : EventLoop F)
      → ((handle_event does handles c s).quit
          ≡ (s.quit || has_quit (if c == s.wakeup_channel then [] else handles c)))
        × ((handle_event does handles c s).wakeup_channel ≡ s.wakeup_channel)
  unfolding handle_event handle_read
  handle_event-quit c s = elim (Bool-cases (c == s.wakeup_channel)) [
    | inl woken ↦ rw woken (or_false s.quit, refl)
    | inr other ↦ rw other (calls-quit (handles c) s, calls-wakeup_channel (handles c) s)
  ]

  handle_all-quit :
      (cs : List ℕ) (s : EventLoop F)
      → (handle_all does handles cs s).quit
        ≡ (s.quit || has_quit (handling does handles s.wakeup_channel cs))
  unfolding handle_all
  handle_all-quit [] s = or_false s.quit
  handle_all-quit (c ∷ cs) s =
      let s' : EventLoop F = record s { current_active_channel = some c } in
      let (here, same) = handle_event-quit c s' in
      step_quit s.quit (handle_event does handles c s').quit
        (handle_all does handles cs (handle_event does handles c s')).quit
        (if c == s.wakeup_channel then [] else handles c)
        (handling does handles s.wakeup_channel cs) here
        (handle_all-quit cs (handle_event does handles c s')
          ∙ ap (λ w. (handle_event does handles c s').quit || has_quit (handling does handles w cs))
              same)

  -- All the calls of a round, in order.
  abbrev pub calls_in : Poll F → EventLoop F → List (Call F)
  calls_in p s =
      before_functors does handles p s ++ calls_of does handles (round does handles p s).1

  round-quit :
      (p : Poll F) (s : EventLoop F)
      → (round does handles p s).0.quit ≡ (s.quit || has_quit (calls_in p s))
  unfolding round do_pending_functors handle_events
  round-quit p s =
      let s' = calls p.meanwhile s in
      let t : EventLoop F = record s' {
        active_channels = p.active;
        iteration = suc s'.iteration;
        event_handling = true;
      } in
      let u = handle_all does handles p.active t in
      let v : EventLoop F = record u {
        current_active_channel = none;
        event_handling = false;
        calling_pending_functors = true;
        pending_functors = [];
      } in
      step_quit s.quit u.quit (run_all does handles u.pending_functors v).quit
        (before_functors does handles p s) (calls_of does handles u.pending_functors)
        (step_quit s.quit s'.quit u.quit p.meanwhile
          (handling does handles s.wakeup_channel p.active) (calls-quit p.meanwhile s)
          (handle_all-quit p.active t
            ∙ ap (λ w. s'.quit || has_quit (handling does handles w p.active))
                (calls-wakeup_channel p.meanwhile s)))
        (run_all-quit u.pending_functors v)

  rounds_quit :
      (ps : List (Poll F)) (s : EventLoop F)
      → s.quit ≡ true
      → rounds does handles ps s ≡ some (s, [])
  unfolding rounds
  rounds_quit [] s h = rw h refl
  rounds_quit (p ∷ ps) s h =
      let rest = (do
        (s', later) ← rounds does handles ps (round does handles p s).0
        some (s', (round does handles p s).1 ++ later)) in
      ap (λ b. if b then some (s, []) else rest) h

  -- Where any call of a round tells the loop to end, or it was told before, it ends behind that round,
  -- whatever the poller would answer next: the round's channels and functors are done, and its
  -- functors are the last ones that ran.
  pub rounds-quit :
      (p : Poll F) (ps : List (Poll F)) (s : EventLoop F)
      → s.quit ≡ false
      → has_quit (calls_in p s) ≡ true
      → rounds does handles (p ∷ ps) s ≡ some (round does handles p s)
  unfolding rounds
  rounds-quit p ps s running told =
      let (s', ran) = round does handles p s in
      ap
        (λ b.
          if b
          then some (s, [])
          else (do (s'', later) ← rounds does handles ps s'; some (s'', ran ++ later)))
        running
      ∙ ap (λ r. r >>= λ (s'', later). some (s'', ran ++ later))
          (rounds_quit ps s' (round-quit p s ∙ or_right_true s.quit (has_quit (calls_in p s)) told))
      ∙ ap (λ fs. some (s', fs)) (append-nil ran)

  -- A call of `quit` in the loop's thread before `loop` does nothing: the loop runs as if it had not
  -- been told to end.
  pub loop-forgets :
      (ps : List (Poll F)) (s : EventLoop F)
      → loop does handles ps (quit_loop true s) ≡ loop does handles ps s
  unfolding loop quit_loop
  loop-forgets ps s = refl
