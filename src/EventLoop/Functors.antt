-- ===== src/EventLoop/Functors.antt =====
-- muduo/net/EventLoop.cpp: which functors run, and in which order.
use learn_muduo.Prelude.{
  ℕ, suc, ◌≡◌, ◌∙◌, refl, sym, ap, ap₂, subst, inl, inr, Bool, true, false, not, ◌||◌, List, [],
  ◌∷◌, ◌++◌, append-nil, append_assoc, Option, none, some, if◌then◌else◌, ◌==◌, ◌>>=◌, ◌>>◌, assert,
  Bool-cases, ltb, arith,
}
use learn_muduo.EventLoop.{
  EventLoop, Call, queues, runs, quits, wakes, Poll, call, calls, queue_in_loop, run_in_loop,
  quit_loop, wakeup, asks_wakeup, late_wakeup, handle_read, run_all, do_pending_functors,
  handle_event, handle_all, handle_events, round, rounds, loop,
}

module _ {F : Type 0} where
  -- The functors that calls append to the pending ones.
  abbrev pub queued_by : List (Call F) → List F
  queued_by [] = []
  queued_by (queues b f ∷ cs) = f ∷ queued_by cs
  queued_by (runs true f ∷ cs) = queued_by cs
  queued_by (runs false f ∷ cs) = f ∷ queued_by cs
  queued_by (quits b ∷ cs) = queued_by cs
  queued_by (wakes ∷ cs) = queued_by cs

  pub queued_by-append :
      (xs ys : List (Call F)) → queued_by (xs ++ ys) ≡ queued_by xs ++ queued_by ys
  queued_by-append [] ys = refl
  queued_by-append (queues b f ∷ xs) ys = ap (λ fs. f ∷ fs) (queued_by-append xs ys)
  queued_by-append (runs true f ∷ xs) ys = queued_by-append xs ys
  queued_by-append (runs false f ∷ xs) ys = ap (λ fs. f ∷ fs) (queued_by-append xs ys)
  queued_by-append (quits b ∷ xs) ys = queued_by-append xs ys
  queued_by-append (wakes ∷ xs) ys = queued_by-append xs ys

  -- The writes to the eventfd leave the pending functors.
  asks_wakeup-pending :
      (b in_loop : Bool) (s : EventLoop F)
      → (if b then asks_wakeup in_loop s else s).pending_functors ≡ s.pending_functors
  unfolding wakeup
  asks_wakeup-pending true true s = refl
  asks_wakeup-pending true false s = refl
  asks_wakeup-pending false in_loop s = refl

  late_wakeup-pending : (s : EventLoop F) → (late_wakeup s).pending_functors ≡ s.pending_functors
  unfolding late_wakeup wakeup
  late_wakeup-pending s = elim (Bool-cases (ltb 0 s.waking)) [
    | inl some_waking ↦ rw some_waking refl
    | inr none_waking ↦ rw none_waking refl
  ]

  queue_in_loop-pending :
      (b : Bool) (f : F) (s : EventLoop F)
      → (queue_in_loop b f s).pending_functors ≡ s.pending_functors ++ f ∷ []
  unfolding queue_in_loop
  queue_in_loop-pending b f s =
      asks_wakeup-pending (not b || s.calling_pending_functors) b
        (record s { pending_functors = s.pending_functors ++ f ∷ [] })

  call-pending :
      (c : Call F) (s : EventLoop F)
      → (call c s).pending_functors ≡ s.pending_functors ++ queued_by (c ∷ [])
  unfolding call run_in_loop quit_loop wakeup
  call-pending (queues b f) s = queue_in_loop-pending b f s
  call-pending (runs true f) s = sym (append-nil s.pending_functors)
  call-pending (runs false f) s = queue_in_loop-pending false f s
  call-pending (quits true) s = sym (append-nil s.pending_functors)
  call-pending (quits false) s = sym (append-nil s.pending_functors)
  call-pending wakes s = late_wakeup-pending s ∙ sym (append-nil s.pending_functors)

  pub calls-pending :
      (cs : List (Call F)) (s : EventLoop F)
      → (calls cs s).pending_functors ≡ s.pending_functors ++ queued_by cs
  unfolding calls
  calls-pending [] s = sym (append-nil s.pending_functors)
  calls-pending (c ∷ cs) s =
      calls-pending cs (call c s)
      ∙ ap (λ fs. fs ++ queued_by cs) (call-pending c s)
      ∙ append_assoc s.pending_functors (queued_by (c ∷ [])) (queued_by cs)
      ∙ ap (λ fs. s.pending_functors ++ fs) (sym (queued_by-append (c ∷ []) cs))

  call-wakeup_channel :
      (c : Call F) (s : EventLoop F) → (call c s).wakeup_channel ≡ s.wakeup_channel
  unfolding call run_in_loop queue_in_loop quit_loop late_wakeup wakeup
  call-wakeup_channel (queues true f) s = ground arith
  call-wakeup_channel (queues false f) s = refl
  call-wakeup_channel (runs true f) s = refl
  call-wakeup_channel (runs false f) s = refl
  call-wakeup_channel (quits true) s = refl
  call-wakeup_channel (quits false) s = refl
  call-wakeup_channel wakes s = elim (Bool-cases (ltb 0 s.waking)) [
    | inl some_waking ↦ rw some_waking refl
    | inr none_waking ↦ rw none_waking refl
  ]

  pub calls-wakeup_channel :
      (cs : List (Call F)) (s : EventLoop F) → (calls cs s).wakeup_channel ≡ s.wakeup_channel
  unfolding calls
  calls-wakeup_channel [] s = refl
  calls-wakeup_channel (c ∷ cs) s = calls-wakeup_channel cs (call c s) ∙ call-wakeup_channel c s

module _ {F : Type 0} (does : F → List (Call F)) (handles : ℕ → List (Call F)) where
  -- The calls while functors run, and while the active channels are handled.
  abbrev pub calls_of : List F → List (Call F)
  calls_of [] = []
  calls_of (f ∷ fs) = does f ++ calls_of fs

  abbrev pub handling : ℕ → List ℕ → List (Call F)
  handling wakeup_channel [] = []
  handling wakeup_channel (c ∷ cs) =
      (if c == wakeup_channel then [] else handles c) ++ handling wakeup_channel cs

  pub run_all-pending :
      (fs : List F) (s : EventLoop F)
      → (run_all does handles fs s).pending_functors ≡ s.pending_functors ++ queued_by (calls_of fs)
  unfolding run_all
  run_all-pending [] s = sym (append-nil s.pending_functors)
  run_all-pending (f ∷ fs) s =
      run_all-pending fs (calls (does f) s)
      ∙ ap (λ gs. gs ++ queued_by (calls_of fs)) (calls-pending (does f) s)
      ∙ append_assoc s.pending_functors (queued_by (does f)) (queued_by (calls_of fs))
      ∙ ap (λ gs. s.pending_functors ++ gs) (sym (queued_by-append (does f) (calls_of fs)))

  handle_event-pending :
      (c : ℕ) (s : EventLoop F)
      → (handle_event does handles c s).pending_functors
        ≡ s.pending_functors ++ queued_by (if c == s.wakeup_channel then [] else handles c)
  unfolding handle_event handle_read
  handle_event-pending c s = elim (Bool-cases (c == s.wakeup_channel)) [
    | inl woken ↦ rw woken (sym (append-nil s.pending_functors))
    | inr other ↦ rw other (calls-pending (handles c) s)
  ]

  handle_event-wakeup_channel :
      (c : ℕ) (s : EventLoop F) → (handle_event does handles c s).wakeup_channel ≡ s.wakeup_channel
  unfolding handle_event handle_read
  handle_event-wakeup_channel c s = elim (Bool-cases (c == s.wakeup_channel)) [
    | inl woken ↦ rw woken refl
    | inr other ↦ rw other (calls-wakeup_channel (handles c) s)
  ]

  handle_all-pending :
      (cs : List ℕ) (s : EventLoop F)
      → (handle_all does handles cs s).pending_functors
        ≡ s.pending_functors ++ queued_by (handling s.wakeup_channel cs)
  unfolding handle_all
  handle_all-pending [] s = sym (append-nil s.pending_functors)
  handle_all-pending (c ∷ cs) s =
      let s' : EventLoop F = record s { current_active_channel = some c } in
      let here = if c == s.wakeup_channel then [] else handles c in
      handle_all-pending cs (handle_event does handles c s')
      ∙ ap₂ (λ fs w. fs ++ queued_by (handling w cs)) (handle_event-pending c s')
          (handle_event-wakeup_channel c s')
      ∙ append_assoc s.pending_functors (queued_by here) (queued_by (handling s.wakeup_channel cs))
      ∙ ap (λ fs. s.pending_functors ++ fs)
          (sym (queued_by-append here (handling s.wakeup_channel cs)))

  -- The calls of a round before its functors run.
  abbrev pub before_functors : Poll F → EventLoop F → List (Call F)
  before_functors p s = p.meanwhile ++ handling s.wakeup_channel p.active

  -- A round runs exactly the functors that were pending before it and those that were queued until its
  -- channels were handled, in the order in which they were queued, each of them once; those that are
  -- queued while they run stay pending, in order.
  pub round-in_order :
      (p : Poll F) (s : EventLoop F)
      → ((round does handles p s).1 ≡ s.pending_functors ++ queued_by (before_functors p s))
        × ((round does handles p s).0.pending_functors
            ≡ queued_by (calls_of (round does handles p s).1))
  unfolding round do_pending_functors handle_events
  round-in_order p s =
      let s' = calls p.meanwhile s in
      (
        handle_all-pending p.active (record s' {
          active_channels = p.active;
          iteration = suc s'.iteration;
          event_handling = true;
        })
            ∙ ap₂ (λ fs w. fs ++ queued_by (handling w p.active)) (calls-pending p.meanwhile s)
                (calls-wakeup_channel p.meanwhile s)
            ∙ append_assoc s.pending_functors (queued_by p.meanwhile)
                (queued_by (handling s.wakeup_channel p.active))
            ∙ ap (λ fs. s.pending_functors ++ fs)
                (sym (queued_by-append p.meanwhile (handling s.wakeup_channel p.active))),
        run_all-pending (handle_events does handles p.active s').pending_functors
            (record (handle_events does handles p.active s') {
              calling_pending_functors = true;
              pending_functors = [];
            }),
      )

  -- Everything that is queued while a loop takes the answers of the poller, in order.
  abbrev pub queued_over : List (Poll F) → EventLoop F → List F
  queued_over [] s = []
  queued_over (p ∷ ps) s =
      let (s', ran) = round does handles p s in
      let later = queued_over ps s' in
      if s.quit then [] else queued_by (before_functors p s ++ calls_of ran) ++ later

  -- A result is a loop and the functors that ran: with those that are pending they are those that were
  -- pending and those that were queued, in order.
  abbrev InOrder : List F → List F → Option (EventLoop F × List F) → Type 0
  InOrder pending queued none = Unit
  InOrder pending queued (some (s, ran)) = ran ++ s.pending_functors ≡ pending ++ queued

  later-InOrder :
      (pending before during later ran : List F) (s : EventLoop F)
      (rest : Option (EventLoop F × List F))
      → ran ≡ pending ++ before
      → s.pending_functors ≡ during
      → InOrder s.pending_functors later rest
      → InOrder pending
          ((before ++ during) ++ later)
          (rest >>= λ (s', ran'). some (s', ran ++ ran'))
  later-InOrder pending before during later ran s none e d h = tt
  later-InOrder pending before during later ran s (some (s', ran')) e d h =
      append_assoc ran ran' s'.pending_functors
      ∙ ap (λ fs. ran ++ fs) h
      ∙ ap₂ (λ fs gs. fs ++ (gs ++ later)) e d
      ∙ append_assoc pending before (during ++ later)
      ∙ ap (λ fs. pending ++ fs) (sym (append_assoc before during later))

  rounds-InOrder :
      (ps : List (Poll F)) (s : EventLoop F)
      → InOrder s.pending_functors (queued_over ps s) (rounds does handles ps s)
  unfolding rounds
  rounds-InOrder [] s = elim (Bool-cases s.quit) [
    | inl done ↦ rw done (sym (append-nil s.pending_functors))
    | inr running ↦ rw running tt
  ]
  rounds-InOrder (p ∷ ps) s = elim (Bool-cases s.quit) [
    | inl done ↦ rw done (sym (append-nil s.pending_functors))
    | inr running ↦
        let (s', ran) = round does handles p s in
        let order = round-in_order p s in
        let later = rounds does handles ps s' >>= λ (s'', later). some (s'', ran ++ later) in
        subst
          (λ b.
            InOrder s.pending_functors
              (if b
                then []
                else queued_by (before_functors p s ++ calls_of ran) ++ queued_over ps s')
              (if b then some (s, []) else later))
          (sym running)
          (subst (λ fs. InOrder s.pending_functors (fs ++ queued_over ps s') later)
            (sym (queued_by-append (before_functors p s) (calls_of ran)))
            (later-InOrder s.pending_functors (queued_by (before_functors p s))
              (queued_by (calls_of ran)) (queued_over ps s') ran s' (rounds does handles ps s')
              order.0 order.1 (rounds-InOrder ps s')))
  ]

  abbrev stopped : Option (EventLoop F × List F) → Option (EventLoop F × List F)
  stopped r = do (t, later) ← r; some (record t { looping = false }, later)

  stopped-InOrder :
      (busy : Bool) (pending queued : List F) (r : Option (EventLoop F × List F))
      → InOrder pending queued r
      → InOrder pending queued (assert (not busy) >> stopped r)
  stopped-InOrder true pending queued r h = tt
  stopped-InOrder false pending queued none h = tt
  stopped-InOrder false pending queued (some (t, later)) h = h

  -- Where `loop` returns, the functors that its rounds ran, in the order in which they ran, followed by
  -- those that are left pending, are the functors that were pending when it started, followed by all
  -- that were queued while it ran, in the order in which they were queued: none is lost, none runs
  -- twice, and none overtakes another.
  pub loop-in_order :
      (ps : List (Poll F)) (s s' : EventLoop F) (ran : List F)
      → loop does handles ps s ≡ some (s', ran)
      → ran ++ s'.pending_functors
        ≡ s.pending_functors ++ queued_over ps (record s { looping = true; quit = false })
  unfolding loop
  loop-in_order ps s s' ran e =
      let t : EventLoop F = record s { looping = true; quit = false } in
      subst (InOrder s.pending_functors (queued_over ps t)) e (
        stopped-InOrder s.looping s.pending_functors (queued_over ps t) (rounds does handles ps t)
          (rounds-InOrder ps t))
