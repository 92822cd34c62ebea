-- ===== src/EventLoop/Wakeups.antt =====
-- muduo/net/EventLoop.cpp: a functor does not wait for the poller. The loop's thread writes to the
-- eventfd only while functors run; the functors that its handlers queue run in the same round. Another
-- thread writes in a step of its own.
use learn_muduo.Prelude.{
  ℕ, suc, ◌<◌, ◌+◌, ◌-◌, inl, inr, Bool-cases, ◌≡◌, ◌∙◌, refl, Bool, true, false, not, ◌||◌, List,
  [], ◌∷◌, ◌++◌, length, if◌then◌else◌, ltb, arith, All, or_right_true, or_left_true,
}
use learn_muduo.EventLoop.{
  EventLoop, Call, queues, runs, quits, wakes, Poll, call, calls, queue_in_loop, run_in_loop,
  quit_loop, wakeup, asks_wakeup, late_wakeup, eventfd_max, run_all, do_pending_functors,
  handle_events, round,
}

module _ {F : Type 0} where
  -- Where functors are pending, the eventfd is readable, or a thread is about to write to it.
  abbrev pub IsDue : EventLoop F → Type 0
  IsDue s = 0 < length s.pending_functors → 0 < s.wakeups + s.waking

  abbrev pub is_outside : Call F → Bool
  is_outside (queues b f) = not b
  is_outside (runs b f) = not b
  is_outside (quits b) = not b
  is_outside wakes = true

  -- A call that writes to the eventfd where it queues a functor.
  abbrev is_noticed : Call F → EventLoop F → Bool
  is_noticed c s = is_outside c || s.calling_pending_functors

  pub wakeup-positive : (s : EventLoop F) → 0 < (wakeup s).wakeups
  unfolding wakeup
  wakeup-positive s = counted s.wakeups
    where
      counted : (n : ℕ) → 0 < (if ltb n eventfd_max then suc n else n)
      counted n = ground arith

  asks_wakeup-positive :
      (b in_loop : Bool) (s : EventLoop F)
      → b ≡ true
      → 0
        < (if b then asks_wakeup in_loop s else s).wakeups
          + (if b then asks_wakeup in_loop s else s).waking
  asks_wakeup-positive true true s h = omega (arith, wakeup-positive s)
  asks_wakeup-positive true false s h = omega arith
  asks_wakeup-positive false in_loop s h = cc

  queue_in_loop-positive :
      (b : Bool) (f : F) (s : EventLoop F)
      → (not b || s.calling_pending_functors) ≡ true
      → 0 < (queue_in_loop b f s).wakeups + (queue_in_loop b f s).waking
  unfolding queue_in_loop
  queue_in_loop-positive b f s h =
      asks_wakeup-positive (not b || s.calling_pending_functors) b
        (record s { pending_functors = s.pending_functors ++ f ∷ [] }) h

  late_wakeup-IsDue : (s : EventLoop F) → IsDue s → IsDue (late_wakeup s)
  unfolding late_wakeup
  late_wakeup-IsDue s due = elim (Bool-cases (ltb 0 s.waking)) [
    | inl some_waking ↦
        let written = wakeup-positive (record s { waking = s.waking - 1 }) in
        rw some_waking (λ more. omega (arith, written))
    | inr none_waking ↦ rw none_waking due
  ]

  call-IsDue : (c : Call F) (s : EventLoop F) → is_noticed c s ≡ true → IsDue s → IsDue (call c s)
  unfolding call run_in_loop quit_loop
  call-IsDue (queues b f) s h due = λ more. queue_in_loop-positive b f s h
  call-IsDue (runs true f) s h due = due
  call-IsDue (runs false f) s h due = λ more. queue_in_loop-positive false f s h
  call-IsDue (quits true) s h due = due
  call-IsDue (quits false) s h due = λ more. omega arith
  call-IsDue wakes s h due = late_wakeup-IsDue s due

  call-calling :
      (c : Call F) (s : EventLoop F)
      → (call c s).calling_pending_functors ≡ s.calling_pending_functors
  unfolding call run_in_loop queue_in_loop quit_loop late_wakeup wakeup
  call-calling (queues true f) s = ground arith
  call-calling (queues false f) s = refl
  call-calling (runs true f) s = refl
  call-calling (runs false f) s = refl
  call-calling (quits true) s = refl
  call-calling (quits false) s = refl
  call-calling wakes s = elim (Bool-cases (ltb 0 s.waking)) [
    | inl some_waking ↦ rw some_waking refl
    | inr none_waking ↦ rw none_waking refl
  ]

  -- While functors run, and where the calls come from other threads.
  calls-calling :
      (cs : List (Call F)) (s : EventLoop F)
      → (calls cs s).calling_pending_functors ≡ s.calling_pending_functors
  unfolding calls
  calls-calling [] s = refl
  calls-calling (c ∷ cs) s = calls-calling cs (call c s) ∙ call-calling c s

  calls-IsDue :
      (cs : List (Call F)) (s : EventLoop F)
      → s.calling_pending_functors ≡ true
      → IsDue s
      → IsDue (calls cs s)
  unfolding calls
  calls-IsDue [] s h due = due
  calls-IsDue (c ∷ cs) s h due =
      calls-IsDue cs (call c s) (call-calling c s ∙ h)
        (call-IsDue c s (or_right_true (is_outside c) s.calling_pending_functors h) due)

  pub outside-IsDue :
      (cs : List (Call F)) (s : EventLoop F)
      → All (λ c. is_outside c ≡ true) cs
      → IsDue s
      → IsDue (calls cs s)
  unfolding calls
  outside-IsDue [] s h due = due
  outside-IsDue (c ∷ cs) s (h, hs) due =
      outside-IsDue cs (call c s) hs
        (call-IsDue c s (or_left_true (is_outside c) s.calling_pending_functors h) due)

module _ {F : Type 0} (does : F → List (Call F)) (handles : ℕ → List (Call F)) where
  run_all-IsDue :
      (fs : List F) (s : EventLoop F)
      → s.calling_pending_functors ≡ true
      → IsDue s
      → IsDue (run_all does handles fs s)
  unfolding run_all
  run_all-IsDue [] s h due = due
  run_all-IsDue (f ∷ fs) s h due =
      run_all-IsDue fs (calls (does f) s) (calls-calling (does f) s ∙ h)
        (calls-IsDue (does f) s h due)

  do_pending_functors-IsDue : (s : EventLoop F) → IsDue (do_pending_functors does handles s).0
  unfolding do_pending_functors
  do_pending_functors-IsDue s =
      run_all-IsDue s.pending_functors
        (record s { calling_pending_functors = true; pending_functors = [] }) refl
        (λ more. absurd (omega (arith, more)))

  round-IsDue : (p : Poll F) (s : EventLoop F) → IsDue (round does handles p s).0
  unfolding round
  round-IsDue p s =
      do_pending_functors-IsDue (handle_events does handles p.active (calls p.meanwhile s))

  -- The states in which a loop that started in a state asks the poller.
  pub data Reaches (s : EventLoop F) : EventLoop F → Type 0 where
    start : Reaches s s
    next :
        {s' : EventLoop F}
        → Reaches s s'
        → s'.quit ≡ false
        → (p : Poll F) → Reaches s (round does handles p s').0

  -- In every state in which a loop asks the poller, and behind any steps of other threads while it
  -- waits for the answer, the eventfd is readable where functors are pending, or a thread that called
  -- the loop is about to write to it, if that is so where the loop starts.
  pub waiting-IsDue :
      {s s' : EventLoop F} (meanwhile : List (Call F))
      → Reaches s s'
      → IsDue s
      → All (λ c. is_outside c ≡ true) meanwhile
      → 0 < length (calls meanwhile s').pending_functors
      → 0 < (calls meanwhile s').wakeups + (calls meanwhile s').waking
  waiting-IsDue {s} meanwhile start due outside = outside-IsDue meanwhile s outside due
  waiting-IsDue meanwhile (next {s'} r running p) due outside =
      outside-IsDue meanwhile (round does handles p s').0 outside (round-IsDue p s')
