-- ===== src/TimerQueue/Calls.antt =====
-- muduo/net/TimerQueue.cpp: the calls of the users keep the queue.
use learn_muduo.Prelude.{
  ℕ, ◌≡◌, ◌≢◌, ◌∙◌, refl, sym, ap, inl, inr, Bool, true, false, List, [], ◌∷◌, some, All,
  Bool-cases, length, eq→==, subst, if◌then◌else◌,
}
use learn_muduo.EPollPoller.{put}
use learn_muduo.TimerQueue.{
  Entry, TimerQueue, Effect, erase_active, deletes, has, erase_entry, cancel_in_loop, note,
}
use learn_muduo.TimerQueue.Sets.{erase_entry-All, erase_entry-IsOrdered}
use learn_muduo.TimerQueue.Expiry.{IsPointer, IsKept}
use learn_muduo.TimerQueue.Matched.{timers-active}
use learn_muduo.TimerQueue.Erased.{erase_active-erase_entry, erase_active-origin}
use learn_muduo.TimerQueue.Held.{IsFree, IsTimed, Holds, IsTimed-has}
use learn_muduo.TimerQueue.System.{Call, adds, cancels, call, calls, IsAllowed, After, AreAllowed}
use learn_muduo.TimerQueue.Adds.{put-Holds, add-Holds}

-- The queue without a timer.
abbrev pub cancelled : TimerQueue → ℕ → ℕ → TimerQueue
cancelled q timer sequence = record q {
  timers = erase_entry ((q.heap timer).expiration, timer) q.timers;
  active_timers = erase_entry (timer, sequence) q.active_timers;
}

erase_entry-IsFree :
    (b : Entry) (held es : List Entry)
    → All (λ h. IsFree h.1 es) held
    → All (λ h. IsFree h.1 (erase_entry b es)) held
erase_entry-IsFree b [] es f = tt
erase_entry-IsFree b (x ∷ held) es (f, fs) =
    (erase_entry-All (λ e. e.1 ≢ x.1) b es f, erase_entry-IsFree b held es fs)

-- An active timer has its entry.
active-listed :
    (q : TimerQueue) (timer sequence : ℕ)
    → IsKept q
    → IsTimed q.heap q.timers
    → has (timer, sequence) q.active_timers ≡ true
    → (has ((q.heap timer).expiration, timer) q.timers ≡ true)
      × ((q.heap timer).sequence ≡ sequence)
active-listed q timer sequence k t active =
    let (time, listed, number) =
      erase_active-origin q.heap timer sequence q.timers q.active_timers active k.matched in
    (
      ap (λ w. has (w, timer) q.timers) (IsTimed-has q.heap time timer q.timers t listed) ∙ listed,
      number,
    )

cancelled-Holds :
    (held : List Entry) (q : TimerQueue) (timer sequence : ℕ)
    → Holds held q
    → has ((q.heap timer).expiration, timer) q.timers ≡ true
    → (q.heap timer).sequence ≡ sequence
    → Holds held (cancelled q timer sequence)
cancelled-Holds held q timer sequence h listed number =
    let entry : Entry = ((q.heap timer).expiration, timer) in
    record {
      kept = record {
        ordered = erase_entry-IsOrdered entry q.timers h.kept.ordered;
        pointers = erase_entry-All IsPointer entry q.timers h.kept.pointers;
        active_ordered =
            erase_entry-IsOrdered (timer, sequence) q.active_timers h.kept.active_ordered;
        matched =
            ap
              (λ n.
                erase_active q.heap (erase_entry entry q.timers)
                  (erase_entry (timer, n) q.active_timers))
              (sym number)
            ∙ (erase_active-erase_entry q.heap (q.heap timer).expiration timer q.timers
                q.active_timers h.kept.active_ordered listed h.kept.matched).1;
      };
      timed = erase_entry-All (λ e. (q.heap e.1).expiration ≡ e.0) entry q.timers h.timed;
      apart = h.apart;
      free = erase_entry-IsFree entry held q.timers h.free;
      pointers = h.pointers;
    }

-- A cancellation that is only noted.
noted-Holds :
    (held : List Entry) (q : TimerQueue) (a : Entry) (b : Bool)
    → Holds held q
    → Holds held (if b then record q { canceling_timers = note a q.canceling_timers } else q)
noted-Holds held q a false h = h
noted-Holds held q a true h = record {
  kept = record {
    ordered = h.kept.ordered;
    pointers = h.kept.pointers;
    active_ordered = h.kept.active_ordered;
    matched = h.kept.matched;
  };
  timed = h.timed;
  apart = h.apart;
  free = h.free;
  pointers = h.pointers;
}

cancel-Holds :
    (held : List Entry) (q : TimerQueue) (timer sequence : ℕ)
    → Holds held q
    → (q' : TimerQueue) × (effects : List Effect) × (cancel_in_loop q timer sequence
        ≡ some (q', effects))
      × Holds held q'
cancel-Holds held q timer sequence h =
    let size = eq→== (length q.timers) (length q.active_timers) (timers-active q h.kept) in
    elim (Bool-cases (has (timer, sequence) q.active_timers)) [
      | inl active ↦
          let (listed, number) = active-listed q timer sequence h.kept h.timed active in
          let holds = cancelled-Holds held q timer sequence h listed number in
          let q' = cancelled q timer sequence in
          (
            q',
            deletes timer ∷ [],
            unfold cancel_in_loop in
                rw
                  (
                    size,
                    active,
                    listed,
                    eq→== (length q'.timers) (length q'.active_timers)
                        (timers-active q' holds.kept),
                  )
                  refl,
            holds,
          )
      | inr inactive ↦ (
        if q.calling_expired_timers
            then record q { canceling_timers = note (timer, sequence) q.canceling_timers }
            else q,
        [],
        unfold cancel_in_loop in rw (size, inactive) refl,
        noted-Holds held q (timer, sequence) q.calling_expired_timers h,
      )
    ]

pub call-Holds :
    (held : List Entry) (c : Call) (q : TimerQueue)
    → Holds held q
    → IsAllowed held q c
    → (q' : TimerQueue) × (effects : List Effect) × (call c q ≡ some (q', effects)) × Holds held q'
unfolding call
call-Holds held (adds p t) q h (small, f, g) =
    add-Holds held (record q { heap = put q.heap p t }) p (put-Holds held q p t h f) small f g
call-Holds held (cancels timer sequence) q h a = cancel-Holds held q timer sequence h

pub calls-Holds :
    (held : List Entry) (cs : List Call) (q : TimerQueue)
    → Holds held q
    → AreAllowed held q cs
    → (q' : TimerQueue) × (calls cs q ≡ some q') × Holds held q'
unfolding calls AreAllowed
calls-Holds held [] q h a = (q, refl, h)
calls-Holds held (c ∷ cs) q h (a, as') =
    let (q', effects, made, holds) = call-Holds held c q h a in
    let (last, runs, end_holds) =
      calls-Holds held cs q' holds (subst (After (λ r. AreAllowed held r.0 cs)) made as') in
    (last, rw made runs, end_holds)
