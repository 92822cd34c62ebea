-- ===== src/TimerQueue/Runs.antt =====
-- muduo/net/TimerQueue.cpp: no assertion fails, whatever the users add and cancel and whatever expires.
use mathlib.Core.Option.{some-injective}
use learn_muduo.Prelude.{
  ℕ, ◌≡◌, ◌∙◌, refl, sym, ap, inl, inr, Bool, true, false, not, ◌&&◌, List, [], ◌∷◌, ◌++◌, some,
  All, Bool-cases, ltb, subst, if◌then◌else◌,
}
use learn_muduo.EPollPoller.{put}
use learn_muduo.TimerQueue.{
  Entry, TimerQueue, Effect, erase_active, deletes, resets_timerfd, has, get_expired, handle_read,
  reset, next_expire, reset_all, restart,
}
use learn_muduo.TimerQueue.Expiry.{IsPointer, IsKept, get_expired-due}
use learn_muduo.TimerQueue.Held.{IsApart, IsTimed, Holds, timers-IsApart, IsApart-parts, All-parts}
use learn_muduo.TimerQueue.System.{
  Call, calls, Event, calls_once, reads, step, After, AreAllowed, calling, IsAllowedEvent,
  Reachable, starts, goes_on,
}
use learn_muduo.TimerQueue.Adds.{put-Holds, insert-Holds}
use learn_muduo.TimerQueue.Calls.{call-Holds, calls-Holds}

-- `reset` puts back the timers that repeat and are not cancelled.
reset_all-Holds :
    (es : List Entry) (now : ℕ) (q : TimerQueue)
    → Holds es q
    → (q' : TimerQueue) × (effects : List Effect) × (reset_all es now q ≡ some (q', effects))
      × Holds [] q'
unfolding reset_all
reset_all-Holds [] now q h = (q, [], refl, h)
reset_all-Holds ((time, p) ∷ es) now q h =
    let t = q.heap p in
    let again = t.repeat && not (has (p, t.sequence) q.canceling_timers) in
    let rest : Holds es q = record {
      kept = h.kept;
      timed = h.timed;
      apart = h.apart.1;
      free = h.free.1;
      pointers = h.pointers.1;
    } in
    elim (Bool-cases again) [
      | inl repeats ↦
          let moved = put-Holds es q p (restart t now) rest h.free.0 in
          let (made, holds) =
            insert-Holds es (record q { heap = put q.heap p (restart t now) }) p moved h.pointers.0
              h.free.0 h.apart.0 in
          let (q', effects, runs, end_holds) = reset_all-Holds es now _ holds in
          (q', effects, rw repeats (rw made runs), end_holds)
      | inr ends ↦
          let (q', effects, runs, end_holds) = reset_all-Holds es now q rest in
          (q', deletes p ∷ effects, rw ends (rw runs refl), end_holds)
    ]

reset-Holds :
    (es : List Entry) (now : ℕ) (q : TimerQueue)
    → Holds es q
    → (q' : TimerQueue) × (effects : List Effect) × (reset q es now ≡ some (q', effects))
      × Holds [] q'
reset-Holds es now q h =
    let (q', effects, runs, holds) = reset_all-Holds es now q h in
    (
      q',
      effects ++ (if ltb 0 (next_expire q') then resets_timerfd (next_expire q') ∷ [] else []),
      unfold reset in rw runs refl,
      holds,
    )

-- The flag and the noted cancellations are not of the invariant.
flags-Holds :
    (held : List Entry) (q : TimerQueue) (b : Bool) (noted : List Entry)
    → Holds held q
    → Holds held (record q { calling_expired_timers = b; canceling_timers = noted })
flags-Holds held q b noted h = record {
  kept = record {
    ordered = h.kept.ordered;
    pointers = h.kept.pointers;
    active_ordered = h.kept.active_ordered;
    matched = h.kept.matched;
  };
  timed = h.timed;
  apart = h.apart;
  free = h.free;
  pointers = h.pointers;
}

get_expired-Holds :
    (q : TimerQueue) (now : ℕ)
    → Holds [] q
    → (expired : List Entry) × (q' : TimerQueue) × (get_expired q now ≡ some (expired, q'))
      × Holds expired q'
get_expired-Holds q now h =
    let (expired, q', made, whole, due, later, heap, kept) = get_expired-due q now h.kept in
    let apart = timers-IsApart q.heap q.timers h.kept.ordered h.timed in
    let (own, others) = IsApart-parts expired q'.timers (subst IsApart (sym whole) apart) in
    let timed =
      All-parts (λ e. (q.heap e.1).expiration ≡ e.0) expired q'.timers
        (subst (IsTimed q.heap) (sym whole) h.timed) in
    let pointers =
      All-parts IsPointer expired q'.timers (subst (All IsPointer) (sym whole) h.kept.pointers) in
    (
      expired,
      q',
      made,
      record {
        kept = kept;
        timed = subst (λ f. IsTimed f q'.timers) (sym heap) timed.1;
        apart = own;
        free = others;
        pointers = pointers.0;
      },
    )

read-Holds :
    (now : ℕ) (cs : List Call) (q : TimerQueue)
    → Holds [] q
    → After (λ r. AreAllowed r.0 (calling r.1) cs) (get_expired q now)
    → (q' : TimerQueue) × (effects : List Effect) × (handle_read (λ expired q'. calls cs q') q now
        ≡ some (q', effects))
      × Holds [] q'
read-Holds now cs q h a =
    let (expired, q1, made, holds) = get_expired-Holds q now h in
    let (q2, ran, ran_holds) =
      calls-Holds expired cs (calling q1) (flags-Holds expired q1 true [] holds)
        (subst (After (λ r. AreAllowed r.0 (calling r.1) cs)) made a) in
    let (q3, effects, runs, end_holds) =
      reset-Holds expired now (record q2 { calling_expired_timers = false })
        (flags-Holds expired q2 false q2.canceling_timers ran_holds) in
    (q3, effects, unfold handle_read in rw (made, ran, runs) refl, end_holds)

step-Holds :
    (e : Event) (q : TimerQueue)
    → Holds [] q
    → IsAllowedEvent q e
    → (q' : TimerQueue) × (effects : List Effect) × (step e q ≡ some (q', effects)) × Holds [] q'
unfolding step
step-Holds (calls_once c) q h a = call-Holds [] c q h a
step-Holds (reads now cs) q h a = read-Holds now cs q h a

reachable-Holds : {q : TimerQueue} → Reachable q → Holds [] q
unfolding erase_active
reachable-Holds (starts heap) = record {
  kept = record { ordered = tt; pointers = tt; active_ordered = tt; matched = refl };
  timed = tt;
  apart = tt;
  free = tt;
  pointers = tt;
}
reachable-Holds (goes_on {q} {q'} {effects} r e a made) =
    let (q'', effects', made', holds) = step-Holds e q (reachable-Holds r) a in
    subst (Holds [])
      (ap (λ s. s.0) (some-injective (q'', effects') (q', effects) (sym made' ∙ made))) holds

-- Whatever the users of a new queue add and cancel, by themselves and in the callbacks of expired timers,
-- as long as a new timer is at an address below the largest one that no timer of the queue or of the
-- timers just expired has: the next such event fails no assertion, and behind it the queue is in order,
-- its active timers match its entries, and each entry has the time at which its timer expires.
pub step-runs :
    {q : TimerQueue}
    → Reachable q
    → (e : Event) → IsAllowedEvent q e
    → (q' : TimerQueue) × (effects : List Effect) × (step e q ≡ some (q', effects))
      × IsKept q'
      × IsTimed q'.heap q'.timers
step-runs {q} r e a =
    let (q', effects, made, holds) = step-Holds e q (reachable-Holds r) a in
    (q', effects, made, holds.kept, holds.timed)
