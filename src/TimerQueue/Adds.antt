-- ===== src/TimerQueue/Adds.antt =====
-- muduo/net/TimerQueue.cpp: a new or restarted timer keeps the queue.
use learn_muduo.Prelude.{ℕ, ◌<◌, ◌≡◌, ◌≢◌, refl, sym, List, [], ◌∷◌, some, All, if◌then◌else◌}
use learn_muduo.EPollPoller.{put}
use learn_muduo.TimerQueue.{
  Entry, Timer, TimerQueue, Effect, resets_timerfd, insert_entry, insert, is_earlier,
  add_timer_in_loop, uintptr_max,
}
use learn_muduo.TimerQueue.Sets.{insert_entry-All}
use learn_muduo.TimerQueue.Order.{insert-made}
use learn_muduo.TimerQueue.Matched.{inserted, timers-active, inserted-IsKept}
use learn_muduo.TimerQueue.Held.{
  IsFree, Holds, IsFree-has, IsFree-inactive, erase_active-put, IsTimed-put,
}

pub put-Holds :
    (held : List Entry) (q : TimerQueue) (p : ℕ) (t : Timer)
    → Holds held q
    → IsFree p q.timers
    → Holds held (record q { heap = put q.heap p t })
put-Holds held q p t h f = record {
  kept = record {
    ordered = h.kept.ordered;
    pointers = h.kept.pointers;
    active_ordered = h.kept.active_ordered;
    matched = erase_active-put q.heap p t q.timers q.active_timers f h.kept.matched;
  };
  timed = IsTimed-put q.heap p t q.timers f h.timed;
  apart = h.apart;
  free = h.free;
  pointers = h.pointers;
}

insert_entry-IsFree :
    (p time : ℕ) (held es : List Entry)
    → IsFree p held
    → All (λ h. IsFree h.1 es) held
    → All (λ h. IsFree h.1 (insert_entry (time, p) es)) held
insert_entry-IsFree p time [] es f fs = tt
insert_entry-IsFree p time (x ∷ held) es (f, fs) (g, gs) = (
  insert_entry-All (λ e. e.1 ≢ x.1) (time, p) es (λ same. f (sym same)) g,
  insert_entry-IsFree p time held es fs gs,
)

pub insert-Holds :
    (held : List Entry) (q : TimerQueue) (p : ℕ)
    → Holds held q
    → p < uintptr_max
    → IsFree p q.timers
    → IsFree p held
    → (insert q p ≡ some (inserted q p, is_earlier (q.heap p).expiration q.timers))
      × Holds held (inserted q p)
insert-Holds held q p h small f g =
    let new = IsFree-has p (q.heap p).expiration q.timers f in
    let fresh = IsFree-inactive q p (q.heap p).sequence h.kept f in
    (
      insert-made q p (timers-active q h.kept) new fresh,
      record {
        kept = inserted-IsKept q p h.kept small new fresh;
        timed =
            insert_entry-All (λ e. (q.heap e.1).expiration ≡ e.0) ((q.heap p).expiration, p)
              q.timers refl h.timed;
        apart = h.apart;
        free = insert_entry-IsFree p (q.heap p).expiration held q.timers g h.free;
        pointers = h.pointers;
      },
    )

pub add-Holds :
    (held : List Entry) (q : TimerQueue) (p : ℕ)
    → Holds held q
    → p < uintptr_max
    → IsFree p q.timers
    → IsFree p held
    → (q' : TimerQueue) × (effects : List Effect) × (add_timer_in_loop q p ≡ some (q', effects))
      × Holds held q'
add-Holds held q p h small f g =
    let (made, holds) = insert-Holds held q p h small f g in
    (
      inserted q p,
      if is_earlier (q.heap p).expiration q.timers
          then resets_timerfd (q.heap p).expiration ∷ []
          else [],
      unfold add_timer_in_loop in rw made refl,
      holds,
    )
