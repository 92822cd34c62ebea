-- ===== src/TimerQueue.antt =====
-- muduo/net/TimerQueue.h, TimerQueue.cpp, Timer.h and Timer.cpp. Timers are in a heap, and pointers to
-- them are numbers; an interval is in microseconds. A set is the list of its elements in order. A method
-- is `none` where an assertion fails.
pub mod Sets
pub mod Order
pub mod Expiry
pub mod Matched
pub mod Erased
pub mod Held
pub mod System
pub mod Adds
pub mod Calls
pub mod Runs
pub mod Tests
use learn_muduo.Prelude.{
  ℕ, zero, suc, ◌+◌, ◌^◌, ◌-◌, Bool, true, false, ◌&&◌, ◌||◌, not, List, [], ◌∷◌, ◌++◌, Option,
  none, some, length, ltb, ◌==◌, if◌then◌else◌, ◌>>=◌, ◌>>◌, assert,
}
use learn_muduo.EPollPoller.{put}

pub record Timer : Type 0 where
  pub expiration : ℕ
  pub interval : ℕ
  pub repeat : Bool
  pub sequence : ℕ

unfoldable pub restart : Timer → ℕ → Timer
restart t now = record t { expiration = if t.repeat then now + t.interval else 0 }

-- A time and a pointer, or a pointer and a sequence number.
abbrev pub Entry : Type 0
Entry = ℕ × ℕ

-- `<` on pairs.
unfoldable pub lt_entry : Entry → Entry → Bool
lt_entry (a, b) (c, d) = ltb a c || (a == c && ltb b d)

abbrev pub eq_entry : Entry → Entry → Bool
eq_entry (a, b) (c, d) = a == c && b == d

pub record TimerQueue : Type 0 where
  pub heap : ℕ → Timer
  pub timers : List Entry
  pub active_timers : List Entry
  pub calling_expired_timers : Bool
  pub canceling_timers : List Entry

abbrev pub has : Entry → List Entry → Bool
has x [] = false
has x (y ∷ ys) = eq_entry x y || has x ys

-- `std::set::insert` of what the set does not hold.
unfoldable pub insert_entry : Entry → List Entry → List Entry
unfolding lt_entry
insert_entry x [] = x ∷ []
insert_entry x (y ∷ ys) =
    let rest = insert_entry x ys in if lt_entry x y then x ∷ y ∷ ys else y ∷ rest

-- `std::set::insert`, also of what the set holds.
abbrev pub note : Entry → List Entry → List Entry
note x xs = if has x xs then xs else insert_entry x xs

unfoldable pub erase_entry : Entry → List Entry → List Entry
erase_entry x [] = []
erase_entry x (y ∷ ys) = let rest = erase_entry x ys in if eq_entry x y then ys else y ∷ rest

abbrev pub same_size : TimerQueue → Bool
same_size q = length q.timers == length q.active_timers

abbrev pub is_earlier : ℕ → List Entry → Bool
is_earlier time [] = true
is_earlier time ((first, p) ∷ es) = ltb time first

-- `insert`: the queue, and whether the earliest timer changed.
unfoldable pub insert : TimerQueue → ℕ → Option (TimerQueue × Bool)
unfolding insert_entry
insert q timer = do
  assert (same_size q)
  let t = q.heap timer
  assert (not (has (t.expiration, timer) q.timers))
  assert (not (has (timer, t.sequence) q.active_timers))
  let q' = record q {
    timers = insert_entry (t.expiration, timer) q.timers;
    active_timers = insert_entry (timer, t.sequence) q.active_timers;
  }
  assert (same_size q')
  some (q', is_earlier t.expiration q.timers)

-- What a method asks of the system: the timer set to a time, and a timer given back.
pub data Effect : Type 0 where
  resets_timerfd deletes : ℕ → Effect

unfoldable pub add_timer_in_loop : TimerQueue → ℕ → Option (TimerQueue × List Effect)
add_timer_in_loop q timer = do
  (q', earliest_changed) ← insert q timer
  some (q', if earliest_changed then resets_timerfd (q.heap timer).expiration ∷ [] else [])

unfoldable pub cancel_in_loop : TimerQueue → ℕ → ℕ → Option (TimerQueue × List Effect)
unfolding erase_entry insert_entry
cancel_in_loop q timer sequence = do
  assert (same_size q)
  if has (timer, sequence) q.active_timers
      then (do
        let entry : Entry = ((q.heap timer).expiration, timer)
        assert (has entry q.timers)
        let q' = record q {
          timers = erase_entry entry q.timers;
          active_timers = erase_entry (timer, sequence) q.active_timers;
        }
        assert (same_size q')
        some (q', deletes timer ∷ []))
      else some (
        if q.calling_expired_timers
            then record q { canceling_timers = note (timer, sequence) q.canceling_timers }
            else q,
        [],
      )

-- `std::set::lower_bound`: what is less than an entry, and what is not.
unfoldable pub split_at : Entry → List Entry → List Entry × List Entry
unfolding lt_entry
split_at x [] = ([], [])
split_at x (y ∷ ys) =
    let (before, behind) = split_at x ys in
    if lt_entry y x then (y ∷ before, behind) else ([], y ∷ ys)

abbrev pub uintptr_max : ℕ
uintptr_max = 2 ^ 64 - 1

abbrev pub is_later : ℕ → List Entry → Bool
is_later now [] = true
is_later now ((first, p) ∷ es) = ltb now first

unfoldable pub erase_active : (ℕ → Timer) → List Entry → List Entry → Option (List Entry)
unfolding erase_entry
erase_active heap [] active = some active
erase_active heap ((time, timer) ∷ es) active = do
  assert (has (timer, (heap timer).sequence) active)
  erase_active heap es (erase_entry (timer, (heap timer).sequence) active)

unfoldable pub get_expired : TimerQueue → ℕ → Option (List Entry × TimerQueue)
unfolding split_at erase_active
get_expired q now = do
  assert (same_size q)
  let (expired, behind) = split_at (now, uintptr_max) q.timers
  assert (is_later now behind)
  active ← erase_active q.heap expired q.active_timers
  let q' = record q { timers = behind; active_timers = active }
  assert (same_size q')
  some (expired, q')

-- The loop of `reset`.
unfoldable pub reset_all : List Entry → ℕ → TimerQueue → Option (TimerQueue × List Effect)
unfolding insert restart
reset_all [] now q = some (q, [])
reset_all ((time, timer) ∷ es) now q =
    let t = q.heap timer in
    if t.repeat && not (has (timer, t.sequence) q.canceling_timers)
    then (do
      (q', _) ← insert (record q { heap = put q.heap timer (restart t now) }) timer
      reset_all es now q')
    else (do (q', effects) ← reset_all es now q; some (q', deletes timer ∷ effects))

abbrev pub next_expire : TimerQueue → ℕ
next_expire q = elim q.timers [ [] ↦ 0 | (time, timer) ∷ es ↦ (q.heap timer).expiration ]

unfoldable pub reset : TimerQueue → List Entry → ℕ → Option (TimerQueue × List Effect)
unfolding reset_all
reset q expired now = do
  (q', effects) ← reset_all expired now q
  some
      (q', effects ++ (if ltb 0 (next_expire q') then resets_timerfd (next_expire q') ∷ [] else []))

-- `handleRead`; what the callbacks of the expired timers do to the queue is given.
unfoldable pub handle_read :
    (List Entry → TimerQueue → Option TimerQueue)
    → TimerQueue
    → ℕ
    → Option (TimerQueue × List Effect)
handle_read run_all q now = do
  (expired, q') ← get_expired q now
  q'' ← run_all expired (record q' { calling_expired_timers = true; canceling_timers = [] })
  reset (record q'' { calling_expired_timers = false }) expired now
