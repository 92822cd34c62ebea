-- ===== src/TimerQueue/Matched.antt =====
-- muduo/net/TimerQueue.cpp: `insert` keeps the two sets of timers matched.
use learn_muduo.Prelude.{
  ℕ, ◌<◌, ◌≡◌, ◌∙◌, sym, ap, inl, inr, Bool, true, false, List, [], ◌∷◌, none, some, arith, length,
  Bool-cases, ◌>>◌, assert,
}
use learn_muduo.TimerQueue.{
  Entry, Timer, TimerQueue, lt_entry, eq_entry, has, insert_entry, erase_entry, erase_active,
  insert, is_earlier, uintptr_max,
}
use learn_muduo.TimerQueue.Sets.{
  insert_entry-All, eq_entry_only, has-insert_entry, has-insert_other, erase_entry-insert_entry,
  erase_entry-IsOrdered, has-erase_entry, erase_entry-insert_other,
}
use learn_muduo.TimerQueue.Order.{IsOrdered, insert_entry-IsOrdered, insert-made, earlier-first}
use learn_muduo.TimerQueue.Expiry.{IsPointer, IsKept, erase_active-length}

apart : (a b : Entry) (xs : List Entry) → has a xs ≡ false → has b xs ≡ true → eq_entry b a ≡ false
apart a b xs h k = elim (Bool-cases (eq_entry b a)) [
  | inl same ↦
      let bad : true ≡ false = sym k ∙ ap (λ x. has x xs) (eq_entry_only b a same) ∙ h in cc
  | inr other ↦ other
]

-- An entry and its active timer go in together.
erase_active-insert_entry :
    (heap : ℕ → Timer) (time timer : ℕ) (es active : List Entry)
    → IsOrdered active
    → has (timer, (heap timer).sequence) active ≡ false
    → erase_active heap es active ≡ some []
    → erase_active heap
        (insert_entry (time, timer) es)
        (insert_entry (timer, (heap timer).sequence) active)
      ≡ some []
unfolding erase_active insert_entry
erase_active-insert_entry heap time timer [] active o h e =
    let a : Entry = (timer, (heap timer).sequence) in
    rw (has-insert_entry a active, erase_entry-insert_entry a active h) e
erase_active-insert_entry heap time timer ((w, p) ∷ es) active o h e =
    let a : Entry = (timer, (heap timer).sequence) in
    let b : Entry = (p, (heap p).sequence) in
    let smaller = erase_entry b active in
    elim (Bool-cases (has b active)) [
      | inl found ↦ elim (Bool-cases (lt_entry (time, timer) (w, p))) [
        | inl first ↦
            rw first (rw (has-insert_entry a active, erase_entry-insert_entry a active h) e)
        | inr later ↦
            let inner : erase_active heap es smaller ≡ some [] =
              sym (ap (λ t. assert t >> erase_active heap es smaller) found) ∙ e in
            rw later (
              rw
                (
                  has-insert_other a b active found,
                  erase_entry-insert_other a b active o (apart a b active h found),
                )
                (erase_active-insert_entry heap time timer es smaller
                  (erase_entry-IsOrdered b active o) (has-erase_entry a b active h) inner))
      ]
      | inr missing ↦
          let bad : none ≡ some [] =
            sym (ap (λ t. assert t >> erase_active heap es smaller) missing) ∙ e in
          cc
    ]

-- The queue with a timer in both sets.
abbrev pub inserted : TimerQueue → ℕ → TimerQueue
inserted q timer = record q {
  timers = insert_entry ((q.heap timer).expiration, timer) q.timers;
  active_timers = insert_entry (timer, (q.heap timer).sequence) q.active_timers;
}

pub timers-active : (q : TimerQueue) → IsKept q → length q.timers ≡ length q.active_timers
timers-active q k = omega (arith, erase_active-length q.heap q.timers q.active_timers [] k.matched)

pub inserted-IsKept :
    (q : TimerQueue) (timer : ℕ)
    → IsKept q
    → timer < uintptr_max
    → has ((q.heap timer).expiration, timer) q.timers ≡ false
    → has (timer, (q.heap timer).sequence) q.active_timers ≡ false
    → IsKept (inserted q timer)
inserted-IsKept q timer k small new fresh =
    let entry : Entry = ((q.heap timer).expiration, timer) in
    let active : Entry = (timer, (q.heap timer).sequence) in
    record {
      ordered = insert_entry-IsOrdered entry q.timers k.ordered new;
      pointers = insert_entry-All IsPointer entry q.timers small k.pointers;
      active_ordered = insert_entry-IsOrdered active q.active_timers k.active_ordered fresh;
      matched =
          erase_active-insert_entry q.heap (q.heap timer).expiration timer q.timers q.active_timers
            k.active_ordered fresh k.matched;
    }

-- On a queue in order whose active timers match its entries, `insert` of a timer that neither set
-- holds, at an address below the largest one, succeeds and leaves such a queue, with the timer
-- first where it reports that the earliest changed.
insert-IsKept :
    (q : TimerQueue) (timer : ℕ)
    → IsKept q
    → timer < uintptr_max
    → has ((q.heap timer).expiration, timer) q.timers ≡ false
    → has (timer, (q.heap timer).sequence) q.active_timers ≡ false
    → (q' : TimerQueue) × (earliest_changed : Bool) × (insert q timer ≡ some (q', earliest_changed))
      × IsKept q'
      × (earliest_changed ≡ true → q'.timers ≡ ((q.heap timer).expiration, timer) ∷ q.timers)
insert-IsKept q timer k small new fresh = (
  inserted q timer,
  is_earlier (q.heap timer).expiration q.timers,
  insert-made q timer (timers-active q k) new fresh,
  inserted-IsKept q timer k small new fresh,
  earlier-first (q.heap timer).expiration timer q.timers,
)
