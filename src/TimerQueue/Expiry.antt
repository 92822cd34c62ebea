-- ===== src/TimerQueue/Expiry.antt =====
-- muduo/net/TimerQueue.cpp: which timers expire.
use mathlib.Core.Option.{some-injective}
use learn_muduo.Prelude.{
  subst, lt→ltb, eq→==, ◌>>◌, assert, ℕ, suc, ◌+◌, ◌≤◌, ◌<◌, ◌≡◌, ◌∙◌, refl, sym, ap, inl, inr,
  Bool, true, false, ◌||◌, List, [], ◌∷◌, ◌++◌, none, some, arith, length, All, Bool-cases,
}
use learn_muduo.TimerQueue.{
  Entry, Timer, TimerQueue, has, eq_entry, erase_entry, lt_entry, split_at, uintptr_max, is_later,
  get_expired, erase_active,
}
use learn_muduo.TimerQueue.Sets.{erase_entry-IsOrdered}
use learn_muduo.TimerQueue.Order.{IsOrdered}

-- A pointer of the heap is below the largest one.
abbrev pub IsPointer : Entry → Type 0
IsPointer (time, timer) = timer < uintptr_max

record Splits (now : ℕ) (xs before behind : List Entry) : Type 0 where
  whole : before ++ behind ≡ xs
  due : All (λ x. x.0 ≤ now) before
  later : All (λ x. now < x.0) behind

due_of : (x : Entry) (now : ℕ) → lt_entry x (now, uintptr_max) ≡ true → x.0 ≤ now
unfolding lt_entry
due_of (a, b) now h = ground (arith, h)

later_of : (x : Entry) (now : ℕ) → IsPointer x → lt_entry x (now, uintptr_max) ≡ false → now < x.0
unfolding lt_entry
later_of (a, b) now p h = ground (arith, h, p)

lt_entry_times : (x y : Entry) → lt_entry x y ≡ true → x.0 ≤ y.0
unfolding lt_entry
lt_entry_times (a, b) (c, d) h = ground (arith, h)

later-All :
    (x : Entry) (now : ℕ) (xs : List Entry)
    → now < x.0
    → All (λ y. lt_entry x y ≡ true) xs
    → All (λ y. now < y.0) xs
later-All x now [] h hs = tt
later-All x now (y ∷ ys) h (k, ks) =
    (omega (arith, h, lt_entry_times x y k), later-All x now ys h ks)

split_at-Splits :
    (now : ℕ) (xs : List Entry)
    → IsOrdered xs
    → All IsPointer xs
    → Splits now xs (split_at (now, uintptr_max) xs).0 (split_at (now, uintptr_max) xs).1
unfolding split_at
split_at-Splits now [] o p = record { whole = refl; due = tt; later = tt }
split_at-Splits now (x ∷ xs) (k, ks) (p, ps) =
    let rest = split_at-Splits now xs ks ps in
    elim (Bool-cases (lt_entry x (now, uintptr_max))) [
      | inl due ↦ rw due (record {
        whole = ap (λ ys. x ∷ ys) rest.whole;
        due = (due_of x now due, rest.due);
        later = rest.later;
      })
      | inr waits ↦
          let late = later_of x now p waits in
          rw waits (record { whole = refl; due = tt; later = (late, later-All x now xs late k) })
    ]

-- The active timers are exactly those of the entries: they go out one for one.
pub record IsKept (q : TimerQueue) : Type 0 where
  pub ordered : IsOrdered q.timers
  pub pointers : All IsPointer q.timers
  pub active_ordered : IsOrdered q.active_timers
  pub matched : erase_active q.heap q.timers q.active_timers ≡ some []

erase_entry-has :
    (x : Entry) (xs : List Entry) → has x xs ≡ true → length xs ≡ suc (length (erase_entry x xs))
unfolding erase_entry
erase_entry-has x [] h = cc
erase_entry-has x (y ∷ ys) h = elim (Bool-cases (eq_entry x y)) [
  | inl here ↦ rw here refl
  | inr there ↦
      rw there (ap suc (erase_entry-has x ys (or_right (eq_entry x y) (has x ys) there h)))
]
  where
    or_right : (a b : Bool) → a ≡ false → (a || b) ≡ true → b ≡ true
    or_right true b e h = cc
    or_right false b e h = h

pub erase_active-length :
    (heap : ℕ → Timer) (es active rest : List Entry)
    → erase_active heap es active ≡ some rest
    → length active ≡ length es + length rest
unfolding erase_active
erase_active-length heap [] active rest e =
    let same : length active ≡ length rest = ap length (some-injective active rest e) in
    omega (arith, same)
erase_active-length heap ((time, timer) ∷ es) active rest e =
    elim (Bool-cases (has (timer, (heap timer).sequence) active)) [
      | inl found ↦
          let inner : erase_active heap es (erase_entry (timer, (heap timer).sequence) active)
              ≡ some rest =
            sym (
              ap
                (λ b.
                  assert b
                  >> erase_active heap es (erase_entry (timer, (heap timer).sequence) active))
                found)
            ∙ e in
          omega (
            arith,
            erase_entry-has (timer, (heap timer).sequence) active found,
            erase_active-length heap es (erase_entry (timer, (heap timer).sequence) active) rest
                inner,
          )
      | inr missing ↦
          let bad : none ≡ some rest =
            sym (
              ap
                (λ b.
                  assert b
                  >> erase_active heap es (erase_entry (timer, (heap timer).sequence) active))
                missing)
            ∙ e in
          cc
    ]

-- A run of erasures stops in the middle.
erase_active-append :
    (heap : ℕ → Timer) (xs ys active rest : List Entry)
    → erase_active heap (xs ++ ys) active ≡ some rest
    → (mid : List Entry) × (erase_active heap xs active ≡ some mid)
      × (erase_active heap ys mid ≡ some rest)
unfolding erase_active
erase_active-append heap [] ys active rest e = (active, refl, e)
erase_active-append heap ((time, timer) ∷ xs) ys active rest e =
    elim (Bool-cases (has (timer, (heap timer).sequence) active)) [
      | inl found ↦
          let smaller = erase_entry (timer, (heap timer).sequence) active in
          let inner : erase_active heap (xs ++ ys) smaller ≡ some rest =
            sym (ap (λ b. assert b >> erase_active heap (xs ++ ys) smaller) found) ∙ e in
          let (mid, first, second) = erase_active-append heap xs ys smaller rest inner in
          (mid, ap (λ b. assert b >> erase_active heap xs smaller) found ∙ first, second)
      | inr missing ↦
          let smaller = erase_entry (timer, (heap timer).sequence) active in
          let bad : none ≡ some rest =
            sym (ap (λ b. assert b >> erase_active heap (xs ++ ys) smaller) missing) ∙ e in
          cc
    ]

erase_active-IsOrdered :
    (heap : ℕ → Timer) (xs active rest : List Entry)
    → erase_active heap xs active ≡ some rest
    → IsOrdered active
    → IsOrdered rest
unfolding erase_active
erase_active-IsOrdered heap [] active rest e o = subst IsOrdered (some-injective active rest e) o
erase_active-IsOrdered heap ((time, timer) ∷ xs) active rest e o =
    let smaller = erase_entry (timer, (heap timer).sequence) active in
    elim (Bool-cases (has (timer, (heap timer).sequence) active)) [
      | inl found ↦
          erase_active-IsOrdered heap xs smaller rest
            (sym (ap (λ b. assert b >> erase_active heap xs smaller) found) ∙ e)
            (erase_entry-IsOrdered (timer, (heap timer).sequence) active o)
      | inr missing ↦
          let bad : none ≡ some rest =
            sym (ap (λ b. assert b >> erase_active heap xs smaller) missing) ∙ e in
          cc
    ]

is_later-All : (now : ℕ) (xs : List Entry) → All (λ x. now < x.0) xs → is_later now xs ≡ true
is_later-All now [] h = refl
is_later-All now ((time, p) ∷ xs) (h, hs) = lt→ltb now time h

IsOrdered-behind : (xs ys : List Entry) → IsOrdered (xs ++ ys) → IsOrdered ys
IsOrdered-behind [] ys o = o
IsOrdered-behind (x ∷ xs) ys (k, ks) = IsOrdered-behind xs ys ks

All-behind : (P : Entry → Type 0) (xs ys : List Entry) → All P (xs ++ ys) → All P ys
All-behind P [] ys h = h
All-behind P (x ∷ xs) ys (k, ks) = All-behind P xs ys ks

-- On a queue in order whose active timers match its entries, `getExpired` succeeds: it takes out exactly
-- the timers that are due, in order, those that stay are later than now, no timer changes, and the
-- queue that is left is in order with matching active timers again.
pub get_expired-due :
    (q : TimerQueue) (now : ℕ)
    → IsKept q
    → (expired : List Entry) × (q' : TimerQueue) × (get_expired q now ≡ some (expired, q'))
      × (expired ++ q'.timers ≡ q.timers)
      × All (λ x. x.0 ≤ now) expired
      × All (λ x. now < x.0) q'.timers
      × (q'.heap ≡ q.heap)
      × IsKept q'
get_expired-due q now k =
    let parts = split_at (now, uintptr_max) q.timers in
    let s = split_at-Splits now q.timers k.ordered k.pointers in
    let (active, first, second) =
      erase_active-append q.heap parts.0 parts.1 q.active_timers []
        (ap (λ ts. erase_active q.heap ts q.active_timers) s.whole ∙ k.matched) in
    (
      parts.0,
      record q { timers = parts.1; active_timers = active },
      unfold get_expired in
          rw
            (
              eq→== (length q.timers) (length q.active_timers)
                  (omega (arith, erase_active-length q.heap q.timers q.active_timers [] k.matched)),
              is_later-All now parts.1 s.later,
              first,
              eq→== (length parts.1) (length active)
                  (omega (arith, erase_active-length q.heap parts.1 active [] second)),
            )
            refl,
      s.whole,
      s.due,
      s.later,
      refl,
      record {
        ordered = IsOrdered-behind parts.0 parts.1 (subst IsOrdered (sym s.whole) k.ordered);
        pointers =
            All-behind IsPointer parts.0 parts.1 (subst (All IsPointer) (sym s.whole) k.pointers);
        active_ordered =
            erase_active-IsOrdered q.heap parts.0 q.active_timers active first k.active_ordered;
        matched = second;
      },
    )
