-- ===== src/TimerQueue/Order.antt =====
-- muduo/net/TimerQueue.cpp: the set of timers stays in order.
use learn_muduo.Prelude.{
  ℕ, suc, ◌≡◌, refl, ap, inl, inr, Bool, true, false, ◌||◌, List, [], ◌∷◌, some, arith, length, All,
  eq→==, Bool-cases,
}
use learn_muduo.TimerQueue.{
  Entry, lt_entry, eq_entry, has, insert_entry, insert, is_earlier, TimerQueue,
}

-- In order, and no entry twice.
abbrev pub IsOrdered : List Entry → Type 0
IsOrdered [] = Unit {0}
IsOrdered (x ∷ xs) = All (λ y. lt_entry x y ≡ true) xs × IsOrdered xs

pub lt_entry_trans :
    (x y z : Entry) → lt_entry x y ≡ true → lt_entry y z ≡ true → lt_entry x z ≡ true
unfolding lt_entry
lt_entry_trans (a, b) (c, d) (e, f) h k = ground arith

lt_entry_total : (x y : Entry) → lt_entry x y ≡ false → eq_entry x y ≡ false → lt_entry y x ≡ true
unfolding lt_entry
lt_entry_total (a, b) (c, d) h k = ground arith

pub All-lt :
    (x y : Entry) (xs : List Entry)
    → lt_entry x y ≡ true
    → All (λ z. lt_entry y z ≡ true) xs
    → All (λ z. lt_entry x z ≡ true) xs
All-lt x y [] h hs = tt
All-lt x y (z ∷ zs) h (k, ks) = (lt_entry_trans x y z h k, All-lt x y zs h ks)

insert_entry-All :
    (w x : Entry) (xs : List Entry)
    → lt_entry w x ≡ true
    → All (λ z. lt_entry w z ≡ true) xs
    → All (λ z. lt_entry w z ≡ true) (insert_entry x xs)
unfolding insert_entry
insert_entry-All w x [] h hs = (h, tt)
insert_entry-All w x (y ∷ ys) h (k, ks) = elim (Bool-cases (lt_entry x y)) [
  | inl first ↦ rw first (h, (k, ks))
  | inr later ↦ rw later (k, insert_entry-All w x ys h ks)
]

pub insert_entry-IsOrdered :
    (x : Entry) (xs : List Entry) → IsOrdered xs → has x xs ≡ false → IsOrdered (insert_entry x xs)
unfolding insert_entry
insert_entry-IsOrdered x [] o h = (tt, tt)
insert_entry-IsOrdered x (y ∷ ys) (k, ks) h = elim (Bool-cases (lt_entry x y)) [
  | inl first ↦ rw first ((first, All-lt x y ys first k), (k, ks))
  | inr later ↦ rw later (
    insert_entry-All y x ys (lt_entry_total x y later (fst_false (eq_entry x y) (has x ys) h)) k,
    insert_entry-IsOrdered x ys ks (snd_false (eq_entry x y) (has x ys) h),
  )
]
  where
    fst_false : (a b : Bool) → (a || b) ≡ false → a ≡ false
    fst_false true b e = e
    fst_false false b e = refl

    snd_false : (a b : Bool) → (a || b) ≡ false → b ≡ false
    snd_false true b e = cc
    snd_false false b e = e

length-insert_entry : (x : Entry) (xs : List Entry) → length (insert_entry x xs) ≡ suc (length xs)
unfolding insert_entry
length-insert_entry x [] = refl
length-insert_entry x (y ∷ ys) = elim (Bool-cases (lt_entry x y)) [
  | inl first ↦ rw first refl
  | inr later ↦ rw later (ap suc (length-insert_entry x ys))
]

pub earlier-first :
    (time timer : ℕ) (es : List Entry)
    → is_earlier time es ≡ true
    → insert_entry (time, timer) es ≡ (time, timer) ∷ es
unfolding insert_entry lt_entry
earlier-first time timer [] h = refl
earlier-first time timer ((first, p) ∷ es) h = rw h refl

pub insert-made :
    (q : TimerQueue) (timer : ℕ)
    → length q.timers ≡ length q.active_timers
    → has ((q.heap timer).expiration, timer) q.timers ≡ false
    → has (timer, (q.heap timer).sequence) q.active_timers ≡ false
    → insert q timer
      ≡ some (
        record q {
          timers = insert_entry ((q.heap timer).expiration, timer) q.timers;
          active_timers = insert_entry (timer, (q.heap timer).sequence) q.active_timers;
        },
        is_earlier (q.heap timer).expiration q.timers,
      )
insert-made q timer size new fresh =
    let entry : Entry = ((q.heap timer).expiration, timer) in
    let active : Entry = (timer, (q.heap timer).sequence) in
    unfold insert in
    rw
      (
        eq→== (length q.timers) (length q.active_timers) size,
        new,
        fresh,
        eq→== (length (insert_entry entry q.timers)) (length (insert_entry active q.active_timers))
            (omega (
              arith,
              size,
              length-insert_entry entry q.timers,
              length-insert_entry active q.active_timers,
            )),
      )
      refl
