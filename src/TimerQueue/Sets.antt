-- ===== src/TimerQueue/Sets.antt =====
-- muduo/net/TimerQueue.cpp: insertion and removal in a set in order.
use learn_muduo.Prelude.{
  ◌≡◌, refl, sym, ap, ap₂, inl, inr, Bool, true, false, ◌||◌, List, [], ◌∷◌, arith, ==_iff, eq→==,
  All, Bool-cases,
}
use learn_muduo.TimerQueue.{Entry, lt_entry, eq_entry, has, insert_entry, erase_entry}
use learn_muduo.TimerQueue.Order.{IsOrdered, All-lt}

pub eq_entry-same : (x : Entry) → eq_entry x x ≡ true
eq_entry-same (a, b) = rw (eq→== a a refl, eq→== b b refl) refl

pub eq_entry_only : (x y : Entry) → eq_entry x y ≡ true → x ≡ y
eq_entry_only (a, b) (c, d) h =
    ap₂ (λ s t. (s, t)) ((==_iff a c).0 (ground (arith, h))) ((==_iff b d).0 (ground (arith, h)))

pub or_true : (s t : Bool) → t ≡ true → (s || t) ≡ true
or_true true t e = refl
or_true false t e = e

pub or_right : (s t : Bool) → s ≡ false → (s || t) ≡ true → t ≡ true
or_right true t e h = cc
or_right false t e h = h

pub or_left_false : (s t : Bool) → (s || t) ≡ false → s ≡ false
or_left_false true t e = e
or_left_false false t e = refl

pub or_right_false : (s t : Bool) → (s || t) ≡ false → t ≡ false
or_right_false true t e = cc
or_right_false false t e = e

pub has-insert_entry : (a : Entry) (xs : List Entry) → has a (insert_entry a xs) ≡ true
unfolding insert_entry
has-insert_entry a [] = rw (eq_entry-same a) refl
has-insert_entry a (y ∷ ys) = elim (Bool-cases (lt_entry a y)) [
  | inl first ↦ rw first (rw (eq_entry-same a) refl)
  | inr later ↦
      rw later (or_true (eq_entry a y) (has a (insert_entry a ys)) (has-insert_entry a ys))
]

pub has-insert_other :
    (a b : Entry) (xs : List Entry) → has b xs ≡ true → has b (insert_entry a xs) ≡ true
unfolding insert_entry
has-insert_other a b [] h = cc
has-insert_other a b (y ∷ ys) h = elim (Bool-cases (lt_entry a y)) [
  | inl first ↦ rw first (or_true (eq_entry b a) (has b (y ∷ ys)) h)
  | inr later ↦ elim (Bool-cases (eq_entry b y)) [
    | inl here ↦ rw later (rw here refl)
    | inr there ↦ rw later (
        or_true (eq_entry b y) (has b (insert_entry a ys))
          (has-insert_other a b ys (or_right (eq_entry b y) (has b ys) there h)))
  ]
]

-- Before all of a set, an entry goes in first.
insert_entry-front :
    (a : Entry) (xs : List Entry) → All (λ z. lt_entry a z ≡ true) xs → insert_entry a xs ≡ a ∷ xs
unfolding insert_entry
insert_entry-front a [] h = refl
insert_entry-front a (y ∷ ys) (h, hs) = rw h refl

-- What goes in comes out.
pub erase_entry-insert_entry :
    (a : Entry) (xs : List Entry) → has a xs ≡ false → erase_entry a (insert_entry a xs) ≡ xs
unfolding insert_entry erase_entry
erase_entry-insert_entry a [] h = rw (eq_entry-same a) refl
erase_entry-insert_entry a (y ∷ ys) h = elim (Bool-cases (lt_entry a y)) [
  | inl first ↦ rw first (rw (eq_entry-same a) refl)
  | inr later ↦ rw later (
      rw (or_left_false (eq_entry a y) (has a ys) h) (
        ap (λ zs. y ∷ zs)
          (erase_entry-insert_entry a ys (or_right_false (eq_entry a y) (has a ys) h))))
]

pub erase_entry-All :
    (P : Entry → Type 0) (b : Entry) (xs : List Entry) → All P xs → All P (erase_entry b xs)
unfolding erase_entry
erase_entry-All P b [] h = tt
erase_entry-All P b (y ∷ ys) (h, hs) = elim (Bool-cases (eq_entry b y)) [
  | inl here ↦ rw here hs
  | inr there ↦ rw there (h, erase_entry-All P b ys hs)
]

pub erase_entry-IsOrdered :
    (b : Entry) (xs : List Entry) → IsOrdered xs → IsOrdered (erase_entry b xs)
unfolding erase_entry
erase_entry-IsOrdered b [] o = tt
erase_entry-IsOrdered b (y ∷ ys) (k, ks) = elim (Bool-cases (eq_entry b y)) [
  | inl here ↦ rw here ks
  | inr there ↦
      rw there (erase_entry-All (λ z. lt_entry y z ≡ true) b ys k, erase_entry-IsOrdered b ys ks)
]

pub has-erase_entry :
    (a b : Entry) (xs : List Entry) → has a xs ≡ false → has a (erase_entry b xs) ≡ false
unfolding erase_entry
has-erase_entry a b [] h = refl
has-erase_entry a b (y ∷ ys) h = elim (Bool-cases (eq_entry b y)) [
  | inl here ↦ rw here (or_right_false (eq_entry a y) (has a ys) h)
  | inr there ↦ rw there (
      rw (or_left_false (eq_entry a y) (has a ys) h)
        (has-erase_entry a b ys (or_right_false (eq_entry a y) (has a ys) h)))
]

-- An insertion and the removal of another entry commute.
pub erase_entry-insert_other :
    (a b : Entry) (xs : List Entry)
    → IsOrdered xs
    → eq_entry b a ≡ false
    → erase_entry b (insert_entry a xs) ≡ insert_entry a (erase_entry b xs)
unfolding insert_entry erase_entry
erase_entry-insert_other a b [] o ne = rw ne refl
erase_entry-insert_other a b (y ∷ ys) (k, ks) ne = elim (Bool-cases (lt_entry a y)) [
  | inl first ↦ elim (Bool-cases (eq_entry b y)) [
    | inl here ↦ rw (first, ne) (rw here (sym (insert_entry-front a ys (All-lt a y ys first k))))
    | inr there ↦ rw (first, ne) (rw there (rw first refl))
  ]
  | inr later ↦ elim (Bool-cases (eq_entry b y)) [
    | inl here ↦ rw later (rw here refl)
    | inr there ↦
        rw later (rw there (rw later (ap (λ zs. y ∷ zs) (erase_entry-insert_other a b ys ks ne))))
  ]
]

pub insert_entry-All :
    (P : Entry → Type 0) (x : Entry) (xs : List Entry) → P x → All P xs → All P (insert_entry x xs)
unfolding insert_entry
insert_entry-All P x [] p ps = (p, tt)
insert_entry-All P x (y ∷ ys) p (q, qs) = elim (Bool-cases (lt_entry x y)) [
  | inl first ↦ rw first (p, (q, qs))
  | inr later ↦ rw later (q, insert_entry-All P x ys p qs)
]
