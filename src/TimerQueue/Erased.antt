-- ===== src/TimerQueue/Erased.antt =====
-- muduo/net/TimerQueue.cpp: an entry and its active timer go out together.
use mathlib.Core.Option.{some-injective}
use learn_muduo.Prelude.{
  ℕ, ◌≡◌, ◌∙◌, refl, sym, ap, inl, inr, Bool, true, false, ◌||◌, List, [], ◌∷◌, none, some,
  Bool-cases, ◌>>◌, assert, All, arith, if◌then◌else◌,
}
use learn_muduo.TimerQueue.{Entry, Timer, lt_entry, eq_entry, has, erase_entry, erase_active}
use learn_muduo.TimerQueue.Sets.{
  eq_entry_only, eq_entry-same, or_right, erase_entry-IsOrdered, or_true,
}
use learn_muduo.TimerQueue.Order.{IsOrdered}

eq_entry_sym : (a b : Entry) → eq_entry a b ≡ false → eq_entry b a ≡ false
eq_entry_sym (a, b) (c, d) h = ground arith

lt_entry-eq_entry : (a b : Entry) → lt_entry a b ≡ true → eq_entry a b ≡ false
unfolding lt_entry
lt_entry-eq_entry (a, b) (c, d) h = ground arith

-- What is above an entry is not that entry.
above-has : (a : Entry) (xs : List Entry) → All (λ y. lt_entry a y ≡ true) xs → has a xs ≡ false
above-has a [] h = refl
above-has a (y ∷ ys) (h, hs) = rw (lt_entry-eq_entry a y h) (above-has a ys hs)

-- A set in order holds an entry once.
pub erase_entry-gone :
    (a : Entry) (xs : List Entry) → IsOrdered xs → has a (erase_entry a xs) ≡ false
unfolding erase_entry
erase_entry-gone a [] o = refl
erase_entry-gone a (y ∷ ys) (k, ks) = elim (Bool-cases (eq_entry a y)) [
  | inl here ↦
      let below : has a ys ≡ false =
        ap (λ z. has z ys) (eq_entry_only a y here) ∙ above-has y ys k in
      rw here below
  | inr there ↦ rw there (rw there (erase_entry-gone a ys ks))
]

-- What is in the smaller set was in the larger one.
erase_entry-within :
    (a b : Entry) (xs : List Entry) → has a (erase_entry b xs) ≡ true → has a xs ≡ true
unfolding erase_entry
erase_entry-within a b [] h = h
erase_entry-within a b (y ∷ ys) h = elim (Bool-cases (eq_entry b y)) [
  | inl here ↦
      or_true (eq_entry a y) (has a ys)
        (sym (ap (λ t. has a (if t then ys else y ∷ erase_entry b ys)) here) ∙ h)
  | inr there ↦ elim (Bool-cases (eq_entry a y)) [
    | inl same ↦ rw same refl
    | inr other ↦ or_true (eq_entry a y) (has a ys) (
        erase_entry-within a b ys (
          or_right (eq_entry a y) (has a (erase_entry b ys)) other
            (sym (ap (λ t. has a (if t then ys else y ∷ erase_entry b ys)) there) ∙ h)))
  ]
]

-- The other entries stay.
pub erase_entry-stays :
    (a b : Entry) (xs : List Entry)
    → eq_entry a b ≡ false
    → has a xs ≡ true
    → has a (erase_entry b xs) ≡ true
unfolding erase_entry
erase_entry-stays a b [] ne h = h
erase_entry-stays a b (y ∷ ys) ne h = elim (Bool-cases (eq_entry b y)) [
  | inl here ↦
      let other : eq_entry a y ≡ false =
        sym (ap (λ z. eq_entry a z) (eq_entry_only b y here)) ∙ ne in
      rw here (or_right (eq_entry a y) (has a ys) other h)
  | inr there ↦ elim (Bool-cases (eq_entry a y)) [
    | inl same ↦ rw there (rw same refl)
    | inr other ↦ rw there (
        or_true (eq_entry a y) (has a (erase_entry b ys))
          (erase_entry-stays a b ys ne (or_right (eq_entry a y) (has a ys) other h)))
  ]
]

erase_entry_comm :
    (a b : Entry) (xs : List Entry)
    → eq_entry a b ≡ false
    → erase_entry a (erase_entry b xs) ≡ erase_entry b (erase_entry a xs)
unfolding erase_entry
erase_entry_comm a b [] ne = refl
erase_entry_comm a b (y ∷ ys) ne = elim (Bool-cases (eq_entry b y)) [
  | inl here ↦
      let other : eq_entry a y ≡ false =
        sym (ap (λ z. eq_entry a z) (eq_entry_only b y here)) ∙ ne in
      rw here (rw other (rw here refl))
  | inr there ↦ elim (Bool-cases (eq_entry a y)) [
    | inl same ↦ rw there (rw same refl)
    | inr other ↦ rw there (rw other (rw there (ap (λ zs. y ∷ zs) (erase_entry_comm a b ys ne))))
  ]
]

-- The first of matched entries has its active timer, and the others match what is left.
pub erase_active-first :
    (heap : ℕ → Timer) (w p : ℕ) (es active rest : List Entry)
    → erase_active heap ((w, p) ∷ es) active ≡ some rest
    → (has (p, (heap p).sequence) active ≡ true)
      × (erase_active heap es (erase_entry (p, (heap p).sequence) active) ≡ some rest)
unfolding erase_active
erase_active-first heap w p es active rest e =
    let b : Entry = (p, (heap p).sequence) in
    let without : (t : Bool)
        → has b active ≡ t
        → (assert t >> erase_active heap es (erase_entry b active)) ≡ some rest =
      λ t same. sym (ap (λ t. assert t >> erase_active heap es (erase_entry b active)) same) ∙ e in
    elim (Bool-cases (has b active)) [
      | inl found ↦ (found, without true found)
      | inr missing ↦ let bad : none ≡ some rest = without false missing in cc
    ]

pub erase_active-next :
    (heap : ℕ → Timer) (w p : ℕ) (es active rest : List Entry)
    → has (p, (heap p).sequence) active ≡ true
    → erase_active heap es (erase_entry (p, (heap p).sequence) active) ≡ some rest
    → erase_active heap ((w, p) ∷ es) active ≡ some rest
unfolding erase_active
erase_active-next heap w p es active rest found e =
    ap (λ t. assert t >> erase_active heap es (erase_entry (p, (heap p).sequence) active)) found ∙ e

pub erase_active-erase_entry :
    (heap : ℕ → Timer) (time timer : ℕ) (es active : List Entry)
    → IsOrdered active
    → has (time, timer) es ≡ true
    → erase_active heap es active ≡ some []
    → (has (timer, (heap timer).sequence) active ≡ true)
      × (erase_active heap
            (erase_entry (time, timer) es)
            (erase_entry (timer, (heap timer).sequence) active)
          ≡ some [])
unfolding erase_entry
erase_active-erase_entry heap time timer [] active o h e = cc
erase_active-erase_entry heap time timer ((w, p) ∷ es) active o h e =
    let (found, inner) = erase_active-first heap w p es active [] e in
    let x : Entry = (time, timer) in
    let active_of : Entry → Entry = λ y. (y.1, (heap y.1).sequence) in
    elim (Bool-cases (eq_entry x (w, p))) [
      | inl here ↦
          let same : active_of x ≡ active_of (w, p) = ap active_of (eq_entry_only x (w, p) here) in
          rw here (
            ap (λ a. has a active) same ∙ found,
            ap (λ a. erase_active heap es (erase_entry a active)) same ∙ inner,
          )
      | inr there ↦
          let a = active_of x in
          let b = active_of (w, p) in
          let (inside, smaller) =
            erase_active-erase_entry heap time timer es (erase_entry b active)
              (erase_entry-IsOrdered b active o) (or_right (eq_entry x (w, p)) (has x es) there h)
              inner in
          let apart : eq_entry a b ≡ false = elim (Bool-cases (eq_entry a b)) [
            | inl same ↦
                let bad : true ≡ false =
                  sym inside
                  ∙ ap (λ c. has c (erase_entry b active)) (eq_entry_only a b same)
                  ∙ erase_entry-gone b active o in
                cc
            | inr other ↦ other
          ] in
          rw there (
            erase_entry-within a b active inside,
            erase_active-next heap w p (erase_entry x es) (erase_entry a active) []
                (erase_entry-stays b a active (eq_entry_sym a b apart) found)
                (ap (λ left. erase_active heap (erase_entry x es) left)
                    (sym (erase_entry_comm a b active apart))
                  ∙ smaller),
          )
    ]

-- Each active timer has an entry, and the sequence number of its timer.
pub erase_active-origin :
    (heap : ℕ → Timer) (timer sequence : ℕ) (es active : List Entry)
    → has (timer, sequence) active ≡ true
    → erase_active heap es active ≡ some []
    → (time : ℕ) × (has (time, timer) es ≡ true) × ((heap timer).sequence ≡ sequence)
unfolding erase_active
erase_active-origin heap timer sequence [] active h e =
    let bad : true ≡ false =
      sym h ∙ ap (λ left. has (timer, sequence) left) (some-injective active [] e) in
    cc
erase_active-origin heap timer sequence ((w, p) ∷ es) active h e =
    let (found, inner) = erase_active-first heap w p es active [] e in
    let a : Entry = (timer, sequence) in
    let b : Entry = (p, (heap p).sequence) in
    elim (Bool-cases (eq_entry a b)) [
      | inl same ↦
          let equal : a ≡ b = eq_entry_only a b same in
          let there : timer ≡ p = ap (λ x. x.0) equal in
          (
            w,
            ap (λ t. eq_entry (w, t) (w, p) || has (w, t) es) there
                ∙ rw (eq_entry-same (w, p)) refl,
            ap (λ t. (heap t).sequence) there ∙ sym (ap (λ x. x.1) equal),
          )
      | inr other ↦
          let (time, listed, number) =
            erase_active-origin heap timer sequence es (erase_entry b active)
              (erase_entry-stays a b active other h) inner in
          (time, or_true (eq_entry (time, timer) (w, p)) (has (time, timer) es) listed, number)
    ]
