-- ===== src/TimerQueue/Held.antt =====
-- muduo/net/TimerQueue.cpp: the timers of a queue and those that have just expired are different, and an
-- entry has the time at which its timer expires.
use learn_muduo.Prelude.{
  ℕ, ◌≡◌, ◌≢◌, ◌∙◌, refl, sym, ap, inl, inr, true, false, List, [], ◌∷◌, ◌++◌, some, All,
  Bool-cases, arith,
}
use learn_muduo.EPollPoller.{put}
use learn_muduo.EPollPoller.Agreement.{put-other}
use learn_muduo.TimerQueue.{
  Entry, eq_entry, Timer, TimerQueue, lt_entry, has, erase_entry, erase_active,
}
use learn_muduo.TimerQueue.Sets.{or_right, eq_entry_only}
use learn_muduo.TimerQueue.Order.{IsOrdered}
use learn_muduo.TimerQueue.Expiry.{IsPointer, IsKept}
use learn_muduo.TimerQueue.Erased.{erase_active-origin, erase_active-first, erase_active-next}

-- No entry is of the timer at an address.
abbrev pub IsFree : ℕ → List Entry → Type 0
IsFree p es = All (λ e. e.1 ≢ p) es

-- No two entries are of one timer.
abbrev pub IsApart : List Entry → Type 0
IsApart [] = Unit {0}
IsApart (x ∷ xs) = IsFree x.1 xs × IsApart xs

abbrev pub IsTimed : (ℕ → Timer) → List Entry → Type 0
IsTimed heap es = All (λ e. (heap e.1).expiration ≡ e.0) es

-- A queue in order whose entries have their times, and, apart from them, timers that have expired.
pub record Holds (held : List Entry) (q : TimerQueue) : Type 0 where
  pub kept : IsKept q
  pub timed : IsTimed q.heap q.timers
  pub apart : IsApart held
  pub free : All (λ h. IsFree h.1 q.timers) held
  pub pointers : All IsPointer held

pub IsFree-has : (p time : ℕ) (es : List Entry) → IsFree p es → has (time, p) es ≡ false
IsFree-has p time [] f = refl
IsFree-has p time ((w, r) ∷ es) (f, fs) = rw (IsFree-has p time es fs) (ground (arith, f))

-- An address that no entry has is not that of an active timer.
pub IsFree-inactive :
    (q : TimerQueue) (p sequence : ℕ)
    → IsKept q
    → IsFree p q.timers
    → has (p, sequence) q.active_timers ≡ false
IsFree-inactive q p sequence k f = elim (Bool-cases (has (p, sequence) q.active_timers)) [
  | inl active ↦
      let (time, listed, number) =
        erase_active-origin q.heap p sequence q.timers q.active_timers active k.matched in
      let bad : true ≡ false = sym listed ∙ IsFree-has p time q.timers f in cc
  | inr inactive ↦ inactive
]

-- A timer that no entry has may change.
pub erase_active-put :
    (heap : ℕ → Timer) (p : ℕ) (t : Timer) (es active : List Entry)
    → IsFree p es
    → erase_active heap es active ≡ some []
    → erase_active (put heap p t) es active ≡ some []
unfolding erase_active
erase_active-put heap p t [] active f e = e
erase_active-put heap p t ((w, r) ∷ es) active (f, fs) e =
    let (found, inner) = erase_active-first heap w r es active [] e in
    let kept : (r, (heap r).sequence) ≡ (r, (put heap p t r).sequence) =
      ap (λ u. (r, u.sequence)) (sym (put-other heap p r t f)) in
    erase_active-next (put heap p t) w r es active [] (ap (λ a. has a active) (sym kept) ∙ found) (
      erase_active-put heap p t es (erase_entry (r, (put heap p t r).sequence) active) fs
        (ap (λ a. erase_active heap es (erase_entry a active)) (sym kept) ∙ inner))

pub IsTimed-put :
    (heap : ℕ → Timer) (p : ℕ) (t : Timer) (es : List Entry)
    → IsFree p es
    → IsTimed heap es
    → IsTimed (put heap p t) es
IsTimed-put heap p t [] f h = tt
IsTimed-put heap p t ((w, r) ∷ es) (f, fs) (h, hs) =
    (ap (λ u. u.expiration) (put-other heap p r t f) ∙ h, IsTimed-put heap p t es fs hs)

-- A set in order whose entries have their times has one entry for a timer.
above-IsFree :
    (heap : ℕ → Timer) (x : Entry) (xs : List Entry)
    → (heap x.1).expiration ≡ x.0
    → All (λ y. lt_entry x y ≡ true) xs
    → IsTimed heap xs
    → IsFree x.1 xs
above-IsFree heap x [] own a h = tt
above-IsFree heap (time, p) ((w, r) ∷ ys) own (a, as') (h, hs) = (
  λ same.
      let equal : w ≡ time = sym h ∙ ap (λ s. (heap s).expiration) same ∙ own in
      irreflexive time p w r equal same a,
  above-IsFree heap (time, p) ys own as' hs,
)
  where
    irreflexive : (a b c d : ℕ) → c ≡ a → d ≡ b → lt_entry (a, b) (c, d) ≡ true → ⊥
    irreflexive a b c d e f h = unfold lt_entry in ground arith

pub timers-IsApart :
    (heap : ℕ → Timer) (xs : List Entry) → IsOrdered xs → IsTimed heap xs → IsApart xs
timers-IsApart heap [] o h = tt
timers-IsApart heap (x ∷ xs) (k, ks) (h, hs) =
    (above-IsFree heap x xs h k hs, timers-IsApart heap xs ks hs)

pub All-parts : (P : Entry → Type 0) (xs ys : List Entry) → All P (xs ++ ys) → All P xs × All P ys
All-parts P [] ys h = (tt, h)
All-parts P (x ∷ xs) ys (h, hs) = let (a, b) = All-parts P xs ys hs in ((h, a), b)

-- The entries in front are apart, and those behind are of none of their timers.
pub IsApart-parts :
    (xs ys : List Entry) → IsApart (xs ++ ys) → IsApart xs × All (λ h. IsFree h.1 ys) xs
IsApart-parts [] ys a = (tt, tt)
IsApart-parts (x ∷ xs) ys (f, fs) =
    let (inner, others) = IsApart-parts xs ys fs in
    let (here, there) = All-parts (λ e. e.1 ≢ x.1) xs ys f in ((here, inner), (there, others))

pub IsTimed-has :
    (heap : ℕ → Timer) (time p : ℕ) (es : List Entry)
    → IsTimed heap es
    → has (time, p) es ≡ true
    → (heap p).expiration ≡ time
IsTimed-has heap time p [] t h = cc
IsTimed-has heap time p ((w, r) ∷ es) (t, ts) h = elim (Bool-cases (eq_entry (time, p) (w, r))) [
  | inl here ↦
      let same : (time, p) ≡ (w, r) = eq_entry_only (time, p) (w, r) here in
      ap (λ e. (heap e.1).expiration) same ∙ t ∙ sym (ap (λ e. e.0) same)
  | inr there ↦
      IsTimed-has heap time p es ts
        (or_right (eq_entry (time, p) (w, r)) (has (time, p) es) there h)
]
