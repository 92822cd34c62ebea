-- ===== src/CountDownLatch/Opening.antt =====
-- muduo/base/CountDownLatch.cpp: when the latch opens.
use learn_muduo.Prelude.{
  ℕ, zero, suc, ◌+◌, ◌-◌, ◌≤◌, ◌<◌, ◌≡◌, ◌∙◌, refl, sym, ap, subst, Bool, true, false, ltb, ◌==◌,
  if◌then◌else◌, arith, ltb→lt,
}
use learn_muduo.LogStream.{ℤ, pos, negsuc, is_zero}
use learn_muduo.CountDownLatch.{
  CountDownLatch, init, is_positive, predecessor, wait, count_down, Step, counts, passes, waits,
  passes_again, waits_again, wakes, Run, start, next,
}

-- A count from which others are subtracted.
abbrev pub minus : ℕ → ℕ → ℤ
minus n zero = pos n
minus zero (suc d) = negsuc d
minus (suc n) (suc d) = minus n d

predecessor-minus : (n d : ℕ) → predecessor (minus n d) ≡ minus n (suc d)
predecessor-minus zero zero = refl
predecessor-minus (suc n) zero = refl
predecessor-minus zero (suc d) = refl
predecessor-minus (suc n) (suc d) = predecessor-minus n d

is_positive-minus : (n d : ℕ) → is_positive (minus n d) ≡ ltb d n
is_positive-minus zero zero = refl
is_positive-minus (suc n) zero = ground arith
is_positive-minus zero (suc d) = ground arith
is_positive-minus (suc n) (suc d) = is_positive-minus n d ∙ ground arith

is_zero-minus : (n d : ℕ) → is_zero (minus n d) ≡ (d == n)
is_zero-minus zero zero = refl
is_zero-minus (suc n) zero = ground arith
is_zero-minus zero (suc d) = ground arith
is_zero-minus (suc n) (suc d) = is_zero-minus n d ∙ ground arith

-- The latch behind some calls of `countDown` and returns from `wait`.
pub record Opens (n downs passed : ℕ) (l : CountDownLatch) : Type 0 where
  pub count : l.count ≡ minus n downs
  pub asleep : 0 < l.waiting → downs < n
  pub through : 0 < passed → n ≤ downs

-- What `wait` gives on a latch.
abbrev Outcome : ℕ → ℕ → ℕ → CountDownLatch × Bool → Type 0
Outcome n downs passed (l, done) = Opens n downs (passed + (if done then 1 else 0)) l

module _ (n downs passed : ℕ) (l : CountDownLatch) (o : Opens n downs passed l) where
  is_positive-count : is_positive l.count ≡ ltb downs n
  is_positive-count = ap is_positive o.count ∙ is_positive-minus n downs

  waited :
      (b : Bool)
      → is_positive l.count ≡ b
      → Outcome n downs passed
          (if b then (record l { waiting = suc l.waiting }, false) else (l, true))
  waited true h = record {
    count = o.count;
    asleep = λ k. ltb→lt downs n (sym is_positive-count ∙ h);
    through = λ k. o.through (omega (arith, k));
  }
  waited false h =
      let opened : ltb downs n ≡ false = sym is_positive-count ∙ h in
      record { count = o.count; asleep = o.asleep; through = λ k. ground (arith, opened) }

  wait-Outcome :
      (l' : CountDownLatch) (done : Bool) → wait l ≡ (l', done) → Outcome n downs passed (l', done)
  unfolding wait
  wait-Outcome l' done e = subst (Outcome n downs passed) e (waited (is_positive l.count) refl)

  counted :
      (b : Bool)
      → is_zero (predecessor l.count) ≡ b
      → Opens n (suc downs) passed (
          let l' = record l { count = predecessor l.count } in
          if b then record l' { waiting = 0; woken = l'.woken + l'.waiting } else l')
  counted true h = record {
    count = ap predecessor o.count ∙ predecessor-minus n downs;
    asleep = λ k. omega (arith, k);
    through = λ k. omega (arith, o.through k);
  }
  counted false h =
      let more : (suc downs == n) ≡ false =
        sym (
          ap is_zero (ap predecessor o.count ∙ predecessor-minus n downs)
          ∙ is_zero-minus n (suc downs))
        ∙ h in
      record {
        count = ap predecessor o.count ∙ predecessor-minus n downs;
        asleep = λ k. let below = o.asleep k in ground (arith, more, below);
        through = λ k. omega (arith, o.through k);
      }

  count_down-Opens : Opens n (suc downs) passed (count_down l)
  unfolding count_down
  count_down-Opens = counted (is_zero (predecessor l.count)) refl

not_below : (m n : ℕ) → n ≤ m → ltb m n ≡ false
not_below m n h = ground arith

at :
    {n downs passed downs' passed' : ℕ} {l : CountDownLatch}
    → downs ≡ downs'
    → passed ≡ passed'
    → Opens n downs passed l
    → Opens n downs' passed' l
at {n} {passed} {downs'} {l} d p o =
    subst (λ j. Opens n downs' j l) p (subst (λ i. Opens n i passed l) d o)

fewer_woken :
    {n downs passed : ℕ} {l : CountDownLatch}
    → Opens n downs passed l
    → Opens n downs passed (record l { woken = l.woken - 1 })
fewer_woken o = record { count = o.count; asleep = o.asleep; through = o.through }

step-Opens :
    (n downs passed : ℕ) {l l' : CountDownLatch} {downs' passed' : ℕ}
    → Opens n downs passed l
    → Step l downs' passed' l'
    → Opens n (downs + downs') (passed + passed') l'
step-Opens n downs passed {l} o counts =
    at (omega arith) (omega arith) (count_down-Opens n downs passed l o)
step-Opens n downs passed {l} {l'} o (passes e) =
    at (omega arith) (omega arith) (wait-Outcome n downs passed l o l' true e)
step-Opens n downs passed {l} {l'} o (waits e) =
    at (omega arith) (omega arith) (wait-Outcome n downs passed l o l' false e)
step-Opens n downs passed {l} {l'} o (passes_again h e) =
    at (omega arith) (omega arith)
      (wait-Outcome n downs passed (record l { woken = l.woken - 1 }) (fewer_woken o) l' true e)
step-Opens n downs passed {l} {l'} o (waits_again h e) =
    at (omega arith) (omega arith)
      (wait-Outcome n downs passed (record l { woken = l.woken - 1 }) (fewer_woken o) l' false e)
step-Opens n downs passed {l} o (wakes h) =
    at (omega arith) (omega arith)
      (record { count = o.count; asleep = λ k. o.asleep h; through = o.through })

run-Opens :
    (n : ℕ) {l : CountDownLatch} {downs passed : ℕ}
    → Run (init (pos n)) downs passed l
    → Opens n downs passed l
unfolding init
run-Opens n start = record {
  count = refl;
  asleep = λ k. omega (arith, k);
  through = λ k. omega (arith, k);
}
run-Opens n (next {l'} {l''} {downs} {passed} r st) = step-Opens n downs passed (run-Opens n r) st

-- Whatever threads do on a new latch with a count of n, in any order: no thread returns from `wait`
-- before n calls of `countDown`; once they are made, no thread sleeps on the condition any more, and
-- `wait` returns at once, also to each thread that was woken up; and the count is n less the calls.
pub run-opens :
    (n : ℕ) {l : CountDownLatch} {downs passed : ℕ}
    → Run (init (pos n)) downs passed l
    → (l.count ≡ minus n downs)
      × (downs < n → passed ≡ 0)
      × (n ≤ downs → (l.waiting ≡ 0) × (wait l ≡ (l, true)))
unfolding wait
run-opens n {l} {downs} {passed} r =
    let o = run-Opens n r in
    let none_through = o.through in
    let nobody = o.asleep in
    (
      o.count,
      λ h. ground (arith, none_through),
      λ h. (
        ground (arith, nobody),
        ap (λ b. if b then (record l { waiting = suc l.waiting }, false) else (l, true))
            (is_positive-count n downs passed l o ∙ not_below downs n h),
      ),
    )
