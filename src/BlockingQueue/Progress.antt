-- ===== src/BlockingQueue/Progress.antt =====
-- muduo/base/BlockingQueue.h: any threads in any order.
use learn_muduo.Prelude.{
  ℕ, ◌+◌, ◌-◌, ◌≤◌, ◌<◌, ◌≡◌, ◌∙◌, refl, sym, ap, subst, inl, inr, List, [], ◌∷◌, ◌++◌, append-nil,
  append_assoc, Option, none, some, length, length-append, ltb, Bool-cases, arith,
}
use learn_muduo.BlockingQueue.{
  BlockingQueue, init, notify, put, take, Step, puts, takes, waits, takes_again, waits_again, wakes,
  Run, start, next,
}

module _ {A : Type 0} where
  -- While threads wait, the elements are no more than the threads that are woken up, and the slack.
  abbrev Covers : ℕ → BlockingQueue A → Type 0
  Covers slack q = 0 < q.waiting → length q.queue ≤ q.woken + slack

  -- What a step does: the elements that it adds or takes, and nobody sleeps over it.
  record Moves (q q' : BlockingQueue A) (added taken : List A) : Type 0 where
    moved : q.queue ++ added ≡ taken ++ q'.queue
    covers : Covers 0 q'

  notify-Moves :
      (q r : BlockingQueue A) (added : List A)
      → q.queue ++ added ≡ r.queue
      → Covers 1 r
      → Moves q (notify r) added []
  unfolding notify
  notify-Moves q r added e c = elim (Bool-cases (ltb 0 r.waiting)) [
    | inl some_wait ↦ rw some_wait (record { moved = e; covers = λ h. grind arith })
    | inr none_waits ↦ rw none_waits (record { moved = e; covers = λ h. grind arith })
  ]

  put-Moves : (x : A) (q : BlockingQueue A) → Covers 0 q → Moves q (put x q) (x ∷ []) []
  unfolding put
  put-Moves x q c =
      let r : BlockingQueue A = record q { queue = q.queue ++ x ∷ [] } in
      notify-Moves q r (x ∷ []) refl (λ h. omega (arith, c h, length-append q.queue (x ∷ [])))

  abbrev as_list : Option A → List A
  as_list none = []
  as_list (some x) = x ∷ []

  -- What `take` gives.
  abbrev Outcome : BlockingQueue A → Option (BlockingQueue A × Option A) → Type 0
  Outcome q none = Unit
  Outcome q (some (q', element)) = Moves q q' [] (as_list element)

  taken_of :
      (q : BlockingQueue A) (xs : List A)
      → q.queue ≡ xs
      → Covers 1 q
      → Outcome q (take (record q { queue = xs }))
  unfolding take
  taken_of q [] e c = record { moved = ap (λ xs. xs ++ []) e; covers = λ h. omega arith }
  taken_of q (x ∷ xs) e c = record {
    moved = append-nil q.queue ∙ e;
    covers = λ h. let shorter = ap length e in omega (arith, shorter, c h);
  }

  take-Outcome :
      (q q' : BlockingQueue A) (element : Option A)
      → Covers 1 q
      → take q ≡ some (q', element)
      → Moves q q' [] (as_list element)
  take-Outcome q q' element c e = subst (Outcome q) e (taken_of q q.queue refl c)

  again :
      (q q' : BlockingQueue A) (element : Option A)
      → Covers 0 q
      → take (record q { woken = q.woken - 1 }) ≡ some (q', element)
      → Moves q q' [] (as_list element)
  again q q' element c e =
      let m =
        take-Outcome (record q { woken = q.woken - 1 }) q' element (λ h. omega (arith, c h)) e in
      record { moved = m.moved; covers = m.covers }

  step-Moves :
      {q q' : BlockingQueue A} {added taken : List A}
      → Covers 0 q
      → Step q added taken q'
      → Moves q q' added taken
  step-Moves {q} c (puts x) = put-Moves x q c
  step-Moves {q} {q'} c (takes x e) = take-Outcome q q' (some x) (λ h. omega (arith, c h)) e
  step-Moves {q} {q'} c (waits e) = take-Outcome q q' none (λ h. omega (arith, c h)) e
  step-Moves {q} {q'} c (takes_again x h e) = again q q' (some x) c e
  step-Moves {q} {q'} c (waits_again h e) = again q q' none c e
  step-Moves {q} c (wakes h) = record {
    moved = append-nil q.queue;
    covers = λ k. omega (arith, c h);
  }

  run-Moves :
      {q : BlockingQueue A} {added taken : List A}
      → Run init added taken q
      → Moves init q added taken
  unfolding init
  run-Moves start = record { moved = refl; covers = λ h. omega (arith, h) }
  run-Moves (next {q'} {q''} {added} {taken} {added'} {taken'} r st) =
      let m = run-Moves r in
      let m' = step-Moves m.covers st in
      record {
        moved =
            ap (λ xs. xs ++ added') m.moved
            ∙ append_assoc taken q'.queue added'
            ∙ ap (λ xs. taken ++ xs) m'.moved
            ∙ sym (append_assoc taken taken' q''.queue);
        covers = m'.covers;
      }

  take-pops :
      (q : BlockingQueue A) (xs : List A)
      → q.queue ≡ xs
      → 0 < length xs
      → (x : A) × (q' : BlockingQueue A) × (take (record q { queue = xs }) ≡ some (q', some x))
  unfolding take
  take-pops q [] e h = absurd (omega (arith, h))
  take-pops q (x ∷ xs) e h = (x, record q { queue = xs }, refl)

  -- Whatever the threads do on a new queue, and in whatever order: what was put is what was taken,
  -- followed by what is in the queue, in the order in which it was put; and where a thread waits and
  -- there is an element, some woken thread can take one.
  pub passes-in_order :
      {q : BlockingQueue A} {added taken : List A}
      → Run init added taken q
      → (added ≡ taken ++ q.queue)
        × (0 < q.waiting
            → 0 < length q.queue
            → (x : A) × (q' : BlockingQueue A) × (0 < q.woken)
              × (take (record q { woken = q.woken - 1 }) ≡ some (q', some x)))
  unfolding init
  passes-in_order {q} r =
      let m = run-Moves r in
      let c = m.covers in
      (
        m.moved,
        λ waiting more.
            let (x, q', e) = take-pops (record q { woken = q.woken - 1 }) q.queue refl more in
            (x, q', omega (arith, c waiting, more), e),
      )
