-- ===== src/BoundedBlockingQueue/Progress.antt =====
-- muduo/base/BoundedBlockingQueue.h: any threads in any order.
use mathlib.Core.Option.{some-injective}
use learn_muduo.Prelude.{
  ℕ, ◌-◌, ◌≤◌, ◌≡◌, ◌∙◌, refl, sym, ap, subst, Bool, true, false, List, [], ◌∷◌, ◌++◌, append-nil,
  append_assoc, Option, none, some, length, arith,
}
use learn_muduo.BoundedBlockingQueue.Buffers.{CircularBuffer, Laws}
use learn_muduo.BoundedBlockingQueue.{
  BoundedBlockingQueue, init, put, take, Step, puts, waits_to_put, puts_again, waits_to_put_again,
  takes, waits_to_take, takes_again, waits_to_take_again, putter_wakes, taker_wakes, Run, start,
  next,
}
use learn_muduo.BoundedBlockingQueue.Passes.{
  content, Covers, Passes, put-Passes, take-Passes, if_done, as_list,
}

module _ {A B : Type 0} (buffers : CircularBuffer A B) (laws : Laws buffers) where
  abbrev Sound : BoundedBlockingQueue B → Type 0
  Sound q = Covers buffers laws 0 0 q

  abbrev Moves : BoundedBlockingQueue B → BoundedBlockingQueue B → List A → List A → Type 0
  Moves q q' added taken = Passes buffers laws q q' added taken

  put-Moves :
      (x : A) (q q' : BoundedBlockingQueue B) (done : Bool)
      → Covers buffers laws 0 1 q
      → put buffers x q ≡ some (q', done)
      → Moves q q' (if_done buffers laws done x) []
  put-Moves x q q' done c e =
      let (r, d, made, passes) = put-Passes buffers laws x q c in
      subst (λ p. Moves q p.0 (if_done buffers laws p.1 x) [])
        (some-injective (r, d) (q', done) (sym made ∙ e)) passes

  take-Moves :
      (q q' : BoundedBlockingQueue B) (element : Option A)
      → Covers buffers laws 1 0 q
      → take buffers q ≡ some (q', element)
      → Moves q q' [] (as_list buffers laws element)
  take-Moves q q' element c e =
      let (r, d, made, passes) = take-Passes buffers laws q c in
      subst (λ p. Moves q p.0 [] (as_list buffers laws p.1))
        (some-injective (r, d) (q', element) (sym made ∙ e)) passes

  putter_back :
      (q : BoundedBlockingQueue B)
      → Sound q
      → Covers buffers laws 0 1 (record q { putters_woken = q.putters_woken - 1 })
  putter_back q c = record {
    bound = c.bound;
    takers = c.takers;
    putters = λ h. omega (arith, c.putters h);
  }

  taker_back :
      (q : BoundedBlockingQueue B)
      → Sound q
      → Covers buffers laws 1 0 (record q { takers_woken = q.takers_woken - 1 })
  taker_back q c = record {
    bound = c.bound;
    takers = λ h. omega (arith, c.takers h);
    putters = c.putters;
  }

  putter_in : (q : BoundedBlockingQueue B) → Sound q → Covers buffers laws 0 1 q
  putter_in q c = record {
    bound = c.bound;
    takers = c.takers;
    putters = λ h. omega (arith, c.putters h);
  }

  taker_in : (q : BoundedBlockingQueue B) → Sound q → Covers buffers laws 1 0 q
  taker_in q c = record {
    bound = c.bound;
    takers = λ h. omega (arith, c.takers h);
    putters = c.putters;
  }

  same_content :
      (q r q' : BoundedBlockingQueue B) (added taken : List A)
      → r.queue ≡ q.queue
      → Moves r q' added taken
      → Moves q q' added taken
  same_content q r q' added taken e m = record {
    moved = ap (λ b. laws.elements b ++ added) (sym e) ∙ m.moved;
    same_capacity = m.same_capacity ∙ ap buffers.capacity e;
    covers = m.covers;
  }

  step-Moves :
      {q q' : BoundedBlockingQueue B} {added taken : List A}
      → Sound q
      → Step buffers q added taken q'
      → Moves q q' added taken
  step-Moves {q} {q'} c (puts x e) = put-Moves x q q' true (putter_in q c) e
  step-Moves {q} {q'} c (waits_to_put x e) = put-Moves x q q' false (putter_in q c) e
  step-Moves {q} {q'} c (puts_again x h e) =
      let r : BoundedBlockingQueue B = record q { putters_woken = q.putters_woken - 1 } in
      same_content q r q' (x ∷ []) [] refl (put-Moves x r q' true (putter_back q c) e)
  step-Moves {q} {q'} c (waits_to_put_again x h e) =
      let r : BoundedBlockingQueue B = record q { putters_woken = q.putters_woken - 1 } in
      same_content q r q' [] [] refl (put-Moves x r q' false (putter_back q c) e)
  step-Moves {q} {q'} c (takes x e) = take-Moves q q' (some x) (taker_in q c) e
  step-Moves {q} {q'} c (waits_to_take e) = take-Moves q q' none (taker_in q c) e
  step-Moves {q} {q'} c (takes_again x h e) =
      let r : BoundedBlockingQueue B = record q { takers_woken = q.takers_woken - 1 } in
      same_content q r q' [] (x ∷ []) refl (take-Moves r q' (some x) (taker_back q c) e)
  step-Moves {q} {q'} c (waits_to_take_again h e) =
      let r : BoundedBlockingQueue B = record q { takers_woken = q.takers_woken - 1 } in
      same_content q r q' [] [] refl (take-Moves r q' none (taker_back q c) e)
  step-Moves {q} c (putter_wakes h) = record {
    moved = append-nil (content buffers laws q);
    same_capacity = refl;
    covers = record {
      bound = c.bound;
      takers = c.takers;
      putters = λ k. omega (arith, c.putters h);
    };
  }
  step-Moves {q} c (taker_wakes h) = record {
    moved = append-nil (content buffers laws q);
    same_capacity = refl;
    covers = record {
      bound = c.bound;
      takers = λ k. omega (arith, c.takers h);
      putters = c.putters;
    };
  }

  run-Moves :
      {q q' : BoundedBlockingQueue B} {added taken : List A}
      → Sound q
      → Run buffers q added taken q'
      → Moves q q' added taken
  run-Moves {q} c start = record {
    moved = append-nil (content buffers laws q);
    same_capacity = refl;
    covers = c;
  }
  run-Moves {q} c (next {q'} {q''} {added} {taken} {added'} {taken'} r st) =
      let m = run-Moves c r in
      let m' = step-Moves m.covers st in
      record {
        moved =
            sym (append_assoc (content buffers laws q) added added')
            ∙ ap (λ xs. xs ++ added') m.moved
            ∙ append_assoc taken (content buffers laws q') added'
            ∙ ap (λ xs. taken ++ xs) m'.moved
            ∙ sym (append_assoc taken taken' (content buffers laws q''));
        same_capacity = m'.same_capacity ∙ m.same_capacity;
        covers = m'.covers;
      }

  init-Sound : (n : ℕ) → Sound (init buffers n)
  unfolding init
  init-Sound n =
      let nothing : length (laws.elements (buffers.with_capacity n)) ≡ 0 =
        ap length (laws.elements-with_capacity n) in
      record {
        bound = omega (arith, nothing);
        takers = λ h. omega arith;
        putters = λ h. omega arith;
      }

  -- Whatever the threads do on a new queue, and in whatever order: what was put is what was taken,
  -- followed by what is in the queue, in the order in which it was put, and the queue never has more
  -- elements than its size.
  pub run-in_order :
      {n : ℕ} {q : BoundedBlockingQueue B} {added taken : List A}
      → Run buffers (init buffers n) added taken q
      → (added ≡ taken ++ content buffers laws q) × (length (content buffers laws q) ≤ n)
  unfolding init
  run-in_order {n} {added} r =
      let m = run-Moves (init-Sound n) r in
      let bound = m.covers.bound in
      (
        ap (λ xs. xs ++ added) (sym (laws.elements-with_capacity n)) ∙ m.moved,
        omega (arith, bound, m.same_capacity, laws.capacity-with_capacity n),
      )
