-- ===== src/BoundedBlockingQueue/Passes.antt =====
-- muduo/base/BoundedBlockingQueue.h: one pass of a thread through `put` or `take`.
use learn_muduo.Prelude.{
  ℕ, ne→==, suc, ◌+◌, ◌≤◌, ◌<◌, ◌≡◌, ◌∙◌, refl, sym, ap, inl, inr, Bool, true, false, List, [], ◌∷◌,
  ◌++◌, append-nil, Option, none, some, length, length-append, ltb, ◌==◌, ==_iff, if◌then◌else◌,
  Bool-cases, arith,
}
use learn_muduo.BoundedBlockingQueue.Buffers.{CircularBuffer, Laws}
use learn_muduo.BoundedBlockingQueue.{
  BoundedBlockingQueue, put, take, notify_not_empty, notify_not_full,
}

below_of : (m n : ℕ) → m ≤ n → (m == n) ≡ false → m < n
below_of m n h e = ground arith

first_of :
    {A : Type 0} (xs : List A) → (length xs == 0) ≡ false → (x : A) × (ys : List A) × (xs ≡ x ∷ ys)
first_of [] e = absurd (cc)
first_of (x ∷ xs) e = (x, xs, refl)

module _ {A B : Type 0} (buffers : CircularBuffer A B) (laws : Laws buffers) where
  abbrev pub content : BoundedBlockingQueue B → List A
  content q = laws.elements q.queue

  -- While threads wait for elements, the elements are no more than the threads that are woken up for
  -- them, and in the same way the free places; up to the slack that is given.
  pub record Covers (slack_takers slack_putters : ℕ) (q : BoundedBlockingQueue B) : Type 0 where
    pub bound : length (content q) ≤ buffers.capacity q.queue
    pub takers : 0 < q.takers_waiting → length (content q) ≤ q.takers_woken + slack_takers
    pub putters :
        0 < q.putters_waiting
        → buffers.capacity q.queue ≤ length (content q) + (q.putters_woken + slack_putters)

  -- What a pass does: the elements that it adds or takes, and nobody sleeps over it.
  pub record Passes (q q' : BoundedBlockingQueue B) (added taken : List A) : Type 0 where
    pub moved : content q ++ added ≡ taken ++ content q'
    pub same_capacity : buffers.capacity q'.queue ≡ buffers.capacity q.queue
    pub covers : Covers 0 0 q'

  notify_not_empty-queue :
      (q : BoundedBlockingQueue B) → (notify_not_empty buffers q).queue ≡ q.queue
  unfolding notify_not_empty
  notify_not_empty-queue q = elim (Bool-cases (ltb 0 q.takers_waiting)) [
    | inl some_wait ↦ rw some_wait refl
    | inr none_waits ↦ rw none_waits refl
  ]

  notify_not_empty-Covers :
      (q : BoundedBlockingQueue B)
      → length (content q) ≤ buffers.capacity q.queue
      → (0 < q.takers_waiting → length (content q) ≤ q.takers_woken + 1)
      → (0 < q.putters_waiting
          → buffers.capacity q.queue ≤ length (content q) + (q.putters_woken + 0))
      → Covers 0 0 (notify_not_empty buffers q)
  unfolding notify_not_empty
  notify_not_empty-Covers q bound takers putters = elim (Bool-cases (ltb 0 q.takers_waiting)) [
    | inl some_wait ↦
        rw some_wait (record { bound = bound; takers = λ h. grind arith; putters = putters })
    | inr none_waits ↦
        rw none_waits (record { bound = bound; takers = λ h. grind arith; putters = putters })
  ]

  notify_not_full-queue : (q : BoundedBlockingQueue B) → (notify_not_full buffers q).queue ≡ q.queue
  unfolding notify_not_full
  notify_not_full-queue q = elim (Bool-cases (ltb 0 q.putters_waiting)) [
    | inl some_wait ↦ rw some_wait refl
    | inr none_waits ↦ rw none_waits refl
  ]

  notify_not_full-Covers :
      (q : BoundedBlockingQueue B)
      → length (content q) ≤ buffers.capacity q.queue
      → (0 < q.takers_waiting → length (content q) ≤ q.takers_woken + 0)
      → (0 < q.putters_waiting
          → buffers.capacity q.queue ≤ length (content q) + (q.putters_woken + 1))
      → Covers 0 0 (notify_not_full buffers q)
  unfolding notify_not_full
  notify_not_full-Covers q bound takers putters = elim (Bool-cases (ltb 0 q.putters_waiting)) [
    | inl some_wait ↦
        rw some_wait (record { bound = bound; takers = takers; putters = λ h. grind arith })
    | inr none_waits ↦
        rw none_waits (record { bound = bound; takers = takers; putters = λ h. grind arith })
  ]

  -- What `put` adds.
  abbrev pub if_done : Bool → A → List A
  if_done done x = if done then x ∷ [] else []

  abbrev pub as_list : Option A → List A
  as_list none = []
  as_list (some x) = x ∷ []

  pub put-Passes :
      (x : A) (q : BoundedBlockingQueue B)
      → Covers 0 1 q
      → (q' : BoundedBlockingQueue B) × (done : Bool) × (put buffers x q ≡ some (q', done))
        × Passes q q' (if_done done x) []
  unfolding put
  put-Passes x q c = elim (Bool-cases (buffers.full q.queue)) [
    | inl full ↦
        let filled : length (content q) ≡ buffers.capacity q.queue =
          (==_iff (length (content q)) (buffers.capacity q.queue)).0
            (sym (laws.full-elements q.queue) ∙ full) in
        (
          record q { putters_waiting = suc q.putters_waiting },
          false,
          rw full refl,
          record {
            moved = append-nil (content q);
            same_capacity = refl;
            covers = record {
              bound = c.bound;
              takers = λ h. omega (arith, c.takers h);
              putters = λ h. omega (arith, filled);
            };
          },
        )
    | inr room ↦
        let q1 : BoundedBlockingQueue B = record q { queue = buffers.push_back q.queue x } in
        let added : content q1 ≡ content q ++ x ∷ [] = laws.elements-push_back q.queue x room in
        let longer : length (content q1) ≡ length (content q) + 1 =
          ap length added ∙ length-append (content q) (x ∷ []) in
        let same = laws.capacity-push_back q.queue x in
        let below : length (content q) < buffers.capacity q.queue =
          below_of (length (content q)) (buffers.capacity q.queue) c.bound
            (sym (laws.full-elements q.queue) ∙ room) in
        (
          notify_not_empty buffers q1,
          true,
          rw room refl,
          record {
            moved = sym (ap laws.elements (notify_not_empty-queue q1) ∙ added);
            same_capacity = ap buffers.capacity (notify_not_empty-queue q1) ∙ same;
            covers =
                notify_not_empty-Covers q1 (omega (arith, longer, same, below))
                  (λ h. omega (arith, longer, c.takers h))
                  (λ h. omega (arith, longer, same, c.putters h));
          },
        )
  ]

  pub take-Passes :
      (q : BoundedBlockingQueue B)
      → Covers 1 0 q
      → (q' : BoundedBlockingQueue B) × (element : Option A) × (take buffers q ≡ some (q', element))
        × Passes q q' [] (as_list element)
  unfolding take
  take-Passes q c = elim (Bool-cases (buffers.empty q.queue)) [
    | inl empty ↦
        let nothing : length (content q) ≡ 0 =
          (==_iff (length (content q)) 0).0 (sym (laws.empty-elements q.queue) ∙ empty) in
        (
          record q { takers_waiting = suc q.takers_waiting },
          none,
          rw empty refl,
          record {
            moved = append-nil (content q);
            same_capacity = refl;
            covers = record {
              bound = c.bound;
              takers = λ h. omega (arith, nothing);
              putters = λ h. omega (arith, c.putters h);
            };
          },
        )
    | inr filled ↦
        let (x, xs, split) = first_of (content q) (sym (laws.empty-elements q.queue) ∙ filled) in
        let q1 : BoundedBlockingQueue B = record q { queue = buffers.pop_front q.queue } in
        let rest : content q1 ≡ xs = laws.elements-pop_front q.queue x xs split in
        let shorter : length (content q) ≡ length (content q1) + 1 =
          ap length split ∙ ap (λ ys. length (x ∷ ys)) (sym rest) ∙ omega arith in
        let same = laws.capacity-pop_front q.queue in
        (
          notify_not_full buffers q1,
          some x,
          rw (filled, laws.front-elements q.queue x xs split) refl,
          record {
            moved =
                append-nil (content q)
                ∙ split
                ∙ ap (λ ys. x ∷ ys) (sym (ap laws.elements (notify_not_full-queue q1) ∙ rest));
            same_capacity = ap buffers.capacity (notify_not_full-queue q1) ∙ same;
            covers =
                notify_not_full-Covers q1 (omega (arith, shorter, same, c.bound))
                  (λ h. omega (arith, shorter, c.takers h))
                  (λ h. omega (arith, shorter, same, c.putters h));
          },
        )
  ]

  -- Where there is an element, `take` does not wait; where there is a place, `put` does not.
  pub take-first :
      (q : BoundedBlockingQueue B)
      → 0 < length (content q)
      → (x : A) × (q' : BoundedBlockingQueue B) × (take buffers q ≡ some (q', some x))
  unfolding take
  take-first q more =
      let filled : (length (content q) == 0) ≡ false =
        ne→== (length (content q)) 0 (λ e. ground arith) in
      let (x, xs, split) = first_of (content q) filled in
      (
        x,
        notify_not_full buffers (record q { queue = buffers.pop_front q.queue }),
        rw (laws.empty-elements q.queue ∙ filled, laws.front-elements q.queue x xs split) refl,
      )

  pub put-added :
      (q : BoundedBlockingQueue B) (x : A)
      → length (content q) < buffers.capacity q.queue
      → (q' : BoundedBlockingQueue B) × (put buffers x q ≡ some (q', true))
  unfolding put
  put-added q x room =
      let free : (length (content q) == buffers.capacity q.queue) ≡ false =
        ne→== (length (content q)) (buffers.capacity q.queue) (λ e. ground arith) in
      (
        notify_not_empty buffers (record q { queue = buffers.push_back q.queue x }),
        rw (laws.full-elements q.queue ∙ free) refl,
      )
