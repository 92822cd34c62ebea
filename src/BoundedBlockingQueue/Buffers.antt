-- ===== src/BoundedBlockingQueue/Buffers.antt =====
-- boost::circular_buffer, as muduo/base/BoundedBlockingQueue.h uses it: its operations, and what its
-- documentation says of them.
use learn_muduo.Prelude.{ℕ, ◌≡◌, Bool, false, List, ◌∷◌, [], ◌++◌, Option, some, length, ◌==◌}

pub record CircularBuffer (A B : Type 0) : Type 0 where
  pub with_capacity : ℕ → B
  pub capacity : B → ℕ
  pub size : B → ℕ
  pub empty : B → Bool
  pub full : B → Bool
  pub push_back : B → A → B
  pub front : B → Option A
  pub pop_front : B → B

-- A buffer is a list of elements from front to back, which grows up to the capacity.
pub record Laws {A B : Type 0} (buffers : CircularBuffer A B) : Type 0 where
  pub elements : B → List A
  pub elements-with_capacity : (n : ℕ) → elements (buffers.with_capacity n) ≡ []
  pub capacity-with_capacity : (n : ℕ) → buffers.capacity (buffers.with_capacity n) ≡ n
  pub size-elements : (b : B) → buffers.size b ≡ length (elements b)
  pub empty-elements : (b : B) → buffers.empty b ≡ (length (elements b) == 0)
  pub full-elements : (b : B) → buffers.full b ≡ (length (elements b) == buffers.capacity b)
  pub elements-push_back :
      (b : B) (x : A)
      → buffers.full b ≡ false
      → elements (buffers.push_back b x) ≡ elements b ++ x ∷ []
  pub capacity-push_back :
      (b : B) (x : A) → buffers.capacity (buffers.push_back b x) ≡ buffers.capacity b
  pub front-elements :
      (b : B) (x : A) (xs : List A) → elements b ≡ x ∷ xs → buffers.front b ≡ some x
  pub elements-pop_front :
      (b : B) (x : A) (xs : List A) → elements b ≡ x ∷ xs → elements (buffers.pop_front b) ≡ xs
  pub capacity-pop_front : (b : B) → buffers.capacity (buffers.pop_front b) ≡ buffers.capacity b
