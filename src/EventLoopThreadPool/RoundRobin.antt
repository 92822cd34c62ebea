-- ===== src/EventLoopThreadPool/RoundRobin.antt =====
-- muduo/net/EventLoopThreadPool.cpp: the loops take turns.
use learn_muduo.Prelude.{
  ℕ, zero, suc, ◌+◌, ◌-◌, ◌≤◌, ◌<◌, ◌≡◌, ◌∙◌, refl, sym, ap, ap₂, subst, append-nil, take-all,
  length-drop, inl, inr, Bool, true, false, List, [], ◌∷◌, ◌++◌, Option, none, some, arith, length,
  get_elem?, take, drop, leb, if◌then◌else◌, Bool-cases, ◌>>=◌,
}
use learn_muduo.EventLoopThreadPool.{EventLoopThreadPool, is_empty, get_next_loop}

-- Loops that are asked for one behind another.
unfoldable pub takes : ℕ → EventLoopThreadPool → Option (List ℕ × EventLoopThreadPool)
takes zero p = some ([], p)
takes (suc n) p = do (loop, p') ← get_next_loop p; (rest, p'') ← takes n p'; some (loop ∷ rest, p'')

-- A pool that runs threads.
pub record IsRunning (p : EventLoopThreadPool) : Type 0 where
  pub on : p.started ≡ true
  pub inside : p.next < length p.loops

abbrev wrapped : ℕ → ℕ → ℕ
wrapped len i = if leb len i then 0 else i

abbrev moved : EventLoopThreadPool → ℕ → EventLoopThreadPool
moved p i = record p { next = wrapped (length p.loops) i }

-- The element at an index, and the rest.
drop-get :
    (xs : List ℕ) (i : ℕ)
    → i < length xs
    → (x : ℕ) × (get_elem? xs i ≡ some x) × (drop i xs ≡ x ∷ drop (i + 1) xs)
drop-get [] i h = absurd (omega (arith, h))
drop-get (x ∷ xs) zero h = (x, refl, refl)
drop-get (x ∷ xs) (suc i) h =
    let (y, e, d) = drop-get xs i (omega (arith, h)) in
    let shift : suc (i + 1) ≡ suc i + 1 = omega arith in
    (y, e, d ∙ ap (λ j. y ∷ drop j (x ∷ xs)) shift)

get_next_loop-at :
    (p : EventLoopThreadPool) (x : ℕ)
    → IsRunning p
    → get_elem? p.loops p.next ≡ some x
    → get_next_loop p ≡ some (x, moved p (p.next + 1))
unfolding get_next_loop
get_next_loop-at p x r e = elim (Bool-cases (is_empty p.loops)) [
  | inl none_there ↦ absurd (empty_length p.loops none_there r.inside)
  | inr there ↦ rw (r.on, there, e) refl
]
  where
    empty_length : (xs : List ℕ) → is_empty xs ≡ true → p.next < length xs → ⊥
    empty_length [] h lt = omega (arith, lt)
    empty_length (x ∷ xs) h lt = cc

wrapped-inside : (len i : ℕ) → i < len → wrapped len i ≡ i
wrapped-inside len i h = ground (arith, h)

wrapped-end : (len i : ℕ) → len ≤ i → wrapped len i ≡ 0
wrapped-end len i h = ground (arith, h)

abbrev after :
    List ℕ → Option (List ℕ × EventLoopThreadPool) → Option (List ℕ × EventLoopThreadPool)
after xs none = none
after xs (some (rest, q)) = some (xs ++ rest, q)

after-nil : (o : Option (List ℕ × EventLoopThreadPool)) → o ≡ after [] o
after-nil none = refl
after-nil (some (rest, q)) = refl

after-cons :
    (x : ℕ) (xs : List ℕ) (o : Option (List ℕ × EventLoopThreadPool))
    → (do (rest, q) ← after xs o; some (x ∷ rest, q)) ≡ after (x ∷ xs) o
after-cons x xs none = refl
after-cons x xs (some (rest, q)) = refl

moved-IsRunning :
    (p : EventLoopThreadPool)
    → IsRunning p
    → p.next + 1 ≤ length p.loops
    → IsRunning (moved p (p.next + 1))
moved-IsRunning p r h = record { on = r.on; inside = ground (arith, r.inside, h) }

-- `k` requests before the end of the vector, and those behind them.
takes-run :
    (k m : ℕ) (p : EventLoopThreadPool)
    → IsRunning p
    → p.next + k ≤ length p.loops
    → takes (k + m) p ≡ after (take k (drop p.next p.loops)) (takes m (moved p (p.next + k)))
unfolding takes
takes-run zero m p r h =
    let same : wrapped (length p.loops) (p.next + 0) ≡ p.next = ground (arith, r.inside) in
    let none_more : 0 + m ≡ m = omega arith in
    ap (λ j. takes j p) none_more
    ∙ after-nil (takes m p)
    ∙ ap (λ i. after [] (takes m (record p { next = i }))) (sym same)
takes-run (suc k) m p r h =
    let (x, e, d) = drop-get p.loops p.next r.inside in
    let one_more : suc k + m ≡ suc (k + m) = omega arith in
    let q = moved p (p.next + 1) in
    ap (λ j. takes j p) one_more
    ∙ ap (λ o. (do (loop, p') ← o; (rest, p'') ← takes (k + m) p'; some (loop ∷ rest, p'')))
        (get_next_loop-at p x r e)
    ∙ ap (λ o. (do (rest, p'') ← o; some (x ∷ rest, p'')))
        (takes-run k m q (moved-IsRunning p r (omega arith)) (ground (arith, h, r.inside)))
    ∙ after-cons x (take k (drop q.next p.loops)) (takes m (moved q (q.next + k)))
    ∙ ap₂ (λ xs i. after (x ∷ xs) (takes m (record p { next = i })))
        (elements (leb (length p.loops) (p.next + 1)) refl)
        (index (leb (length p.loops) (p.next + 1)) refl)
    ∙ ap (λ xs. after (take (suc k) xs) (takes m (moved p (p.next + suc k)))) (sym d)
  where
    elements :
        (b : Bool)
        → leb (length p.loops) (p.next + 1) ≡ b
        → take k (drop (wrapped (length p.loops) (p.next + 1)) p.loops)
          ≡ take k (drop (p.next + 1) p.loops)
    elements false e =
        let stays : wrapped (length p.loops) (p.next + 1) ≡ p.next + 1 = ground (arith, e) in
        ap (λ i. take k (drop i p.loops)) stays
    elements true e =
        let last : k ≡ 0 = ground (arith, e, h) in
        subst
          (λ j.
            take j (drop (wrapped (length p.loops) (p.next + 1)) p.loops)
            ≡ take j (drop (p.next + 1) p.loops))
          (sym last) refl

    index :
        (b : Bool)
        → leb (length p.loops) (p.next + 1) ≡ b
        → wrapped (length p.loops) (wrapped (length p.loops) (p.next + 1) + k)
          ≡ wrapped (length p.loops) (p.next + suc k)
    index b e = ground (arith, r.inside, h)

-- In a pool that runs threads, as many requests as there are loops give each loop of the vector once,
-- from the next one on and around the end, and leave the pool as it was.
pub takes-round :
    (p : EventLoopThreadPool)
    → IsRunning p
    → takes (length p.loops) p ≡ some (drop p.next p.loops ++ take p.next p.loops, p)
takes-round p r =
    let left = length p.loops - p.next in
    let parts : length p.loops ≡ left + p.next = omega (arith, r.inside) in
    let around : wrapped (length p.loops) (p.next + left) ≡ 0 = ground (arith, r.inside) in
    let back : wrapped (length p.loops) (0 + p.next) ≡ p.next = ground (arith, r.inside) in
    let q = record p { next = 0 } in
    ap (λ n. takes n p) parts
    ∙ takes-run left p.next p r (omega (arith, r.inside))
    ∙ ap₂ (λ xs i. after xs (takes p.next (record p { next = i })))
        (take-all left (drop p.next p.loops) (omega (arith, length-drop p.next p.loops))) around
    ∙ ap (after (drop p.next p.loops)) (
        first_part p.next q (record { on = r.on; inside = omega (arith, r.inside) }) refl
          (omega (arith, r.inside)))
    ∙ ap (λ i. some (drop p.next p.loops ++ take p.next p.loops, record p { next = i })) back
  where
    first_part :
        (k : ℕ) (q : EventLoopThreadPool)
        → IsRunning q
        → q.next ≡ 0
        → q.next + k ≤ length q.loops
        → takes k q ≡ some (take k q.loops, moved q (0 + k))
    first_part k q r e h =
        let exact : k ≡ k + 0 = omega arith in
        ap (λ n. takes n q) exact
        ∙ takes-run k 0 q r h
        ∙ unfold takes in
          ap₂ (λ xs i. some (xs, record q { next = i }))
            (append-nil (take k (drop q.next q.loops)) ∙ ap (λ i. take k (drop i q.loops)) e)
            (ap (λ i. wrapped (length q.loops) (i + k)) e)
