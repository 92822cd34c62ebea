-- ===== src/PollPoller/Lists.antt =====
-- Elements of a list by their index, where the list changes as it does in muduo/net/PollPoller.cpp.
use learn_muduo.Prelude.{
  ℕ, zero, suc, ◌<◌, ◌≡◌, ◌≢◌, refl, List, [], ◌∷◌, ◌++◌, some, length, get_elem?, set, take, arith,
}

module _ {A : Type 0} where
  pub length-set : (xs : List A) (i : ℕ) (v : A) → length (set xs i v) ≡ length xs
  length-set [] i v = refl
  length-set (x ∷ xs) zero v = refl
  length-set (x ∷ xs) (suc i) v = omega (arith, length-set xs i v)

  pub get-set_same :
      (xs : List A) (i : ℕ) (v : A) → i < length xs → get_elem? (set xs i v) i ≡ some v
  get-set_same [] i v h = absurd (omega (arith, h))
  get-set_same (x ∷ xs) zero v h = refl
  get-set_same (x ∷ xs) (suc i) v h = get-set_same xs i v (omega (arith, h))

  pub get-set_other :
      (xs : List A) (i j : ℕ) (v : A) → j ≢ i → get_elem? (set xs i v) j ≡ get_elem? xs j
  get-set_other [] i j v h = refl
  get-set_other (x ∷ xs) zero zero v h = absurd (h refl)
  get-set_other (x ∷ xs) zero (suc j) v h = refl
  get-set_other (x ∷ xs) (suc i) zero v h = refl
  get-set_other (x ∷ xs) (suc i) (suc j) v h = get-set_other xs i j v (λ e. h (omega (arith, e)))

  pub get-take : (n : ℕ) (xs : List A) (i : ℕ) → i < n → get_elem? (take n xs) i ≡ get_elem? xs i
  get-take zero xs i h = absurd (omega (arith, h))
  get-take (suc n) [] i h = refl
  get-take (suc n) (x ∷ xs) zero h = refl
  get-take (suc n) (x ∷ xs) (suc i) h = get-take n xs i (omega (arith, h))

  pub get-bound : (xs : List A) (i : ℕ) (v : A) → get_elem? xs i ≡ some v → i < length xs
  get-bound [] i v e = cc
  get-bound (x ∷ xs) zero v e = omega arith
  get-bound (x ∷ xs) (suc i) v e = omega (arith, get-bound xs i v e)

  pub get-inside : (xs : List A) (i : ℕ) → i < length xs → (v : A) × (get_elem? xs i ≡ some v)
  get-inside [] i h = absurd (omega (arith, h))
  get-inside (x ∷ xs) zero h = (x, refl)
  get-inside (x ∷ xs) (suc i) h = get-inside xs i (omega (arith, h))

  pub get-append_left :
      (xs : List A) (v : A) (i : ℕ) → i < length xs → get_elem? (xs ++ v ∷ []) i ≡ get_elem? xs i
  get-append_left [] v i h = absurd (omega (arith, h))
  get-append_left (x ∷ xs) v zero h = refl
  get-append_left (x ∷ xs) v (suc i) h = get-append_left xs v i (omega (arith, h))

  pub get-append_last : (xs : List A) (v : A) → get_elem? (xs ++ v ∷ []) (length xs) ≡ some v
  get-append_last [] v = refl
  get-append_last (x ∷ xs) v = get-append_last xs v

  pub get-take_bound :
      (n : ℕ) (xs : List A) (i : ℕ) (v : A) → get_elem? (take n xs) i ≡ some v → i < n
  get-take_bound zero xs i v e = cc
  get-take_bound (suc n) [] i v e = cc
  get-take_bound (suc n) (x ∷ xs) zero v e = omega arith
  get-take_bound (suc n) (x ∷ xs) (suc i) v e = omega (arith, get-take_bound n xs i v e)
