-- ===== src/StringPiece/Order.antt =====
-- muduo/base/StringPiece.h: the operators compare the bytes of two pieces as `std::string` does.
use learn_muduo.Prelude.{
  ℕ, zero, suc, ◌+◌, ◌≤◌, ◌≡◌, ◌∙◌, refl, sym, ap, ap₂, inl, inr, Bool, true, false, ◌&&◌, ◌||◌,
  not, List, [], ◌∷◌, length, length-drop, take, ltb, leb, ◌==◌, if◌then◌else◌, eq_bytes, lt_bytes,
  Bool-cases, eq→==, arith,
}
use learn_muduo.StringPiece.{
  StringPiece, Sign, less, same, greater, is_less, is_same, is_greater, memcmp, from, shorter,
  equals, differs, common, binary_predicate, less_than, at_most, greater_than, at_least, compare,
  as_string,
}

-- What a comparison of the first bytes says of two texts.
record Compares (r : Sign) (a b : ℕ) (xs ys : List ℕ) : Type 0 where
  lt : lt_bytes xs ys ≡ (is_less r || (is_same r && ltb a b))
  gt : lt_bytes ys xs ≡ (is_greater r || (is_same r && ltb b a))
  eq : eq_bytes xs ys ≡ (is_same r && a == b)

memcmp-Compares :
    (n a b : ℕ) (xs ys : List ℕ)
    → n ≡ shorter a b
    → a ≤ length xs
    → b ≤ length ys
    → Compares (memcmp n xs ys) a b (take a xs) (take b ys)
unfolding memcmp lt_bytes eq_bytes
memcmp-Compares zero zero zero xs ys e h k = record {
  lt = ground arith;
  gt = ground arith;
  eq = ground arith;
}
memcmp-Compares zero zero (suc b) xs [] e h k = absurd (omega (arith, k))
memcmp-Compares zero zero (suc b) xs (y ∷ ys) e h k = record {
  lt = ground arith;
  gt = ground arith;
  eq = ground arith;
}
memcmp-Compares zero (suc a) zero [] ys e h k = absurd (omega (arith, h))
memcmp-Compares zero (suc a) zero (x ∷ xs) ys e h k = record {
  lt = ground arith;
  gt = ground arith;
  eq = ground arith;
}
memcmp-Compares zero (suc a) (suc b) xs ys e h k = absurd (ground (arith, e))
memcmp-Compares (suc n) zero b xs ys e h k = absurd (ground (arith, e))
memcmp-Compares (suc n) (suc a) zero xs ys e h k = absurd (ground (arith, e))
memcmp-Compares (suc n) (suc a) (suc b) [] ys e h k = absurd (omega (arith, h))
memcmp-Compares (suc n) (suc a) (suc b) (x ∷ xs) [] e h k = absurd (omega (arith, k))
memcmp-Compares (suc n) (suc a) (suc b) (x ∷ xs) (y ∷ ys) e h k =
    let rest =
      memcmp-Compares n a b xs ys (ground (arith, e)) (omega (arith, h)) (omega (arith, k)) in
    let lt = rest.lt in
    let gt = rest.gt in
    let eq = rest.eq in
    record { lt = ground (arith, lt); gt = ground (arith, gt); eq = ground (arith, eq) }

-- As many bytes of both.
pub prefix-bytes :
    (n : ℕ) (xs ys : List ℕ)
    → n ≤ length xs
    → n ≤ length ys
    → is_same (memcmp n xs ys) ≡ eq_bytes (take n xs) (take n ys)
prefix-bytes n xs ys h k =
    let level = eq→== n n refl in
    let eq = (memcmp-Compares n n n xs ys (ground arith) h k).eq in
    and_true (is_same (memcmp n xs ys))
    ∙ ap (λ b. is_same (memcmp n xs ys) && b) (sym level)
    ∙ sym eq
  where
    and_true : (b : Bool) → b ≡ (b && true)
    and_true true = refl
    and_true false = refl

-- A piece that lies in the memory.
abbrev pub Inside : List ℕ → StringPiece → Type 0
Inside memory s = s.ptr + s.size ≤ length memory

at_most_of :
    (r : Sign) (a b : ℕ)
    → (is_less r || (is_same r && leb a b)) ≡ not (is_greater r || (is_same r && ltb b a))
at_most_of less a b = refl
at_most_of greater a b = refl
at_most_of same a b = ground arith

at_least_of :
    (r : Sign) (a b : ℕ)
    → (is_greater r || (is_same r && leb b a)) ≡ not (is_less r || (is_same r && ltb a b))
at_least_of less a b = refl
at_least_of greater a b = refl
at_least_of same a b = ground arith

compare_of :
    (r : Sign) (a b : ℕ)
    → (if is_same r then (if ltb a b then less else if ltb b a then greater else r) else r) ≡ (
        if is_less r || (is_same r && ltb a b)
        then less
        else if is_greater r || (is_same r && ltb b a)
        then greater
        else same)
compare_of less a b = refl
compare_of greater a b = refl
compare_of same a b = refl

module _ (memory : List ℕ) (s x : StringPiece) (hs : Inside memory s) (hx : Inside memory x) where
  compared : Compares (common memory s x) s.size x.size (as_string memory s) (as_string memory x)
  unfolding as_string
  compared =
      memcmp-Compares (shorter s.size x.size) s.size x.size (from memory s) (from memory x) refl
        (omega (arith, hs, length-drop s.ptr memory)) (omega (arith, hx, length-drop x.ptr memory))

  equals-bytes : equals memory s x ≡ eq_bytes (as_string memory s) (as_string memory x)
  unfolding equals
  equals-bytes = elim (Bool-cases (s.size == x.size)) [
    | inl level ↦ rw level (
        ap (λ n. is_same (memcmp n (from memory s) (from memory x))) (shorter_level level)
        ∙ and_true (is_same (common memory s x))
        ∙ ap (λ b. is_same (common memory s x) && b) (sym level)
        ∙ sym compared.eq)
    | inr uneven ↦ rw uneven (
        and_false (is_same (common memory s x))
        ∙ ap (λ b. is_same (common memory s x) && b) (sym uneven)
        ∙ sym compared.eq)
  ]
    where
      shorter_level : (s.size == x.size) ≡ true → s.size ≡ shorter s.size x.size
      shorter_level e = ground (arith, e)

      and_true : (b : Bool) → b ≡ (b && true)
      and_true true = refl
      and_true false = refl

      and_false : (b : Bool) → false ≡ (b && false)
      and_false true = refl
      and_false false = refl

  -- On pieces that lie in the memory, the seven comparisons are those of the texts: two pieces are
  -- equal, or one is less, exactly where their bytes are so as strings; `<=` and `>=` are the
  -- negations of `>` and `<`; and `compare` gives the sign.
  pub operators-bytes :
      (equals memory s x ≡ eq_bytes (as_string memory s) (as_string memory x))
      × (differs memory s x ≡ not (eq_bytes (as_string memory s) (as_string memory x)))
      × (less_than memory s x ≡ lt_bytes (as_string memory s) (as_string memory x))
      × (at_most memory s x ≡ not (lt_bytes (as_string memory x) (as_string memory s)))
      × (greater_than memory s x ≡ lt_bytes (as_string memory x) (as_string memory s))
      × (at_least memory s x ≡ not (lt_bytes (as_string memory s) (as_string memory x)))
      × (compare memory s x ≡ (
          if lt_bytes (as_string memory s) (as_string memory x)
          then less
          else if lt_bytes (as_string memory x) (as_string memory s)
          then greater
          else same))
  unfolding differs less_than at_most greater_than at_least binary_predicate compare
  operators-bytes =
      let r = common memory s x in
      let lt = compared.lt in
      let gt = compared.gt in
      (
        equals-bytes,
        ap not equals-bytes,
        sym lt,
        at_most_of r s.size x.size ∙ ap not (sym gt),
        sym gt,
        at_least_of r s.size x.size ∙ ap not (sym lt),
        compare_of r s.size x.size
            ∙ ap₂ (λ l g. if l then less else if g then greater else same) (sym lt) (sym gt),
      )
