-- ===== src/Prelude/Maps.antt =====
-- `std::map<std::string, T>`: an association list whose keys increase.
use Prim.Native.Nat.{ℕ}
use mathlib.Core.Path.{◌≡◌, refl, subst}
use mathlib.Core.Bool.{true, false}
use mathlib.Core.List.{List, [], ◌∷◌}
use mathlib.Core.Option.{Option, none, some}
use native.Mathlib.Omega.{arith}
use learn_muduo.Prelude.Tests.{if◌then◌else◌, Bool-cases}
use mathlib.Core.Logic.{inl, inr}
use learn_muduo.Prelude.Bytes.{
  eq_bytes, lt_bytes, eq_bytes→eq, eq_bytes_refl, lt_bytes_total, lt_bytes_trans, lt_bytes_irrefl,
}

differs : (k j : List ℕ) → lt_bytes k j ≡ true → eq_bytes j k ≡ false
differs k j h = elim (Bool-cases (eq_bytes j k)) [
  | inl same ↦
      let bad : lt_bytes k k ≡ true = subst (λ i. lt_bytes k i ≡ true) (eq_bytes→eq j k same) h in
      let irrefl = lt_bytes_irrefl k in cc
  | inr other ↦ other
]

module _ {ℓ} {V : Type ℓ} where
  unfoldable pub lookup : List ℕ → List (List ℕ × V) → Option V
  lookup k [] = none
  lookup k ((j, v) ∷ m) = if eq_bytes j k then some v else lookup k m

  -- `m[k] = v`.
  unfoldable pub insert : List ℕ → V → List (List ℕ × V) → List (List ℕ × V)
  insert k v [] = (k, v) ∷ []
  insert k v ((j, w) ∷ m) =
      let rest = (j, w) ∷ insert k v m in
      if eq_bytes j k then (k, v) ∷ m else if lt_bytes k j then (k, v) ∷ (j, w) ∷ m else rest

  -- `m.erase(k)`.
  unfoldable pub erase : List ℕ → List (List ℕ × V) → List (List ℕ × V)
  erase k [] = []
  erase k ((j, v) ∷ m) = if eq_bytes j k then m else (j, v) ∷ erase k m

  -- Every key is above the bound, and the keys increase.
  abbrev pub Above : List ℕ → List (List ℕ × V) → Type 0
  Above k [] = Unit
  Above k ((j, v) ∷ m) = (lt_bytes k j ≡ true) × Above j m

  abbrev pub IsMap : List (List ℕ × V) → Type 0
  IsMap [] = Unit
  IsMap ((j, v) ∷ m) = Above j m

  pub lookup-insert :
      (k j : List ℕ) (v : V) (m : List (List ℕ × V))
      → lookup j (insert k v m) ≡ (if eq_bytes k j then some v else lookup j m)
  unfolding lookup insert
  lookup-insert k j v [] = refl
  lookup-insert k j v ((i, w) ∷ m) = ground (
    arith,
    eq_bytes→eq i k,
    eq_bytes→eq i j,
    eq_bytes→eq k j,
    eq_bytes_refl k,
    eq_bytes_refl i,
    eq_bytes_refl j,
    lookup-insert k j v m,
  )

  insert-Above :
      (b k : List ℕ) (v : V) (m : List (List ℕ × V))
      → lt_bytes b k ≡ true
      → Above b m
      → Above b (insert k v m)
  unfolding insert
  insert-Above b k v [] h a = (h, tt)
  insert-Above b k v ((j, w) ∷ m) h a =
      ground (arith, eq_bytes→eq j k, lt_bytes_total k j, lt_bytes_total j k, insert-Above j k v m)

  pub insert-IsMap : (k : List ℕ) (v : V) (m : List (List ℕ × V)) → IsMap m → IsMap (insert k v m)
  unfolding insert
  insert-IsMap k v [] h = tt
  insert-IsMap k v ((j, w) ∷ m) h =
      ground (arith, eq_bytes→eq j k, lt_bytes_total j k, insert-Above j k v m)

  Above-trans : (k j : List ℕ) (m : List (List ℕ × V)) → lt_bytes k j ≡ true → Above j m → Above k m
  Above-trans k j [] h a = tt
  Above-trans k j ((i, w) ∷ m) h (a, as') = (lt_bytes_trans k j i h a, as')

  Above-IsMap : (k : List ℕ) (m : List (List ℕ × V)) → Above k m → IsMap m
  Above-IsMap k [] a = tt
  Above-IsMap k ((j, v) ∷ m) (h, a) = a

  lookup-Above : (k : List ℕ) (m : List (List ℕ × V)) → Above k m → lookup k m ≡ none
  unfolding lookup
  lookup-Above k [] a = refl
  lookup-Above k ((j, v) ∷ m) (h, a) = rw (differs k j h) (lookup-Above k m (Above-trans k j m h a))

  pub lookup-erase :
      (k j : List ℕ) (m : List (List ℕ × V))
      → IsMap m
      → lookup j (erase k m) ≡ (if eq_bytes k j then none else lookup j m)
  unfolding lookup erase
  lookup-erase k j [] h = ground arith
  lookup-erase k j ((i, w) ∷ m) h = ground (
    arith,
    eq_bytes→eq i k,
    eq_bytes→eq i j,
    eq_bytes→eq k j,
    eq_bytes_refl k,
    eq_bytes_refl i,
    eq_bytes_refl j,
    lookup-Above i m h,
    lookup-erase k j m (Above-IsMap i m h),
  )

  erase-Above : (b k : List ℕ) (m : List (List ℕ × V)) → Above b m → Above b (erase k m)
  unfolding erase
  erase-Above b k [] a = tt
  erase-Above b k ((j, w) ∷ m) (h, a) = elim (Bool-cases (eq_bytes j k)) [
    | inl here ↦ rw here (Above-trans b j m h a)
    | inr there ↦ rw there (h, erase-Above j k m a)
  ]

  pub erase-IsMap : (k : List ℕ) (m : List (List ℕ × V)) → IsMap m → IsMap (erase k m)
  unfolding erase
  erase-IsMap k [] h = tt
  erase-IsMap k ((j, w) ∷ m) h = elim (Bool-cases (eq_bytes j k)) [
    | inl here ↦ rw here (Above-IsMap j m h)
    | inr there ↦ rw there (erase-Above j k m h)
  ]
