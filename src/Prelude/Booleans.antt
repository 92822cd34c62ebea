-- ===== src/Prelude/Booleans.antt =====
-- Laws of the Boolean operators that the components share.
use mathlib.Core.Path.{◌≡◌, refl}
use mathlib.Core.Bool.{Bool, true, false, ◌||◌}

pub or_assoc : (a b c : Bool) → ((a || b) || c) ≡ (a || (b || c))
or_assoc true b c = refl
or_assoc false b c = refl

pub or_false : (a : Bool) → a ≡ (a || false)
or_false true = refl
or_false false = refl

pub or_true : (a : Bool) → true ≡ (a || true)
or_true true = refl
or_true false = refl

pub or_right_true : (a b : Bool) → b ≡ true → (a || b) ≡ true
or_right_true true b h = refl
or_right_true false b h = h

pub or_left_true : (a b : Bool) → a ≡ true → (a || b) ≡ true
or_left_true true b h = refl
or_left_true false b h = cc
