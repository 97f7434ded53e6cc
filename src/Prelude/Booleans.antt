-- ===== src/Prelude/Booleans.antt =====
-- Laws on Booleans, some of which hold as one of two positions is not in a set.
use mathlib.Core.Path.{◌≡◌, refl, sym}
use mathlib.Core.Bool.{Bool, true, false, not, ◌&&◌, ◌||◌}

pub or_assoc : (a b c : Bool) → a || (b || c) ≡ (a || b) || c
or_assoc true b c = refl
or_assoc false b c = refl

pub or_swap : (a b c : Bool) → a || (b || c) ≡ b || (a || c)
or_swap true true c = refl
or_swap true false c = refl
or_swap false b c = refl

pub or_twice : (a b c : Bool) → a || (b || c) ≡ (a || b) || (a || c)
or_twice true b c = refl
or_twice false b c = refl

pub or_false : (a : Bool) → a ≡ a || false
or_false true = refl
or_false false = refl

pub and_not-false : (a : Bool) → a ≡ a && not false
and_not-false true = refl
and_not-false false = refl

pub and_false : (a : Bool) → false ≡ a && false
and_false true = refl
and_false false = refl

pub or_and : (a b c : Bool) → a || (b && c) ≡ (a || b) && (a || c)
or_and true b c = refl
or_and false b c = refl

-- `a` and `c` exclude each other
pub head_apart : (a b c : Bool) → (a ≡ true → c ≡ false) → a || (b && not c) ≡ (a || b) && not c
head_apart true b c h = rw (h refl) refl
head_apart false b c h = refl

pub head_gone : (a b c : Bool) → (a ≡ true → c ≡ false) → b && c ≡ (a || b) && c
head_gone true b c h = rw (h refl) (sym (and_false b))
head_gone false b c h = refl

pub skip_apart : (p q c : Bool) → (q ≡ true → p ≡ false) → p && not c ≡ p && not (q || c)
skip_apart p true c h = rw (h refl) refl
skip_apart p false c h = refl

pub skip_gone : (p q c : Bool) → (q ≡ true → p ≡ false) → p && c ≡ p && (q || c)
skip_gone p true c h = rw (h refl) refl
skip_gone p false c h = refl

pub same_gone : (a b c : Bool) → (a ≡ true → b ≡ false) → b && not c ≡ (a || b) && not (a || c)
same_gone true b c h = rw (h refl) refl
same_gone false b c h = refl
