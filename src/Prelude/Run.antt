-- ===== src/Prelude/Run.antt =====
-- How a call of the C++ code ends.
use mathlib.Core.Option.{Option, none, some}
use mathlib.Core.Bool.{Bool, true, false}

-- `fault` is undefined behaviour or a failed ASSERT; `bad_cast` an uncaught bad_lexical_cast.
pub data Run {ℓ} (A : Type ℓ) : Type ℓ where
  ok : A → Run A
  fault : Run A
  bad_cast : Run A

infixl 5 ◌>>=◌ ◌>>◌
abbrev pub ◌>>=◌ {ℓ κ} : {A : Type ℓ} {B : Type κ} → Run A → (A → Run B) → Run B
fault >>= k = fault
bad_cast >>= k = bad_cast
ok a >>= k = k a

abbrev pub ◌>>◌ {ℓ} : {B : Type ℓ} → Run (Unit {0}) → Run B → Run B
m >> k = m >>= λ _. k

abbrev pub or_fault {ℓ} : {A : Type ℓ} → Option A → Run A
or_fault none = fault
or_fault (some a) = ok a

-- ASSERT_TRUE and its kin.
abbrev pub assert : Bool → Run (Unit {0})
assert true = ok tt
assert false = fault
