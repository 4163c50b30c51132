-- ===== src/Prelude/Results.antt =====
-- The result of a handler with `assert`s: the new state, or the assertion that failed.
use mathlib.Core.Bool.{Bool, true, false}
use mathlib.Core.Path.{◌≡◌, refl, subst}
use mathlib.Core.Option.{some}
use native.Mathlib.Omega.{arith}

pub data Outcome {ℓ} (A : Type ℓ) : Type ℓ where
  done : A → Outcome A
  assert_failed : Outcome A

infixl 5 ◌>>=◌ ◌>>◌
abbrev pub ◌>>=◌ {ℓ κ} : {A : Type ℓ} {B : Type κ} → Outcome A → (A → Outcome B) → Outcome B
done a >>= f = f a
assert_failed >>= f = assert_failed

abbrev pub ◌>>◌ {ℓ} : {B : Type ℓ} → Outcome (Unit {0}) → Outcome B → Outcome B
m >> k = m >>= λ _. k

-- assert(b)
abbrev pub require : Bool → Outcome (Unit {0})
require true = done tt
require false = assert_failed

-- the outcome is a state, and the state has the property
abbrev pub Returns {ℓ} : {A : Type ℓ} → (A → Type 0) → Outcome A → Type 0
Returns P (done a) = P a
Returns P assert_failed = ⊥

-- If an outcome is a state, what it returns holds of that state.
pub Returns-done {ℓ} :
    {A : Type ℓ} (P : A → Type 0) (m : Outcome A) {a : A} → m ≡ done a → Returns P m → P a
Returns-done P (done b) e r = subst P (cc) r
Returns-done P assert_failed e r = absurd r

-- If a sequence has a result, so has its first part.
pub first_done :
    {A B : Type 0} (m : Outcome A) (f : A → Outcome B) {b : B}
    → m >>= f ≡ done b
    → (x : A) × (m ≡ done x) × (f x ≡ done b)
first_done (done x) f h = (x, refl, h)
first_done assert_failed f h = absurd (ground arith)

pub done_injective : {A : Type 0} {x y : A} → done x ≡ done y → x ≡ y
done_injective h = cc

pub some_injective : {A : Type 0} {x y : A} → some x ≡ some y → x ≡ y
some_injective h = cc
