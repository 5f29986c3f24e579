-- ===== src/Common/Run.antt =====
-- How a run of C code ends.
use mathlib.Core.Path.{◌≡◌, refl}

-- The outcome of running C code: a value, a memory fault (an access outside the memory that the
-- program may touch), a call that terminates the process, or a loop that used up its fuel.
pub data Run {ℓ} (A : Type ℓ) : Type ℓ where
  ok : A → Run A
  fault : Run A
  panic : Run A
  out_of_fuel : Run A

infixl 5 ◌>>=◌
abbrev pub ◌>>=◌ {ℓ κ} : {A : Type ℓ} {B : Type κ} → Run A → (A → Run B) → Run B
ok a >>= f = f a
fault >>= f = fault
panic >>= f = panic
out_of_fuel >>= f = out_of_fuel

-- Total correctness: the run returns a value, and the value satisfies `P`.
abbrev pub Returns {ℓ} : {A : Type ℓ} → (A → Type 0) → Run A → Type 0
Returns P (ok a) = P a
Returns P fault = ⊥
Returns P panic = ⊥
Returns P out_of_fuel = ⊥

pub Returns-bind {ℓ κ} :
    {A : Type ℓ} {B : Type κ} {P : A → Type 0} (Q : B → Type 0) (r : Run A) (f : A → Run B)
    → Returns P r
    → ((a : A) → P a → Returns Q (f a))
    → Returns Q (r >>= f)
Returns-bind Q (ok a) f h k = k a h
Returns-bind Q fault f h k = absurd h
Returns-bind Q panic f h k = absurd h
Returns-bind Q out_of_fuel f h k = absurd h

pub Returns-mono {ℓ} :
    {A : Type ℓ} (P Q : A → Type 0) (r : Run A) → Returns P r → ((a : A) → P a → Q a) → Returns Q r
Returns-mono P Q (ok a) h k = k a h
Returns-mono P Q fault h k = absurd h
Returns-mono P Q panic h k = absurd h
Returns-mono P Q out_of_fuel h k = absurd h

pub ok_eq {ℓ} : {A : Type ℓ} {a b : A} → ok a ≡ ok b → a ≡ b
ok_eq e = cc

-- Inversion of a bind that returns.
pub >>=-eq-ok {ℓ κ} :
    {A : Type ℓ} {B : Type κ} (r : Run A) (f : A → Run B) {b : B}
    → (r >>= f) ≡ ok b
    → (a : A) × (r ≡ ok a) × (f a ≡ ok b)
>>=-eq-ok (ok a) f h = (a, refl, h)
>>=-eq-ok fault f h = absurd (cc (h))
>>=-eq-ok panic f h = absurd (cc (h))
>>=-eq-ok out_of_fuel f h = absurd (cc (h))
