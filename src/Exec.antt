-- ===== src/Exec.antt =====
-- How code that may throw runs on a state: the state is kept when an exception is thrown.
use yet_another_storage.Errors.{Exception}

-- What the model does not run: a write or read out of the bounds of a buffer, a loop that has run
-- for all its fuel, and the replacement of a node that pointers may still lead to.
pub data Fault : Type 0 where
  out_of_bounds out_of_fuel dangling : Fault

pub data Result {ℓ} (A : Type ℓ) : Type ℓ where
  ok : A → Result A
  throw : Exception → Result A
  fault : Fault → Result A

abbrev pub Exec : Type 0 → Type 0 → Type 0
Exec S A = S → Result A × S

abbrev pub pure : {S A : Type 0} → A → Exec S A
pure a s = (ok a, s)

abbrev pub raise : {S A : Type 0} → Exception → Exec S A
raise e s = (throw e, s)

abbrev pub crash : {S A : Type 0} → Fault → Exec S A
crash f s = (fault f, s)

abbrev pub gets : {S A : Type 0} → (S → A) → Exec S A
gets f s = (ok (f s), s)

abbrev pub modify : {S : Type 0} → (S → S) → Exec S (Unit {0})
modify f s = (ok tt, f s)

abbrev pub and_then : {S A B : Type 0} → Result A × S → (A → Exec S B) → Result B × S
and_then (ok a, s) f = f a s
and_then (throw e, s) f = (throw e, s)
and_then (fault e, s) f = (fault e, s)

infixl 5 ◌>>=◌ ◌>>◌
abbrev pub ◌>>=◌ : {S A B : Type 0} → Exec S A → (A → Exec S B) → Exec S B
◌>>=◌ m f s = and_then (m s) f

abbrev pub ◌>>◌ : {S B : Type 0} → Exec S (Unit {0}) → Exec S B → Exec S B
m >> k = m >>= λ _. k
