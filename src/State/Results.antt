-- ===== src/State/Results.antt =====
-- How a chain of checks comes to an `ok`.
use chumma.Base.{◌≡◌, refl, Bool, true, false, not, Option, none, some}
use chumma.State.{Error, Result, ok, err, raise_if, or_raise, ◌>>=◌}

module _ {ℓ κ} {V : Type ℓ} {W : Type κ} where
  -- The check passed, with a value, and so did the rest.
  pub >>=_ok :
      (check : Result V) (rest : V → Result W) (last : W)
      → (check >>= rest) ≡ ok last
      → (value : V) × (check ≡ ok value) × (rest value ≡ ok last)
  >>=_ok (err problem) rest last e = cc
  >>=_ok (ok value) rest last e = (value, refl, e)

module _ {ℓ} {A : Type ℓ} where
  pub or_raise_ok : (o : Option A) (x : Error) (a : A) → or_raise o x ≡ ok a → o ≡ some a
  or_raise_ok none x a e = cc
  or_raise_ok (some b) x a e = cc

pub raise_if_ok : (b : Bool) (x : Error) (u : Unit {0}) → raise_if b x ≡ ok u → b ≡ false
raise_if_ok true x u e = cc
raise_if_ok false x u e = refl

pub not-false : (b : Bool) → not b ≡ false → b ≡ true
not-false true e = refl
not-false false e = cc

pub ok_injective {ℓ} : {A : Type ℓ} (a b : A) → ok a ≡ ok b → a ≡ b
ok_injective a b e = cc
