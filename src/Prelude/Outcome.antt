-- ===== src/Prelude/Outcome.antt =====
-- What a fallible Go function does: it returns a value, it returns an error, or it panics. `E` is
-- the type of the errors.
use mathlib.Core.Path.{◌≡◌, refl}
use mathlib.Core.Bool.{Bool, true, false}
use mathlib.Core.Option.{Option, none, some}
use native.Mathlib.Omega.{arith}

pub data Outcome (E : Type 0) (A : Type 0) : Type 0 where
  ok : A → Outcome E A
  err : E → Outcome E A
  panic : Outcome E A

-- The rest of a function runs only behind a value.
infixl 5 ◌>>=◌ ◌>>◌
abbrev pub ◌>>=◌ : {E A B : Type 0} → Outcome E A → (A → Outcome E B) → Outcome E B
panic >>= rest = panic
err reason >>= rest = err reason
ok value >>= rest = rest value

abbrev pub ◌>>◌ : {E B : Type 0} → Outcome E (Unit {0}) → Outcome E B → Outcome E B
check >> rest = check >>= λ _. rest

module _ {E : Type 0} where
  -- `if !ok { return err }`.
  abbrev pub require : Bool → E → Outcome E (Unit {0})
  require true e = ok tt
  require false e = err e

  -- `if bad { return err }`.
  abbrev pub refuse : Bool → E → Outcome E (Unit {0})
  refuse true e = err e
  refuse false e = ok tt

  -- The value behind a pointer or a successful search, or an error return.
  abbrev pub or_fail : {A : Type 0} → Option A → E → Outcome E A
  or_fail none e = err e
  or_fail (some a) e = ok a

  -- The value behind an index expression or a dereference, or a run-time panic.
  abbrev pub or_panic : {A : Type 0} → Option A → Outcome E A
  or_panic none = panic
  or_panic (some a) = ok a

module _ {E A : Type 0} (P : A → Type 0) where
  -- `P` holds of the value returned, if one is.
  abbrev pub Ensures : Outcome E A → Type 0
  Ensures (ok a) = P a
  Ensures (err e) = Unit {0}
  Ensures panic = Unit {0}

module _ {E A B : Type 0} (P : B → Type 0) where
  pub Ensures->>= :
      (m : Outcome E A) (f : A → Outcome E B)
      → ((a : A) → m ≡ ok a → Ensures P (f a))
      → Ensures P (m >>= f)
  Ensures->>= (ok a) f h = h a refl
  Ensures->>= (err e) f h = tt
  Ensures->>= panic f h = tt

module _ {E B : Type 0} (P : B → Type 0) (k : Outcome E B) where
  pub Ensures-require : (b : Bool) (e : E) → (b ≡ true → Ensures P k) → Ensures P (require b e >> k)
  Ensures-require true e h = h refl
  Ensures-require false e h = tt

  pub Ensures-refuse : (b : Bool) (e : E) → (b ≡ false → Ensures P k) → Ensures P (refuse b e >> k)
  Ensures-refuse true e h = tt
  Ensures-refuse false e h = h refl

module _ {E A B : Type 0} (P : B → Type 0) (f : A → Outcome E B) where
  pub Ensures-or_fail :
      (o : Option A) (e : E)
      → ((a : A) → o ≡ some a → Ensures P (f a))
      → Ensures P (or_fail o e >>= f)
  Ensures-or_fail none e h = tt
  Ensures-or_fail (some a) e h = h a refl

  pub Ensures-or_panic :
      (o : Option A) → ((a : A) → o ≡ some a → Ensures P (f a)) → Ensures P (or_panic o >>= f)
  Ensures-or_panic none h = tt
  Ensures-or_panic (some a) h = h a refl

pub ok_of_Ensures :
    {E A : Type 0} (P : A → Type 0) (m : Outcome E A) {a : A} → Ensures P m → m ≡ ok a → P a
ok_of_Ensures P (ok b) h e = ground arith
ok_of_Ensures P (err x) h e = cc
ok_of_Ensures P panic h e = cc

-- A function that returned a value got past its first step.
pub first_step :
    {E A B : Type 0} {result : B} (step : Outcome E A) (rest : A → Outcome E B)
    → (step >>= rest) ≡ ok result
    → (value : A) × (step ≡ ok value) × (rest value ≡ ok result)
first_step panic rest returned = cc
first_step (err reason) rest returned = cc
first_step (ok value) rest returned = (value, refl, returned)

pub require-eq-ok :
    {E B : Type 0} (x : Bool) (e : E) (k : Outcome E B) {b : B}
    → (require x e >> k) ≡ ok b
    → x ≡ true
require-eq-ok true e k h = refl
require-eq-ok false e k h = cc

-- A result has one value.
pub same_value : {E A : Type 0} {x y : A} (m : Outcome E A) → m ≡ ok x → m ≡ ok y → x ≡ y
same_value m g h = ground arith
