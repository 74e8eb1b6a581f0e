-- ===== src/Prelude/Grows.antt =====
-- Lists that keep their elements, up to a relation, and may get longer at the end.
use ago.Prelude.Lists.{modify}
use mathlib.Core.List.{List, [], ◌∷◌, ◌++◌, map}
use Prim.Native.Nat.{ℕ, zero, suc}

module _ {A : Type 0} (R : A → A → Type 0) where
  abbrev pub Grows : List A → List A → Type 0
  Grows [] ys = Unit {0}
  Grows (x ∷ xs) [] = ⊥
  Grows (x ∷ xs) (y ∷ ys) = R x y × Grows xs ys

  pub Grows-append : ((x : A) → R x x) → (xs ys : List A) → Grows xs (xs ++ ys)
  Grows-append r [] ys = tt
  Grows-append r (x ∷ xs) ys = (r x, Grows-append r xs ys)

  pub Grows-refl : ((x : A) → R x x) → (xs : List A) → Grows xs xs
  Grows-refl r [] = tt
  Grows-refl r (x ∷ xs) = (r x, Grows-refl r xs)

  pub Grows-map : (f : A → A) → ((x : A) → R x (f x)) → (xs : List A) → Grows xs (map f xs)
  Grows-map f k [] = tt
  Grows-map f k (x ∷ xs) = (k x, Grows-map f k xs)

  pub Grows-modify :
      ((x : A) → R x x)
      → (f : A → A) → ((x : A) → R x (f x))
      → (xs : List A) (i : ℕ) → Grows xs (modify xs i f)
  unfolding modify
  Grows-modify r f k [] i = tt
  Grows-modify r f k (x ∷ xs) zero = (k x, Grows-refl r xs)
  Grows-modify r f k (x ∷ xs) (suc i) = (r x, Grows-modify r f k xs i)

  pub Grows-trans :
      ((x y z : A) → R x y → R y z → R x z)
      → (xs ys zs : List A) → Grows xs ys
      → Grows ys zs
      → Grows xs zs
  Grows-trans t [] ys zs g h = tt
  Grows-trans t (x ∷ xs) [] zs g h = absurd g
  Grows-trans t (x ∷ xs) (y ∷ ys) [] g h = absurd h
  Grows-trans t (x ∷ xs) (y ∷ ys) (z ∷ zs) g h = (t x y z g.0 h.0, Grows-trans t xs ys zs g.1 h.1)

module _ {A : Type 0} (Q : A → Type 0) where
  abbrev pub All : List A → Type 0
  All [] = Unit {0}
  All (x ∷ xs) = Q x × All xs

  pub All-append : (xs ys : List A) → All xs → All ys → All (xs ++ ys)
  All-append [] ys h k = k
  All-append (x ∷ xs) ys h k = (h.0, All-append xs ys h.1 k)

  pub All-modify :
      (f : A → A) → ((x : A) → Q x → Q (f x)) → (xs : List A) (i : ℕ) → All xs → All (modify xs i f)
  unfolding modify
  All-modify f k [] i h = tt
  All-modify f k (x ∷ xs) zero h = (k x h.0, h.1)
  All-modify f k (x ∷ xs) (suc i) h = (h.0, All-modify f k xs i h.1)
