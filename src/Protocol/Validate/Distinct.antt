-- ===== src/Protocol/Validate/Distinct.antt =====
-- Lists of records with distinct ids, as the loops of `Board.Validate` test them.
use mathlib.Core.List.{Memᴰ}
use ago.Prelude.{
  ◌≡◌, refl, sym, ap, ◌∙◌, true, false, List, [], ◌∷◌, any, arith, Bool-cases, inl, inr,
}
use ago.GoString.{GoString, str_eq}

module _ {A : Type 0} (key : A → GoString) where
  -- Some record of the list has this key.
  abbrev pub Listed : List A → GoString → Type 0
  Listed xs k = (x : A) × Memᴰ x xs × (key x ≡ k)

  -- No two records have the same key.
  abbrev pub Distinct : List A → Type 0
  Distinct [] = Unit {0}
  Distinct (x ∷ xs) = (¬ Listed xs (key x)) × Distinct xs

  -- What a loop has tested that keeps the records it has seen.
  abbrev pub Fresh : List A → List A → Type 0
  Fresh seen [] = Unit {0}
  Fresh seen (x ∷ xs) = (any (λ y. str_eq (key y) (key x)) seen ≡ false) × Fresh (x ∷ seen) xs

  any-Listed : (xs : List A) (k : GoString) → any (λ y. str_eq (key y) k) xs ≡ false → ¬ Listed xs k
  unfolding any
  any-Listed [] k h (x, m, e) = elim m [ ]
  any-Listed (x ∷ xs) k h (_, Memᴰ.head p, e) = ground arith
  any-Listed (x ∷ xs) k h (y, Memᴰ.tail m, e) = any-Listed xs k (ground arith) (y, m, e)

  pub Listed-any :
      (xs : List A) (k : GoString) → any (λ y. str_eq (key y) k) xs ≡ true → Listed xs k
  unfolding any
  Listed-any [] k h = cc
  Listed-any (x ∷ xs) k h = elim (Bool-cases (str_eq (key x) k)) [
    | inl e ↦ (x, Memᴰ.head refl, ground arith)
    | inr e ↦ let (y, m, p) = Listed-any xs k (ground arith) in (y, Memᴰ.tail m, p)
  ]

  Fresh-apart : (seen xs : List A) (z : A) → Fresh seen xs → Memᴰ z seen → ¬ Listed xs (key z)
  Fresh-apart seen [] z h m (x, n, e) = elim n [ ]
  Fresh-apart seen (x ∷ xs) z h m (y, Memᴰ.head p, e) =
      any-Listed seen (key x) h.0 (z, m, sym e ∙ ap key p)
  Fresh-apart seen (x ∷ xs) z h m (y, Memᴰ.tail n, e) =
      Fresh-apart (x ∷ seen) xs z h.1 (Memᴰ.tail m) (y, n, e)

  pub Fresh-Distinct : (seen xs : List A) → Fresh seen xs → Distinct xs
  Fresh-Distinct seen [] h = tt
  Fresh-Distinct seen (x ∷ xs) h =
      (Fresh-apart (x ∷ seen) xs x h.1 (Memᴰ.head refl), Fresh-Distinct (x ∷ seen) xs h.1)
