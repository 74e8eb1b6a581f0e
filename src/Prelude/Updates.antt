-- ===== src/Prelude/Updates.antt =====
-- What the elements of a slice are after a change in place, and what a scan has found.
use ago.Prelude.{
  ℕ, zero, suc, ◌≡◌, ◌≢◌, refl, Bool, true, some, List, [], ◌∷◌, get_elem?, modify, find_index,
  arith, Bool-cases, Option-cases, inl, inr,
}

pub get_elem?-modify :
    {A : Type 0} (xs : List A) (i : ℕ) (f : A → A) {x : A}
    → get_elem? xs i ≡ some x
    → get_elem? (modify xs i f) i ≡ some (f x)
unfolding modify
get_elem?-modify [] i f h = cc
get_elem?-modify (x ∷ xs) zero f h = ground arith
get_elem?-modify (x ∷ xs) (suc i) f h = get_elem?-modify xs i f h

pub get_elem?-modify_other :
    {A : Type 0} (xs : List A) (i j : ℕ) (f : A → A)
    → j ≢ i
    → get_elem? (modify xs i f) j ≡ get_elem? xs j
unfolding modify
get_elem?-modify_other [] i j f h = refl
get_elem?-modify_other (x ∷ xs) zero zero f h = absurd (h refl)
get_elem?-modify_other (x ∷ xs) zero (suc j) f h = refl
get_elem?-modify_other (x ∷ xs) (suc i) zero f h = refl
get_elem?-modify_other (x ∷ xs) (suc i) (suc j) f h =
    get_elem?-modify_other xs i j f (λ e. h (ground arith))

-- The element stands at the index that was found.
pub find_index-at :
    {A : Type 0} (p : A → Bool) (xs : List A) {i : ℕ} {x : A}
    → find_index p xs ≡ some (i, x)
    → get_elem? xs i ≡ some x
unfolding find_index
find_index-at p [] h = cc
find_index-at p (y ∷ ys) {i} {x} h = elim (Bool-cases (p y)) [
  | inl e ↦ ground arith
  | inr e ↦ elim (Option-cases (find_index p ys)) [
    | inl q ↦ absurd (ground arith)
    | inr ((j, z), q) ↦ let rest = find_index-at p ys q in ground arith
  ]
]

-- And it passes the test.
pub find_index-test :
    {A : Type 0} (p : A → Bool) (xs : List A) {i : ℕ} {x : A}
    → find_index p xs ≡ some (i, x)
    → p x ≡ true
unfolding find_index
find_index-test p [] h = cc
find_index-test p (y ∷ ys) {i} {x} h = elim (Bool-cases (p y)) [
  | inl e ↦ ground arith
  | inr e ↦ elim (Option-cases (find_index p ys)) [
    | inl q ↦ absurd (ground arith)
    | inr ((j, z), q) ↦ let rest = find_index-test p ys q in ground arith
  ]
]
