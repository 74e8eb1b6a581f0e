-- ===== src/Protocol/Acyclic/Marking.antt =====
-- How the marks of the search of `validateAcyclic` grow.
use ago.Prelude.{◌≡◌, subst, true, false, List, ◌∷◌, any, arith, Bool-cases, inl, inr}
use ago.GoString.{GoString, str_eq}
use ago.Protocol.Acyclic.{marked}

pub marked-head : (x : GoString) (xs : List GoString) → marked (x ∷ xs) x ≡ true
unfolding marked any
marked-head x xs = ground arith

pub marked-tail :
    (y x : GoString) (xs : List GoString) → marked xs y ≡ true → marked (x ∷ xs) y ≡ true
unfolding marked any
marked-tail y x xs h = ground arith

pub marked-ne :
    (y x : GoString) (xs : List GoString)
    → marked (x ∷ xs) y ≡ true
    → str_eq y x ≡ false
    → marked xs y ≡ true
unfolding marked any
marked-ne y x xs h e = ground arith

pub apart-cons :
    (x id : GoString) (l k : List GoString)
    → marked l x ≡ true
    → marked l id ≡ false
    → marked k x ≡ false
    → marked (id ∷ k) x ≡ false
unfolding marked any
apart-cons x id l k h e f = elim (Bool-cases (str_eq x id)) [
  | inl p ↦
      let q : x ≡ id = ground arith in
      let h' : marked l id ≡ true = subst (λ w. marked l w ≡ true) q h in cc
  | inr p ↦ ground arith
]
