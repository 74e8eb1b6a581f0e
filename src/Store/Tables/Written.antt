-- ===== src/Store/Tables/Written.antt =====
-- The row that the last statement on a table has written is in the table.
use mathlib.Core.List.{Memᴰ}
use ago.Prelude.{
  ◌≡◌, refl, subst, Bool, true, ◌⊎◌, inl, inr, List, [], ◌∷◌, ◌++◌, arith, Bool-cases,
}
use ago.Prelude.Outcome.{ok, first_step}
use ago.Store.Tables.{upsert, write, write_all}

module _ {Row : Type 0} (same_key : Row → Row → Bool) (merge : Row → Row → Row) where
  -- The row `r`, or what it makes of an older one.
  abbrev pub Lands : Row → List Row → Type 0
  Lands r rows = (q : Row) × Memᴰ q rows × ((q ≡ r) ⊎ ((o : Row) × (q ≡ merge o r)))

  upsert-Lands : (r : Row) (rows : List Row) → Lands r (upsert same_key merge r rows)
  unfolding upsert
  upsert-Lands r [] = (r, Memᴰ.head refl, inl refl)
  upsert-Lands r (o ∷ os) = elim (Bool-cases (same_key o r)) [
    | inl e ↦ rw e (merge o r, Memᴰ.head refl, inr (o, refl))
    | inr e ↦ rw e (let (q, m, k) = upsert-Lands r os in (q, Memᴰ.tail m, k))
  ]

  module _ (clash : Row → Row → Bool) (allowed : Row → Bool) where
    write-Lands :
        (r : Row) (rows : List Row) {after : List Row}
        → write same_key merge clash allowed r rows ≡ ok after
        → Lands r after × (allowed r ≡ true)
    unfolding write
    write-Lands r rows {after} h =
        let e : upsert same_key merge r rows ≡ after = ground arith in
        (subst (Lands r) e (upsert-Lands r rows), ground arith)

    pub write_all-Lands :
        {A : Type 0} (row : A → Row) (xs : List A) (x : A) (rows : List Row) {after : List Row}
        → write_all same_key merge clash allowed row (xs ++ x ∷ []) rows ≡ ok after
        → Lands (row x) after × (allowed (row x) ≡ true)
    unfolding write_all
    write_all-Lands row [] x rows h =
        let (next, p, q) = first_step (write same_key merge clash allowed (row x) rows) _ h in
        write-Lands (row x) rows (ground arith)
    write_all-Lands row (y ∷ ys) x rows h =
        let (next, p, q) = first_step (write same_key merge clash allowed (row y) rows) _ h in
        write_all-Lands row ys x next q
