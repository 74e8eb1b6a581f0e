-- ===== src/Store/Tables.antt =====
-- What the statements of internal/agoboardstore/store.go do with one table.
pub mod Written
use ago.Prelude.{Bool, ◌&&◌, not, none, some, List, [], ◌∷◌, ◌++◌, any, find, if◌then◌else◌}
use ago.Prelude.Outcome.{ok, ◌>>=◌, ◌>>◌, require, refuse}
use ago.Store.Rows.{Tx, constraint}

module _ {Row : Type 0} (same_key : Row → Row → Bool) where
  -- `INSERT … ON CONFLICT(key) DO UPDATE SET …`: the row with the key of the new one is replaced by
  -- `merge old new`; otherwise the new row is added.
  unfoldable pub upsert : (Row → Row → Row) → Row → List Row → List Row
  upsert merge r [] = r ∷ []
  upsert merge r (o ∷ os) = if same_key o r then merge o r ∷ os else o ∷ upsert merge r os

  -- The row that the statement writes.
  unfoldable pub written : (Row → Row → Row) → Row → List Row → Row
  unfolding find
  written merge r rows = elim (find (λ o. same_key o r) rows) [ none ↦ r | some o ↦ merge o r ]

  -- The statement with its constraints: `allowed` for the checks and the foreign keys of the new row,
  -- `clash` for unique columns other than the key.
  unfoldable pub write :
      (Row → Row → Row) → (Row → Row → Bool) → (Row → Bool) → Row → List Row → Tx (List Row)
  unfolding upsert written any
  write merge clash allowed r rows = do
    require (allowed r) constraint
    refuse (any (λ o. not (same_key o r) && clash o (written merge r rows)) rows) constraint
    ok (upsert merge r rows)

  -- The statement once for each value of a slice.
  unfoldable pub write_all :
      {A : Type 0}
      → (Row → Row → Row)
      → (Row → Row → Bool)
      → (Row → Bool)
      → (A → Row)
      → List A
      → List Row
      → Tx (List Row)
  unfolding write
  write_all merge clash allowed row [] rows = ok rows
  write_all merge clash allowed row (a ∷ as') rows = do
    rows' ← write merge clash allowed (row a) rows
    write_all merge clash allowed row as' rows'

  -- `INSERT`: no row has the key.
  unfoldable pub insert : (Row → Row → Bool) → (Row → Bool) → Row → List Row → Tx (List Row)
  unfolding any
  insert clash allowed r rows = do
    require (allowed r) constraint
    refuse (any (λ o. same_key o r) rows) constraint
    refuse (any (λ o. clash o r) rows) constraint
    ok (rows ++ r ∷ [])
