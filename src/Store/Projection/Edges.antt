-- ===== src/Store/Projection/Edges.antt =====
-- The rows of dependencies that `syncProjection` of internal/agoboardstore/store.go leaves behind.
use ago.Prelude.{
  ◌≡◌, refl, ap, ◌∙◌, Bool, true, false, ◌⊎◌, inl, inr, List, [], ◌∷◌, ◌++◌, arith, not, ◌&&◌, any,
  find, Bool-cases, none,
}
use ago.Prelude.Outcome.{ok, err, ◌>>=◌, ◌>>◌}
use ago.GoString.{str_eq}
use ago.Protocol.Records.{Board, Dependency}
use ago.Store.Rows.{Db, DependencyRow, constraint}
use ago.Store.Tables.{upsert, written, write, write_all}
use ago.Store.Projection.{clashing_dependency, dependency_allowed, sync_dependencies}
use ago.Store.Mapping.{dependency_row, same_dependency, merge_dependency}

-- The row has this edge of the board, under another id than the dependency.
abbrev pub holds_edge : Board → Dependency → DependencyRow → Bool
holds_edge b x o =
    str_eq o.board_id b.id
    && not (str_eq o.dependency_id x.id)
    && str_eq o.task_id x.task_id
    && str_eq o.depends_on x.depends_on

-- The row is the dependency's own.
abbrev pub has_key : Board → Dependency → DependencyRow → Bool
has_key b x o = str_eq o.board_id b.id && str_eq o.dependency_id x.id

find_absent : {A : Type 0} (p : A → Bool) (xs : List A) → any p xs ≡ false → find p xs ≡ none
unfolding any find
find_absent p [] h = refl
find_absent p (x ∷ xs) h = let rest = find_absent p xs (ground arith) in ground arith

-- A statement succeeds or meets a constraint.
write_cases :
    {Row : Type 0} (same_key : Row → Row → Bool) (merge : Row → Row → Row)
    (clash : Row → Row → Bool) (allowed : Row → Bool) (r : Row) (rows : List Row)
    → (write same_key merge clash allowed r rows ≡ ok (upsert same_key merge r rows))
      ⊎ (write same_key merge clash allowed r rows ≡ err constraint)
unfolding write
write_cases same_key merge clash allowed r rows = elim (Bool-cases (allowed r)) [
  | inr e ↦ inr (rw (e, ◌>>◌) refl)
  | inl e ↦
      elim (Bool-cases
        (any (λ o. not (same_key o r) && clash o (written same_key merge r rows)) rows)) [
          | inl q ↦ inr (rw (e, ◌>>◌) (rw q refl))
          | inr q ↦ inl (rw (e, ◌>>◌) (rw q refl))
        ]
]

module _ (b : Board) (x : Dependency) where
  other_key : (y : Dependency) → str_eq y.id x.id ≡ false → has_key b x (dependency_row b y) ≡ false
  unfolding dependency_row
  other_key y h = ground arith

  upsert-holds :
      (r : DependencyRow) (rows : List DependencyRow)
      → any (holds_edge b x) rows ≡ true
      → any (holds_edge b x) (upsert same_dependency merge_dependency r rows) ≡ true
  unfolding upsert any
  upsert-holds r [] h = cc
  upsert-holds r (o ∷ os) h = elim (Bool-cases (same_dependency o r)) [
    | inl e ↦ rw e h
    | inr e ↦ elim (Bool-cases (holds_edge b x o)) [
      | inl q ↦ rw e (rw q refl)
      | inr q ↦ let rest = upsert-holds r os (ground arith) in rw e (rw q rest)
    ]
  ]

  upsert-absent :
      (r : DependencyRow) (rows : List DependencyRow)
      → has_key b x r ≡ false
      → any (has_key b x) rows ≡ false
      → any (has_key b x) (upsert same_dependency merge_dependency r rows) ≡ false
  unfolding upsert any
  upsert-absent r [] k h = rw k refl
  upsert-absent r (o ∷ os) k h = elim (Bool-cases (same_dependency o r)) [
    | inl e ↦ rw e h
    | inr e ↦
        let first : has_key b x o ≡ false = ground arith in
        let rest = upsert-absent r os k (ground arith) in rw e (rw first rest)
  ]

  clash_found :
      (rows : List DependencyRow)
      → any (holds_edge b x) rows ≡ true
      → any
          (λ o.
            not (same_dependency o (dependency_row b x))
            && clashing_dependency o (dependency_row b x))
          rows
        ≡ true
  unfolding any dependency_row
  clash_found [] h = cc
  clash_found (o ∷ os) h = elim (Bool-cases (holds_edge b x o)) [
    | inl q ↦ ground arith
    | inr q ↦ let rest = clash_found os (ground arith) in ground arith
  ]

  written_fresh :
      (rows : List DependencyRow)
      → any (has_key b x) rows ≡ false
      → written same_dependency merge_dependency (dependency_row b x) rows ≡ dependency_row b x
  unfolding written dependency_row
  written_fresh rows h = rw (find_absent (has_key b x) rows h, written) refl

  -- Writing the dependency meets the row that has its edge.
  write_clashes :
      (allowed : DependencyRow → Bool) (rows : List DependencyRow)
      → any (holds_edge b x) rows ≡ true
      → any (has_key b x) rows ≡ false
      → write same_dependency merge_dependency clashing_dependency allowed (dependency_row b x) rows
        ≡ err constraint
  unfolding write
  write_clashes allowed rows h k =
      let test : DependencyRow → DependencyRow → Bool =
        λ w o. not (same_dependency o (dependency_row b x)) && clashing_dependency o w in
      let w = written_fresh rows k in
      let found : any (test (written same_dependency merge_dependency (dependency_row b x) rows))
            rows
          ≡ true =
        ap (λ r. any (test r) rows) w ∙ clash_found rows h in
      elim (Bool-cases (allowed (dependency_row b x))) [
        | inl e ↦ rw (e, ◌>>◌) (rw found refl)
        | inr e ↦ rw (e, ◌>>◌) refl
      ]

  write_all-clashes :
      (allowed : DependencyRow → Bool) (ys : List Dependency) (rows : List DependencyRow)
      → any (λ y. str_eq y.id x.id) ys ≡ false
      → any (holds_edge b x) rows ≡ true
      → any (has_key b x) rows ≡ false
      → write_all same_dependency merge_dependency clashing_dependency allowed
          (dependency_row b)
          (ys ++ x ∷ [])
          rows
        ≡ err constraint
  unfolding write_all any
  write_all-clashes allowed [] rows f h k = rw (write_clashes allowed rows h k, ◌>>=◌) refl
  write_all-clashes allowed (y ∷ ys) rows f h k =
      elim (write_cases same_dependency merge_dependency clashing_dependency allowed
        (dependency_row b y) rows) [
          | inr e ↦ rw (e, ◌>>=◌) refl
          | inl e ↦
              let other : has_key b x (dependency_row b y) ≡ false = other_key y (ground arith) in
              rw (e, ◌>>=◌)
                (write_all-clashes allowed ys _ (ground arith)
                  (upsert-holds (dependency_row b y) rows h)
                  (upsert-absent (dependency_row b y) rows other k))
        ]

-- Where the table has the edge of the last dependency of a board under another id, and no row of its
-- own id, and no other dependency of the board has that id, the projection of the dependencies fails
-- with a violated constraint.
pub sync_dependencies-clash :
    (b : Board) (d : Db) (ys : List Dependency) (x : Dependency)
    → b.dependencies ≡ ys ++ x ∷ []
    → any (λ y. str_eq y.id x.id) ys ≡ false
    → any (holds_edge b x) d.dependencies ≡ true
    → any (has_key b x) d.dependencies ≡ false
    → sync_dependencies b d ≡ err constraint
unfolding sync_dependencies
sync_dependencies-clash b d ys x e f h k =
    let failed = write_all-clashes b x (dependency_allowed d) ys d.dependencies f h k in
    let moved : write_all same_dependency merge_dependency clashing_dependency
          (dependency_allowed d) (dependency_row b) b.dependencies d.dependencies
        ≡ err constraint =
      ap
        (λ ds.
          write_all same_dependency merge_dependency clashing_dependency (dependency_allowed d)
            (dependency_row b) ds d.dependencies)
        e
      ∙ failed in
    rw (moved, ◌>>=◌) refl
