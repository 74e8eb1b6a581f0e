-- ===== src/Store/Queries/Feed.antt =====
-- The events of internal/agoboardstore/store.go, as they are appended and replayed.
use mathlib.Core.List.{append-nil}
use ago.Prelude.{
  ℕ, ◌≡◌, ◌<◌, ◌≤◌, refl, sym, ap, ◌∙◌, Bool, true, false, List, [], ◌∷◌, ◌++◌, map, any, ltb,
  arith, ◌&&◌,
}
use ago.Prelude.Grows.{All}
use ago.Prelude.Ints.{pos}
use ago.Prelude.Outcome.{ok, first_step}
use ago.GoString.{GoString, str_eq}
use ago.Protocol.Commands.{Event}
use ago.Store.Rows.{Db, EventRow}
use ago.Store.Tables.{insert}
use ago.Store.Boards.{append_events, insert_event, event_row}
use ago.Store.Queries.{by_version, events_after, limited, replay}

-- The versions ascend, from above `n`.
abbrev pub Ascends : ℕ → List Event → Type 0
Ascends n [] = Unit {0}
Ascends n (e ∷ es) = (n < e.version) × Ascends e.version es

-- The events are of one board.
abbrev pub OfBoard : GoString → List Event → Type 0
OfBoard id = All (λ e. e.board_id ≡ id)

-- The table has no event of the board above the version.
abbrev pub is_newer : GoString → ℕ → EventRow → Bool
is_newer id n r = str_eq r.board_id id && ltb n r.version

snoc-append : {A : Type 0} (xs ys : List A) (x : A) → (xs ++ x ∷ []) ++ ys ≡ xs ++ x ∷ ys
snoc-append [] ys x = refl
snoc-append (y ∷ xs) ys x = ap (λ zs. y ∷ zs) (snoc-append xs ys x)

insert_event-rows :
    (x : Event) (d : Db) {rows : List EventRow}
    → insert_event x d ≡ ok rows
    → rows ≡ d.events ++ event_row x ∷ []
unfolding insert_event insert
insert_event-rows x d h = ground arith

append_events-rows :
    (es : List Event) (d : Db) {e : Db}
    → append_events es d ≡ ok e
    → e.events ≡ d.events ++ map event_row es
unfolding append_events
append_events-rows [] d {e} h =
    let same : d ≡ e = ground arith in ap (λ z. z.events) (sym same) ∙ sym (append-nil d.events)
append_events-rows (x ∷ es) d h =
    let (rows, p, q) = first_step (insert_event x d) _ h in
    append_events-rows es (record d { events = rows }) q
    ∙ ap (λ xs. xs ++ map event_row es) (insert_event-rows x d p)
    ∙ snoc-append d.events (map event_row es) (event_row x)

skipped :
    (id : GoString) (n : ℕ) (xs ys : List EventRow)
    → any (is_newer id n) xs ≡ false
    → events_after id n (xs ++ ys) ≡ events_after id n ys
unfolding events_after any
skipped id n [] ys h = refl
skipped id n (x ∷ xs) ys h = let rest = skipped id n xs ys (ground arith) in ground arith

-- A row goes in front of rows of higher versions.
by_version-first :
    (r : EventRow) (es : List Event)
    → Ascends r.version es
    → by_version r (map event_row es) ≡ r ∷ map event_row es
unfolding by_version
by_version-first r [] h = refl
by_version-first r (e ∷ es) h = ground arith

events_after-ascending :
    (id : GoString) (n m : ℕ) (es : List Event)
    → n ≤ m
    → Ascends m es
    → OfBoard id es
    → events_after id n (map event_row es) ≡ map event_row es
unfolding events_after
events_after-ascending id n m [] l a o = refl
events_after-ascending id n m (e ∷ es) l a o =
    let rest = events_after-ascending id n e.version es (omega (arith, a.0)) a.1 o.1 in
    let first = by_version-first (event_row e) es a.1 in
    let newer : is_newer id n (event_row e) ≡ true = (let b = o.0 in let v = a.0 in ground arith) in
    ground arith

events_of_rows : (es : List Event) → map (λ r. r.event) (map event_row es) ≡ es
events_of_rows [] = refl
events_of_rows (e ∷ es) = ap (λ xs. e ∷ xs) (events_of_rows es)

-- Events of a board that were appended in ascending order, all above a version that no earlier event of
-- the board exceeds, are what a replay without a limit after that version returns, in their order.
pub append_events-replay :
    (id : GoString) (n : ℕ) (es : List Event) (d : Db) {e : Db}
    → Ascends n es
    → OfBoard id es
    → any (is_newer id n) d.events ≡ false
    → append_events es d ≡ ok e
    → replay id n (pos 0) e ≡ ok es
unfolding replay limited
append_events-replay id n es d {e} a o s h =
    let rows = append_events-rows es d h in
    let old = skipped id n d.events (map event_row es) s in
    let new = events_after-ascending id n n es (omega arith) a o in
    ap (λ xs. ok (map (λ r. r.event) (events_after id n xs))) rows
    ∙ ap (λ xs. ok (map (λ r. r.event) xs)) (old ∙ new)
    ∙ ap ok (events_of_rows es)
