-- ===== src/Store/Boards.antt =====
-- The rows of the boards, their events, bindings and definitions in internal/agoboardstore/store.go.
use ago.Prelude.{
  Bool, false, ◌&&◌, Option, none, some, List, [], ◌∷◌, leb, any, find, map, if◌then◌else◌,
}
use ago.Prelude.Outcome.{ok, err, panic, ◌>>=◌, ◌>>◌, require, or_fail}
use ago.Prelude.Ints.{pos}
use ago.GoString.{GoString, str_eq, codes}
use ago.Planner.{Plan, TaskProposal}
use ago.Protocol.Errors.{Checked}
use ago.Protocol.Records.{Board}
use ago.Protocol.Commands.{Event}
use ago.Protocol.Validate.{validate}
use ago.Store.Rows.{
  Db, Tx, Codec, Binding, BoardRow, EventRow, refused, board_not_found, board_id_required, encoding,
  constraint, definition_missing,
}
use ago.Store.Tables.{insert}
use ago.Store.Projection.{has_board_row, has_attempt_row}

-- An error of the state machine is an error of the store.
abbrev pub lift : {A : Type 0} → Checked A → Tx A
lift (ok a) = ok a
lift (err e) = err (refused e)
lift panic = panic

-- `soleBoardID`: the query asks for two rows at most, so more than one are as good as two.
unfoldable pub sole_board_id : List BoardRow → Tx GoString
sole_board_id (r ∷ []) = ok r.board_id
sole_board_id _ = err board_id_required

-- `boardQuery`, `boardTx` and `Store.Board`.
unfoldable pub board_query : GoString → Db → Tx Board
unfolding find
board_query id db = do
  r ← or_fail (find (λ r. str_eq r.board_id id) db.boards) board_not_found
  lift (validate r.board)
  ok r.board

unfoldable pub board_row : Board → BoardRow
board_row b = record {
  board_id = b.id;
  version = b.version;
  title = b.title;
  board = b;
  repository_id = b.repository;
  paused = b.paused;
  next_generation = b.next_generation;
}

-- `CHECK(version >= 1)` and `CHECK(next_generation >= 1)`.
abbrev pub counts_from_one : BoardRow → Bool
counts_from_one r = leb 1 r.version && leb 1 r.next_generation

-- The `INSERT INTO boards` of `apply` and `CreateGraph`.
unfoldable pub insert_board : Board → Db → Tx Db
unfolding insert board_row any
insert_board b db = do
  rows ←
      insert (λ o r. str_eq o.board_id r.board_id) (λ o r. false) counts_from_one (board_row b)
        db.boards
  ok (record db { boards = rows })

abbrev pub replace_board : Board → BoardRow → BoardRow
replace_board b r = if str_eq r.board_id b.id then board_row b else r

-- `updateBoard`: the key is unique, so the number of rows affected is 1 if there is such a row.
unfoldable pub update_board : Board → Db → Tx Db
unfolding board_row any
update_board b db = do
  require (has_board_row db b.id) board_not_found
  require (counts_from_one (board_row b)) constraint
  ok (record db { boards = map (replace_board b) db.boards })

abbrev pub event_row : Event → EventRow
event_row e = record { board_id = e.board_id; version = e.version; event_id = e.id; event = e }

abbrev pub same_event : EventRow → EventRow → Bool
same_event o r = str_eq o.board_id r.board_id && leb o.version r.version && leb r.version o.version

-- The statement for one event.
unfoldable pub insert_event : Event → Db → Tx (List EventRow)
unfolding insert any
insert_event e db =
    insert same_event (λ o r. false) (λ r. has_board_row db r.board_id && leb 1 r.version)
      (event_row e) db.events

-- `appendEvents`.
unfoldable pub append_events : List Event → Db → Tx Db
unfolding insert_event
append_events [] db = ok db
append_events (e ∷ es) db = do
  rows ← insert_event e db
  append_events es (record db { events = rows })

-- The `INSERT INTO bindings` of `apply`.
unfoldable pub insert_binding : Binding → Db → Tx Db
unfolding insert any
insert_binding v db = do
  rows ←
      insert (λ o r. str_eq o.board_id r.board_id && str_eq o.attempt_id r.attempt_id)
        (λ o r. str_eq o.board_id r.board_id && str_eq o.thread_id r.thread_id)
        (λ r. has_attempt_row db r.board_id r.attempt_id) v db.bindings
  ok (record db { bindings = rows })

-- The loop of `extendDefinition`: the first task with the id is replaced, or the task is added.
unfoldable pub extend_tasks : TaskProposal → List TaskProposal → List TaskProposal
extend_tasks p [] = p ∷ []
extend_tasks p (t ∷ ts) = if str_eq t.id p.id then p ∷ ts else t ∷ extend_tasks p ts

-- `raw[key]`, and `raw[key] = value`.
unfoldable pub object_get : GoString → List (GoString × GoString) → Option GoString
object_get key [] = none
object_get key ((name, value) ∷ rest) = if str_eq name key then some value else object_get key rest

unfoldable pub object_put :
    GoString → GoString → List (GoString × GoString) → List (GoString × GoString)
object_put key v [] = (key, v) ∷ []
object_put key v ((name, value) ∷ rest) =
    if str_eq name key then (name, v) ∷ rest else (name, value) ∷ object_put key v rest

abbrev empty_plan : Plan
empty_plan = record {
  schema_version = pos 0;
  repository = record { id = []; revision = [] };
  objective = record { id = []; summary = [] };
  tasks = [];
  dependencies = [];
  project_gates = [];
}

module _ (k : Codec) where
  -- The plan of a definition, or the zero plan where it has none.
  unfoldable pub plan_of : List (GoString × GoString) → Tx Plan
  unfolding object_get
  plan_of raw = elim (object_get (codes "plan") raw) [
    | none ↦ ok empty_plan
    | some text ↦ or_fail (k.decode_plan text) encoding
  ]

  -- `extendDefinition`.
  unfoldable pub extend_definition : GoString → TaskProposal → Db → Tx Db
  unfolding find plan_of extend_tasks object_put
  extend_definition board_id p db = do
    r ← or_fail (find (λ r. str_eq r.board_id board_id) db.definitions) definition_missing
    raw ← or_fail (k.decode_object r.definition) encoding
    plan ← plan_of raw
    text ← or_fail (k.encode_plan (record plan { tasks = extend_tasks p plan.tasks })) encoding
    updated ← or_fail (k.encode_object (object_put (codes "plan") text raw)) encoding
    ok (record db {
      definitions =
          map (λ d. if str_eq d.board_id board_id then record d { definition = updated } else d)
            db.definitions;
    })
