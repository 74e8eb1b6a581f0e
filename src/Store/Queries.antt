-- ===== src/Store/Queries.antt =====
-- What internal/agoboardstore reads without changing it: queries of store.go and claim.go.
pub mod Feed
use ago.Prelude.{
  ℕ, zero, suc, ◌&&◌, ◌||◌, Option, none, some, List, [], ◌∷◌, map, find, select, is_empty, length,
  take, ltb, if◌then◌else◌,
}
use ago.Prelude.Ints.{ℤ, pos, negsuc}
use ago.Prelude.Outcome.{ok, err, ◌>>=◌, ◌>>◌, refuse, or_fail}
use ago.GoString.{GoString, str_eq, trim_space}
use ago.Protocol.States.{TaskState, is_active, state_eq}
use ago.Protocol.Records.{Task}
use ago.Protocol.Commands.{Event}
use ago.Protocol.Completion.{Completion, evaluate_completion}
use ago.Store.Rows.{Codec, Db, Tx, Stored, Binding, EventRow, StoreError}
use ago.Store.Receipts.{is_receipt}
use ago.Store.Boards.{board_query}
use ago.Store.Deadlines.{text_before}

-- `ORDER BY version`.
unfoldable pub by_version : EventRow → List EventRow → List EventRow
by_version r [] = r ∷ []
by_version r (o ∷ os) = if ltb o.version r.version then o ∷ by_version r os else r ∷ o ∷ os

unfoldable pub events_after : GoString → ℕ → List EventRow → List EventRow
unfolding by_version
events_after board_id after [] = []
events_after board_id after (r ∷ rs) =
    if str_eq r.board_id board_id && ltb after r.version
    then by_version r (events_after board_id after rs)
    else events_after board_id after rs

-- `LIMIT ?`, where the limit is not zero.
unfoldable pub limited : {A : Type 0} → ℕ → List A → List A
unfolding take
limited zero xs = xs
limited (suc n) xs = take (suc n) xs

-- `Replay`.
unfoldable pub replay : GoString → ℕ → ℤ → Db → Tx (List Event)
unfolding events_after limited
replay board_id after (negsuc n) db = err StoreError.negative_limit
replay board_id after (pos n) db =
    ok (map (λ r. r.event) (limited n (events_after board_id after db.events)))

-- `CommandResult`.
unfoldable pub command_result : GoString → GoString → Db → Tx (Option Stored)
unfolding trim_space find
command_result actor id db = do
  refuse (is_empty (trim_space actor) || is_empty (trim_space id)) StoreError.command_id_required
  ok (elim (find (is_receipt actor id) db.commands) [ none ↦ none | some r ↦ some r.result ])

-- `SELECT MAX(version)`, 0 where there are no events.
unfoldable pub latest_sequence : GoString → List EventRow → ℕ
latest_sequence board_id [] = 0
latest_sequence board_id (r ∷ rs) =
    let rest = latest_sequence board_id rs in
    if str_eq r.board_id board_id && ltb rest r.version then r.version else rest

-- `Ready`.
unfoldable pub ready : GoString → Db → Tx (List Task)
unfolding board_query select
ready board_id db = do
  b ← board_query board_id db
  ok (select (λ t. state_eq t.state TaskState.ready) b.tasks)

-- `Completion`.
unfoldable pub completion : GoString → Db → Tx Completion
unfolding board_query evaluate_completion
completion board_id db = do b ← board_query board_id db; ok (evaluate_completion b)

-- `Binding`.
unfoldable pub binding : GoString → GoString → Db → Option Binding
unfolding find
binding board_id attempt_id db =
    find (λ r. str_eq r.board_id board_id && str_eq r.attempt_id attempt_id) db.bindings

-- `BoardIDs`, in the order of their bytes.
unfoldable pub place_id : GoString → List GoString → List GoString
unfolding text_before
place_id id [] = id ∷ []
place_id id (j ∷ js) = if text_before j id then j ∷ place_id id js else id ∷ j ∷ js

unfoldable pub sorted_ids : List GoString → List GoString
unfolding place_id
sorted_ids [] = []
sorted_ids (id ∷ ids) = place_id id (sorted_ids ids)

unfoldable pub board_ids : Db → List GoString
unfolding sorted_ids
board_ids db = sorted_ids (map (λ r. r.board_id) db.boards)

-- `CountActiveLeases` and `CountAttempts`, for one board or for all.
unfoldable pub count_active_leases : GoString → Db → ℕ
unfolding select
count_active_leases board_id db =
    length (
      select (λ r. is_active r.state && (is_empty board_id || str_eq r.board_id board_id))
        db.leases)

unfoldable pub count_attempts : GoString → Db → ℕ
unfolding select
count_attempts board_id db =
    length (select (λ r. is_empty board_id || str_eq r.board_id board_id) db.attempts)

-- `ReferencedArtifacts`: the keys of the map.
unfoldable pub referenced_artifacts : Db → List GoString
referenced_artifacts db = map (λ r. r.artifact_id) db.artifacts

-- `Definition`, as far as the fields of the object: its caller reads them.
unfoldable pub definition : Codec → GoString → Db → Tx (List (GoString × GoString))
unfolding trim_space find
definition k board_id db = do
  refuse (is_empty (trim_space board_id)) StoreError.definition_incomplete
  r ← or_fail (find (λ r. str_eq r.board_id board_id) db.definitions) StoreError.definition_missing
  or_fail (k.decode_object r.definition) StoreError.encoding
