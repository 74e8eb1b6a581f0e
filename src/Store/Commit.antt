-- ===== src/Store/Commit.antt =====
-- `Store.apply` of internal/agoboardstore/store.go and what calls it. A transaction that returns an
-- error is rolled back: the database is then the one before.
pub mod Frames
pub mod Receipted
pub mod Replay
use ago.Prelude.{
  Bool, true, false, ◌&&◌, ◌||◌, not, Option, none, some, List, [], ◌∷◌, ◌++◌, any, is_empty,
  is_nil, if◌then◌else◌,
}
use ago.Prelude.Ints.{pos}
use ago.Prelude.Outcome.{ok, err, ◌>>=◌, ◌>>◌, require, refuse, or_fail}
use ago.GoString.{GoString, str_eq, trim_space}
use ago.Clock.{Time, zero_time, is_zero, to_utc}
use ago.Planner.{TaskProposal}
use ago.Protocol.States.{CommandType, ActorRole, role_eq}
use ago.Protocol.Records.{Board, zero_gate}
use ago.Protocol.Commands.{Command, Event, LeaseSpec}
use ago.Machine.Work.{Work}
use ago.Machine.Apply.{apply}
use ago.Store.Rows
use ago.Store.Rows.{Db, Tx, Codec, Request, Stored, Binding, StoreError}
use ago.Store.Receipts.{stored_result, insert_result, request_hash, command_request_hash}
use ago.Store.Boards.{
  lift, sole_board_id, board_query, insert_board, update_board, append_events, insert_binding,
  extend_definition,
}
use ago.Store.Projection.{sync_projection}

-- `agoboardprotocol.Board{}`.
abbrev pub zero_board : Board
zero_board = record {
  schema_version = pos 0;
  id = [];
  version = 0;
  title = [];
  tasks = [];
  dependencies = [];
  attempts = [];
  leases = [];
  evidence = [];
  repository = [];
  base_revision = [];
  integration_ref = [];
  integrated_revision = [];
  next_generation = 0;
  paused = false;
  pause_reason = [];
  gate = zero_gate;
}

abbrev pub is_create : CommandType → Bool
is_create CommandType.board_create = true
is_create _ = false

abbrev pub is_acquire : CommandType → Bool
is_acquire CommandType.lease_acquire = true
is_acquire _ = false

-- The board that a command is for.
unfoldable pub target_board : GoString → Command → Db → Tx GoString
unfolding sole_board_id
target_board id c db =
    if is_create c.type
    then elim c.board [ none ↦ ok id | some s ↦ ok s.id ]
    else if is_empty id
    then sole_board_id db.boards
    else ok id

-- The deadline becomes part of the command.
unfoldable pub with_deadline : Time → Command → Command
unfolding is_zero
with_deadline expires_at c = elim c.lease [
  | none ↦ c
  | some s ↦
      if not (is_zero expires_at) && is_zero s.expires_at
      then record c { lease = some (record s { expires_at = to_utc expires_at }) }
      else c
]

-- `current`: the zero board, or the one of the database.
unfoldable pub current_board : GoString → Command → Db → Tx Board
unfolding board_query
current_board id c db = if is_create c.type then ok zero_board else board_query id db

-- The new board takes its row.
unfoldable pub save_board : Command → Board → Db → Tx Db
unfolding insert_board update_board
save_board c next db = if is_create c.type then insert_board next db else update_board next db

unfoldable pub save_binding : Option Binding → Command → Board → Db → Tx Db
unfolding insert_binding
save_binding none c next db = ok db
save_binding (some v) c next db = do
  s ← or_fail c.lease StoreError.binding_mismatch
  refuse
      (not (str_eq v.board_id next.id)
        || not (str_eq v.attempt_id s.attempt_id)
        || is_empty v.thread_id)
      StoreError.binding_mismatch
  insert_binding v db

-- What the writing half of a command stores: the board, its events and its projection.
unfoldable pub save : Command → Work → Db → Tx Db
unfolding save_board append_events sync_projection
save c w db = do
  db1 ← save_board c w.board db
  db2 ← append_events w.events db1
  sync_projection w.board db2

-- The database and the result of a command, and whether this call has produced them.
pub record Committed : Type 0 where
  pub db : Db
  pub result : Stored
  pub fresh : Bool

module _ (k : Codec) where
  unfoldable pub save_proposal : GoString → Option TaskProposal → Db → Tx Db
  unfolding extend_definition
  save_proposal id none db = ok db
  save_proposal id (some p) db = extend_definition k id p db

  -- The second half of `apply`, for a command that has no receipt.
  unfoldable pub apply_fresh :
      GoString → Command → Option Binding → Option TaskProposal → GoString → Db → Tx Committed
  unfolding current_board save save_binding insert_result save_proposal
  apply_fresh id c binding proposal hash db = do
    current ← current_board id c db
    w ← lift (apply current c)
    db1 ← save c w db
    db2 ← save_binding binding c w.board db1
    let result : Stored = record { board = w.board; events = w.events }
    db3 ← insert_result c.actor.id c.id hash w.board.id result db2
    db4 ← save_proposal id proposal db3
    ok (record { db = db4; result = result; fresh = true })

  -- `apply`.
  unfoldable pub apply_command :
      GoString → Command → Time → Option Binding → Option TaskProposal → Db → Tx Committed
  unfolding target_board with_deadline command_request_hash stored_result apply_fresh
  apply_command id command expires_at binding proposal db = do
    board_id ← target_board id command db
    let c : Command = with_deadline expires_at command
    hash ← command_request_hash k board_id c expires_at binding
    found ← stored_result c.actor.id c.id hash db
    elim found [
      | some result ↦ ok (record { db = db; result = result; fresh = false })
      | none ↦ apply_fresh board_id c binding proposal hash db
    ]

  -- `Store.Apply` and `Store.ApplyBoard`.
  unfoldable pub apply_board : GoString → Command → Db → Tx Committed
  unfolding apply_command
  apply_board id c db = apply_command id c zero_time none none db

  -- `Store.ApplyBoardWithProposal`.
  unfoldable pub apply_board_with_proposal : GoString → Command → TaskProposal → Db → Tx Committed
  unfolding apply_command trim_space
  apply_board_with_proposal id c p db = do
    refuse (is_empty (trim_space p.id)) StoreError.proposal_id_required
    apply_command id c zero_time none (some p) db

  -- `Store.Create`.
  unfoldable pub create : Command → Db → Tx Committed
  unfolding apply_board
  create c db = do require (is_create c.type) StoreError.create_required; apply_board [] c db

  -- `Store.AcquireLease`.
  unfoldable pub acquire_lease : Command → Time → Option Binding → Db → Tx Committed
  unfolding apply_command is_zero
  acquire_lease c expires_at binding db = do
    require (is_acquire c.type) StoreError.lease_command_required
    refuse (is_zero expires_at) StoreError.expiry_required
    apply_command (elim binding [ none ↦ [] | some v ↦ v.board_id ]) c (to_utc expires_at) binding
        none db

  -- `Store.AcquireLeaseBoard` and `Store.AcquireLeaseBoardOnce`.
  unfoldable pub acquire_lease_board :
      GoString → Command → Time → Option Binding → Db → Tx Committed
  unfolding apply_command is_zero
  acquire_lease_board id c expires_at binding db = do
    require (is_acquire c.type) StoreError.lease_command_required
    refuse (is_empty id || is_zero expires_at) StoreError.expiry_required
    apply_command id c (to_utc expires_at) binding none db
