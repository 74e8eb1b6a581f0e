-- ===== src/Store/Admission.antt =====
-- `Store.CreateGraph` of internal/agoboardstore/store.go: a board and its first commands in one
-- transaction.
use ago.Prelude.{
  true, false, ◌&&◌, ◌||◌, not, none, some, List, [], ◌∷◌, ◌++◌, any, is_empty, is_nil,
}
use ago.Prelude.Outcome.{ok, err, ◌>>=◌, ◌>>◌, require, refuse, or_fail}
use ago.GoString.{GoString, str_eq}
use ago.Clock.{zero_time}
use ago.Protocol.States.{ActorRole, role_eq}
use ago.Protocol.Records.{Board}
use ago.Protocol.Commands.{Command, Event}
use ago.Machine.Apply.{apply}
use ago.Store.Rows.{Db, Tx, Codec, Request, Stored, StoreError}
use ago.Store.Tables.{insert}
use ago.Store.Receipts.{stored_result, insert_result, request_hash, command_request_hash}
use ago.Store.Boards.{lift, insert_board, append_events}
use ago.Store.Projection.{sync_projection, has_board_row}
use ago.Store.Commit.{Committed, zero_board, is_create}

-- `innerReceipt`.
pub record Receipt : Type 0 where
  pub command : Command
  pub hash : GoString
  pub result : Stored

-- The loop over the commands; `seen` are the ids so far.
unfoldable pub check_commands : GoString → List GoString → List Command → Tx (Unit {0})
unfolding any
check_commands actor seen [] = ok tt
check_commands actor seen (c ∷ cs) = do
  require (str_eq c.actor.id actor && role_eq c.actor.role ActorRole.coordinator)
      StoreError.one_coordinator_required
  refuse (is_empty c.id) StoreError.command_id_required
  refuse (any (str_eq c.id) seen) StoreError.duplicate_command
  check_commands actor (c.id ∷ seen) cs

-- What the loop that applies the commands has collected.
pub record Admitted : Type 0 where
  pub board : Board
  pub events : List Event
  pub results : List Stored

-- That loop, from the board `current`; `results` has the results of all commands, in order.
unfoldable pub admit : GoString → List Command → Board → Tx Admitted
admit board_id [] current = ok (record { board = current; events = []; results = [] })
admit board_id (c ∷ cs) current = do
  w ← lift (apply current c)
  require (str_eq w.board.id board_id) StoreError.identity_changed
  rest ← admit board_id cs w.board
  ok (record rest {
    events = w.events ++ rest.events;
    results = record { board = w.board; events = w.events } ∷ rest.results;
  })

-- `INSERT INTO board_definitions`.
unfoldable pub insert_definition : GoString → GoString → Db → Tx Db
unfolding insert any
insert_definition board_id definition db = do
  rows ←
      insert (λ o r. str_eq o.board_id r.board_id) (λ o r. false) (λ r. has_board_row db r.board_id)
        (record { board_id = board_id; definition = definition }) db.definitions
  ok (record db { definitions = rows })

-- The loop over the receipts.
unfoldable pub insert_receipts :
    GoString → GoString → List Command → List GoString → List Stored → Db → Tx Db
unfolding insert_result
insert_receipts actor board_id (c ∷ cs) (h ∷ hs) (r ∷ rs) db = do
  next ← insert_result actor c.id h board_id r db
  insert_receipts actor board_id cs hs rs next
insert_receipts actor board_id _ _ _ db = ok db

module _ (k : Codec) where
  -- The loop that hashes the commands behind the first one; none of them has a receipt.
  unfoldable pub receipt_hashes : GoString → GoString → List Command → Db → Tx (List GoString)
  unfolding command_request_hash stored_result
  receipt_hashes actor board_id [] db = ok []
  receipt_hashes actor board_id (c ∷ cs) db = do
    hash ← command_request_hash k board_id c zero_time none
    found ← stored_result actor c.id hash db
    require (is_nil found) StoreError.command_already_used
    rest ← receipt_hashes actor board_id cs db
    ok (hash ∷ rest)

  -- What is written once all commands were applied.
  unfoldable pub save_graph :
      Command → List Command → GoString → GoString → GoString → List GoString → Db → Tx Committed
  unfolding admit insert_board insert_definition append_events sync_projection insert_receipts
      insert_result
  save_graph first rest board_id definition hash hashes db = do
    w ← lift (apply zero_board first)
    require (str_eq w.board.id board_id) StoreError.identity_changed
    g ← admit board_id rest w.board
    let events : List Event = w.events ++ g.events
    db1 ← insert_board g.board db
    db2 ← insert_definition g.board.id definition db1
    db3 ← append_events events db2
    db4 ← sync_projection g.board db3
    db5 ← insert_receipts first.actor.id g.board.id rest hashes g.results db4
    let result : Stored = record { board = g.board; events = events }
    db6 ← insert_result first.actor.id first.id hash g.board.id result db5
    ok (record { db = db6; result = result; fresh = true })

  -- `CreateGraph`, for commands that start with `first`.
  unfoldable pub create_graph_from : Command → List Command → GoString → Db → Tx Committed
  unfolding check_commands request_hash stored_result receipt_hashes save_graph
  create_graph_from first rest definition db = do
    require (is_create first.type) StoreError.graph_commands_required
    s ← or_fail first.board StoreError.graph_commands_required
    refuse (is_empty definition || not (k.valid_json definition)) StoreError.definition_invalid
    check_commands first.actor.id [] (first ∷ rest)
    hash ← request_hash k (Request.graph s.id (first ∷ rest) definition)
    found ← stored_result first.actor.id first.id hash db
    hashes ← elim found [ some result ↦ ok [] | none ↦ receipt_hashes first.actor.id s.id rest db ]
    elim found [
      | some result ↦ ok (record { db = db; result = result; fresh = false })
      | none ↦ save_graph first rest s.id definition hash hashes db
    ]

  unfoldable pub create_graph : List Command → GoString → Db → Tx Committed
  unfolding create_graph_from
  create_graph [] definition db = err StoreError.graph_commands_required
  create_graph (first ∷ rest) definition db = create_graph_from first rest definition db
