-- ===== src/Store/Claim/Stages.antt =====
-- The ends that `Claim` of internal/agoboardstore/claim.go can come to, with all the values on the way.
use ago.Prelude.{ℕ, ◌≡◌, false, ◌||◌, Option, none, some, inl, is_empty}
use ago.Prelude.Outcome.{ok, require, refuse}
use ago.GoString.{GoString}
use ago.Protocol.States.{ActorRole, role_eq}
use ago.Protocol.Records.{Board, Task}
use ago.Machine.Work.{Work}
use ago.Machine.Apply.{apply}
use ago.Store.Rows.{Db, Codec, Stored, StoreError}
use ago.Store.Receipts.{stored_result, insert_result}
use ago.Store.Boards.{lift, board_query, update_board, append_events}
use ago.Store.Projection.{sync_projection}
use ago.Store.Claim.{
  Claimed, acquired_result, positive, claim_spec, claim_command, claim_fresh, claim_again,
  claim_hash,
}
use ago.Store.Picking.{ClaimRequest, eligible_task, slot_available}

-- The steps behind a free slot.
pub record Taken (r : ClaimRequest) (duration : ℕ) (hash : GoString) (b : Board) (t : Task) (d : Db)
    (c : Claimed) : Type 0 where
  pub token : GoString
  pub attempt_id : GoString
  pub lease_id : GoString
  pub work : Work
  pub updated : Db
  pub appended : Db
  pub synced : Db
  pub applied :
      lift (apply b (claim_command r b (claim_spec r t attempt_id lease_id token duration)))
      ≡ ok work
  pub updating : update_board work.board d ≡ ok updated
  pub appending : append_events work.events updated ≡ ok appended
  pub syncing : sync_projection work.board appended ≡ ok synced
  pub receipt :
      insert_result r.actor.id r.command_id hash work.board.id
        (record { board = work.board; events = work.events })
        synced
      ≡ ok c.db
  pub result : c.result ≡ acquired_result work t attempt_id lease_id token

-- The guards of a claim that do not look at the database.
pub record Asked (k : Codec) (r : ClaimRequest) : Type 0 where
  pub duration : ℕ
  pub hash : GoString
  pub complete :
      refuse
        (is_empty r.board_id || is_empty r.command_id || is_empty r.worker_id)
        StoreError.claim_incomplete
      ≡ ok tt
  pub coordinated :
      require (role_eq r.actor.role ActorRole.coordinator) StoreError.claim_needs_coordinator
      ≡ ok tt
  pub lasting : positive r.lease_duration ≡ some duration
  pub hashed : claim_hash k r ≡ ok hash

-- The two ends of a claim: by its receipt, or by the board.
pub data Ended (k : Codec) (r : ClaimRequest) (minted : Option GoString) (d : Db) (c : Claimed)
    (a : Asked k r) : Type 0 where
  again :
      (s : Stored)
      → stored_result r.actor.id r.command_id a.hash d ≡ ok (some s)
      → claim_again k r s d ≡ ok c
      → Ended k r minted d c a
  fresh :
      (b : Board)
      → stored_result r.actor.id r.command_id a.hash d ≡ ok none
      → board_query r.board_id d ≡ ok b
      → claim_fresh k r a.duration minted a.hash b d ≡ ok c
      → Ended k r minted d c a

-- What a claim has found before it takes the task.
pub record Won (k : Codec) (r : ClaimRequest) (d : Db) (c : Claimed) : Type 0 where
  pub asked : Asked k r
  pub board : Board
  pub task : Task
  pub first : stored_result r.actor.id r.command_id asked.hash d ≡ ok none
  pub read : board_query r.board_id d ≡ ok board
  pub running : board.paused ≡ false
  pub eligible : eligible_task board r.now ≡ inl task
  pub slot : slot_available board task r.limits d ≡ none
  pub taken : Taken r asked.duration asked.hash board task d c
