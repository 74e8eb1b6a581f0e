-- ===== src/Store/Receipts.antt =====
-- The requests that internal/agoboardstore/store.go identifies by a hash, and the receipts by which it
-- answers a command again that was already honoured.
use ago.Prelude.{
  ℕ, ◌+◌, ◌/◌, ◌%◌, ltb, Bool, ◌&&◌, Option, none, some, [], ◌∷◌, ◌++◌, any, find, if◌then◌else◌,
}
use ago.Prelude.Outcome.{ok, ◌>>=◌, ◌>>◌, require, or_fail, refuse}
use ago.GoString.{GoString, str_eq}
use ago.Clock.{Time}
use ago.Protocol.Commands.{Command}
use ago.Store.Rows.{
  Db, Tx, Codec, Request, Stored, Binding, CommandRow, encoding, command_conflict, constraint,
}
use ago.Store.Tables.{insert}

-- `hex.EncodeToString`.
hex_digit : ℕ → ℕ
hex_digit n = if ltb n 10 then 48 + n else 87 + n

unfoldable pub hex : GoString → GoString
unfolding hex_digit
hex [] = []
hex (b ∷ bs) = hex_digit (b / 16) ∷ hex_digit (b % 16) ∷ hex bs

-- `commands`, by its primary key.
abbrev pub is_receipt : GoString → GoString → CommandRow → Bool
is_receipt actor id r = str_eq r.actor_id actor && str_eq r.command_id id

-- `storedResult`.
unfoldable pub stored_result : GoString → GoString → GoString → Db → Tx (Option Stored)
unfolding find
stored_result actor id hash db = elim (find (is_receipt actor id) db.commands) [
  | none ↦ ok none
  | some r ↦ require (str_eq r.request_hash hash) command_conflict >>= λ _. ok (some r.result)
]

-- `insertResult`.
unfoldable pub insert_result : GoString → GoString → GoString → GoString → Stored → Db → Tx Db
unfolding insert any
insert_result actor id hash board_id result db = do
  refuse (any (is_receipt actor id) db.commands) constraint
  ok (record db {
    commands =
        db.commands
        ++ record {
          actor_id = actor;
          command_id = id;
          request_hash = hash;
          board_id = board_id;
          result = result;
        }
          ∷ [];
  })

module _ (k : Codec) where
  -- `requestHash`.
  unfoldable pub request_hash : Request → Tx GoString
  request_hash r = do encoded ← or_fail (k.marshal r) encoding; ok (k.sha256 encoded)

  -- `commandRequestHash`.
  unfoldable pub command_request_hash : GoString → Command → Time → Option Binding → Tx GoString
  unfolding request_hash
  command_request_hash board_id c expires_at binding =
      request_hash (Request.command board_id c expires_at binding)
