-- ===== src/Store/Sweep.antt =====
-- `mutateLease` and `ExpireDueLeases` of internal/agoboardstore/store.go: leases that are renewed, and
-- leases whose deadline has passed.
pub mod Again
use ago.Store.Deadlines.{LeaseCommand, lease_command, still_due, nothing_done, Due, due_rows}
use ago.Prelude.{
  ℕ, Bool, true, false, ◌&&◌, ◌||◌, not, ◌==◌, Option, none, some, List, [], ◌∷◌, ◌++◌, find,
  is_empty, if◌then◌else◌, ltb,
}
use ago.Prelude.Ints.{ℤ, pos, ltb_int, eq_int}
use ago.Prelude.Outcome.{ok, err, panic, ◌>>=◌, ◌>>◌, refuse}
use ago.GoString.{GoString, codes, str_eq}
use ago.Clock.{Time, zero_time, is_zero, to_utc, add, unix_nano}
use ago.Protocol.States.{CommandType, ActorRole, FailureClass, role_eq, is_active}
use ago.Protocol.Records.{Actor, Board, Lease, Task}
use ago.Protocol.Commands.{Command}
use ago.Protocol.Retry.{schema_version, retry_delay}
use ago.Machine.Apply.{apply}
use ago.Store.Rows.{Db, Tx, Codec, Request, Stored, StoreError, LeaseRow}
use ago.Store.Receipts.{stored_result, insert_result, hex}
use ago.Store.Boards.{lift, board_query, update_board, append_events}
use ago.Store.Projection.{sync_projection}
use ago.Store.Commit.{Committed, zero_board}

module _ (k : Codec) where
  -- `hash, _ := requestHash(…)`: without a hash where there is no encoding.
  unfoldable pub lease_hash : LeaseCommand → Bool → GoString
  lease_hash c expire =
      elim (k.marshal (
        Request.lease c.id c.board_id c.lease_id c.actor expire c.fencing_token c.expires_at
          c.reason c.failure_class)) [ none ↦ [] | some encoded ↦ k.sha256 encoded ]

  -- `mutateLease`, once nothing stands against the command.
  unfoldable pub mutate_now : LeaseCommand → Bool → GoString → Board → Db → Tx Committed
  unfolding lease_command update_board append_events sync_projection insert_result
  mutate_now c expire hash b db = do
    w ← lift (apply b (lease_command c expire b))
    db1 ← update_board w.board db
    db2 ← append_events w.events db1
    db3 ← sync_projection w.board db2
    let result : Stored = record { board = w.board; events = w.events }
    db4 ← insert_result c.actor.id c.id hash w.board.id result db3
    ok (record { db = db4; result = result; fresh = true })

  -- `mutateLease`, for a command without a receipt on a board that was read. A sweep expects the row of
  -- the lease to be as it was; a loser of a race does nothing.
  unfoldable pub mutate_board :
      LeaseCommand → Bool → Option ℤ → GoString → Board → Db → Tx Committed
  unfolding still_due mutate_now
  mutate_board c expire none hash b db =
      if b.version == c.expected_version
      then mutate_now c expire hash b db
      else err StoreError.stale_version
  mutate_board c expire (some expiry) hash b db =
      if still_due c.board_id c.lease_id expiry db && b.version == c.expected_version
      then mutate_now c expire hash b db
      else ok (nothing_done db)

  unfoldable pub mutate_lease : LeaseCommand → Bool → Option ℤ → Db → Tx Committed
  unfolding lease_hash stored_result board_query mutate_board
  mutate_lease c expire expected db = do
    refuse
        (is_empty c.id
          || is_empty c.board_id
          || is_empty c.lease_id
          || is_empty c.actor.id
          || not (role_eq c.actor.role ActorRole.coordinator))
        StoreError.lease_command_invalid
    found ← stored_result c.actor.id c.id (lease_hash c expire) db
    elim found [
      | some result ↦ ok (record { db = db; result = result; fresh = false })
      | none ↦ board_query c.board_id db >>= λ b.
          mutate_board c expire expected (lease_hash c expire) b db
    ]

  -- `Store.RenewLease` and `Store.ExpireLease`.
  unfoldable pub renew_lease : LeaseCommand → Db → Tx Committed
  unfolding is_zero mutate_lease
  renew_lease c db = do
    refuse (is_zero c.expires_at) StoreError.expiry_required
    mutate_lease c false none db

  unfoldable pub expire_lease : LeaseCommand → Db → Tx Committed
  unfolding mutate_lease
  expire_lease c db = mutate_lease c true none db

  -- `expiryCommandID`.
  unfoldable pub expiry_command_id : Due → GoString
  unfolding hex
  expiry_command_id d =
      codes "expire:"
      ++ hex (
          k.sha256 (elim (k.marshal (Request.expiry d.board_id d.lease_id d.expiry)) [
            | none ↦ []
            | some encoded ↦ encoded
          ]))

  -- The command by which a sweep expires a lease.
  unfoldable pub expiry_command : Actor → Board → Due → LeaseCommand
  unfolding expiry_command_id
  expiry_command actor b d = record {
    id = expiry_command_id d;
    expected_version = b.version;
    actor = actor;
    board_id = d.board_id;
    lease_id = d.lease_id;
    expires_at = zero_time;
    reason = codes "lease deadline elapsed";
    failure_class = FailureClass.transient;
    next_eligible_at = zero_time;
    fencing_token = [];
  }

  -- One round of the loop over the due leases.
  unfoldable pub expire_due : Actor → Due → Db → Tx Committed
  unfolding board_query expiry_command mutate_lease
  expire_due actor d db = do
    b ← board_query d.board_id db
    mutate_lease (expiry_command actor b d) true (some d.expiry) db

  -- The loop. Each round is a transaction of its own, so what was committed stays when a later round
  -- fails.
  unfoldable pub expire_each : Actor → List Due → Db → Db × Tx (List Stored)
  unfolding expire_due
  expire_each actor [] db = (db, ok [])
  expire_each actor (d ∷ ds) db = elim (expire_due actor d db) [
    | err e ↦ (db, err e)
    | panic ↦ (db, panic)
    | ok c ↦
        let (last, rest) = expire_each actor ds c.db in
        (last, rest >>= λ results. ok (if c.fresh then c.result ∷ results else results))
  ]

  -- `ExpireDueLeases`.
  unfoldable pub expire_due_leases : Time → Actor → Db → Db × Tx (List Stored)
  unfolding due_rows expire_each unix_nano
  expire_due_leases now actor db = expire_each actor (due_rows (unix_nano now) db.leases) db
