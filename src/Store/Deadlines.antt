-- ===== src/Store/Deadlines.antt =====
-- internal/agoboardstore/store.go: the commands on one lease, the retry deadlines, the leases that are due.
use ago.Prelude.{
  ℕ, Bool, true, false, ◌&&◌, not, Option, none, some, List, [], ◌∷◌, find, if◌then◌else◌, ltb,
}
use ago.Prelude.Ints.{ℤ, pos, ltb_int, eq_int}
use ago.GoString.{GoString, str_eq}
use ago.Clock.{Time, zero_time, is_zero, to_utc, add}
use ago.Protocol.States.{CommandType, FailureClass, is_active}
use ago.Protocol.Records.{Actor, Board, Lease, Task}
use ago.Protocol.Commands.{Command}
use ago.Protocol.Retry.{schema_version, retry_delay}
use ago.Store.Rows.{Db, Stored, LeaseRow}
use ago.Store.Commit.{Committed, zero_board}

pub record LeaseCommand : Type 0 where
  pub id : GoString
  pub expected_version : ℕ
  pub actor : Actor
  pub board_id : GoString
  pub lease_id : GoString
  pub expires_at : Time
  pub reason : GoString
  pub failure_class : FailureClass
  pub next_eligible_at : Time
  pub fencing_token : GoString

-- `Result{}`.
abbrev pub no_result : Stored
no_result = record { board = zero_board; events = [] }

-- `durableRetryDeadline`: the loop over the tasks for one lease, then the loop over the leases.
unfoldable pub deadline_for : Lease → List Task → Option Time
unfolding is_zero retry_delay
deadline_for l [] = none
deadline_for l (t ∷ ts) =
    if str_eq t.id l.task_id
    then some (
        add (to_utc (if is_zero l.expires_at then l.acquired_at else l.expires_at))
          (retry_delay t.attempt_count))
    else deadline_for l ts

unfoldable pub deadline_from : GoString → List Task → List Lease → Time
unfolding deadline_for
deadline_from id ts [] = zero_time
deadline_from id ts (l ∷ ls) =
    let rest = deadline_from id ts ls in
    if str_eq l.id id then elim (deadline_for l ts) [ none ↦ rest | some at ↦ at ] else rest

unfoldable pub durable_retry_deadline : Board → GoString → Time
unfolding deadline_from
durable_retry_deadline b id = deadline_from id b.tasks b.leases

-- The command that `mutateLease` hands to the state machine.
unfoldable pub lease_command : LeaseCommand → Bool → Board → Command
unfolding durable_retry_deadline
lease_command c expire b = record {
  schema_version = schema_version;
  id = c.id;
  expected_version = b.version;
  actor = c.actor;
  type = if expire then CommandType.lease_expire else CommandType.lease_renew;
  board = none;
  task = none;
  dependency = none;
  lease = some (record {
    id = c.lease_id;
    attempt_id = [];
    task_id = [];
    worker_id = [];
    fencing_token = c.fencing_token;
    acquired_at = zero_time;
    expires_at = c.expires_at;
  });
  task_id = [];
  attempt_id = [];
  evidence = none;
  patch = none;
  revision = [];
  gate = none;
  reason = c.reason;
  fencing_token = [];
  failure_class = c.failure_class;
  next_eligible_at = if expire then durable_retry_deadline b c.lease_id else c.next_eligible_at;
}

-- The row is as the sweep has seen it: active, with the deadline expected.
abbrev pub is_lease_row : GoString → GoString → LeaseRow → Bool
is_lease_row board_id lease_id r = str_eq r.board_id board_id && str_eq r.lease_id lease_id

unfoldable pub still_due : GoString → GoString → ℤ → Db → Bool
unfolding find
still_due board_id lease_id expiry db = elim (find (is_lease_row board_id lease_id) db.leases) [
  | none ↦ false
  | some r ↦ is_active r.state && eq_int r.expires_at expiry
]

abbrev pub nothing_done : Db → Committed
nothing_done db = record { db = db; result = no_result; fresh = false }

-- A due lease: the columns that the sweep selects.
pub record Due : Type 0 where
  pub board_id : GoString
  pub lease_id : GoString
  pub expiry : ℤ

-- `WHERE state='active' AND expires_at>0 AND expires_at<=?`.
abbrev pub is_due : ℤ → LeaseRow → Bool
is_due now r = is_active r.state && ltb_int (pos 0) r.expires_at && not (ltb_int now r.expires_at)

-- The order of two texts byte by byte, as SQLite compares them.
unfoldable pub text_before : GoString → GoString → Bool
text_before [] [] = false
text_before [] (d ∷ ds) = true
text_before (c ∷ cs) [] = false
text_before (c ∷ cs) (d ∷ ds) =
    let rest = text_before cs ds in if ltb c d then true else if ltb d c then false else rest

abbrev pub due_before : Due → Due → Bool
due_before a b =
    if str_eq a.board_id b.board_id
    then text_before a.lease_id b.lease_id
    else text_before a.board_id b.board_id

-- `ORDER BY board_id,lease_id`.
unfoldable pub place : Due → List Due → List Due
unfolding text_before
place d [] = d ∷ []
place d (e ∷ es) = if due_before e d then e ∷ place d es else d ∷ e ∷ es

unfoldable pub due_rows : ℤ → List LeaseRow → List Due
unfolding place
due_rows now [] = []
due_rows now (r ∷ rs) =
    if is_due now r
    then place (record { board_id = r.board_id; lease_id = r.lease_id; expiry = r.expires_at })
        (due_rows now rs)
    else due_rows now rs
