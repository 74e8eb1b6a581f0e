-- ===== src/Store/Picking.antt =====
-- internal/agoboardstore/claim.go: the task that a claim may take, and whether there is a slot for it.
use ago.Prelude.{
  ℕ, Bool, true, false, ◌&&◌, not, Option, none, some, List, [], ◌∷◌, any, select, is_empty, ◌⊎◌,
  inl, inr, if◌then◌else◌, length, ltb, ◌+◌,
}
use ago.Prelude.Ints.{ℤ, pos, ltb_int}
use ago.GoString.{GoString, str_eq}
use ago.Clock.{Time, before}
use ago.Protocol.States.{AccessMode, TaskState, is_active}
use ago.Protocol.Records.{Actor, Board, Task}
use ago.Protocol.Commands.{Event}
use ago.Protocol.Retry.{max_attempts}
use ago.Store.Rows.{Db, LeaseRow, SlotLimits}

-- A duration is a number of nanoseconds.
pub record ClaimRequest : Type 0 where
  pub board_id : GoString
  pub command_id : GoString
  pub actor : Actor
  pub worker_id : GoString
  pub now : Time
  pub lease_duration : ℤ
  pub limits : SlotLimits

pub data ClaimOutcome : Type 0 where
  acquired replayed no_work paused no_slot backed_off : ClaimOutcome

-- Why no work was taken; the numbers in the messages are left out.
pub data ClaimReason : Type 0 where
  no_reason honoured all_waiting no_ready_task global_limit board_limit : ClaimReason
  repository_busy writer_limit held_by_writer reader_limit : ClaimReason
  pause_reason : GoString → ClaimReason

pub record ClaimResult : Type 0 where
  pub outcome : ClaimOutcome
  pub board : Board
  pub events : List Event
  pub task_id : GoString
  pub attempt_id : GoString
  pub lease_id : GoString
  pub generation : ℕ
  pub fencing_token : GoString
  pub reason : ClaimReason

-- `ClaimResult{Outcome: …, Board: …, Reason: …}`.
abbrev pub declined : ClaimOutcome → Board → GoString → ClaimReason → ClaimResult
declined o b task_id reason = record {
  outcome = o;
  board = b;
  events = [];
  task_id = task_id;
  attempt_id = [];
  lease_id = [];
  generation = 0;
  fencing_token = [];
  reason = reason;
}

abbrev pub is_acquired : ClaimOutcome → Bool
is_acquired ClaimOutcome.acquired = true
is_acquired _ = false

-- `Dispatchable`.
unfoldable pub dispatchable : ClaimResult → Bool
dispatchable r = is_acquired r.outcome && not (is_empty r.attempt_id)

abbrev pub has_budget : Task → Bool
has_budget t = ltb_int t.attempt_count max_attempts

-- What one round of `eligibleTask` does with a task: it is taken, it is waited for, or it is passed by.
pub data Choice : Type 0 where
  takes waits passes : Choice

unfoldable pub choose : Time → Task → TaskState → Choice
choose now t TaskState.ready = if has_budget t then Choice.takes else Choice.passes
choose now t TaskState.retry_wait =
    if not (has_budget t)
    then Choice.passes
    else if not (before now t.next_eligible_at)
    then Choice.takes
    else Choice.waits
choose now t _ = Choice.passes

-- The loop of `eligibleTask`: the task taken, or the reason why there is none.
unfoldable pub eligible_from : Time → Bool → List Task → Task ⊎ ClaimReason
unfolding choose
eligible_from now waiting [] =
    inr (if waiting then ClaimReason.all_waiting else ClaimReason.no_ready_task)
eligible_from now waiting (t ∷ ts) = elim (choose now t t.state) [
  | Choice.takes ↦ inl t
  | Choice.waits ↦ eligible_from now true ts
  | Choice.passes ↦ eligible_from now waiting ts
]

unfoldable pub eligible_task : Board → Time → Task ⊎ ClaimReason
unfolding eligible_from
eligible_task b now = eligible_from now false b.tasks

abbrev pub is_waiting : TaskState → Bool
is_waiting TaskState.retry_wait = true
is_waiting _ = false

-- `backingOff`.
unfoldable pub backing_off : Board → Time → Bool
unfolding any
backing_off b now = any (λ t. is_waiting t.state && before now t.next_eligible_at) b.tasks

abbrev pub is_read : AccessMode → Bool
is_read AccessMode.read = true
is_read _ = false

abbrev pub is_write : AccessMode → Bool
is_write AccessMode.write = true
is_write _ = false

-- `SELECT count(*) FROM leases WHERE …`.
unfoldable pub count_rows : (LeaseRow → Bool) → Db → ℕ
unfolding select
count_rows test db = length (select test db.leases)

abbrev pub active_row : LeaseRow → Bool
active_row r = is_active r.state

abbrev pub active_on_board : GoString → LeaseRow → Bool
active_on_board id r = is_active r.state && str_eq r.board_id id

abbrev pub writes_to : GoString → LeaseRow → Bool
writes_to repository r =
    is_active r.state && str_eq r.repository_id repository && is_write r.access_mode

abbrev pub reads_from : GoString → LeaseRow → Bool
reads_from repository r =
    is_active r.state && str_eq r.repository_id repository && is_read r.access_mode

-- `limit > 0 && count >= limit`.
abbrev pub reached : ℤ → ℕ → Bool
reached limit n = ltb_int (pos 0) limit && not (ltb_int (pos n) limit)

-- `slotAvailable`: no reason is a free slot.
unfoldable pub slot_available : Board → Task → SlotLimits → Db → Option ClaimReason
unfolding count_rows
slot_available b t limits db =
    let writers = count_rows (writes_to b.repository) db in
    let readers = count_rows (reads_from b.repository) db in
    if reached limits.global_running (count_rows active_row db)
    then some ClaimReason.global_limit
    else if reached limits.board_running (count_rows (active_on_board b.id) db)
    then some ClaimReason.board_limit
    else if is_write t.access_mode
    then if ltb 0 (writers + readers)
      then some ClaimReason.repository_busy
      else if reached limits.repository_writers writers
      then some ClaimReason.writer_limit
      else none
    else if ltb 0 writers
    then some ClaimReason.held_by_writer
    else if reached limits.repository_readers readers
    then some ClaimReason.reader_limit
    else none
