-- ===== src/Machine/Leases.antt =====
-- The cases lease.acquire, lease.expire and lease.renew of `Apply` in
-- internal/agoboardprotocol/state_machine.go.
pub mod Claims
use ago.Prelude.{
  ℕ, ◌&&◌, ◌||◌, not, some, List, [], ◌∷◌, ◌++◌, modify, is_empty, if◌then◌else◌, get_elem?,
}
use ago.Prelude.Ints.{inc_int, inc_u64, ltb_int}
use ago.Prelude.Outcome.{ok, ◌>>=◌, ◌>>◌, refuse, require, or_fail, or_panic}
use ago.GoString.{str_eq}
use ago.Clock.{Time, zero_time, is_zero, before, after, to_utc}
use ago.Protocol.Errors
use ago.Protocol.Errors.{Checked}
use ago.Protocol.States.{
  TaskState, ActorRole, FailureClass, AttemptState, LeaseState, EventType, state_eq, is_active,
  is_no_failure,
}
use ago.Protocol.Records.{Board, Task, Attempt, Lease, zero_attempt}
use ago.Protocol.Commands.{Command, LeaseSpec, event}
use ago.Protocol.Retry.{max_attempts}
use ago.Machine.Work.{
  Work, emit, require_role, require_initialized, find_task, find_attempt, find_lease, set_lease,
}
use ago.Machine.Attempts.{record_attempt_failure}

-- `expiryUTC`.
unfoldable pub expiry_utc : Time → Time
unfolding is_zero
expiry_utc t = if is_zero t then zero_time else to_utc t

-- The two loops of lease.acquire: ids are new and the token was never issued.
unfoldable pub check_new_lease : LeaseSpec → List Lease → Checked (Unit {0})
check_new_lease s [] = ok tt
check_new_lease s (l ∷ ls) = do
  refuse (str_eq l.id s.id) Errors.duplicate_lease
  refuse (str_eq l.fencing_token s.fencing_token) Errors.token_already_issued
  check_new_lease s ls

unfoldable pub check_new_attempt : LeaseSpec → List Attempt → Checked (Unit {0})
check_new_attempt s [] = ok tt
check_new_attempt s (a ∷ as') = do
  refuse (str_eq a.id s.attempt_id) Errors.duplicate_attempt
  refuse (str_eq a.fencing_token s.fencing_token) Errors.token_already_issued
  check_new_attempt s as'

-- The attempt and the lease that lease.acquire makes, under the generation `g`.
unfoldable pub new_attempt : LeaseSpec → Task → ℕ → Attempt
new_attempt s task g = record zero_attempt {
  id = s.attempt_id;
  task_id = task.id;
  worker_id = s.worker_id;
  state = AttemptState.leased;
  number = inc_int task.attempt_count;
  generation = g;
  fencing_token = s.fencing_token;
}

unfoldable pub new_lease : LeaseSpec → Task → ℕ → Lease
unfolding expiry_utc
new_lease s task g = record {
  id = s.id;
  task_id = task.id;
  attempt_id = s.attempt_id;
  worker_id = s.worker_id;
  state = LeaseState.active;
  generation = g;
  fencing_token = s.fencing_token;
  acquired_at = to_utc s.acquired_at;
  expires_at = expiry_utc s.expires_at;
}

-- What lease.acquire writes to the task; `number` is the new attempt's number.
unfoldable pub leased_task : LeaseSpec → Task → Task → Task
leased_task s task t = record t {
  state = TaskState.leased;
  active_attempt_id = s.attempt_id;
  active_lease_id = s.id;
  attempt_count = inc_int task.attempt_count;
  next_eligible_at = zero_time;
  failure_class = FailureClass.no_failure;
  blocked_reason = [];
}

-- The guards of lease.acquire on the task that it found.
unfoldable pub check_claim : LeaseSpec → Task → Checked (Unit {0})
check_claim s task = do
  require (state_eq task.state TaskState.ready || state_eq task.state TaskState.retry_wait)
      Errors.illegal_transition
  refuse (state_eq task.state TaskState.retry_wait && before s.acquired_at task.next_eligible_at)
      Errors.not_eligible_yet
  require (ltb_int task.attempt_count max_attempts) Errors.attempts_exhausted

-- The guards of lease.acquire on the specification itself.
unfoldable pub check_lease_spec : LeaseSpec → Checked (Unit {0})
unfolding is_zero
check_lease_spec s = do
  refuse (is_empty s.id || is_empty s.attempt_id || is_empty s.task_id || is_empty s.worker_id)
      Errors.spec_required
  refuse (is_empty s.fencing_token || is_zero s.acquired_at) Errors.spec_required

-- The board after lease.acquire.
unfoldable pub claimed : LeaseSpec → ℕ → Task → Board → Board
unfolding new_attempt new_lease leased_task modify
claimed s i task b = record b {
  next_generation = inc_u64 b.next_generation;
  attempts = b.attempts ++ new_attempt s task b.next_generation ∷ [];
  leases = b.leases ++ new_lease s task b.next_generation ∷ [];
  tasks = modify b.tasks i (leased_task s task);
}

unfoldable pub lease_acquire : Command → Work → Checked Work
unfolding require_initialized require_role check_lease_spec find_task check_claim check_new_lease
    check_new_attempt claimed emit
lease_acquire c w = do
  require_initialized w.board
  require_role c ActorRole.coordinator
  s ← or_fail c.lease Errors.spec_required
  check_lease_spec s
  refuse w.board.paused Errors.board_is_paused
  (i, task) ← or_fail (find_task w.board s.task_id) Errors.missing_task
  check_claim s task
  check_new_lease s w.board.leases
  check_new_attempt s w.board.attempts
  let next : Board = claimed s i task w.board
  leased ← or_panic (get_elem? next.tasks i)
  ok (
      emit c
        (record (event EventType.lease_acquired) {
          task = some leased;
          attempt = some (new_attempt s task w.board.next_generation);
          lease = some (new_lease s task w.board.next_generation);
        })
        (record w { board = next }))

unfoldable pub lease_expire : Command → Work → Checked Work
unfolding require_role find_lease find_task find_attempt record_attempt_failure emit
lease_expire c w = do
  require_role c ActorRole.coordinator
  s ← or_fail c.lease Errors.spec_required
  refuse (is_empty s.id) Errors.spec_required
  (li, lease) ← or_fail (find_lease w.board s.id) Errors.lease_not_found
  require (is_active lease.state) Errors.lease_not_found
  (ti, task) ← or_fail (find_task w.board lease.task_id) Errors.missing_task
  (ai, attempt) ← or_fail (find_attempt w.board lease.attempt_id) Errors.attempt_not_found
  let class : FailureClass =
      if is_no_failure c.failure_class then FailureClass.transient else c.failure_class
  next ← record_attempt_failure w.board ti ai li class c.reason c.next_eligible_at
  task' ← or_panic (get_elem? next.tasks ti)
  attempt' ← or_panic (get_elem? next.attempts ai)
  lease' ← or_panic (get_elem? next.leases li)
  ok (
      emit c
        (record (event EventType.lease_expired) {
          task = some task';
          attempt = some attempt';
          lease = some lease';
          previous_state = task.state;
          current_state = task'.state;
          reason = c.reason;
        })
        (record w { board = next }))

-- The task and the attempt of the lease are read without a test that they were found.
unfoldable pub lease_renew : Command → Work → Checked Work
unfolding require_role is_zero find_lease find_task find_attempt modify emit
lease_renew c w = do
  require_role c ActorRole.coordinator
  s ← or_fail c.lease Errors.spec_required
  refuse (is_empty s.id || is_zero s.expires_at) Errors.spec_required
  (li, lease) ← or_fail (find_lease w.board s.id) Errors.lease_not_found
  require (is_active lease.state) Errors.lease_not_found
  refuse (is_empty lease.fencing_token || not (str_eq s.fencing_token lease.fencing_token))
      Errors.token_not_authorized
  refuse (not (after s.expires_at lease.expires_at) && not (is_zero lease.expires_at))
      Errors.deadline_not_extended
  let next : Board = set_lease li (λ l. record l { expires_at = to_utc s.expires_at }) w.board
  (ti, task) ← or_panic (find_task next lease.task_id)
  (ai, attempt) ← or_panic (find_attempt next lease.attempt_id)
  lease' ← or_panic (get_elem? next.leases li)
  ok (
      emit c
        (record (event EventType.lease_renewed) {
          task = some task;
          attempt = some attempt;
          lease = some lease';
          reason = c.reason;
        })
        (record w { board = next }))
