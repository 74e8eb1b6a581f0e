-- ===== src/Machine/Attempts.antt =====
-- The parts of internal/agoboardprotocol/state_machine.go that authenticate an executor and move an
-- attempt: `requireFencingToken`, `transitionAttempt` and `recordAttemptFailure`.
pub mod Policy
use ago.Prelude.{ℕ, Bool, ◌&&◌, ◌||◌, not, [], get_elem?, modify, is_empty, if◌then◌else◌}
use ago.Prelude.Ints.{ltb_int}
use ago.Prelude.Outcome.{ok, ◌>>=◌, ◌>>◌, refuse, require, or_fail, or_panic}
use ago.GoString.{GoString, str_eq}
use ago.Clock.{Time, zero_time, is_zero, to_utc}
use ago.Protocol.Errors
use ago.Protocol.Errors.{Checked}
use ago.Protocol.States.{
  TaskState, AttemptState, LeaseState, FailureClass, state_eq, attempt_eq, is_active, is_no_failure,
  retryable, valid_failure_class,
}
use ago.Protocol.Records.{Board, Task}
use ago.Protocol.Commands.{Command}
use ago.Protocol.Retry.{max_attempts}
use ago.Machine.Work.{find_task, find_attempt, find_lease, set_task, set_attempt, set_lease}

unfoldable pub require_fencing_token : Board → Command → Checked (Unit {0})
unfolding find_attempt
require_fencing_token b c = do
  refuse (is_empty c.attempt_id) Errors.attempt_id_required
  (i, a) ← or_fail (find_attempt b c.attempt_id) Errors.attempt_not_found
  refuse
      (is_empty a.fencing_token
        || is_empty c.fencing_token
        || not (str_eq a.fencing_token c.fencing_token))
      Errors.token_not_authorized

unfoldable pub transition_attempt :
    Board → Command → TaskState → TaskState → AttemptState → AttemptState → Checked Board
unfolding find_task find_attempt find_lease modify
transition_attempt b c from_task to_task from_attempt to_attempt = do
  (ti, task) ← or_fail (find_task b c.task_id) Errors.illegal_transition
  require (state_eq task.state from_task && str_eq task.active_attempt_id c.attempt_id)
      Errors.illegal_transition
  (ai, attempt) ← or_fail (find_attempt b c.attempt_id) Errors.not_owner
  require (attempt_eq attempt.state from_attempt && str_eq attempt.worker_id c.actor.id)
      Errors.not_owner
  (li, lease) ← or_fail (find_lease b task.active_lease_id) Errors.not_owner
  require (is_active lease.state && str_eq lease.worker_id c.actor.id) Errors.not_owner
  ok (
      set_attempt ai (λ a. record a { state = to_attempt })
        (set_task ti (λ t. record t { state = to_task }) b))

-- `class.Retryable() && task.AttemptCount < MaxAttempts`.
abbrev pub may_retry : FailureClass → Task → Bool
may_retry class t = retryable class && ltb_int t.attempt_count max_attempts

-- What `recordAttemptFailure` writes to the task.
unfoldable pub failed_task : FailureClass → GoString → Time → Task → Task
unfolding retryable
failed_task class reason next_eligible_at t =
    let cleared = record t { active_attempt_id = []; active_lease_id = [] } in
    if may_retry class t
    then record cleared {
      state = TaskState.retry_wait;
      next_eligible_at = to_utc next_eligible_at;
      failure_class = class;
      blocked_reason = reason;
    }
    else record cleared {
      state = TaskState.failed;
      next_eligible_at = zero_time;
      failure_class = if retryable class then FailureClass.exhausted else class;
      blocked_reason = reason;
    }

-- The three indices come from searches that succeeded.
unfoldable pub record_attempt_failure :
    Board → ℕ → ℕ → ℕ → FailureClass → GoString → Time → Checked Board
unfolding failed_task valid_failure_class retryable is_zero modify
record_attempt_failure b ti ai li class reason next_eligible_at = do
  refuse (not (valid_failure_class class) || is_no_failure class) Errors.invalid_failure_class
  task ← or_panic (get_elem? b.tasks ti)
  refuse (may_retry class task && is_zero next_eligible_at) Errors.time_required
  ok (
      set_task ti (failed_task class reason next_eligible_at) (
        set_lease li (λ l. record l { state = LeaseState.completed })
          (set_attempt ai
            (λ a. record a {
              state = AttemptState.failed;
              failure_class = class;
              failure_reason = reason;
            })
            b)))
