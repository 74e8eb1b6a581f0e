-- ===== src/Machine/Attempts/Policy.antt =====
-- The retry policy of `recordAttemptFailure`.
use ago.Prelude.{ℕ, ◌≡◌, refl, true, false, [], some, get_elem?, if◌then◌else◌, arith, ◌&&◌}
use ago.Prelude.Outcome.{ok}
use ago.Prelude.Updates.{get_elem?-modify}
use ago.GoString.{GoString}
use ago.Clock.{Time, is_zero}
use ago.Protocol.States.{TaskState, AttemptState, LeaseState, FailureClass, retryable}
use ago.Protocol.Records.{Board, Task, Attempt, Lease}
use ago.Prelude.Ints.{ltb_int}
use ago.Protocol.Retry.{max_attempts}
use ago.Machine.Attempts.{record_attempt_failure, failed_task}

-- What recording a failure of the class `class` has done with the task `t`.
pub record Recorded (c : Board) (ti ai li : ℕ) (class : FailureClass) (t : Task) : Type 0 where
  pub task : Task
  pub attempt : Attempt
  pub lease : Lease
  pub at_task : get_elem? c.tasks ti ≡ some task
  pub at_attempt : get_elem? c.attempts ai ≡ some attempt
  pub at_lease : get_elem? c.leases li ≡ some lease
  pub no_attempt : task.active_attempt_id ≡ []
  pub no_lease : task.active_lease_id ≡ []
  pub state : task.state ≡ (
      if retryable class && ltb_int t.attempt_count max_attempts
      then TaskState.retry_wait
      else TaskState.failed)
  pub failure : task.failure_class ≡ (
      if retryable class && ltb_int t.attempt_count max_attempts
      then class
      else if retryable class
      then FailureClass.exhausted
      else class)
  pub eligible :
      is_zero task.next_eligible_at
      ≡ (if retryable class && ltb_int t.attempt_count max_attempts then false else true)
  pub attempt_state : attempt.state ≡ AttemptState.failed
  pub attempt_failure : attempt.failure_class ≡ class
  pub lease_state : lease.state ≡ LeaseState.completed

-- Where a failure is recorded, at indices where the board has records, the task is stripped of its
-- attempt and lease. It waits for a retry, with its next eligible time set to an instant that is not
-- zero, if the class is retryable and fewer than three attempts were made; otherwise it fails, and a
-- retryable class is recorded as exhausted. The attempt fails with the class and the lease is completed.
pub record_attempt_failure_policy :
    (b : Board) (ti ai li : ℕ) (class : FailureClass) (reason : GoString) (at : Time) {c : Board}
    {t : Task} {a : Attempt} {l : Lease}
    → get_elem? b.tasks ti ≡ some t
    → get_elem? b.attempts ai ≡ some a
    → get_elem? b.leases li ≡ some l
    → record_attempt_failure b ti ai li class reason at ≡ ok c
    → Recorded c ti ai li class t
unfolding record_attempt_failure failed_task
record_attempt_failure_policy b ti ai li class reason at {t = t} {a = a} {l = l} ht ha hl h =
    record {
      task = failed_task class reason at t;
      attempt = record a {
        state = AttemptState.failed;
        failure_class = class;
        failure_reason = reason;
      };
      lease = record l { state = LeaseState.completed };
      at_task = ground (arith, get_elem?-modify b.tasks ti (failed_task class reason at) ht);
      at_attempt = ground (
        arith,
        get_elem?-modify b.attempts ai
            (λ x. record x {
              state = AttemptState.failed;
              failure_class = class;
              failure_reason = reason;
            })
            ha,
      );
      at_lease =
          ground (
            arith,
            get_elem?-modify b.leases li (λ x. record x { state = LeaseState.completed }) hl,
          );
      no_attempt = ground arith;
      no_lease = ground arith;
      state = ground arith;
      failure = ground arith;
      eligible = ground arith;
      attempt_state = refl;
      attempt_failure = refl;
      lease_state = refl;
    }
