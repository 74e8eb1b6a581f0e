-- ===== src/Samples/Witnesses.antt =====
-- The theorems at concrete boards and commands.
use Prim.Native.Nat.{min}
use ago.Prelude.{
  ◌*◌, ◌^◌, ◌≤◌, ◌<◌, ◌≡◌, ◌≢◌, refl, ◌↔◌, ◌⊎◌, inl, true, false, List, [], ◌∷◌, all, any, length,
  is_empty, arith,
}
use ago.Prelude.Ints.{pos, negsuc}
use ago.Prelude.Outcome.{ok, err}
use ago.GoString.{GoString, codes, str_eq, has_prefix, GoString-discrete}
use ago.Clock.{second}
use ago.Protocol.Errors.{cycle, Checked}
use ago.Protocol.States.{TaskState-discrete, CommandType, TaskState, FailureClass}
use ago.Protocol.Records.{zero_task, Board, Dependency, zero_attempt}
use ago.Protocol.Retry.{retry_delay, max_retry_delay}
use ago.Protocol.Retry.Bounds.{retry_delay-eq-min, retry_delay_bounds}
use ago.Protocol.Rules.{relative_repository_path, required_tests_passed}
use ago.Protocol.Rules.Paths.{dots, first, others, relative_repository_path_inside}
use ago.Protocol.Acyclic.{marked, validate_acyclic}
use ago.Protocol.Acyclic.Chains.{Chain}
use ago.Protocol.Acyclic.Search.{validate_acyclic_total, validate_acyclic_sound}
use ago.Protocol.Completion.{CompletionStatus, evaluate_completion}
use ago.Protocol.Completion.Counts.{settled, stopped, count}
use ago.Protocol.Completion.Verdicts.{gate_lets_finish, done_iff, status-failed}
use ago.Protocol.Commands.{Command}
use ago.Machine.Review.{Target}
use ago.Machine.Review.Independence.{Reviewed, accept_independent, reject_independent}
use ago.Machine.History.{Keeps}
use ago.Machine.History.Handlers.{apply-Keeps}
use ago.Protocol.Validate.WellFormed.{IsWellFormed}
use ago.Protocol.Validate.Sound.{validate-IsWellFormed}
use ago.Machine.Apply.Valid.{apply-IsWellFormed}
use ago.Machine.Leases.{new_lease}
use ago.Machine.Leases.Claims.{
  Claimed, clashes_attempt, clashes_lease, lease_acquire_adds, lease_acquire_fresh,
}
use ago.Machine.Attempts.{record_attempt_failure}
use ago.Machine.Attempts.Policy.{Recorded, record_attempt_failure_policy}
use ago.Machine.Work.Wakeups.{stuck}
use ago.Machine.Log.{Logged}
use ago.Machine.Log.Handlers.{apply-Logged}
use ago.Machine.Apply.Wakeups.{apply-wakeups}
use ago.Samples.{
  relax_succeeds, waiter, waiter-relaxed, review_valid, value_or, value_of_ok, apply-result,
  start_initialized, claim_succeeds, accept_succeeds, reject_succeeds, result, start, review,
}
use ago.Samples.Commands.{relax, claim_spec, day, claim, decide}

apply-Keeps_example : Keeps start (result start claim).board
apply-Keeps_example =
    apply-Keeps start claim start_initialized (apply-result start claim claim_succeeds)

abbrev accept : Command
accept = decide CommandType.evidence_accept

abbrev reject : Command
reject = decide CommandType.evidence_reject

accept_independent_example :
    (g : Target) × Reviewed review accept g × (required_tests_passed g.evidence.result ≡ true)
accept_independent_example =
    accept_independent review accept refl (apply-result review accept accept_succeeds)

reject_independent_example : (g : Target) × Reviewed review reject g
reject_independent_example =
    reject_independent review reject refl (apply-result review reject reject_succeeds)

edge : GoString → GoString → Dependency
edge a b = record { id = codes "d"; task_id = a; depends_on = b }

validate_acyclic_sound_example : ¬ Chain (edge (codes "u") (codes "t") ∷ []) (codes "u") (codes "u")
unfolding validate_acyclic marked edge GoString-discrete
validate_acyclic_sound_example =
    validate_acyclic_sound (codes "t" ∷ codes "u" ∷ []) (edge (codes "u") (codes "t") ∷ []) refl
      (codes "u") refl

abbrev loop : List Dependency
loop = edge (codes "u") (codes "t") ∷ edge (codes "t") (codes "u") ∷ []

validate_acyclic_total_example :
    (validate_acyclic (codes "t" ∷ []) loop ≡ ok tt)
    ⊎ ((validate_acyclic (codes "t" ∷ []) loop ≡ err cycle) × ((a : GoString) × Chain loop a a))
validate_acyclic_total_example = validate_acyclic_total (codes "t" ∷ []) loop

done_iff_example : ((evaluate_completion start).done ≡ true) ↔ (
    (0 < length start.tasks) × (all settled start.tasks ≡ true) × (gate_lets_finish start ≡ true))
done_iff_example = done_iff start

retry_delay-eq-min_example : retry_delay (pos 3) ≡ min (2 ^ 3 * (2 * second)) max_retry_delay
retry_delay-eq-min_example = retry_delay-eq-min (pos 3)

retry_delay_bounds_example :
    (retry_delay (negsuc 1) ≡ retry_delay (pos 0))
    × (2 * second ≤ retry_delay (pos 1))
    × (retry_delay (pos 1) ≤ retry_delay (pos 40))
    × (retry_delay (pos 40) ≤ 30 * second)
retry_delay_bounds_example = retry_delay_bounds 1 40 (omega arith)

relative_repository_path_inside_example :
    (is_empty (codes "a/..b") ≡ false)
    × (has_prefix (codes "a/..b") (codes "/") ≡ false)
    × (any (str_eq dots) (first (codes "a/..b") ∷ others (codes "a/..b")) ≡ false)
unfolding relative_repository_path
relative_repository_path_inside_example = relative_repository_path_inside (codes "a/..b") refl

-- The task of `review` has failed instead.
abbrev failed_board : Board
failed_board = record start { tasks = record zero_task { state = TaskState.failed } ∷ [] }

status-failed_example :
    ((evaluate_completion failed_board).status ≡ CompletionStatus.failed)
    × ((evaluate_completion failed_board).done ≡ false)
unfolding TaskState-discrete
status-failed_example = status-failed failed_board one_failed
  where
    one_failed : count stopped failed_board.tasks ≢ 0
    one_failed = omega arith

validate-IsWellFormed_example : IsWellFormed review
validate-IsWellFormed_example = validate-IsWellFormed review review_valid

apply-IsWellFormed_example : IsWellFormed (result start claim).board
apply-IsWellFormed_example =
    apply-IsWellFormed start claim (apply-result start claim claim_succeeds)

lease_acquire_adds_example : Claimed start claim_spec (result start claim)
lease_acquire_adds_example =
    lease_acquire_adds start claim claim_spec refl refl (apply-result start claim claim_succeeds)

lease_acquire_fresh_example :
    (any (clashes_attempt claim_spec) start.attempts ≡ false)
    × (any (clashes_lease claim_spec) start.leases ≡ false)
lease_acquire_fresh_example =
    lease_acquire_fresh start claim claim_spec refl refl (apply-result start claim claim_succeeds)

-- A task that runs, with its attempt and its lease.
abbrev running_board : Board
running_board = record start {
  tasks = record zero_task { state = TaskState.running } ∷ [];
  attempts = zero_attempt ∷ [];
  leases = new_lease claim_spec zero_task 1 ∷ [];
}

abbrev timed_out : Checked Board
timed_out = record_attempt_failure running_board 0 0 0 FailureClass.transient [] (day 3)

record_attempt_failure_policy_example :
    Recorded
      (value_or running_board timed_out)
      0
      0
      0
      FailureClass.transient
      (record zero_task { state = TaskState.running })
unfolding record_attempt_failure
record_attempt_failure_policy_example =
    record_attempt_failure_policy running_board 0 0 0 FailureClass.transient [] (day 3) refl refl
      refl (value_of_ok running_board timed_out refl)

apply-wakeups_example : stuck (result start relax).board waiter ≡ false
apply-wakeups_example =
    apply-wakeups start relax 1 waiter (inl refl) (apply-result start relax relax_succeeds)
      waiter-relaxed

apply-Logged_example : Logged relax start.version (result start relax)
apply-Logged_example =
    apply-Logged start relax start_initialized (apply-result start relax relax_succeeds)
