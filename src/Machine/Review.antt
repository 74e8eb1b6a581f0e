-- ===== src/Machine/Review.antt =====
-- The cases evidence.accept, evidence.reject and verification.deferred of `Apply` in
-- internal/agoboardprotocol/state_machine.go: what the verifier of an attempt decides.
pub mod Independence
use ago.Prelude.{ℕ, ◌&&◌, some, modify, is_empty, if◌then◌else◌, get_elem?, is_nil}
use ago.Prelude.Ints.{ℤ, inc_int, ltb_int}
use ago.Prelude.Outcome.{ok, ◌>>=◌, ◌>>◌, refuse, require, or_fail, or_panic}
use ago.GoString.{codes, str_eq}
use ago.Protocol.Errors
use ago.Protocol.Errors.{Checked}
use ago.Protocol.States.{
  TaskState, AttemptState, LeaseState, EvidenceState, ActorRole, FailureClass, EventType, state_eq,
  attempt_eq, is_submitted, is_no_failure,
}
use ago.Protocol.Records.{Board, Task, Attempt, Evidence}
use ago.Protocol.Commands.{Command, event}
use ago.Protocol.Retry.{max_verification_attempts}
use ago.Protocol.Rules.{failed_required_tests}
use ago.Machine.Work.{
  Work, emit, require_role, find_task, find_attempt, find_lease, find_evidence, set_task,
  set_attempt, set_lease, set_evidence, unblock_ready_tasks,
}
use ago.Machine.Attempts.{require_fencing_token, record_attempt_failure}

-- What both decisions look up before they act.
pub record Target : Type 0 where
  pub task_index : ℕ
  pub attempt_index : ℕ
  pub evidence_index : ℕ
  pub lease_index : ℕ
  pub task : Task
  pub attempt : Attempt
  pub evidence : Evidence

-- The common part of evidence.accept and evidence.reject.
unfoldable pub find_target : Command → Board → Checked Target
unfolding require_role require_fencing_token find_task find_attempt find_lease find_evidence
find_target c b = do
  require_role c ActorRole.verifier
  require_fencing_token b c
  s ← or_fail c.evidence Errors.spec_required
  refuse (is_empty s.id) Errors.spec_required
  (ti, task) ← or_fail (find_task b c.task_id) Errors.illegal_transition
  require (state_eq task.state TaskState.verifying && str_eq task.active_attempt_id c.attempt_id)
      Errors.illegal_transition
  (ai, attempt) ← or_fail (find_attempt b c.attempt_id) Errors.attempt_not_verifying
  require (attempt_eq attempt.state AttemptState.verifying && str_eq attempt.evidence_id s.id)
      Errors.attempt_not_verifying
  refuse (str_eq c.actor.id attempt.worker_id) Errors.reviewer_not_independent
  (ei, evidence) ← or_fail (find_evidence b s.id) Errors.evidence_not_submitted
  require (is_submitted evidence.state) Errors.evidence_not_submitted
  (li, lease) ← or_fail (find_lease b task.active_lease_id) Errors.lease_not_found
  ok (record {
    task_index = ti;
    attempt_index = ai;
    evidence_index = ei;
    lease_index = li;
    task = task;
    attempt = attempt;
    evidence = evidence;
  })

-- `settled`: a change waits for its integration.
unfoldable pub settled_state : Evidence → TaskState
settled_state e = if is_nil e.result.patch then TaskState.passed else TaskState.integrating

-- The board after evidence.accept, before tasks are unblocked.
unfoldable pub accepted_board : Command → Target → Board → Board
unfolding settled_state modify
accepted_board c g b =
    set_task g.task_index
      (λ t. record t { accepted_evidence_id = g.evidence.id; state = settled_state g.evidence })
      (set_lease g.lease_index (λ l. record l { state = LeaseState.completed })
        (set_evidence g.evidence_index
          (λ e. record e {
            verdict = codes "accept";
            verdict_reason = c.reason;
            state = EvidenceState.accepted;
          })
          (set_attempt g.attempt_index (λ a. record a { state = AttemptState.passed }) b)))

unfoldable pub evidence_accept : Command → Work → Checked Work
unfolding find_target failed_required_tests accepted_board unblock_ready_tasks emit
evidence_accept c w = do
  g ← find_target c w.board
  require (is_empty (failed_required_tests g.evidence.result)) Errors.required_tests_failed
  let next : Board = accepted_board c g w.board
  task' ← or_panic (get_elem? next.tasks g.task_index)
  attempt' ← or_panic (get_elem? next.attempts g.attempt_index)
  evidence' ← or_panic (get_elem? next.evidence g.evidence_index)
  lease' ← or_panic (get_elem? next.leases g.lease_index)
  let done : Work =
      emit c
        (record (event EventType.evidence_accepted) {
          task = some task';
          attempt = some attempt';
          evidence = some evidence';
          lease = some lease';
          previous_state = TaskState.verifying;
          current_state = settled_state g.evidence;
          reason = c.reason;
        })
        (record w { board = next })
  ok (
      if state_eq (settled_state g.evidence) TaskState.passed
      then unblock_ready_tasks c done
      else done)

unfoldable pub evidence_reject : Command → Work → Checked Work
unfolding find_target record_attempt_failure modify emit
evidence_reject c w = do
  g ← find_target c w.board
  let class : FailureClass =
      if is_no_failure c.failure_class then FailureClass.verifier_feedback else c.failure_class
  failed ←
      record_attempt_failure w.board g.task_index g.attempt_index g.lease_index class c.reason
        c.next_eligible_at
  let next : Board =
      set_evidence g.evidence_index
        (λ e. record e {
          state = EvidenceState.rejected;
          verdict = codes "reject";
          verdict_reason = c.reason;
        })
        failed
  task' ← or_panic (get_elem? next.tasks g.task_index)
  attempt' ← or_panic (get_elem? next.attempts g.attempt_index)
  evidence' ← or_panic (get_elem? next.evidence g.evidence_index)
  lease' ← or_panic (get_elem? next.leases g.lease_index)
  ok (
      emit c
        (record (event EventType.evidence_rejected) {
          task = some task';
          attempt = some attempt';
          evidence = some evidence';
          lease = some lease';
          previous_state = TaskState.verifying;
          current_state = task'.state;
          reason = c.reason;
        })
        (record w { board = next }))

-- The board after verification.deferred, where the evidence counted `n` attempts before.
unfoldable pub deferred_board : Command → ℕ → ℕ → ℤ → Board → Board
unfolding modify
deferred_board c ei ti n b =
    let counted = set_evidence ei (λ e. record e { verification_attempts = inc_int n }) b in
    if ltb_int max_verification_attempts (inc_int n)
    then set_task ti
        (λ t. record t { blocked_reason = c.reason; failure_class = FailureClass.needs_input })
        counted
    else counted

unfoldable pub verification_deferred : Command → Work → Checked Work
unfolding require_role find_evidence find_task deferred_board emit
verification_deferred c w = do
  require_role c ActorRole.coordinator
  s ← or_fail c.evidence Errors.spec_required
  refuse (is_empty s.id) Errors.spec_required
  (ei, evidence) ← or_fail (find_evidence w.board s.id) Errors.evidence_not_submitted
  require (is_submitted evidence.state) Errors.evidence_not_submitted
  (ti, task) ← or_fail (find_task w.board evidence.task_id) Errors.illegal_transition
  require (state_eq task.state TaskState.verifying) Errors.illegal_transition
  let next : Board = deferred_board c ei ti evidence.verification_attempts w.board
  task' ← or_panic (get_elem? next.tasks ti)
  evidence' ← or_panic (get_elem? next.evidence ei)
  ok (
      emit c
        (record (event EventType.verification_deferred) {
          task = some task';
          evidence = some evidence';
          reason = c.reason;
        })
        (record w { board = next }))
