-- ===== src/Machine/Execution.antt =====
-- The cases attempt.start, evidence.submit and attempt.fail of `Apply` in
-- internal/agoboardprotocol/state_machine.go: what the worker of an attempt reports.
use ago.Prelude.{◌&&◌, ◌||◌, none, some, [], ◌∷◌, ◌++◌, any, modify, is_empty, get_elem?}
use ago.Prelude.Ints.{pos}
use ago.Prelude.Outcome.{ok, ◌>>=◌, ◌>>◌, refuse, require, or_fail, or_panic}
use ago.GoString.{GoString, str_eq}
use ago.Protocol.Errors
use ago.Protocol.Errors.{Checked}
use ago.Protocol.States.{
  TaskState, AttemptState, LeaseState, EvidenceState, ActorRole, EventType, state_eq, is_active,
  is_no_failure,
}
use ago.Protocol.Records.{Board, Evidence, EvidenceResult}
use ago.Protocol.Commands.{Command, EvidenceSpec, event}
use ago.Protocol.Rules.{validate_evidence_result}
use ago.Machine.Work.{
  Work, emit, require_role, find_task, find_attempt, find_lease, task_for, task_and_attempt,
  set_attempt, set_lease,
}
use ago.Machine.Attempts.{require_fencing_token, transition_attempt, record_attempt_failure}

unfoldable pub attempt_start : Command → Work → Checked Work
unfolding require_role require_fencing_token transition_attempt task_and_attempt emit
attempt_start c w = do
  require_role c ActorRole.worker
  require_fencing_token w.board c
  next ←
      transition_attempt w.board c TaskState.leased TaskState.running AttemptState.leased
        AttemptState.running
  let (task, attempt) = task_and_attempt next c.task_id c.attempt_id
  ok (
      emit c
        (record (event EventType.attempt_state_changed) {
          task = some task;
          attempt = some attempt;
          previous_state = TaskState.leased;
          current_state = TaskState.running;
        })
        (record w { board = next }))

-- The result that is stored: with the generation of the attempt, if that is found.
unfoldable pub stored_result : Board → GoString → EvidenceResult → EvidenceResult
unfolding find_attempt
stored_result b attempt_id r = elim (find_attempt b attempt_id) [
  | none ↦ r
  | some (i, a) ↦ record r { generation = a.generation }
]

-- The evidence that evidence.submit appends.
unfoldable pub new_evidence : Command → EvidenceSpec → EvidenceResult → Evidence
new_evidence c s result = record {
  id = s.id;
  task_id = c.task_id;
  attempt_id = c.attempt_id;
  worker_id = c.actor.id;
  artifact = s.artifact;
  summary = s.summary;
  state = EvidenceState.submitted;
  result = result;
  verdict = [];
  verdict_reason = [];
  verification_attempts = pos 0;
}

-- The lease of the task is completed, if it is found.
unfoldable pub complete_lease : GoString → Board → Board
unfolding find_lease task_for modify
complete_lease task_id b = elim (find_lease b (task_for b task_id).active_lease_id) [
  | none ↦ b
  | some (i, l) ↦ set_lease i (λ k. record k { state = LeaseState.completed }) b
]

unfoldable pub evidence_submit : Command → Work → Checked Work
unfolding require_role require_fencing_token transition_attempt any validate_evidence_result
    stored_result new_evidence complete_lease find_attempt task_and_attempt modify emit
evidence_submit c w = do
  require_role c ActorRole.worker
  require_fencing_token w.board c
  s ← or_fail c.evidence Errors.spec_required
  refuse (is_empty s.id || is_empty s.artifact || is_empty s.summary) Errors.spec_required
  require (str_eq s.task_id c.task_id && str_eq s.attempt_id c.attempt_id) Errors.evidence_mismatch
  moved ←
      transition_attempt w.board c TaskState.running TaskState.verifying AttemptState.running
        AttemptState.verifying
  refuse (any (λ e. str_eq e.id s.id) moved.evidence) Errors.duplicate_evidence
  validate_evidence_result s.result
  let added : Evidence = new_evidence c s (stored_result moved c.attempt_id s.result)
  let completed : Board =
      complete_lease c.task_id (record moved { evidence = moved.evidence ++ added ∷ [] })
  (ai, old) ← or_panic (find_attempt completed c.attempt_id)
  let next : Board = set_attempt ai (λ a. record a { evidence_id = s.id }) completed
  let (task, attempt) = task_and_attempt next c.task_id c.attempt_id
  ok (
      emit c
        (record (event EventType.evidence_submitted) {
          task = some task;
          attempt = some attempt;
          evidence = some added;
          previous_state = TaskState.running;
          current_state = TaskState.verifying;
        })
        (record w { board = next }))

unfoldable pub attempt_fail : Command → Work → Checked Work
unfolding require_role require_fencing_token find_task find_attempt find_lease
    record_attempt_failure emit
attempt_fail c w = do
  require_role c ActorRole.worker
  require_fencing_token w.board c
  (ti, task) ← or_fail (find_task w.board c.task_id) Errors.illegal_transition
  require (state_eq task.state TaskState.leased || state_eq task.state TaskState.running)
      Errors.illegal_transition
  (ai, attempt) ← or_fail (find_attempt w.board c.attempt_id) Errors.not_owner
  require (str_eq attempt.worker_id c.actor.id && str_eq task.active_attempt_id attempt.id)
      Errors.not_owner
  (li, lease) ← or_fail (find_lease w.board task.active_lease_id) Errors.not_owner
  require (is_active lease.state && str_eq lease.worker_id c.actor.id) Errors.not_owner
  refuse (is_no_failure c.failure_class) Errors.failure_class_required
  next ← record_attempt_failure w.board ti ai li c.failure_class c.reason c.next_eligible_at
  task' ← or_panic (get_elem? next.tasks ti)
  attempt' ← or_panic (get_elem? next.attempts ai)
  lease' ← or_panic (get_elem? next.leases li)
  ok (
      emit c
        (record (event EventType.attempt_state_changed) {
          task = some task';
          attempt = some attempt';
          lease = some lease';
          previous_state = task.state;
          current_state = task'.state;
          reason = c.reason;
        })
        (record w { board = next }))
