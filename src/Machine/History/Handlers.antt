-- ===== src/Machine/History/Handlers.antt =====
-- Every handler of `Apply` keeps the history of the board.
use ago.Prelude.{ℕ, List, ◌≡◌, Bool, true, false, arith, is_empty}
use ago.Prelude.Outcome.{Outcome, ok, Ensures, ok_of_Ensures}
use ago.GoString.{GoString}
use ago.Clock.{Time}
use ago.Protocol.Errors.{Error}
use ago.Protocol.States.{CommandType, TaskState, AttemptState, FailureClass}
use ago.Protocol.Records.{Board}
use ago.Protocol.Commands.{Command, PatchStep}
use ago.Machine.Work.{Work}
use ago.Machine.Graph.{
  board_create, task_add, dependency_add, task_activate, restarted, task_retry, set_paused,
}
use ago.Machine.Leases.{lease_acquire, lease_expire, lease_renew}
use ago.Machine.Execution.{attempt_start, evidence_submit, attempt_fail}
use ago.Machine.Review.{evidence_accept, evidence_reject, verification_deferred}
use ago.Machine.Integration.{GateOutcome, integration_complete, integration_fail, gate_result}
use ago.Machine.Patch.{plan_patch, apply_patch_steps}
use ago.Machine.Attempts.{record_attempt_failure, transition_attempt}
use ago.Machine.Apply.{apply, dispatch, opened}
use ago.Machine.Apply.Parts.{apply-Applied}
use ago.Machine.History.{Keeps, Keeps-same, keeps_rules}
use ago.Machine.History.Steps.{
  add_task-Keeps, add_evidence-Keeps, complete_lease-Keeps, deferred_board-Keeps,
  accepted_board-Keeps, integrated_board-Keeps, apply_patch_steps-Keeps,
}
use ago.Machine.History.Attempts.{
  Keeps-if_work, unblock_ready_tasks-Keeps, record_attempt_failure-Keeps, transition_attempt-Keeps,
  claimed-Keeps,
}

failure :
    (b c : Board) (ti ai li : ℕ) (k : FailureClass) (r : GoString) (n : Time)
    → record_attempt_failure b ti ai li k r n ≡ ok c
    → Keeps b c
failure b c ti ai li k r n =
    ok_of_Ensures (Keeps b) _ (record_attempt_failure-Keeps b ti ai li k r n)

moved :
    (b d : Board) (c : Command) (t u : TaskState) (a e : AttemptState)
    → transition_attempt b c t u a e ≡ ok d
    → Keeps b d
moved b d c t u a e = ok_of_Ensures (Keeps b) _ (transition_attempt-Keeps b c t u a e)

patched :
    (p : GoString) (ss : List PatchStep) (b c : Board) → apply_patch_steps p ss b ≡ ok c → Keeps b c
patched p ss b c = ok_of_Ensures (Keeps b) _ (apply_patch_steps-Keeps p ss b)

module _ (c : Command) (w : Work) where
  abbrev Preserved : Outcome Error Work → Type 0
  Preserved = Ensures (λ v. Keeps w.board v.board)

  task_add-Keeps : Preserved (task_add c w)
  unfolding task_add
  task_add-Keeps = search (keeps_rules, add_task-Keeps) depth 25

  dependency_add-Keeps : Preserved (dependency_add c w)
  unfolding dependency_add
  dependency_add-Keeps = search (keeps_rules, Keeps-same) depth 25

  task_activate-Keeps : Preserved (task_activate c w)
  unfolding task_activate
  task_activate-Keeps = search keeps_rules depth 25

  task_retry-Keeps : Preserved (task_retry c w)
  unfolding task_retry restarted
  task_retry-Keeps = search keeps_rules depth 25

  lease_acquire-Keeps : Preserved (lease_acquire c w)
  unfolding lease_acquire
  lease_acquire-Keeps = search (keeps_rules, claimed-Keeps) depth 25

  lease_expire-Keeps : Preserved (lease_expire c w)
  unfolding lease_expire
  lease_expire-Keeps = search (keeps_rules, failure) depth 25

  lease_renew-Keeps : Preserved (lease_renew c w)
  unfolding lease_renew
  lease_renew-Keeps = search keeps_rules depth 25

  attempt_start-Keeps : Preserved (attempt_start c w)
  unfolding attempt_start
  attempt_start-Keeps = search (keeps_rules, moved) depth 25

  evidence_submit-Keeps : Preserved (evidence_submit c w)
  unfolding evidence_submit
  evidence_submit-Keeps =
      search (keeps_rules, moved, add_evidence-Keeps, complete_lease-Keeps) depth 25

  attempt_fail-Keeps : Preserved (attempt_fail c w)
  unfolding attempt_fail
  attempt_fail-Keeps = search (keeps_rules, failure) depth 25

  evidence_accept-Keeps : Preserved (evidence_accept c w)
  unfolding evidence_accept
  evidence_accept-Keeps =
      search (keeps_rules, accepted_board-Keeps, unblock_ready_tasks-Keeps, Keeps-if_work) depth 25

  evidence_reject-Keeps : Preserved (evidence_reject c w)
  unfolding evidence_reject
  evidence_reject-Keeps = search (keeps_rules, failure) depth 25

  verification_deferred-Keeps : Preserved (verification_deferred c w)
  unfolding verification_deferred
  verification_deferred-Keeps = search (keeps_rules, deferred_board-Keeps) depth 25

  integration_complete-Keeps : Preserved (integration_complete c w)
  unfolding integration_complete
  integration_complete-Keeps =
      search (keeps_rules, integrated_board-Keeps, unblock_ready_tasks-Keeps) depth 25

  integration_fail-Keeps : Preserved (integration_fail c w)
  unfolding integration_fail
  integration_fail-Keeps = search keeps_rules depth 25

  plan_patch-Keeps : Preserved (plan_patch c w)
  unfolding plan_patch
  plan_patch-Keeps = search (keeps_rules, patched, unblock_ready_tasks-Keeps) depth 25

  set_paused-Keeps : (p : Bool) → Preserved (set_paused p c w)
  unfolding set_paused
  set_paused-Keeps p = search (keeps_rules, Keeps-same) depth 15

  gate_result-Keeps : (o : GateOutcome) → Preserved (gate_result o c w)
  unfolding gate_result
  gate_result-Keeps o = search (keeps_rules, Keeps-same) depth 15

  board_create-refused : is_empty w.board.id ≡ false → Preserved (board_create c w)
  unfolding board_create
  board_create-refused h = ground arith

  dispatch-Keeps : (t : CommandType) → is_empty w.board.id ≡ false → Preserved (dispatch t c w)
  unfolding dispatch
  dispatch-Keeps CommandType.board_create h = board_create-refused h
  dispatch-Keeps CommandType.task_add h = task_add-Keeps
  dispatch-Keeps CommandType.dependency_add h = dependency_add-Keeps
  dispatch-Keeps CommandType.task_activate h = task_activate-Keeps
  dispatch-Keeps CommandType.lease_acquire h = lease_acquire-Keeps
  dispatch-Keeps CommandType.attempt_start h = attempt_start-Keeps
  dispatch-Keeps CommandType.evidence_submit h = evidence_submit-Keeps
  dispatch-Keeps CommandType.evidence_accept h = evidence_accept-Keeps
  dispatch-Keeps CommandType.evidence_reject h = evidence_reject-Keeps
  dispatch-Keeps CommandType.attempt_fail h = attempt_fail-Keeps
  dispatch-Keeps CommandType.lease_expire h = lease_expire-Keeps
  dispatch-Keeps CommandType.lease_renew h = lease_renew-Keeps
  dispatch-Keeps CommandType.task_retry h = task_retry-Keeps
  dispatch-Keeps CommandType.plan_patch h = plan_patch-Keeps
  dispatch-Keeps CommandType.verification_deferred h = verification_deferred-Keeps
  dispatch-Keeps CommandType.integration_complete h = integration_complete-Keeps
  dispatch-Keeps CommandType.integration_fail h = integration_fail-Keeps
  dispatch-Keeps CommandType.board_pause h = set_paused-Keeps true
  dispatch-Keeps CommandType.board_resume h = set_paused-Keeps false
  dispatch-Keeps CommandType.gate_pass h = gate_result-Keeps GateOutcome.pass
  dispatch-Keeps CommandType.gate_fail h = gate_result-Keeps GateOutcome.fail
  dispatch-Keeps CommandType.gate_unavailable h = gate_result-Keeps GateOutcome.unavailable
  dispatch-Keeps (CommandType.unknown t) h = tt

-- A command that succeeds on an initialized board keeps the id and the base revision, keeps every
-- task, attempt, lease and evidence record in its place with its identity, lets new records only
-- follow the old ones, and leaves no task above three attempts if none was above before.
pub apply-Keeps :
    (b : Board) (c : Command) {w : Work}
    → is_empty b.id ≡ false
    → apply b c ≡ ok w
    → Keeps b w.board
apply-Keeps b c {w} h e =
    ok_of_Ensures (λ v. Keeps b v.board) _ (dispatch-Keeps c (opened b) c.type h)
      (apply-Applied b c e).handled
