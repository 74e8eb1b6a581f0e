-- ===== src/Machine/Integration.antt =====
-- The cases integration.complete, integration.fail, gate.pass, gate.fail and gate.unavailable of
-- `Apply` in internal/agoboardprotocol/state_machine.go.
use ago.Prelude.{
  ℕ, Bool, true, false, ◌&&◌, not, some, [], modify, is_empty, if◌then◌else◌, get_elem?,
}
use ago.Prelude.Ints.{pos, inc_int}
use ago.Prelude.Outcome.{ok, ◌>>=◌, ◌>>◌, refuse, require, or_fail, or_panic}
use ago.GoString.{GoString, str_eq, trim_space}
use ago.Clock.{to_utc}
use ago.Protocol.Errors
use ago.Protocol.Errors.{Checked}
use ago.Protocol.States.{
  TaskState, ActorRole, FailureClass, GateState, EventType, state_eq, is_no_failure,
}
use ago.Protocol.Records.{Board, ProjectGate}
use ago.Protocol.Commands.{Command, GateSpec, event}
use ago.Protocol.Rules.{established}
use ago.Machine.Work.{
  Work, emit, require_role, require_initialized, find_task, set_task, unblock_ready_tasks,
}

-- The common part of both commands: the index of the task that is integrating.
unfoldable pub find_integrating : Command → Board → Checked ℕ
unfolding require_initialized require_role find_task
find_integrating c b = do
  require_initialized b
  require_role c ActorRole.coordinator
  (ti, task) ← or_fail (find_task b c.task_id) Errors.missing_task
  require (state_eq task.state TaskState.integrating) Errors.illegal_transition
  ok ti

unfoldable pub integration_fail : Command → Work → Checked Work
unfolding find_integrating modify emit
integration_fail c w = do
  ti ← find_integrating c w.board
  let class : FailureClass =
      if is_no_failure c.failure_class then FailureClass.repository else c.failure_class
  let next : Board =
      set_task ti
        (λ t. record t {
          state = TaskState.failed;
          failure_class = class;
          blocked_reason = c.reason;
          active_attempt_id = [];
          active_lease_id = [];
        })
        w.board
  task' ← or_panic (get_elem? next.tasks ti)
  ok (
      emit c
        (record (event EventType.integration_failed) {
          task = some task';
          previous_state = TaskState.integrating;
          current_state = TaskState.failed;
          reason = c.reason;
        })
        (record w { board = next }))

-- The board after integration.complete, before tasks are unblocked.
unfoldable pub integrated_board : Command → ℕ → Board → Board
unfolding modify
integrated_board c ti b = record b {
  tasks = modify b.tasks ti (λ t. record t {
    state = TaskState.passed;
    integrated_revision = c.revision;
    active_attempt_id = [];
    active_lease_id = [];
  });
  integrated_revision = c.revision;
}

unfoldable pub integration_complete : Command → Work → Checked Work
unfolding find_integrating integrated_board unblock_ready_tasks emit
integration_complete c w = do
  ti ← find_integrating c w.board
  refuse (is_empty c.revision) Errors.revision_required
  let next : Board = integrated_board c ti w.board
  task' ← or_panic (get_elem? next.tasks ti)
  ok (
      unblock_ready_tasks c (
        emit c
          (record (event EventType.integration_completed) {
            task = some task';
            previous_state = TaskState.integrating;
            current_state = TaskState.passed;
            reason = c.reason;
          })
          (record w { board = next })))

-- The three outcomes that a gate command records.
pub data GateOutcome : Type 0 where
  pass fail unavailable : GateOutcome

-- The board's gate after a result: the common fields, then those of the outcome.
unfoldable pub judged_gate : GateOutcome → GoString → GateSpec → ProjectGate → ProjectGate
judged_gate GateOutcome.unavailable revision s g = record g {
  revision = revision;
  summary = s.summary;
  ran_at = to_utc s.ran_at;
  unavailable = inc_int g.unavailable;
  last_error = s.summary;
}
judged_gate GateOutcome.pass revision s g = record g {
  revision = revision;
  summary = s.summary;
  ran_at = to_utc s.ran_at;
  state = GateState.passed;
  failure_output = [];
  failures = pos 0;
  unavailable = pos 0;
  last_error = [];
}
judged_gate GateOutcome.fail revision s g = record g {
  revision = revision;
  summary = s.summary;
  ran_at = to_utc s.ran_at;
  state = GateState.failed;
  failure_output = s.failure_output;
  failures = inc_int g.failures;
}

abbrev gate_event : GateOutcome → EventType
gate_event GateOutcome.unavailable = EventType.gate_unavailable
gate_event GateOutcome.pass = EventType.gate_passed
gate_event GateOutcome.fail = EventType.gate_failed

-- `command.Type == CommandGateUnavailable`.
abbrev is_unavailable : GateOutcome → Bool
is_unavailable GateOutcome.unavailable = true
is_unavailable _ = false

unfoldable pub gate_result : GateOutcome → Command → Work → Checked Work
unfolding require_initialized require_role established trim_space judged_gate emit
gate_result outcome c w = do
  require_initialized w.board
  require_role c ActorRole.coordinator
  require (established w.board.gate) Errors.no_gate
  s ← or_fail c.gate Errors.gate_summary_required
  refuse (is_empty (trim_space s.summary)) Errors.gate_summary_required
  let revision : GoString = trim_space c.revision
  refuse (is_empty revision) Errors.revision_required
  refuse (not (str_eq revision w.board.integrated_revision) && not (is_unavailable outcome))
      Errors.revision_not_integrated
  ok (
      emit c (record (event (gate_event outcome)) { reason = s.summary })
        (record w {
          board = record w.board { gate = judged_gate outcome revision s w.board.gate };
        }))
