-- ===== src/Machine/Apply.antt =====
-- `Apply` of internal/agoboardprotocol/state_machine.go. On an error Go hands back the board that it
-- was given and no event; here the outcome is the error alone.
pub mod Parts
pub mod Valid
pub mod Wakeups
use ago.Prelude.{◌==◌, true, false, ◌||◌, [], is_empty, if◌then◌else◌}
use ago.Prelude.Ints.{eq_int}
use ago.Prelude.Outcome.{ok, err, ◌>>=◌, ◌>>◌, refuse, require}
use ago.Protocol.Errors
use ago.Protocol.Errors.{Checked}
use ago.Protocol.States.{CommandType}
use ago.Protocol.Records.{Board}
use ago.Protocol.Commands.{Command}
use ago.Protocol.Retry.{schema_version}
use ago.Protocol.Validate.{validate}
use ago.Machine.Work.{Work}
use ago.Machine.Graph.{
  board_create, task_add, dependency_add, task_activate, task_retry, set_paused,
}
use ago.Machine.Leases.{lease_acquire, lease_expire, lease_renew}
use ago.Machine.Execution.{attempt_start, evidence_submit, attempt_fail}
use ago.Machine.Review.{evidence_accept, evidence_reject, verification_deferred}
use ago.Machine.Integration.{GateOutcome, integration_complete, integration_fail, gate_result}
use ago.Machine.Patch.{plan_patch}

-- The `switch command.Type`.
unfoldable pub dispatch : CommandType → Command → Work → Checked Work
dispatch CommandType.board_create c w = board_create c w
dispatch CommandType.task_add c w = task_add c w
dispatch CommandType.dependency_add c w = dependency_add c w
dispatch CommandType.task_activate c w = task_activate c w
dispatch CommandType.lease_acquire c w = lease_acquire c w
dispatch CommandType.attempt_start c w = attempt_start c w
dispatch CommandType.evidence_submit c w = evidence_submit c w
dispatch CommandType.evidence_accept c w = evidence_accept c w
dispatch CommandType.evidence_reject c w = evidence_reject c w
dispatch CommandType.attempt_fail c w = attempt_fail c w
dispatch CommandType.lease_expire c w = lease_expire c w
dispatch CommandType.lease_renew c w = lease_renew c w
dispatch CommandType.task_retry c w = task_retry c w
dispatch CommandType.plan_patch c w = plan_patch c w
dispatch CommandType.verification_deferred c w = verification_deferred c w
dispatch CommandType.integration_complete c w = integration_complete c w
dispatch CommandType.integration_fail c w = integration_fail c w
dispatch CommandType.board_pause c w = set_paused true c w
dispatch CommandType.board_resume c w = set_paused false c w
dispatch CommandType.gate_pass c w = gate_result GateOutcome.pass c w
dispatch CommandType.gate_fail c w = gate_result GateOutcome.fail c w
dispatch CommandType.gate_unavailable c w = gate_result GateOutcome.unavailable c w
dispatch (CommandType.unknown t) c w = err Errors.unsupported_command

-- An initialized board must be valid before anything else happens.
unfoldable pub check_current : Board → Checked (Unit {0})
check_current b = if is_empty b.id then ok tt else validate b

-- `next := cloneBoard(current)` and no event yet.
abbrev pub opened : Board → Work
opened b = record { board = b; events = [] }

unfoldable pub apply : Board → Command → Checked Work
apply current c = do
  require (eq_int c.schema_version schema_version) Errors.command_schema
  refuse (is_empty c.id || is_empty c.actor.id) Errors.command_ids_required
  require (c.expected_version == current.version) Errors.version_conflict
  check_current current
  w ← dispatch c.type c (opened current)
  validate w.board
  ok w
