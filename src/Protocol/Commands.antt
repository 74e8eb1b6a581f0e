-- ===== src/Protocol/Commands.antt =====
-- The commands of internal/agoboardprotocol/protocol.go and the events that record them.
use ago.Prelude.{ℕ, Option, none, List, []}
use ago.Prelude.Ints.{ℤ, pos}
use ago.GoString.{GoString}
use ago.Clock.{Time, zero_time}
use ago.Protocol.States.{
  ActorRole, TaskState, AccessMode, FailureClass, CommandType, PatchOperation, EventType,
}
use ago.Protocol.Records.{
  Actor, TerminalContract, EvidenceResult, Task, Dependency, Attempt, Lease, Evidence,
}

pub record BoardSpec : Type 0 where
  pub id : GoString
  pub title : GoString
  pub repository : GoString
  pub base_revision : GoString
  pub integration_ref : GoString
  pub gate_commands : List GoString

pub record TaskSpec : Type 0 where
  pub id : GoString
  pub title : GoString
  pub terminal_contract : TerminalContract
  pub access_mode : AccessMode

pub record DependencySpec : Type 0 where
  pub id : GoString
  pub task_id : GoString
  pub depends_on : GoString

pub record LeaseSpec : Type 0 where
  pub id : GoString
  pub attempt_id : GoString
  pub task_id : GoString
  pub worker_id : GoString
  pub fencing_token : GoString
  pub acquired_at : Time
  pub expires_at : Time

pub record EvidenceSpec : Type 0 where
  pub id : GoString
  pub task_id : GoString
  pub attempt_id : GoString
  pub artifact : GoString
  pub summary : GoString
  pub result : EvidenceResult

pub record GateSpec : Type 0 where
  pub summary : GoString
  pub failure_output : GoString
  pub ran_at : Time

pub record PatchStep : Type 0 where
  pub operation : PatchOperation
  pub task : Option TaskSpec
  pub task_id : GoString
  pub depends_on : GoString
  pub superseded_by : GoString
  pub acceptance : Option TerminalContract
  pub reason : GoString

pub record PatchSpec : Type 0 where
  pub id : GoString
  pub steps : List PatchStep
  pub reason : GoString

pub record Command : Type 0 where
  pub schema_version : ℤ
  pub id : GoString
  pub expected_version : ℕ
  pub actor : Actor
  pub type : CommandType
  pub board : Option BoardSpec
  pub task : Option TaskSpec
  pub dependency : Option DependencySpec
  pub lease : Option LeaseSpec
  pub task_id : GoString
  pub attempt_id : GoString
  pub evidence : Option EvidenceSpec
  pub patch : Option PatchSpec
  pub revision : GoString
  pub gate : Option GateSpec
  pub reason : GoString
  pub fencing_token : GoString
  pub failure_class : FailureClass
  pub next_eligible_at : Time

-- `Command{}`, which composite literals start from.
abbrev pub zero_command : Command
zero_command = record {
  schema_version = pos 0;
  id = [];
  expected_version = 0;
  actor = record { id = []; role = ActorRole.unknown [] };
  type = CommandType.unknown [];
  board = none;
  task = none;
  dependency = none;
  lease = none;
  task_id = [];
  attempt_id = [];
  evidence = none;
  patch = none;
  revision = [];
  gate = none;
  reason = [];
  fencing_token = [];
  failure_class = FailureClass.no_failure;
  next_eligible_at = zero_time;
}

-- `PatchStep{}`.
abbrev pub zero_step : PatchStep
zero_step = record {
  operation = PatchOperation.unknown [];
  task = none;
  task_id = [];
  depends_on = [];
  superseded_by = [];
  acceptance = none;
  reason = [];
}

pub record Event : Type 0 where
  pub schema_version : ℤ
  pub id : GoString
  pub command_id : GoString
  pub board_id : GoString
  pub version : ℕ
  pub actor : Actor
  pub type : EventType
  pub task : Option Task
  pub dependency : Option Dependency
  pub attempt : Option Attempt
  pub lease : Option Lease
  pub evidence : Option Evidence
  pub previous_state : TaskState
  pub current_state : TaskState
  pub reason : GoString

-- What a handler fills in of an event, as in `Event{Type: …, Task: …}`; `emit` adds the rest.
pub record Draft : Type 0 where
  pub type : EventType
  pub task : Option Task
  pub dependency : Option Dependency
  pub attempt : Option Attempt
  pub lease : Option Lease
  pub evidence : Option Evidence
  pub previous_state : TaskState
  pub current_state : TaskState
  pub reason : GoString

-- `Event{Type: t}`: every other field has its zero value.
abbrev pub event : EventType → Draft
event t = record {
  type = t;
  task = none;
  dependency = none;
  attempt = none;
  lease = none;
  evidence = none;
  previous_state = TaskState.unknown [];
  current_state = TaskState.unknown [];
  reason = [];
}
