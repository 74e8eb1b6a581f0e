-- ===== src/Protocol/Records.antt =====
-- The aggregate of internal/agoboardprotocol/protocol.go: the board and what it holds. A Go pointer
-- is an `Option`, an `int` or `int64` is an `ℤ`, a `uint64` is an `ℕ`, a slice is a list.
use ago.Prelude.{ℕ, Bool, false, Option, List, []}
use ago.Prelude.Ints.{ℤ, pos}
use ago.GoString.{GoString}
use ago.Clock.{Time, zero_time}
use ago.Protocol.States.{
  TaskState, AccessMode, FailureClass, AttemptState, LeaseState, EvidenceState, ActorRole,
  GateState,
}

pub record Actor : Type 0 where
  pub id : GoString
  pub role : ActorRole

pub record TerminalContract : Type 0 where
  pub outcome : GoString
  pub acceptance_criteria : List GoString

pub record ProjectGate : Type 0 where
  pub state : GateState
  pub commands : List GoString
  pub revision : GoString
  pub summary : GoString
  pub failure_output : GoString
  pub failures : ℤ
  pub unavailable : ℤ
  pub last_error : GoString
  pub ran_at : Time

pub record Task : Type 0 where
  pub id : GoString
  pub title : GoString
  pub state : TaskState
  pub terminal_contract : TerminalContract
  pub active_attempt_id : GoString
  pub active_lease_id : GoString
  pub accepted_evidence_id : GoString
  pub access_mode : AccessMode
  pub attempt_count : ℤ
  pub user_retries : ℤ
  pub next_eligible_at : Time
  pub failure_class : FailureClass
  pub blocked_reason : GoString
  pub superseded_by : GoString
  pub cancelled : Bool
  pub origin : GoString
  pub integrated_revision : GoString

pub record Dependency : Type 0 where
  pub id : GoString
  pub task_id : GoString
  pub depends_on : GoString

pub record Attempt : Type 0 where
  pub id : GoString
  pub task_id : GoString
  pub worker_id : GoString
  pub state : AttemptState
  pub evidence_id : GoString
  pub number : ℤ
  pub generation : ℕ
  pub fencing_token : GoString
  pub failure_class : FailureClass
  pub failure_reason : GoString

pub record Lease : Type 0 where
  pub id : GoString
  pub task_id : GoString
  pub attempt_id : GoString
  pub worker_id : GoString
  pub state : LeaseState
  pub generation : ℕ
  pub fencing_token : GoString
  pub acquired_at : Time
  pub expires_at : Time

pub record ChangedFile : Type 0 where
  pub path : GoString
  pub before_hash : GoString
  pub after_hash : GoString

pub record CommandRecord : Type 0 where
  pub display : GoString
  pub exit_code : ℤ
  pub duration_ms : ℤ
  pub output_artifact_id : GoString

pub record TestRecord : Type 0 where
  pub name : GoString
  pub command : GoString
  pub passed : Bool
  pub exit_code : ℤ
  pub required : Bool

pub record ArtifactRef : Type 0 where
  pub id : GoString
  pub type : GoString
  pub display_name : GoString
  pub bytes : ℤ
  pub sha256 : GoString

pub record PatchRecord : Type 0 where
  pub artifact_id : GoString
  pub base_revision : GoString
  pub sha256 : GoString
  pub bytes : ℤ
  pub changed_paths : List GoString

pub record EvidenceResult : Type 0 where
  pub patch : Option PatchRecord
  pub summary : GoString
  pub generation : ℕ
  pub changed_files : List ChangedFile
  pub commands : List CommandRecord
  pub tests : List TestRecord
  pub artifacts : List ArtifactRef
  pub warnings : List GoString

pub record Evidence : Type 0 where
  pub id : GoString
  pub task_id : GoString
  pub attempt_id : GoString
  pub worker_id : GoString
  pub artifact : GoString
  pub summary : GoString
  pub state : EvidenceState
  pub result : EvidenceResult
  pub verdict : GoString
  pub verdict_reason : GoString
  pub verification_attempts : ℤ

pub record Board : Type 0 where
  pub schema_version : ℤ
  pub id : GoString
  pub version : ℕ
  pub title : GoString
  pub tasks : List Task
  pub dependencies : List Dependency
  pub attempts : List Attempt
  pub leases : List Lease
  pub evidence : List Evidence
  pub repository : GoString
  pub base_revision : GoString
  pub integration_ref : GoString
  pub integrated_revision : GoString
  pub next_generation : ℕ
  pub paused : Bool
  pub pause_reason : GoString
  pub gate : ProjectGate

-- The zero values `TerminalContract{}`, `Task{}`, `Attempt{}` and `ProjectGate{}`, which composite
-- literals start from.
abbrev pub zero_contract : TerminalContract
zero_contract = record { outcome = []; acceptance_criteria = [] }

abbrev pub zero_task : Task
zero_task = record {
  id = [];
  title = [];
  state = TaskState.unknown [];
  terminal_contract = zero_contract;
  active_attempt_id = [];
  active_lease_id = [];
  accepted_evidence_id = [];
  access_mode = AccessMode.unknown [];
  attempt_count = pos 0;
  user_retries = pos 0;
  next_eligible_at = zero_time;
  failure_class = FailureClass.no_failure;
  blocked_reason = [];
  superseded_by = [];
  cancelled = false;
  origin = [];
  integrated_revision = [];
}

abbrev pub zero_attempt : Attempt
zero_attempt = record {
  id = [];
  task_id = [];
  worker_id = [];
  state = AttemptState.unknown [];
  evidence_id = [];
  number = pos 0;
  generation = 0;
  fencing_token = [];
  failure_class = FailureClass.no_failure;
  failure_reason = [];
}

abbrev pub zero_gate : ProjectGate
zero_gate = record {
  state = GateState.unknown [];
  commands = [];
  revision = [];
  summary = [];
  failure_output = [];
  failures = pos 0;
  unavailable = pos 0;
  last_error = [];
  ran_at = zero_time;
}
