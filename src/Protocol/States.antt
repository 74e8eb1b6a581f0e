-- ===== src/Protocol/States.antt =====
-- The string enumerations of internal/agoboardprotocol/protocol.go. Each is a string type in Go, so
-- a value may be any text: `unknown` carries the texts that are no constant of the type.
use ago.Prelude.{Bool, true, false, same, ℕ_discrete}
use ago.GoString.{GoString}

pub data TaskState : Type 0 where
  planned blocked ready leased running verifying integrating passed failed retry_wait : TaskState
  unknown : GoString → TaskState

pub data AccessMode : Type 0 where
  read write : AccessMode
  unknown : GoString → AccessMode

-- `no_failure` is the empty text.
pub data FailureClass : Type 0 where
  no_failure transient verifier_feedback : FailureClass
  auth policy needs_input repository permanent exhausted : FailureClass
  unknown : GoString → FailureClass

pub data AttemptState : Type 0 where
  leased running verifying passed failed : AttemptState
  unknown : GoString → AttemptState

pub data LeaseState : Type 0 where
  active completed : LeaseState
  unknown : GoString → LeaseState

pub data EvidenceState : Type 0 where
  submitted accepted rejected : EvidenceState
  unknown : GoString → EvidenceState

pub data ActorRole : Type 0 where
  coordinator worker verifier : ActorRole
  unknown : GoString → ActorRole

pub data GateState : Type 0 where
  absent pending passed failed : GateState
  unknown : GoString → GateState

pub data CommandType : Type 0 where
  board_create task_add dependency_add task_activate lease_acquire : CommandType
  attempt_start evidence_submit evidence_accept evidence_reject : CommandType
  verification_deferred attempt_fail lease_expire lease_renew : CommandType
  integration_complete integration_fail board_pause board_resume : CommandType
  task_retry plan_patch gate_pass gate_fail gate_unavailable : CommandType
  unknown : GoString → CommandType

pub data PatchOperation : Type 0 where
  add_task add_dependency remove_dependency : PatchOperation
  update_acceptance supersede_task cancel_task : PatchOperation
  unknown : GoString → PatchOperation

pub data EventType : Type 0 where
  board_created task_added dependency_added task_state_changed lease_acquired : EventType
  attempt_state_changed evidence_submitted evidence_accepted evidence_rejected : EventType
  lease_expired lease_renewed board_paused board_resumed : EventType
  gate_passed gate_failed gate_unavailable task_retry_requested plan_patched : EventType
  integration_completed integration_failed verification_deferred : EventType

unfoldable pub TaskState-discrete : Discrete TaskState
TaskState-discrete = hlevel ℕ_discrete

unfoldable pub AttemptState-discrete : Discrete AttemptState
AttemptState-discrete = hlevel ℕ_discrete

unfoldable pub ActorRole-discrete : Discrete ActorRole
ActorRole-discrete = hlevel ℕ_discrete

-- `a == b` on task states, attempt states and roles.
abbrev pub state_eq : TaskState → TaskState → Bool
state_eq = same TaskState-discrete

abbrev pub attempt_eq : AttemptState → AttemptState → Bool
attempt_eq = same AttemptState-discrete

abbrev pub role_eq : ActorRole → ActorRole → Bool
role_eq = same ActorRole-discrete

-- `class == FailureNone`.
abbrev pub is_no_failure : FailureClass → Bool
is_no_failure FailureClass.no_failure = true
is_no_failure _ = false

-- `lease.State == LeaseActive`.
abbrev pub is_active : LeaseState → Bool
is_active LeaseState.active = true
is_active _ = false

-- `evidence.State == EvidenceSubmitted`.
abbrev pub is_submitted : EvidenceState → Bool
is_submitted EvidenceState.submitted = true
is_submitted _ = false

-- `FailureClass.Retryable`.
unfoldable pub retryable : FailureClass → Bool
retryable FailureClass.transient = true
retryable FailureClass.verifier_feedback = true
retryable _ = false

unfoldable pub valid_failure_class : FailureClass → Bool
valid_failure_class (FailureClass.unknown s) = false
valid_failure_class _ = true

unfoldable pub valid_access_mode : AccessMode → Bool
valid_access_mode (AccessMode.unknown s) = false
valid_access_mode _ = true

unfoldable pub valid_task_state : TaskState → Bool
valid_task_state (TaskState.unknown s) = false
valid_task_state _ = true

-- The `switch attempt.State` of validateAttemptsLeasesEvidence.
unfoldable pub valid_attempt_state : AttemptState → Bool
valid_attempt_state (AttemptState.unknown s) = false
valid_attempt_state _ = true

unfoldable pub valid_lease_state : LeaseState → Bool
valid_lease_state (LeaseState.unknown s) = false
valid_lease_state _ = true

unfoldable pub valid_evidence_state : EvidenceState → Bool
valid_evidence_state (EvidenceState.unknown s) = false
valid_evidence_state _ = true
