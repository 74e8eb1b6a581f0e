-- ===== src/Store/Rows.antt =====
-- The tables of internal/agoboardstore, as the scripts in its directory migrations declare them, and
-- the types of store.go. A column that holds the JSON of a value holds the value.
use ago.Prelude.{ℕ, Bool, List, Option}
use ago.Prelude.Ints.{ℤ}
use ago.Prelude.Outcome.{Outcome}
use ago.GoString.{GoString}
use ago.Clock.{Time}
use ago.Planner.{Plan}
use ago.Protocol.Errors.{Error}
use ago.Protocol.States.{
  TaskState, AccessMode, FailureClass, AttemptState, LeaseState, EvidenceState,
}
use ago.Protocol.Records.{Board, Task, Dependency, Attempt, Lease, Evidence, Actor}
use ago.Protocol.Commands.{Command, Event}

-- `Result`: the board after a command, and its events.
pub record Stored : Type 0 where
  pub board : Board
  pub events : List Event

pub record Binding : Type 0 where
  pub board_id : GoString
  pub attempt_id : GoString
  pub thread_id : GoString
  pub executor_id : GoString

-- A table has a record for its rows, with a field for each column.
pub record BoardRow : Type 0 where
  pub board_id : GoString
  pub version : ℕ
  pub title : GoString
  pub board : Board
  pub repository_id : GoString
  pub paused : Bool
  pub next_generation : ℕ

pub record DefinitionRow : Type 0 where
  pub board_id : GoString
  pub definition : GoString

pub record EventRow : Type 0 where
  pub board_id : GoString
  pub version : ℕ
  pub event_id : GoString
  pub event : Event

pub record CommandRow : Type 0 where
  pub actor_id : GoString
  pub command_id : GoString
  pub request_hash : GoString
  pub board_id : GoString
  pub result : Stored

pub record TaskRow : Type 0 where
  pub board_id : GoString
  pub task_id : GoString
  pub state : TaskState
  pub task : Task
  pub access_mode : AccessMode
  pub attempt_count : ℤ
  pub next_eligible_at : ℤ
  pub failure_class : FailureClass

pub record DependencyRow : Type 0 where
  pub board_id : GoString
  pub dependency_id : GoString
  pub task_id : GoString
  pub depends_on : GoString
  pub dependency : Dependency

pub record AttemptRow : Type 0 where
  pub board_id : GoString
  pub attempt_id : GoString
  pub task_id : GoString
  pub worker_id : GoString
  pub state : AttemptState
  pub attempt : Attempt
  pub attempt_number : ℤ
  pub generation : ℕ
  pub fencing_token : GoString
  pub failure_class : FailureClass

pub record LeaseRow : Type 0 where
  pub board_id : GoString
  pub lease_id : GoString
  pub task_id : GoString
  pub attempt_id : GoString
  pub worker_id : GoString
  pub state : LeaseState
  pub expires_at : ℤ
  pub lease : Lease
  pub generation : ℕ
  pub fencing_token : GoString
  pub acquired_at : ℤ
  pub access_mode : AccessMode
  pub repository_id : GoString

pub record EvidenceRow : Type 0 where
  pub board_id : GoString
  pub evidence_id : GoString
  pub task_id : GoString
  pub attempt_id : GoString
  pub state : EvidenceState
  pub evidence : Evidence
  pub required_tests_passed : Bool
  pub verdict : GoString

pub record ArtifactRow : Type 0 where
  pub board_id : GoString
  pub artifact_id : GoString
  pub evidence_id : GoString
  pub task_id : GoString
  pub media_type : GoString
  pub display_name : GoString
  pub byte_size : ℤ
  pub sha256 : GoString

-- The whole database.
pub record Db : Type 0 where
  pub boards : List BoardRow
  pub definitions : List DefinitionRow
  pub events : List EventRow
  pub commands : List CommandRow
  pub tasks : List TaskRow
  pub dependencies : List DependencyRow
  pub attempts : List AttemptRow
  pub bindings : List Binding
  pub leases : List LeaseRow
  pub evidence : List EvidenceRow
  pub artifacts : List ArtifactRow

pub record SlotLimits : Type 0 where
  pub global_running : ℤ
  pub board_running : ℤ
  pub repository_writers : ℤ
  pub repository_readers : ℤ

-- The errors of the store; `refused` is one of the state machine. `constraint` is a statement that a
-- constraint of its table forbids, `encoding` a value that has no encoding or a text that has no value.
pub data StoreError : Type 0 where
  refused : Error → StoreError
  board_not_found command_conflict board_id_required encoding constraint : StoreError
  definition_missing definition_incomplete : StoreError
  proposal_id_required create_required graph_commands_required : StoreError
  definition_invalid one_coordinator_required command_id_required duplicate_command : StoreError
  command_already_used identity_changed lease_command_required expiry_required : StoreError
  binding_mismatch negative_limit lease_command_invalid stale_version : StoreError
  claim_incomplete claim_needs_coordinator claim_needs_clock no_randomness : StoreError

abbrev pub Tx : Type 0 → Type 0
Tx = Outcome StoreError

-- What is hashed or encoded: one constructor for each anonymous struct.
pub data Request : Type 0 where
  command : GoString → Command → Time → Option Binding → Request
  graph : GoString → List Command → GoString → Request
  claim : GoString → Actor → GoString → SlotLimits → Request
  lease :
      GoString
      → GoString
      → GoString
      → Actor
      → Bool
      → GoString
      → Time
      → GoString
      → FailureClass
      → Request
  texts : List GoString → Request
  expiry : GoString → GoString → ℤ → Request

-- The packages encoding/json and crypto/sha256, as far as the store uses them: `none` is an error. An
-- object is the list of its keys with their texts.
pub record Codec : Type 0 where
  pub marshal : Request → Option GoString
  pub sha256 : GoString → GoString
  pub valid_json : GoString → Bool
  pub decode_object : GoString → Option (List (GoString × GoString))
  pub encode_object : List (GoString × GoString) → Option GoString
  pub decode_plan : GoString → Option Plan
  pub encode_plan : Plan → Option GoString
