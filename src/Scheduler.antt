-- ===== src/Scheduler.antt =====
-- internal/agoscheduler/scheduler.go: what a scheduler is given, and the state it works on. The
-- executor, the verifier, the integrator, the gate, the reader of artifacts and the clock are
-- interfaces or callbacks: they act on a state of their own, of type `X`.
pub mod Steps
pub mod Dispatching
pub mod Integrating
pub mod Verifying
pub mod Gating
pub mod Cycles
use ago.Prelude.{
  ℕ, Bool, true, false, Option, none, some, List, [], ◌∷◌, ◌&&◌, ◌||◌, is_empty, if◌then◌else◌,
}
use ago.Prelude.Ints.{ℤ, pos, ltb_int, eq_int}
use ago.Prelude.Outcome.{Outcome, ok, ◌>>=◌, ◌>>◌, require, refuse}
use ago.Prelude.Effect.{Act}
use ago.GoString.{GoString, str_eq}
use ago.Clock.{Time}
use ago.Planner.{Repository, Objective, GateProposal, Constraints, TaskProposal}
use ago.Protocol.States.{FailureClass, ActorRole}
use ago.Protocol.Records.{Actor, Evidence, EvidenceResult}
use ago.Store.Rows.{Db, Tx, Codec, StoreError, SlotLimits}

-- `agoboardruntime.Goal`.
pub record Goal : Type 0 where
  pub board_id : GoString
  pub repository : Repository
  pub objective : Objective
  pub project_gates : List GateProposal
  pub constraints : Constraints
  pub execution_mode : GoString
  pub base_revision : GoString
  pub integration_ref : GoString
  pub gate_commands : List GoString

-- `agoboardruntime.Dispatch`.
pub record Dispatch : Type 0 where
  pub goal : Goal
  pub task : TaskProposal
  pub attempt_id : GoString
  pub worker_id : GoString
  pub attempt_number : ℤ
  pub base_revision : GoString

-- `agoboardruntime.ExecutionResult`.
pub record ExecutionResult : Type 0 where
  pub artifact : GoString
  pub summary : GoString
  pub result : EvidenceResult

-- An error of the executor: its failure class, if it says one, and its message.
pub record ExecutionError : Type 0 where
  pub class : Option FailureClass
  pub text : GoString

-- `agoverify.Input`.
pub record Input : Type 0 where
  pub objective : GoString
  pub task_id : GoString
  pub attempt_number : ℤ
  pub task_title : GoString
  pub task_description : GoString
  pub acceptance_criteria : List GoString
  pub allowed_path_scopes : List GoString
  pub evidence : Evidence
  pub evidence_id : GoString
  pub integrated_revision : GoString

-- `agoverify.Decision` and what the scheduler reads of `agoverify.Result`.
pub data Decision : Type 0 where
  accept retry needs_input blocked_policy : Decision
  unknown : GoString → Decision

pub record Judgement : Type 0 where
  pub decision : Decision
  pub reason : GoString

-- `agointegrate.Request`, and its error: whether it is a conflict, and the message.
pub record Promotion : Type 0 where
  pub repository : GoString
  pub integration_ref : GoString
  pub current_revision : GoString
  pub base_revision : GoString
  pub patch : GoString
  pub task_id : GoString
  pub summary : GoString

pub record PromotionError : Type 0 where
  pub conflict : Bool
  pub text : GoString

-- `agogate.Check` and `agogate.Result`, as far as they are read.
pub record Check : Type 0 where
  pub command : GoString
  pub exit_code : ℤ
  pub passed : Bool
  pub output : GoString

pub record GateReport : Type 0 where
  pub checks : List Check
  pub passed : Bool
  pub summary : GoString

-- The calls of the interfaces. An error is the right summand's data; where only the message is read,
-- it is the message.
pub data Answer (E A : Type 0) : Type 0 where
  failed : E → Answer E A
  answered : A → Answer E A

pub record Parts (X : Type 0) : Type 0 where
  pub now : X → X × Time
  pub mint : X → X × Option GoString
  pub execute : Dispatch → X → X × Answer ExecutionError ExecutionResult
  pub verify : Input → X → X × Answer GoString Judgement
  pub artifact_bytes : Option (GoString → ℤ → GoString → X → X × Answer GoString GoString)
  pub promote : Option (Promotion → X → X × Answer PromotionError GoString)
  pub run_gate : Option (GoString → GoString → List GoString → X → X × Answer GoString GateReport)

pub record Options (X : Type 0) : Type 0 where
  pub parts : Parts X
  pub codec : Codec
  pub decode_goal : List (GoString × GoString) → Tx Goal
  pub redact : GoString → GoString
  pub coordinator_id : GoString
  pub worker_id : GoString
  pub verifier_id : GoString
  pub lease_duration : ℤ
  pub limits : SlotLimits

-- The calls that were made, in their order.
pub data Call : Type 0 where
  executed : Dispatch → Call
  verified : Input → Call
  promoted : Promotion → Call
  gated : GoString → GoString → List GoString → Call

pub record Site (X : Type 0) : Type 0 where
  pub db : Db
  pub outside : X
  pub calls : List Call

-- The errors, one of the store with what its message is wrapped in.
pub data Fault : Type 0 where
  parts_required identities_required not_independent one_object duration_required : Fault
  no_proposal : GoString → Fault
  store definition start submit_evidence : StoreError → Fault
  reconcile : StoreError → Fault

abbrev pub Scheduled : Type 0 → Type 0 → Type 0
Scheduled X A = Act (Site X) Fault A

abbrev is_zero_limits : SlotLimits → Bool
is_zero_limits l =
    eq_int l.global_running (pos 0)
    && eq_int l.board_running (pos 0)
    && eq_int l.repository_writers (pos 0)
    && eq_int l.repository_readers (pos 0)

-- `DefaultLimits`.
abbrev pub default_limits : SlotLimits
default_limits = record {
  global_running = pos 3;
  board_running = pos 2;
  repository_writers = pos 1;
  repository_readers = pos 2;
}

-- `New`: whether the parts are there, and whether the executor and the verifier are one object, which
-- `sameUnderlyingObject` finds out by reflection.
unfoldable pub new : {X : Type 0} → Bool → Bool → Options X → Outcome Fault (Options X)
new complete same_object o = do
  require complete Fault.parts_required
  refuse (is_empty o.coordinator_id || is_empty o.worker_id || is_empty o.verifier_id)
      Fault.identities_required
  refuse (str_eq o.worker_id o.verifier_id) Fault.not_independent
  refuse same_object Fault.one_object
  require (ltb_int (pos 0) o.lease_duration) Fault.duration_required
  ok (record o { limits = if is_zero_limits o.limits then default_limits else o.limits })
