-- ===== src/Planner.antt =====
-- The proposals of internal/agoplanner/planner.go.
pub mod Checks
pub mod Validate
use ago.Prelude.{List}
use ago.Prelude.Ints.{ℤ}
use ago.GoString.{GoString}

pub record Repository : Type 0 where
  pub id : GoString
  pub revision : GoString

pub record Objective : Type 0 where
  pub id : GoString
  pub summary : GoString

-- `agoplanner.ProjectGate`.
pub record GateProposal : Type 0 where
  pub id : GoString
  pub title : GoString
  pub acceptance_criteria : List GoString
  pub verifier_ids : List GoString

pub record Constraints : Type 0 where
  pub path_scopes : List GoString
  pub capability_tags : List GoString
  pub verifier_ids : List GoString
  pub max_tasks : ℤ
  pub max_dependencies : ℤ

pub record PlanRequest : Type 0 where
  pub repository : Repository
  pub objective : Objective
  pub project_gates : List GateProposal
  pub constraints : Constraints

pub record TaskProposal : Type 0 where
  pub id : GoString
  pub title : GoString
  pub description : GoString
  pub path_scopes : List GoString
  pub acceptance_criteria : List GoString
  pub verifier_ids : List GoString
  pub capability_tags : List GoString

pub record DependencyProposal : Type 0 where
  pub task_id : GoString
  pub depends_on : GoString

pub record Plan : Type 0 where
  pub schema_version : ℤ
  pub repository : Repository
  pub objective : Objective
  pub tasks : List TaskProposal
  pub dependencies : List DependencyProposal
  pub project_gates : List GateProposal
