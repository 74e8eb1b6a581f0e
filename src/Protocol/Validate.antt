-- ===== src/Protocol/Validate.antt =====
-- `Board.Validate` of internal/agoboardprotocol/protocol.go. A local map from ids to records is the
-- list of the records seen so far.
pub mod Distinct
pub mod WellFormed
pub mod Loops
pub mod Sound
use ago.Prelude.{
  ℕ, ◌==◌, Bool, ◌&&◌, ◌||◌, not, Option, none, some, List, [], ◌∷◌, ◌++◌, map, leb, any,
  find_index, is_empty,
}
use ago.Prelude.Ints.{pos, ltb_int, eq_int}
use ago.Prelude.Outcome.{ok, ◌>>=◌, ◌>>◌, refuse, require, or_fail}
use ago.GoString.{GoString, str_eq}
use ago.Clock.{is_zero}
use ago.Protocol.Errors
use ago.Protocol.Errors.{Checked}
use ago.Protocol.States.{
  TaskState, state_eq, valid_task_state, valid_access_mode, valid_failure_class,
  valid_attempt_state, valid_lease_state, valid_evidence_state,
}
use ago.Protocol.Records.{Board, Task, Dependency, Attempt, Lease, Evidence}
use ago.Protocol.Retry.{schema_version}
use ago.Protocol.Rules.{validate_contract}
use ago.Protocol.Acyclic.{validate_acyclic}

-- `_, exists := tasks[id]`.
unfoldable pub has_task : List Task → GoString → Bool
unfolding any
has_task tasks id = any (λ t. str_eq t.id id) tasks

-- One round of the loop over `board.Tasks`.
unfoldable pub check_task : List Task → Task → Checked (Unit {0})
unfolding has_task validate_contract valid_task_state valid_access_mode valid_failure_class is_zero
check_task seen t = do
  refuse (is_empty t.id || is_empty t.title) Errors.task_id_title_required
  refuse (has_task seen t.id) Errors.duplicate_task
  validate_contract t.terminal_contract
  require (valid_task_state t.state) Errors.invalid_task_state
  require (valid_access_mode t.access_mode) Errors.invalid_access_mode
  require (valid_failure_class t.failure_class) Errors.invalid_failure_class
  refuse (ltb_int t.attempt_count (pos 0)) Errors.negative_attempt_count
  refuse (state_eq t.state TaskState.retry_wait && is_zero t.next_eligible_at)
      Errors.retry_without_time

unfoldable pub validate_tasks : List Task → List Task → Checked (List Task)
validate_tasks seen [] = ok seen
validate_tasks seen (t ∷ ts) = do check_task seen t; validate_tasks (t ∷ seen) ts

-- `dependency.TaskID + "\x00" + dependency.DependsOn`.
unfoldable pub edge_key : Dependency → GoString
edge_key d = d.task_id ++ (0 ∷ d.depends_on)

unfoldable pub check_dependency : List Task → List Dependency → Dependency → Checked (Unit {0})
unfolding has_task any edge_key
check_dependency tasks seen d = do
  refuse (is_empty d.id) Errors.dependency_id_required
  refuse (any (λ e. str_eq e.id d.id) seen) Errors.duplicate_dependency
  refuse (str_eq d.task_id d.depends_on) Errors.self_loop
  require (has_task tasks d.task_id) Errors.missing_task
  require (has_task tasks d.depends_on) Errors.missing_prerequisite
  refuse (any (λ e. str_eq (edge_key e) (edge_key d)) seen) Errors.duplicate_edge

unfoldable pub validate_dependencies :
    List Task → List Dependency → List Dependency → Checked (Unit {0})
validate_dependencies tasks seen [] = ok tt
validate_dependencies tasks seen (d ∷ ds) = do
  check_dependency tasks seen d
  validate_dependencies tasks (d ∷ seen) ds

-- `attempt, exists := attempts[id]`.
unfoldable pub lookup_attempt : List Attempt → GoString → Option Attempt
unfolding find_index
lookup_attempt attempts id = elim (find_index (λ a. str_eq a.id id) attempts) [
  | none ↦ none
  | some (i, a) ↦ some a
]

unfoldable pub check_attempt : List Task → ℕ → List Attempt → Attempt → Checked (Unit {0})
unfolding has_task any valid_attempt_state valid_failure_class
check_attempt tasks next_generation seen a = do
  refuse (is_empty a.id || is_empty a.worker_id) Errors.attempt_ids_required
  refuse (any (λ b. str_eq b.id a.id) seen) Errors.duplicate_attempt
  require (has_task tasks a.task_id) Errors.attempt_without_task
  require (valid_attempt_state a.state) Errors.invalid_attempt_state
  require (valid_failure_class a.failure_class) Errors.invalid_failure_class
  refuse (not (is_empty a.fencing_token) && a.generation == 0) Errors.token_without_generation
  refuse (leb next_generation a.generation && not (a.generation == 0)) Errors.generation_not_below

unfoldable pub validate_attempts :
    List Task → ℕ → List Attempt → List Attempt → Checked (List Attempt)
validate_attempts tasks next seen [] = ok seen
validate_attempts tasks next seen (a ∷ as') = do
  check_attempt tasks next seen a
  validate_attempts tasks next (a ∷ seen) as'

unfoldable pub check_lease : List Attempt → List Lease → Lease → Checked (Unit {0})
unfolding any lookup_attempt valid_lease_state
check_lease attempts seen l = do
  refuse (is_empty l.id || is_empty l.worker_id) Errors.lease_ids_required
  refuse (any (λ k. str_eq k.id l.id) seen) Errors.duplicate_lease
  a ← or_fail (lookup_attempt attempts l.attempt_id) Errors.lease_without_attempt
  require (str_eq a.task_id l.task_id && str_eq a.worker_id l.worker_id)
      Errors.lease_without_attempt
  require (valid_lease_state l.state) Errors.invalid_lease_state
  require (l.generation == a.generation && str_eq l.fencing_token a.fencing_token)
      Errors.lease_fencing_mismatch

unfoldable pub validate_leases : List Attempt → List Lease → List Lease → Checked (Unit {0})
validate_leases attempts seen [] = ok tt
validate_leases attempts seen (l ∷ ls) = do
  check_lease attempts seen l
  validate_leases attempts (l ∷ seen) ls

unfoldable pub check_evidence : List Attempt → List Evidence → Evidence → Checked (Unit {0})
unfolding any lookup_attempt valid_evidence_state
check_evidence attempts seen e = do
  refuse (is_empty e.id || is_empty e.artifact || is_empty e.summary)
      Errors.evidence_fields_required
  refuse (any (λ k. str_eq k.id e.id) seen) Errors.duplicate_evidence
  a ← or_fail (lookup_attempt attempts e.attempt_id) Errors.evidence_without_attempt
  require (str_eq a.task_id e.task_id && str_eq a.worker_id e.worker_id)
      Errors.evidence_without_attempt
  require (valid_evidence_state e.state) Errors.invalid_evidence_state

unfoldable pub validate_evidence : List Attempt → List Evidence → List Evidence → Checked (Unit {0})
validate_evidence attempts seen [] = ok tt
validate_evidence attempts seen (e ∷ es) = do
  check_evidence attempts seen e
  validate_evidence attempts (e ∷ seen) es

-- `validateAttemptsLeasesEvidence`.
unfoldable pub validate_attempts_leases_evidence : Board → List Task → Checked (Unit {0})
validate_attempts_leases_evidence b tasks = do
  attempts ← validate_attempts tasks b.next_generation [] b.attempts
  validate_leases attempts [] b.leases
  validate_evidence attempts [] b.evidence

-- `Board.Validate`.
unfoldable pub validate : Board → Checked (Unit {0})
validate b = do
  require (eq_int b.schema_version schema_version) Errors.board_schema
  refuse (is_empty b.id) Errors.board_id_required
  refuse (is_empty b.title) Errors.board_title_required
  tasks ← validate_tasks [] b.tasks
  validate_dependencies tasks [] b.dependencies
  refuse (b.paused && is_empty b.pause_reason) Errors.paused_without_reason
  validate_acyclic (map (λ t. t.id) tasks) b.dependencies
  validate_attempts_leases_evidence b tasks
