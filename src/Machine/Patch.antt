-- ===== src/Machine/Patch.antt =====
-- `applyPatchStep` and the case plan.patch of `Apply` in
-- internal/agoboardprotocol/state_machine.go.
use ago.Prelude.{
  ℕ, ◌-◌, Bool, true, false, ◌&&◌, ◌||◌, not, Option, none, some, List, [], ◌∷◌, ◌++◌, map, modify,
  is_empty, if◌then◌else◌, is_nil, length, ltb,
}
use ago.Prelude.Outcome.{ok, err, ◌>>=◌, ◌>>◌, refuse, require, or_fail}
use ago.GoString.{GoString, codes, str_eq}
use ago.Protocol.Errors
use ago.Protocol.Errors.{Checked}
use ago.Protocol.States.{
  TaskState, AttemptState, LeaseState, FailureClass, ActorRole, PatchOperation, EventType, state_eq,
  is_active, valid_access_mode,
}
use ago.Protocol.Records.{Board, Task, Attempt, Lease, Dependency, zero_task}
use ago.Protocol.Commands.{Command, PatchStep, event}
use ago.Protocol.Rules.{validate_contract, first_non_blank}
use ago.Protocol.Validate.{validate}
use ago.Machine.Work.{
  Work, emit, require_role, require_initialized, find_task, dependencies_passed, set_task,
  unblock_ready_tasks,
}
use ago.Machine.Graph.{start_state}

abbrev pub max_patch_steps : ℕ
max_patch_steps = 32

-- `task.State == TaskLeased || task.State == TaskRunning || task.State == TaskVerifying`.
abbrev pub is_running : TaskState → Bool
is_running TaskState.leased = true
is_running TaskState.running = true
is_running TaskState.verifying = true
is_running _ = false

unfoldable pub patch_add_task : GoString → PatchStep → Board → Checked Board
unfolding validate_contract valid_access_mode find_task start_state modify
patch_add_task patch_id s b = do
  spec ← or_fail s.task Errors.spec_required
  refuse (is_empty spec.id || is_empty spec.title) Errors.spec_required
  validate_contract spec.terminal_contract
  require (valid_access_mode spec.access_mode) Errors.invalid_access_mode
  require (is_nil (find_task b spec.id)) Errors.duplicate_task
  let task : Task = record zero_task {
    id = spec.id;
    title = spec.title;
    state = TaskState.planned;
    terminal_contract = spec.terminal_contract;
    access_mode = spec.access_mode;
    origin = patch_id;
  }
  let longer : Board = record b { tasks = b.tasks ++ task ∷ [] }
  let state : TaskState = start_state longer task.id
  ok (set_task (length longer.tasks - 1) (λ t. record t { state = state }) longer)

-- The loop over the existing dependencies in add_dependency; it tests the edge before the id.
unfoldable pub check_patch_edge : GoString → PatchStep → List Dependency → Checked (Unit {0})
check_patch_edge id s [] = ok tt
check_patch_edge id s (e ∷ es) = do
  refuse (str_eq e.task_id s.task_id && str_eq e.depends_on s.depends_on) Errors.duplicate_edge
  refuse (str_eq e.id id) Errors.duplicate_dependency
  check_patch_edge id s es

unfoldable pub patch_add_dependency : GoString → PatchStep → Board → Checked Board
unfolding find_task check_patch_edge dependencies_passed modify
patch_add_dependency patch_id s b = do
  refuse (is_empty s.task_id || is_empty s.depends_on || str_eq s.task_id s.depends_on)
      Errors.spec_required
  (i, task) ← or_fail (find_task b s.task_id) Errors.missing_task
  refuse (is_nil (find_task b s.depends_on)) Errors.missing_prerequisite
  refuse (state_eq task.state TaskState.passed) Errors.task_accepted
  let id : GoString = patch_id ++ codes ":" ++ s.task_id ++ codes ":" ++ s.depends_on
  check_patch_edge id s b.dependencies
  let added : Dependency = record { id = id; task_id = s.task_id; depends_on = s.depends_on }
  let longer : Board = record b { dependencies = b.dependencies ++ added ∷ [] }
  ok (
      if state_eq task.state TaskState.ready && not (dependencies_passed longer s.task_id)
      then set_task i (λ t. record t { state = TaskState.blocked }) longer
      else longer)

-- The loop of remove_dependency: the list without its first edge that fits, if there is one.
unfoldable pub remove_edge : PatchStep → List Dependency → Option (List Dependency)
remove_edge s [] = none
remove_edge s (e ∷ es) =
    if str_eq e.task_id s.task_id && str_eq e.depends_on s.depends_on
    then some es
    else elim (remove_edge s es) [ none ↦ none | some rest ↦ some (e ∷ rest) ]

unfoldable pub patch_remove_dependency : PatchStep → Board → Checked Board
unfolding remove_edge
patch_remove_dependency s b = do
  refuse (is_empty s.task_id || is_empty s.depends_on) Errors.spec_required
  rest ← or_fail (remove_edge s b.dependencies) Errors.dependency_missing
  ok (record b { dependencies = rest })

unfoldable pub patch_update_acceptance : PatchStep → Board → Checked Board
unfolding validate_contract find_task modify
patch_update_acceptance s b = do
  refuse (is_empty s.task_id) Errors.spec_required
  contract ← or_fail s.acceptance Errors.spec_required
  validate_contract contract
  (i, task) ← or_fail (find_task b s.task_id) Errors.missing_task
  refuse (state_eq task.state TaskState.passed) Errors.task_accepted
  ok (set_task i (λ t. record t { terminal_contract = contract }) b)

unfoldable pub patch_supersede_task : PatchStep → Board → Checked Board
unfolding find_task modify
patch_supersede_task s b = do
  refuse (is_empty s.task_id || is_empty s.superseded_by || str_eq s.task_id s.superseded_by)
      Errors.spec_required
  (i, task) ← or_fail (find_task b s.task_id) Errors.missing_task
  refuse (is_nil (find_task b s.superseded_by)) Errors.replacement_not_found
  refuse (state_eq task.state TaskState.passed) Errors.task_accepted
  refuse (is_running task.state) Errors.task_running
  ok (
      set_task i
        (λ t. record t {
          superseded_by = s.superseded_by;
          state = TaskState.failed;
          failure_class = FailureClass.no_failure;
          blocked_reason = codes "superseded by " ++ s.superseded_by;
        })
        b)

-- The two loops of cancel_task over the leases and the attempts.
unfoldable pub cancelled_lease : Task → Lease → Lease
cancelled_lease task l =
    if str_eq l.task_id task.id && is_active l.state
    then record l { state = LeaseState.completed }
    else l

unfoldable pub cancelled_attempt : Task → Attempt → Attempt
cancelled_attempt task a =
    if str_eq a.id task.active_attempt_id
    then record a {
      state = AttemptState.failed;
      failure_class = FailureClass.policy;
      failure_reason = codes "cancelled by plan patch";
    }
    else a

unfoldable pub end_live_work : Task → Board → Board
unfolding cancelled_lease cancelled_attempt
end_live_work task b =
    if is_running task.state
    then record b {
      leases = map (cancelled_lease task) b.leases;
      attempts = map (cancelled_attempt task) b.attempts;
    }
    else b

unfoldable pub patch_cancel_task : PatchStep → Board → Checked Board
unfolding find_task end_live_work first_non_blank modify
patch_cancel_task s b = do
  refuse (is_empty s.task_id) Errors.spec_required
  (i, task) ← or_fail (find_task b s.task_id) Errors.missing_task
  refuse (state_eq task.state TaskState.passed) Errors.task_accepted
  ok (
      set_task i
        (λ t. record t {
          state = TaskState.failed;
          cancelled = true;
          active_attempt_id = [];
          active_lease_id = [];
          failure_class = FailureClass.policy;
          blocked_reason = first_non_blank (s.reason ∷ codes "cancelled by plan patch" ∷ []);
        })
        (end_live_work task b))

-- The `switch` of `applyPatchStep`.
unfoldable pub patch_case : PatchOperation → GoString → PatchStep → Board → Checked Board
unfolding patch_add_task patch_add_dependency patch_remove_dependency patch_update_acceptance
    patch_supersede_task patch_cancel_task
patch_case PatchOperation.add_task p s b = patch_add_task p s b
patch_case PatchOperation.add_dependency p s b = patch_add_dependency p s b
patch_case PatchOperation.remove_dependency p s b = patch_remove_dependency s b
patch_case PatchOperation.update_acceptance p s b = patch_update_acceptance s b
patch_case PatchOperation.supersede_task p s b = patch_supersede_task s b
patch_case PatchOperation.cancel_task p s b = patch_cancel_task s b
patch_case (PatchOperation.unknown o) p s b = err Errors.unsupported_operation

unfoldable pub apply_patch_step : GoString → PatchStep → Board → Checked Board
apply_patch_step patch_id s b = patch_case s.operation patch_id s b

-- The loop over the steps of a patch.
unfoldable pub apply_patch_steps : GoString → List PatchStep → Board → Checked Board
apply_patch_steps patch_id [] b = ok b
apply_patch_steps patch_id (s ∷ ss) b =
    apply_patch_step patch_id s b >>= λ b'. apply_patch_steps patch_id ss b'

unfoldable pub plan_patch : Command → Work → Checked Work
unfolding require_initialized require_role apply_patch_steps validate unblock_ready_tasks emit
plan_patch c w = do
  require_initialized w.board
  require_role c ActorRole.coordinator
  p ← or_fail c.patch Errors.spec_required
  refuse (is_empty p.id || is_empty p.steps) Errors.spec_required
  refuse (is_empty p.reason) Errors.reason_required
  refuse (ltb max_patch_steps (length p.steps)) Errors.patch_too_long
  next ← apply_patch_steps p.id p.steps w.board
  validate next
  ok (
      unblock_ready_tasks c (
        emit c (record (event EventType.plan_patched) { reason = p.reason })
          (record w { board = next })))
