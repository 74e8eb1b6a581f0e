-- ===== src/Machine/Graph.antt =====
-- The cases of `Apply` in internal/agoboardprotocol/state_machine.go that build and steer the graph:
-- board.create, task.add, dependency.add, task.activate, task.retry, board.pause and board.resume.
use ago.Prelude.{
  Bool, true, false, ◌&&◌, ◌||◌, not, some, List, [], ◌∷◌, ◌++◌, modify, is_empty, if◌then◌else◌,
  get_elem?, is_nil,
}
use ago.Prelude.Ints.{pos, inc_int}
use ago.Prelude.Outcome.{ok, ◌>>=◌, ◌>>◌, refuse, require, or_fail, or_panic}
use ago.GoString.{GoString, str_eq}
use ago.Clock.{zero_time}
use ago.Protocol.Errors
use ago.Protocol.Errors.{Checked}
use ago.Protocol.States.{
  TaskState, ActorRole, FailureClass, GateState, EventType, state_eq, valid_access_mode,
}
use ago.Protocol.Records.{Board, Task, Dependency, ProjectGate, zero_task, zero_gate}
use ago.Protocol.Commands.{Command, BoardSpec, DependencySpec, event}
use ago.Protocol.Retry.{schema_version}
use ago.Protocol.Rules.{validate_contract, clean_commands}
use ago.Protocol.Validate.{validate}
use ago.Machine.Work.{
  Work, emit, require_role, require_initialized, find_task, dependencies_passed, set_task,
  state_event,
}

-- `newProjectGate`.
unfoldable pub new_project_gate : List GoString → ProjectGate
unfolding clean_commands
new_project_gate commands =
    let cleaned = clean_commands commands in
    if is_empty cleaned
    then record zero_gate { state = GateState.absent }
    else record zero_gate { state = GateState.pending; commands = cleaned }

-- The board that `board.create` starts from.
unfoldable pub new_board : BoardSpec → Board
unfolding new_project_gate
new_board s = record {
  schema_version = schema_version;
  id = s.id;
  version = 0;
  title = s.title;
  tasks = [];
  dependencies = [];
  attempts = [];
  leases = [];
  evidence = [];
  repository = s.repository;
  base_revision = s.base_revision;
  integration_ref = s.integration_ref;
  integrated_revision = s.base_revision;
  next_generation = 1;
  paused = false;
  pause_reason = [];
  gate = new_project_gate s.gate_commands;
}

unfoldable pub board_create : Command → Work → Checked Work
unfolding require_role new_board emit
board_create c w = do
  require_role c ActorRole.coordinator
  refuse (not (is_empty w.board.id)) Errors.board_create_refused
  s ← or_fail c.board Errors.board_create_refused
  refuse (is_empty s.id || is_empty s.title) Errors.board_create_refused
  ok (emit c (event EventType.board_created) (record w { board = new_board s }))

unfoldable pub task_add : Command → Work → Checked Work
unfolding require_initialized require_role validate_contract find_task valid_access_mode emit
task_add c w = do
  require_initialized w.board
  require_role c ActorRole.coordinator
  s ← or_fail c.task Errors.spec_required
  refuse (is_empty s.id || is_empty s.title) Errors.spec_required
  validate_contract s.terminal_contract
  require (is_nil (find_task w.board s.id)) Errors.duplicate_task
  require (valid_access_mode s.access_mode) Errors.invalid_access_mode
  let task : Task = record zero_task {
    id = s.id;
    title = s.title;
    state = TaskState.planned;
    terminal_contract = s.terminal_contract;
    access_mode = s.access_mode;
  }
  ok (
      emit c (record (event EventType.task_added) { task = some task })
        (record w { board = record w.board { tasks = w.board.tasks ++ task ∷ [] } }))

-- The loop over the existing dependencies: the error that its first bad round returns.
unfoldable pub check_new_dependency : DependencySpec → List Dependency → Checked (Unit {0})
check_new_dependency s [] = ok tt
check_new_dependency s (e ∷ es) = do
  refuse (str_eq e.id s.id) Errors.duplicate_dependency
  refuse (str_eq e.task_id s.task_id && str_eq e.depends_on s.depends_on) Errors.duplicate_edge
  check_new_dependency s es

unfoldable pub dependency_add : Command → Work → Checked Work
unfolding require_initialized require_role find_task check_new_dependency validate emit
dependency_add c w = do
  require_initialized w.board
  require_role c ActorRole.coordinator
  s ← or_fail c.dependency Errors.spec_required
  refuse (is_empty s.id) Errors.spec_required
  refuse (str_eq s.task_id s.depends_on) Errors.self_loop
  (i, task) ← or_fail (find_task w.board s.task_id) Errors.missing_task
  require (state_eq task.state TaskState.planned) Errors.illegal_transition
  refuse (is_nil (find_task w.board s.depends_on)) Errors.missing_prerequisite
  check_new_dependency s w.board.dependencies
  let added : Dependency = record { id = s.id; task_id = s.task_id; depends_on = s.depends_on }
  let next : Board = record w.board { dependencies = w.board.dependencies ++ added ∷ [] }
  validate next
  ok (
      emit c (record (event EventType.dependency_added) { dependency = some added })
        (record w { board = next }))

-- `state := TaskReady; if !dependenciesPassed(…) { state = TaskBlocked }`.
unfoldable pub start_state : Board → GoString → TaskState
unfolding dependencies_passed
start_state b id = if dependencies_passed b id then TaskState.ready else TaskState.blocked

unfoldable pub task_activate : Command → Work → Checked Work
unfolding require_initialized require_role find_task start_state modify emit
task_activate c w = do
  require_initialized w.board
  require_role c ActorRole.coordinator
  (i, task) ← or_fail (find_task w.board c.task_id) Errors.missing_task
  require (state_eq task.state TaskState.planned) Errors.illegal_transition
  let state : TaskState = start_state w.board task.id
  let next : Board = set_task i (λ t. record t { state = state }) w.board
  changed ← or_panic (get_elem? next.tasks i)
  ok (emit c (state_event task changed c.reason) (record w { board = next }))

-- What `task.retry` writes to the task before it chooses the state.
unfoldable pub restarted : Task → Task
restarted t = record t {
  attempt_count = pos 0;
  user_retries = inc_int t.user_retries;
  next_eligible_at = zero_time;
  failure_class = FailureClass.no_failure;
  blocked_reason = [];
  active_attempt_id = [];
  active_lease_id = [];
}

-- `task.State != TaskFailed && task.State != TaskRetryWait && task.State != TaskIntegrating`, negated.
abbrev pub is_stopped : TaskState → Bool
is_stopped TaskState.failed = true
is_stopped TaskState.retry_wait = true
is_stopped TaskState.integrating = true
is_stopped _ = false

unfoldable pub task_retry : Command → Work → Checked Work
unfolding require_initialized require_role find_task restarted start_state modify emit
task_retry c w = do
  require_initialized w.board
  require_role c ActorRole.coordinator
  refuse (is_empty c.reason) Errors.reason_required
  (i, task) ← or_fail (find_task w.board c.task_id) Errors.missing_task
  require (is_stopped task.state) Errors.illegal_transition
  let cleared : Board = set_task i restarted w.board
  let state : TaskState = start_state cleared task.id
  let next : Board = set_task i (λ t. record t { state = state }) cleared
  changed ← or_panic (get_elem? next.tasks i)
  ok (
      emit c
        (record (event EventType.task_retry_requested) {
          task = some changed;
          previous_state = task.state;
          current_state = state;
          reason = c.reason;
        })
        (record w { board = next }))

-- `next.Paused == pause`.
abbrev same_bool : Bool → Bool → Bool
same_bool true b = b
same_bool false b = not b

-- board.pause with `true` and board.resume with `false`.
unfoldable pub set_paused : Bool → Command → Work → Checked Work
unfolding require_initialized require_role emit
set_paused pause c w = do
  require_initialized w.board
  require_role c ActorRole.coordinator
  refuse (pause && is_empty c.reason) Errors.reason_required
  refuse (same_bool w.board.paused pause) Errors.already_in_state
  let next : Board = record w.board {
    paused = pause;
    pause_reason = if pause then c.reason else [];
  }
  let type : EventType = if pause then EventType.board_paused else EventType.board_resumed
  ok (emit c (record (event type) { reason = c.reason }) (record w { board = next }))
