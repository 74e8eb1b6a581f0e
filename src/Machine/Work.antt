-- ===== src/Machine/Work.antt =====
-- What internal/agoboardprotocol/state_machine.go works on while it applies a command: the variables
-- `next` and `events` of `Apply`, its closures, and the searches at the end of the file.
pub mod Wakeups
use ago.Prelude.{
  ℕ, zero, suc, ◌+◌, Bool, true, false, ◌&&◌, not, Option, none, some, List, [], ◌∷◌, ◌++◌, length,
  get_elem?, modify, find_index, is_empty, if◌then◌else◌,
}
use ago.Prelude.Ints.{inc_u64}
use ago.Prelude.Outcome.{refuse, require}
use ago.GoString.{GoString, codes, str_eq, print_nat}
use ago.Protocol.Errors
use ago.Protocol.Errors.{Checked}
use ago.Protocol.States.{TaskState, ActorRole, role_eq, state_eq, EventType}
use ago.Protocol.Records.{
  Board, Task, Attempt, Lease, Evidence, Dependency, zero_task, zero_attempt,
}
use ago.Protocol.Commands.{Command, Event, Draft, event}
use ago.Protocol.Retry.{schema_version}

pub record Work : Type 0 where
  pub board : Board
  pub events : List Event

-- The closure `emit`.
unfoldable pub emit : Command → Draft → Work → Work
unfolding print_nat
emit c d w = record { board = next; events = w.events ++ e ∷ [] }
  where
    next : Board
    next = record w.board { version = inc_u64 w.board.version }

    e : Event
    e = record {
      schema_version = schema_version;
      id = c.id ++ codes ":" ++ print_nat (length w.events + 1);
      command_id = c.id;
      board_id = next.id;
      version = next.version;
      actor = c.actor;
      type = d.type;
      task = d.task;
      dependency = d.dependency;
      attempt = d.attempt;
      lease = d.lease;
      evidence = d.evidence;
      previous_state = d.previous_state;
      current_state = d.current_state;
      reason = d.reason;
    }

-- The closure `requireRole`.
unfoldable pub require_role : Command → ActorRole → Checked (Unit {0})
require_role c role = require (role_eq c.actor.role role) Errors.wrong_role

unfoldable pub require_initialized : Board → Checked (Unit {0})
require_initialized b = refuse (is_empty b.id) Errors.not_initialized

unfoldable pub find_task : Board → GoString → Option (ℕ × Task)
unfolding find_index
find_task b id = find_index (λ t. str_eq t.id id) b.tasks

unfoldable pub find_attempt : Board → GoString → Option (ℕ × Attempt)
unfolding find_index
find_attempt b id = find_index (λ a. str_eq a.id id) b.attempts

unfoldable pub find_lease : Board → GoString → Option (ℕ × Lease)
unfolding find_index
find_lease b id = find_index (λ l. str_eq l.id id) b.leases

unfoldable pub find_evidence : Board → GoString → Option (ℕ × Evidence)
unfolding find_index
find_evidence b id = find_index (λ e. str_eq e.id id) b.evidence

-- `taskFor`, and the two halves of `taskAndAttempt`: the zero value stands for a missing record.
unfoldable pub task_for : Board → GoString → Task
unfolding find_task
task_for b id = elim (find_task b id) [ none ↦ zero_task | some (i, t) ↦ t ]

unfoldable pub attempt_for : Board → GoString → Attempt
unfolding find_attempt
attempt_for b id = elim (find_attempt b id) [ none ↦ zero_attempt | some (i, a) ↦ a ]

unfoldable pub task_and_attempt : Board → GoString → GoString → Task × Attempt
unfolding task_for attempt_for
task_and_attempt b task_id attempt_id = (task_for b task_id, attempt_for b attempt_id)

-- `next.Tasks[i].… = …` and the like.
abbrev pub set_task : ℕ → (Task → Task) → Board → Board
set_task i f b = record b { tasks = modify b.tasks i f }

abbrev pub set_attempt : ℕ → (Attempt → Attempt) → Board → Board
set_attempt i f b = record b { attempts = modify b.attempts i f }

abbrev pub set_lease : ℕ → (Lease → Lease) → Board → Board
set_lease i f b = record b { leases = modify b.leases i f }

abbrev pub set_evidence : ℕ → (Evidence → Evidence) → Board → Board
set_evidence i f b = record b { evidence = modify b.evidence i f }

-- The body of the loop of `dependenciesPassed`: one dependency does not hold the task back.
unfoldable pub dependency_passed : Board → GoString → Dependency → Bool
unfolding find_task
dependency_passed b id d =
    if not (str_eq d.task_id id) then true else elim (find_task b d.depends_on) [
      | none ↦ false
      | some (i, t) ↦ state_eq t.state TaskState.passed
    ]

all_dependencies_passed : Board → GoString → List Dependency → Bool
unfolding dependency_passed
all_dependencies_passed b id [] = true
all_dependencies_passed b id (d ∷ ds) = dependency_passed b id d && all_dependencies_passed b id ds

unfoldable pub dependencies_passed : Board → GoString → Bool
unfolding all_dependencies_passed
dependencies_passed b id = all_dependencies_passed b id b.dependencies

-- `stateEvent`.
abbrev pub state_event : Task → Task → GoString → Draft
state_event previous current reason = record (event EventType.task_state_changed) {
  task = some current;
  previous_state = previous.state;
  current_state = current.state;
  reason = reason;
}

-- One round of `unblockReadyTasks`, at an index that is in range.
unfoldable pub unblock : Command → Work → ℕ → Task → Work
unblock c w i t =
    if state_eq t.state TaskState.blocked && dependencies_passed w.board t.id
    then emit c (state_event t (record t { state = TaskState.ready }) (codes "dependencies passed"))
        (record w { board = set_task i (λ u. record u { state = TaskState.ready }) w.board })
    else w

unfoldable pub unblock_at : Command → ℕ → Work → Work
unblock_at c i w = elim (get_elem? w.board.tasks i) [ none ↦ w | some t ↦ unblock c w i t ]

-- The rounds that are left, from the index `i`.
unfoldable pub unblock_from : Command → ℕ → ℕ → Work → Work
unblock_from c zero i w = w
unblock_from c (suc n) i w = unblock_from c n (i + 1) (unblock_at c i w)

-- `unblockReadyTasks`.
unfoldable pub unblock_ready_tasks : Command → Work → Work
unblock_ready_tasks c w = unblock_from c (length w.board.tasks) 0 w
