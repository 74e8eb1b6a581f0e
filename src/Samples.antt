-- ===== src/Samples.antt =====
-- A small board and the commands that drive it, for the instances of the theorems.
pub mod Commands
pub mod Witnesses
pub mod Shop
pub mod Mall
pub mod StoreWitnesses
pub mod PlanWitnesses
pub mod Pilot
pub mod RunWitnesses
use ago.Samples.Commands.{create, add, link, activate, claim, begin, submit, decide, relax}
use ago.Prelude.{
  ℕ, get_elem?, is_empty, ◌+◌, ◌*◌, ◌≡◌, refl, none, some, Option, List, [], ◌∷◌, Bool, true, false,
  map,
}
use ago.Prelude.Ints.{pos}
use ago.Prelude.Outcome.{Outcome, ok, err, panic, ◌>>=◌}
use ago.GoString.{GoString, codes, GoString-discrete}
use ago.Clock.{Time, zero_time}
use ago.Protocol.Errors.{Checked}
use ago.Protocol.States.{
  TaskState, AccessMode, FailureClass, ActorRole, CommandType, GateState, TaskState-discrete,
  AttemptState-discrete, ActorRole-discrete, PatchOperation,
}
use ago.Protocol.Records.{Board, Task, zero_task, EvidenceResult, TestRecord, zero_gate}
use ago.Protocol.Commands.{Command, LeaseSpec}
use ago.Protocol.Retry.{schema_version}
use ago.Protocol.Acyclic.{validate_acyclic}
use ago.Protocol.Validate.{
  validate, validate_tasks, check_task, validate_dependencies, check_dependency,
  validate_attempts_leases_evidence, validate_attempts, check_attempt, validate_leases, check_lease,
  validate_evidence, check_evidence,
}
use ago.Machine.Work.{
  Work, require_role, require_initialized, find_task, emit, unblock, unblock_at, unblock_from,
  unblock_ready_tasks,
}
use ago.Machine.Graph.{
  board_create, task_add, dependency_add, task_activate, task_retry, set_paused,
}
use ago.Machine.Leases.{
  check_lease_spec, check_claim, check_new_lease, check_new_attempt, claimed, lease_acquire,
  lease_expire, lease_renew,
}
use ago.Machine.Execution.{attempt_start, evidence_submit, attempt_fail}
use ago.Machine.Review.{evidence_accept, evidence_reject, verification_deferred}
use ago.Machine.Integration.{integration_complete, integration_fail, gate_result}
use ago.Machine.Patch.{
  plan_patch, apply_patch_step, patch_case, patch_add_task, patch_add_dependency,
  patch_remove_dependency, patch_update_acceptance, patch_supersede_task, patch_cancel_task,
}
use ago.Machine.Apply.{apply, dispatch, check_current}

abbrev pub empty_board : Board
empty_board = record {
  schema_version = pos 0;
  id = [];
  version = 0;
  title = [];
  tasks = [];
  dependencies = [];
  attempts = [];
  leases = [];
  evidence = [];
  repository = [];
  base_revision = [];
  integration_ref = [];
  integrated_revision = [];
  next_generation = 0;
  paused = false;
  pause_reason = [];
  gate = zero_gate;
}

abbrev pub is_ok : {E A : Type 0} → Outcome E A → Bool
is_ok (ok w) = true
is_ok _ = false

abbrev pub value_or : {E A : Type 0} → A → Outcome E A → A
value_or v (ok w) = w
value_or v _ = v

-- The work after a command, or nothing done where it fails.
unfoldable pub result : Board → Command → Work
result b c = value_or (record { board = b; events = [] }) (apply b c)

pub value_of_ok : {E A : Type 0} (v : A) (m : Outcome E A) → is_ok m ≡ true → m ≡ ok (value_or v m)
value_of_ok v (ok w) h = refl
value_of_ok v (err e) h = cc
value_of_ok v panic h = cc

pub apply-result :
    (b : Board) (c : Command) → is_ok (apply b c) ≡ true → apply b c ≡ ok (result b c)
unfolding result
apply-result b c h = value_of_ok _ (apply b c) h

-- The board after the commands in turn. The line names what a run computes with.
unfoldable pub play : Board → List Command → Board
unfolding result apply dispatch check_current board_create task_add dependency_add task_activate
    task_retry set_paused lease_expire lease_renew attempt_start evidence_submit attempt_fail
    evidence_accept evidence_reject verification_deferred integration_complete integration_fail
    gate_result plan_patch apply_patch_step patch_case patch_add_task patch_add_dependency
    patch_remove_dependency patch_update_acceptance patch_supersede_task patch_cancel_task unblock
    unblock_at unblock_from unblock_ready_tasks validate validate_tasks check_task
    validate_dependencies check_dependency validate_acyclic validate_attempts_leases_evidence
    validate_attempts check_attempt validate_leases check_lease validate_evidence check_evidence
    lease_acquire check_lease_spec check_claim check_new_lease check_new_attempt claimed
    require_role require_initialized find_task emit GoString-discrete TaskState-discrete
    AttemptState-discrete ActorRole-discrete
play b [] = b
play b (c ∷ cs) = play (result b c).board cs

-- Two tasks, the second waiting for the first, both activated.
abbrev pub planned : List Command
planned =
    create
    ∷ add (codes "t") 1
    ∷ add (codes "u") 2
    ∷ link
    ∷ activate (codes "t") 4
    ∷ activate (codes "u") 5
    ∷ []

-- The first task is claimed, worked on and handed in.
abbrev pub handed_in : List Command
handed_in =
    create
    ∷ add (codes "t") 1
    ∷ add (codes "u") 2
    ∷ link
    ∷ activate (codes "t") 4
    ∷ activate (codes "u") 5
    ∷ claim
    ∷ begin
    ∷ submit
    ∷ []

unfoldable pub start : Board
unfolding play
start = play empty_board planned

unfoldable pub review : Board
unfolding play
review = play empty_board handed_in

abbrev states : Board → List TaskState
states b = map (λ t. t.state) b.tasks

states-start : states start ≡ TaskState.ready ∷ TaskState.blocked ∷ []
unfolding start
states-start = refl

states-review : states review ≡ TaskState.verifying ∷ TaskState.blocked ∷ []
unfolding review
states-review = refl

states-accepted :
    states (result review (decide CommandType.evidence_accept)).board
    ≡ TaskState.passed ∷ TaskState.ready ∷ []
unfolding review
states-accepted = refl

states-rejected :
    states (result review (decide CommandType.evidence_reject)).board
    ≡ TaskState.retry_wait ∷ TaskState.blocked ∷ []
unfolding review
states-rejected = refl

pub start_initialized : is_empty start.id ≡ false
unfolding start
start_initialized = refl

pub claim_succeeds : is_ok (apply start claim) ≡ true
unfolding start
claim_succeeds = refl

pub accept_succeeds : is_ok (apply review (decide CommandType.evidence_accept)) ≡ true
unfolding review
accept_succeeds = refl

pub reject_succeeds : is_ok (apply review (decide CommandType.evidence_reject)) ≡ true
unfolding review
reject_succeeds = refl

pub review_valid : validate review ≡ ok tt
unfolding review
review_valid = refl

pub relax_succeeds : is_ok (apply start relax) ≡ true
unfolding start
relax_succeeds = refl

states-relaxed : states (result start relax).board ≡ TaskState.ready ∷ TaskState.ready ∷ []
unfolding start
states-relaxed = refl

abbrev pub has_value : {A : Type 0} → Option A → Bool
has_value none = false
has_value (some a) = true

abbrev pub default : {A : Type 0} → A → Option A → A
default d none = d
default d (some a) = a

pub some_of_value :
    {A : Type 0} (d : A) (o : Option A) → has_value o ≡ true → o ≡ some (default d o)
some_of_value d none h = cc
some_of_value d (some a) h = refl

-- The second task after the patch.
abbrev pub waiter : Task
waiter = default zero_task (get_elem? (result start relax).board.tasks 1)

waiter_listed : has_value (get_elem? (result start relax).board.tasks 1) ≡ true
unfolding start
waiter_listed = refl

pub waiter-relaxed : get_elem? (result start relax).board.tasks 1 ≡ some waiter
waiter-relaxed = some_of_value zero_task _ waiter_listed
