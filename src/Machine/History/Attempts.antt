-- ===== src/Machine/History/Attempts.antt =====
-- The history of a board in the steps on attempts and leases.
use ago.Prelude.{
  ℕ, zero, suc, ◌+◌, ◌≡◌, refl, Bool, true, false, arith, get_elem?, length, Option-cases, inl, inr,
  if◌then◌else◌, ◌&&◌,
}
use ago.Prelude.Grows.{Grows-append, All-modify, Grows-modify}
use ago.Prelude.Outcome.{ok, Ensures}
use ago.GoString.{GoString}
use ago.Clock.{Time}
use ago.Protocol.States.{FailureClass, AttemptState, TaskState, state_eq}
use ago.Protocol.Records.{Board, Task}
use ago.Protocol.Commands.{Command, LeaseSpec}
use ago.Machine.Work.{
  Work, unblock, dependencies_passed, unblock_at, unblock_from, unblock_ready_tasks,
}
use ago.Machine.Attempts.{failed_task, record_attempt_failure, transition_attempt}
use ago.Machine.Leases.{claimed, check_claim, leased_task}
use ago.Machine.History.{
  SameTask, SameTask-refl, SameAttempt, SameAttempt-refl, SameLease, SameLease-refl, InBudget,
  Keeps, Keeps-refl, Keeps-task, Keeps-emit, keeps_rules,
}

pub Keeps-if :
    {b : Board} (x : Bool) (c d : Board) → Keeps b c → Keeps b d → Keeps b (if x then c else d)
Keeps-if true c d h k = h
Keeps-if false c d h k = k

pub Keeps-if_work :
    {b : Board} (x : Bool) (v w : Work)
    → Keeps b v.board
    → Keeps b w.board
    → Keeps b (if x then v else w).board
Keeps-if_work true v w h k = h
Keeps-if_work false v w h k = k

unblock-Keeps :
    (c : Command) (b : Board) (w : Work) (i : ℕ) (t : Task)
    → Keeps b w.board
    → Keeps b (unblock c w i t).board
unfolding unblock
unblock-Keeps c b w i t h =
    Keeps-if_work (state_eq t.state TaskState.blocked && dependencies_passed w.board t.id) _ _
      (Keeps-emit c _ _ (Keeps-task h i _ (λ u. ground arith) (λ u q. q))) h

unblock_at-Keeps :
    (c : Command) (b : Board) (w : Work) (i : ℕ)
    → Keeps b w.board
    → Keeps b (unblock_at c i w).board
unfolding unblock_at
unblock_at-Keeps c b w i h = elim (Option-cases (get_elem? w.board.tasks i)) [
  | inl e ↦ rw (e, unblock_at) h
  | inr (t, e) ↦ rw (e, unblock_at) (unblock-Keeps c b w i t h)
]

unblock_from-Keeps :
    (c : Command) (b : Board) (n i : ℕ) (w : Work)
    → Keeps b w.board
    → Keeps b (unblock_from c n i w).board
unfolding unblock_from
unblock_from-Keeps c b zero i w h = h
unblock_from-Keeps c b (suc n) i w h =
    unblock_from-Keeps c b n (i + 1) (unblock_at c i w) (unblock_at-Keeps c b w i h)

pub unblock_ready_tasks-Keeps :
    {b : Board} (c : Command) (w : Work) → Keeps b w.board → Keeps b (unblock_ready_tasks c w).board
unfolding unblock_ready_tasks
unblock_ready_tasks-Keeps {b} c w h = unblock_from-Keeps c b (length w.board.tasks) 0 w h

failed_task-SameTask :
    (k : FailureClass) (r : GoString) (n : Time) (t : Task) → SameTask t (failed_task k r n t)
unfolding failed_task
failed_task-SameTask k r n t = ground arith

failed_task-InBudget :
    (k : FailureClass) (r : GoString) (n : Time) (t : Task)
    → InBudget t
    → InBudget (failed_task k r n t)
unfolding failed_task
failed_task-InBudget k r n t h = ground arith

pub record_attempt_failure-Keeps :
    (b : Board) (ti ai li : ℕ) (k : FailureClass) (r : GoString) (n : Time)
    → Ensures (Keeps b) (record_attempt_failure b ti ai li k r n)
unfolding record_attempt_failure
record_attempt_failure-Keeps b ti ai li k r n =
    search (keeps_rules, failed_task-SameTask, failed_task-InBudget) depth 15

pub transition_attempt-Keeps :
    (b : Board) (c : Command) (t u : TaskState) (a d : AttemptState)
    → Ensures (Keeps b) (transition_attempt b c t u a d)
unfolding transition_attempt
transition_attempt-Keeps b c t u a d = search keeps_rules depth 15

leased_task-SameTask : (s : LeaseSpec) (task t : Task) → SameTask t (leased_task s task t)
unfolding leased_task
leased_task-SameTask s task t = ground arith

leased_task-InBudget :
    (s : LeaseSpec) (task t : Task)
    → check_claim s task ≡ ok tt
    → InBudget t
    → InBudget (leased_task s task t)
unfolding leased_task check_claim
leased_task-InBudget s task t h k = ground arith

pub claimed-Keeps :
    (s : LeaseSpec) (i : ℕ) (task : Task) (b : Board)
    → check_claim s task ≡ ok tt
    → Keeps b (claimed s i task b)
unfolding claimed
claimed-Keeps s i task b h = record {
  id = refl;
  base_revision = refl;
  tasks = Grows-modify SameTask SameTask-refl _ (leased_task-SameTask s task) b.tasks i;
  attempts = Grows-append SameAttempt SameAttempt-refl b.attempts _;
  leases = Grows-append SameLease SameLease-refl b.leases _;
  evidence = (Keeps-refl b).evidence;
  budget = All-modify InBudget _ (λ t k. leased_task-InBudget s task t h k) b.tasks i;
}
