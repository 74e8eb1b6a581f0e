-- ===== src/Machine/History/Steps.antt =====
-- The helpers of internal/agoboardprotocol/state_machine.go keep the history of the board.
use ago.Machine.History.Attempts.{Keeps-if}
use ago.Prelude.{ℕ, refl, List, [], ◌∷◌, ◌++◌, arith, Option-cases, inl, inr, map}
use ago.Prelude.Ints.{ℤ, ltb_int, inc_int}
use ago.Prelude.Grows.{Grows-append, Grows-map, All-append}
use ago.Prelude.Outcome.{ok, err, panic, Ensures, Ensures->>=, ok_of_Ensures}
use ago.GoString.{GoString}
use ago.Protocol.States.{PatchOperation}
use ago.Protocol.Records.{Board, Task, Attempt, Lease, Evidence}
use ago.Protocol.Commands.{Command, PatchStep}
use ago.Protocol.Retry.{max_verification_attempts}
use ago.Machine.Work.{find_lease, task_for}
use ago.Machine.Execution.{complete_lease}
use ago.Machine.Review.{deferred_board, accepted_board, Target}
use ago.Machine.Integration.{integrated_board}
use ago.Protocol.Errors.{Checked}
use ago.Machine.Patch.{
  is_running, patch_case, end_live_work, cancelled_lease, cancelled_attempt, patch_add_task,
  patch_add_dependency, patch_remove_dependency, patch_update_acceptance, patch_supersede_task,
  patch_cancel_task, apply_patch_step, apply_patch_steps,
}
use ago.Machine.History.{
  SameTask, SameTask-refl, SameAttempt, SameLease, SameEvidence, SameEvidence-refl, InBudget, Keeps,
  Keeps-refl, Keeps-same, Keeps-trans, Keeps-task, keeps_rules,
}

pub add_task-Keeps :
    {b c : Board} (t : Task)
    → Keeps b c
    → InBudget t
    → Keeps b (record c { tasks = c.tasks ++ t ∷ [] })
add_task-Keeps {b} {c} t h k = Keeps-trans h record {
  id = refl;
  base_revision = refl;
  tasks = Grows-append SameTask SameTask-refl c.tasks _;
  attempts = (Keeps-refl c).attempts;
  leases = (Keeps-refl c).leases;
  evidence = (Keeps-refl c).evidence;
  budget = λ q. All-append InBudget c.tasks _ q (k, tt);
}

pub add_evidence-Keeps :
    {b c : Board} (e : Evidence)
    → Keeps b c
    → Keeps b (record c { evidence = c.evidence ++ e ∷ [] })
add_evidence-Keeps {b} {c} e h = Keeps-trans h record {
  id = refl;
  base_revision = refl;
  tasks = (Keeps-refl c).tasks;
  attempts = (Keeps-refl c).attempts;
  leases = (Keeps-refl c).leases;
  evidence = Grows-append SameEvidence SameEvidence-refl c.evidence _;
  budget = λ q. q;
}

pub complete_lease-Keeps : {b c : Board} (id : GoString) → Keeps b c → Keeps b (complete_lease id c)
unfolding complete_lease
complete_lease-Keeps {b} {c} id h =
    elim (Option-cases (find_lease c (task_for c id).active_lease_id)) [
      | inl e ↦ rw (e, complete_lease) h
      | inr ((i, l), e) ↦ rw (e, complete_lease) (search (keeps_rules))
    ]

pub deferred_board-Keeps :
    (c : Command) (ei ti : ℕ) (n : ℤ) (b : Board) → Keeps b (deferred_board c ei ti n b)
unfolding deferred_board
deferred_board-Keeps c ei ti n b =
    Keeps-if (ltb_int max_verification_attempts (inc_int n)) _ _ (search keeps_rules)
      (search keeps_rules)

pub accepted_board-Keeps : (c : Command) (g : Target) (b : Board) → Keeps b (accepted_board c g b)
unfolding accepted_board
accepted_board-Keeps c g b = search keeps_rules depth 10

pub integrated_board-Keeps : (c : Command) (ti : ℕ) (b : Board) → Keeps b (integrated_board c ti b)
unfolding integrated_board
integrated_board-Keeps c ti b =
    Keeps-trans (Keeps-task (Keeps-refl b) ti _ (λ t. ground arith) (λ t h. h))
      (Keeps-same refl refl refl refl refl refl)

cancelled_attempt-SameAttempt : (t : Task) (a : Attempt) → SameAttempt a (cancelled_attempt t a)
unfolding cancelled_attempt
cancelled_attempt-SameAttempt t a = ground arith

cancelled_lease-SameLease : (t : Task) (l : Lease) → SameLease l (cancelled_lease t l)
unfolding cancelled_lease
cancelled_lease-SameLease t l = ground arith

end_live_work-Keeps : (t : Task) (b : Board) → Keeps b (end_live_work t b)
unfolding end_live_work
end_live_work-Keeps t b = Keeps-if (is_running t.state) _ _ ended (Keeps-refl b)
  where
    ended : Keeps b (record b {
      leases = map (cancelled_lease t) b.leases;
      attempts = map (cancelled_attempt t) b.attempts;
    })
    ended = record {
      id = refl;
      base_revision = refl;
      tasks = (Keeps-refl b).tasks;
      attempts =
          Grows-map SameAttempt (cancelled_attempt t) (cancelled_attempt-SameAttempt t) b.attempts;
      leases = Grows-map SameLease (cancelled_lease t) (cancelled_lease-SameLease t) b.leases;
      evidence = (Keeps-refl b).evidence;
      budget = λ q. q;
    }

ruleset patch_rules = (keeps_rules, Keeps-same, Keeps-if, add_task-Keeps, end_live_work-Keeps)

module _ (p : GoString) (s : PatchStep) (b : Board) where
  add_task_step-Keeps : Ensures (Keeps b) (patch_add_task p s b)
  unfolding patch_add_task
  add_task_step-Keeps = search patch_rules depth 15

  add_dependency-Keeps : Ensures (Keeps b) (patch_add_dependency p s b)
  unfolding patch_add_dependency
  add_dependency-Keeps = search patch_rules depth 15

  remove_dependency-Keeps : Ensures (Keeps b) (patch_remove_dependency s b)
  unfolding patch_remove_dependency
  remove_dependency-Keeps = search patch_rules depth 15

  update_acceptance-Keeps : Ensures (Keeps b) (patch_update_acceptance s b)
  unfolding patch_update_acceptance
  update_acceptance-Keeps = search patch_rules depth 15

  supersede_task-Keeps : Ensures (Keeps b) (patch_supersede_task s b)
  unfolding patch_supersede_task
  supersede_task-Keeps = search patch_rules depth 15

  cancel_task-Keeps : Ensures (Keeps b) (patch_cancel_task s b)
  unfolding patch_cancel_task
  cancel_task-Keeps = search patch_rules depth 15

  patch_case-Keeps : (o : PatchOperation) → Ensures (Keeps b) (patch_case o p s b)
  unfolding patch_case
  patch_case-Keeps PatchOperation.add_task = add_task_step-Keeps
  patch_case-Keeps PatchOperation.add_dependency = add_dependency-Keeps
  patch_case-Keeps PatchOperation.remove_dependency = remove_dependency-Keeps
  patch_case-Keeps PatchOperation.update_acceptance = update_acceptance-Keeps
  patch_case-Keeps PatchOperation.supersede_task = supersede_task-Keeps
  patch_case-Keeps PatchOperation.cancel_task = cancel_task-Keeps
  patch_case-Keeps (PatchOperation.unknown t) = tt

Ensures-trans :
    (b c : Board) (m : Checked Board) → Keeps b c → Ensures (Keeps c) m → Ensures (Keeps b) m
Ensures-trans b c (ok d) h k = Keeps-trans h k
Ensures-trans b c (err e) h k = tt
Ensures-trans b c panic h k = tt

step-Keeps : (p : GoString) (s : PatchStep) (b : Board) → Ensures (Keeps b) (apply_patch_step p s b)
unfolding apply_patch_step
step-Keeps p s b = patch_case-Keeps p s b s.operation

-- A patch of any length keeps the history, step by step.
pub apply_patch_steps-Keeps :
    (p : GoString) (ss : List PatchStep) (b : Board) → Ensures (Keeps b) (apply_patch_steps p ss b)
unfolding apply_patch_steps
apply_patch_steps-Keeps p [] b = Keeps-refl b
apply_patch_steps-Keeps p (s ∷ ss) b =
    Ensures->>= (Keeps b) (apply_patch_step p s b) (λ c. apply_patch_steps p ss c)
      λ c e.
        Ensures-trans b c _ (ok_of_Ensures (Keeps b) _ (step-Keeps p s b) e)
          (apply_patch_steps-Keeps p ss c)
