-- ===== src/Scheduler/Verifying/Shown.antt =====
-- What `verifyPending` of internal/agoscheduler/scheduler.go hands to the verifier.
use ago.Prelude.{
  ◌≡◌, refl, none, some, List, [], ◌∷◌, find, Bool-cases, Option-cases, ◌⊎◌, inl, inr,
}
use ago.Prelude.Ints.{pos}
use ago.GoString.{GoString, str_eq}
use ago.Planner.{Plan, TaskProposal}
use ago.Protocol.Records.{Board, Task, Evidence, Attempt}
use ago.Scheduler.{Goal, Input}
use ago.Scheduler.Steps.{proposal_for, attempt_number_of}
use ago.Scheduler.Verifying.{verification_input}

-- The attempt of the evidence gives its number, which is 1 where it is not on the board.
pub data Numbers (b : Board) (e : Evidence) (i : Input) : Type 0 where
  listed :
      (a : Attempt)
      → find (λ x. str_eq x.id e.attempt_id) b.attempts ≡ some a
      → i.attempt_number ≡ a.number
      → Numbers b e i
  unlisted :
      find (λ x. str_eq x.id e.attempt_id) b.attempts ≡ none
      → i.attempt_number ≡ pos 1
      → Numbers b e i

-- The proposal of the task gives its description and its scopes; without one there are none.
pub data Proposes (plan : Plan) (e : Evidence) (i : Input) : Type 0 where
  proposed :
      (p : TaskProposal)
      → find (λ x. str_eq x.id e.task_id) plan.tasks ≡ some p
      → i.task_description ≡ p.description
      → i.allowed_path_scopes ≡ p.path_scopes
      → Proposes plan e i
  unplanned :
      find (λ x. str_eq x.id e.task_id) plan.tasks ≡ none
      → i.task_description ≡ []
      → i.allowed_path_scopes ≡ []
      → Proposes plan e i

-- The input shows the piece of evidence, its task and what the goal and the plan say of it.
pub record Shows (goal : Goal) (plan : Plan) (b : Board) (t : Task) (e : Evidence) (i : Input)
    : Type 0 where
  pub evidence : i.evidence ≡ e
  pub evidence_id : i.evidence_id ≡ e.id
  pub task_id : i.task_id ≡ e.task_id
  pub title : i.task_title ≡ t.title
  pub criteria : i.acceptance_criteria ≡ t.terminal_contract.acceptance_criteria
  pub objective : i.objective ≡ goal.objective.summary
  pub revision : i.integrated_revision ≡ b.integrated_revision
  pub number : Numbers b e i
  pub proposal : Proposes plan e i

attempt_number_of-find :
    (id : GoString) (as' : List Attempt)
    → ((a : Attempt) × (find (λ x. str_eq x.id id) as' ≡ some a)
        × (attempt_number_of as' id ≡ a.number))
      ⊎ ((find (λ x. str_eq x.id id) as' ≡ none) × (attempt_number_of as' id ≡ pos 1))
unfolding attempt_number_of find
attempt_number_of-find id [] = inr (refl, refl)
attempt_number_of-find id (a ∷ as') = elim (Bool-cases (str_eq a.id id)) [
  | inl y ↦ inl (a, rw y refl, rw y refl)
  | inr n ↦ rw n (attempt_number_of-find id as')
]

verification_input-Numbers :
    (goal : Goal) (plan : Plan) (b : Board) (t : Task) (e : Evidence)
    → Numbers b e (verification_input goal plan b t e)
unfolding verification_input
verification_input-Numbers goal plan b t e = elim (attempt_number_of-find e.attempt_id b.attempts) [
  | inl (a, p, q) ↦ listed a p q
  | inr (p, q) ↦ unlisted p q
]

verification_input-Proposes :
    (goal : Goal) (plan : Plan) (b : Board) (t : Task) (e : Evidence)
    → Proposes plan e (verification_input goal plan b t e)
unfolding verification_input proposal_for
verification_input-Proposes goal plan b t e =
    elim (Option-cases (find (λ x. str_eq x.id e.task_id) plan.tasks)) [
      | inl n ↦ unplanned n (rw n refl) (rw n refl)
      | inr (p, h) ↦ proposed p h (rw h refl) (rw h refl)
    ]

pub verification_input-Shows :
    (goal : Goal) (plan : Plan) (b : Board) (t : Task) (e : Evidence)
    → Shows goal plan b t e (verification_input goal plan b t e)
unfolding verification_input
verification_input-Shows goal plan b t e = record {
  evidence = refl;
  evidence_id = refl;
  task_id = refl;
  title = refl;
  criteria = refl;
  objective = refl;
  revision = refl;
  number = verification_input-Numbers goal plan b t e;
  proposal = verification_input-Proposes goal plan b t e;
}
