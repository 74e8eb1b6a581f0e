-- ===== src/Samples/RunWitnesses.antt =====
-- The theorems on the supervisor and the scheduler at small databases.
use mathlib.Core.List.{Memᴰ}
use mathlib.Core.List.Perm
use ago.Prelude.{◌≡◌, refl, ◌⊎◌, ◌↔◌, Bool, true, some, List, [], ◌∷◌, ◌++◌, length}
use ago.Prelude.Ints.{pos}
use ago.Prelude.Outcome.{ok}
use ago.GoString.{GoString, codes}
use ago.Protocol.States.{FailureClass, TaskState-discrete}
use ago.Protocol.Records.{Board, Task}
use ago.Supervisor.{Decision, started, World, DecisionKind, escalation_for}
use ago.Supervisor.Attention.{already_raised}
use ago.Supervisor.Attention.Orderly.{Orderly}
use ago.Supervisor.Waiting.{every_remaining_stop_needs_a_person}
use ago.Supervisor.Waiting.Stuck.{IsStuck, needs_a_person-IsStuck}
use ago.Supervisor.Review.{run_goal, review_task, review_stopped_work}
use ago.Supervisor.Review.Lawful.{run_goal-Orderly}
use ago.Supervisor.Review.Silence.{
  IsHandedOver, actionable, review_task-IsHandedOver, review_stopped_work-answered,
}
use ago.Scheduler.{Call}
use ago.Scheduler.Gating.{run_project_gate}
use ago.Scheduler.Gating.Due.{IsDue, run_project_gate-calls}
use ago.Scheduler.Dispatching.{claim_and_dispatch}
use ago.Scheduler.Dispatching.Once.{Executes, claim_and_dispatch-Executes}
use ago.Scheduler.Verifying.{verify_one}
use ago.Scheduler.Verifying.Durable.{Judges, verify_one-Judges}
use ago.Samples.Shop.{ready_board, shop, moment}
use ago.Samples.Pilot.{
  stopped_board, stopped_shop, pilot, bare, bare_seen, bare_seen_lem, passing, keeper, at_work,
  goal, judged,
}

abbrev first : World
first = started (stopped_shop FailureClass.auth)

run_goal-Orderly_example :
    Orderly (pos 16) (run_goal pilot (pos 2) first).0
    × (more : List Decision) × ((run_goal pilot (pos 2) first).0.announced ≡ [] ++ more)
run_goal-Orderly_example =
    run_goal-Orderly pilot (pos 2) first (record { ascending = tt; told = Perm.rfl; within = refl })

abbrev raised : Decision
raised = record {
  kind = DecisionKind.credential;
  task_id = codes "t";
  title = codes "task";
  reason = [];
  suggestion = [];
  raised_at = moment 0;
  attempts_used = pos 0;
}

needs_a_person-IsStuck_example :
    (r : Bool) × (every_remaining_stop_needs_a_person
        (raised ∷ [])
        (stopped_board FailureClass.auth)
      ≡ some r)
    × ((r ≡ true) ↔ IsStuck (raised ∷ []) (stopped_board FailureClass.auth))
needs_a_person-IsStuck_example =
    needs_a_person-IsStuck (raised ∷ []) (stopped_board FailureClass.auth)

stuck_runs :
    every_remaining_stop_needs_a_person (raised ∷ []) (stopped_board FailureClass.auth) ≡ some true
unfolding every_remaining_stop_needs_a_person stopped_board
stuck_runs = refl

abbrev stopped_task : Task
unfolding stopped_board
stopped_task = elim (stopped_board FailureClass.auth).tasks [
  | [] ↦ ago.Protocol.Records.zero_task
  | t ∷ ts ↦ t
]

review_task-IsHandedOver_example :
    IsHandedOver stopped_task first (review_task pilot stopped_task first)
unfolding stopped_board already_raised escalation_for TaskState-discrete
review_task-IsHandedOver_example = review_task-IsHandedOver pilot stopped_task first refl refl refl

review_stopped_work-answered_example :
    (already_raised stopped_task.id
        (review_stopped_work pilot (stopped_board FailureClass.auth) first).0.decisions
      ≡ true)
    ⊎ (actionable pilot stopped_task ≡ true)
unfolding stopped_board review_stopped_work TaskState-discrete
review_stopped_work-answered_example =
    review_stopped_work-answered pilot (stopped_board FailureClass.auth) first stopped_task refl
      (Memᴰ.head refl) refl

run_project_gate-calls_example :
    ((revision : GoString) × IsDue bare_seen revision
      × ((run_project_gate keeper (codes "b") (at_work bare)).0.calls
          ≡ [] ++ (Call.gated bare_seen.repository revision bare_seen.gate.commands ∷ [])))
    ⊎ (((revision : GoString) → ¬ IsDue bare_seen revision)
        × (run_project_gate keeper (codes "b") (at_work bare) ≡ (at_work bare, ok tt)))
run_project_gate-calls_example =
    run_project_gate-calls keeper (codes "b") passing (at_work bare) bare_seen refl bare_seen_lem

gate_runs :
    (run_project_gate keeper (codes "b") (at_work bare)).0.calls
    ≡ Call.gated (codes "repo") (codes "r0") (codes "go test ./..." ∷ []) ∷ []
unfolding run_project_gate bare ago.Samples.Shop.codec
gate_runs = refl

claim_and_dispatch-Executes_example :
    ((claim_and_dispatch keeper (codes "b") (at_work shop)).0.calls ≡ [])
    ⊎ Executes keeper
        (codes "b")
        (at_work shop)
        (claim_and_dispatch keeper (codes "b") (at_work shop)).0.calls
claim_and_dispatch-Executes_example = claim_and_dispatch-Executes keeper (codes "b") (at_work shop)

abbrev plan : ago.Planner.Plan
plan = record {
  schema_version = pos 1;
  repository = record { id = codes "repo"; revision = codes "r0" };
  objective = record { id = codes "o"; summary = codes "ship it" };
  tasks = [];
  dependencies = [];
  project_gates = [];
}

verify_one-Judges_example :
    ((verify_one keeper (codes "b") goal plan (codes "e") (at_work judged)).0.calls ≡ [])
    ⊎ Judges keeper
        (codes "b")
        goal
        plan
        (codes "e")
        (at_work judged)
        (verify_one keeper (codes "b") goal plan (codes "e") (at_work judged)).0.calls
verify_one-Judges_example =
    verify_one-Judges keeper (codes "b") goal plan (codes "e") (at_work judged)

verify_runs :
    length (verify_one keeper (codes "b") goal plan (codes "e") (at_work judged)).0.calls ≡ 1
unfolding verify_one judged ago.Samples.Shop.codec
verify_runs = refl
