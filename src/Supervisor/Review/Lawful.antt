-- ===== src/Supervisor/Review/Lawful.antt =====
-- Every pass of the supervisor keeps its queue of decisions in order and its patches in the budget.
use ago.Prelude.{ℕ, zero, suc, ◌≡◌, refl, Bool, ◌++◌, Option, none, some, List}
use ago.Prelude.Ints.{ℤ, pos, negsuc}
use ago.Prelude.Outcome.{Outcome, ok, err, panic}
use ago.Prelude.Effect.{Keeps, for_each, Keeps-for_each, Keeps->>, Keeps->>=, update}
use ago.Clock.{Time}
use ago.Protocol.Records.{Board, Task}
use ago.Supervisor.{DecisionKind, Decision, Options, World, Supervised, Fault}
use ago.Supervisor.Attention.Orderly.{
  Orderly, Lawful, unchanged, Lawful-preorder, now-Lawful, lawful_rules,
}
use ago.Supervisor.Repair.Lawful.{
  query-Lawful, read_board-Lawful, repair_for_gate-Lawful, repair-Lawful,
}
use ago.Supervisor.Review.{
  Status, after_repair, repair_or_raise, decide, visit_task, review_task, review_stopped_work,
  after_gate_repair, repair_gate, answer_gate, review_gate_of, review_failed_gate, blocked, status,
  run_cycle, step, after_delay, wait_until, wait_for_retry, run, run_goal, after_step,
}

module _ (o : Options) where
  abbrev pub R : World → World → Type 0
  R = Lawful o.authorize.max_patches

  after_repair-Lawful : (t : Task) (r : Outcome Fault (Unit {0})) → Keeps R (after_repair o t r)
  unfolding after_repair
  after_repair-Lawful t (ok u) = search lawful_rules
  after_repair-Lawful t (err e) = search lawful_rules
  after_repair-Lawful t panic = search lawful_rules

  repair_or_raise-Lawful : (t : Task) → Keeps R (repair_or_raise o t)
  unfolding repair_or_raise
  repair_or_raise-Lawful t = search (lawful_rules, repair-Lawful, after_repair-Lawful)

  decide-Lawful : (t : Task) (k : Option DecisionKind) → Keeps R (decide o t k)
  unfolding decide
  decide-Lawful t none = repair_or_raise-Lawful t
  decide-Lawful t (some k) = search lawful_rules

  visit_task-Lawful : (r : Bool) (t : Task) → Keeps R (visit_task o r t)
  unfolding visit_task
  visit_task-Lawful r t = search (lawful_rules, decide-Lawful)

  review_task-Lawful : (t : Task) → Keeps R (review_task o t)
  unfolding review_task
  review_task-Lawful t = record { runs = λ w. (visit_task-Lawful _ t).runs w }

  after_gate_repair-Lawful :
      (b : Board) (r : Outcome Fault (Unit {0})) → Keeps R (after_gate_repair o b r)
  unfolding after_gate_repair
  after_gate_repair-Lawful b (ok u) = search lawful_rules
  after_gate_repair-Lawful b (err e) = search lawful_rules
  after_gate_repair-Lawful b panic = search lawful_rules

  repair_gate-Lawful : (b : Board) → Keeps R (repair_gate o b)
  unfolding repair_gate
  repair_gate-Lawful b = search (lawful_rules, repair_for_gate-Lawful, after_gate_repair-Lawful)

  answer_gate-Lawful : (r : Bool) (b : Board) → Keeps R (answer_gate o r b)
  unfolding answer_gate
  answer_gate-Lawful r b = search (lawful_rules, repair_gate-Lawful)

  review_gate_of-Lawful : (b : Board) → Keeps R (review_gate_of o b)
  unfolding review_gate_of
  review_gate_of-Lawful b = record { runs = λ w. (answer_gate-Lawful _ b).runs w }

  blocked-Lawful : (c : Bool) (b : Board) → Keeps R (blocked o c b)
  unfolding blocked
  blocked-Lawful c b = record { runs = λ w. unchanged _ w w refl refl refl }

  run_cycle-Lawful : Keeps R (run_cycle o)
  unfolding run_cycle
  run_cycle-Lawful = record { runs = λ w. unchanged _ w _ refl refl refl }

  after_delay-Lawful : (n : ℕ) → Keeps R (after_delay o n)
  unfolding after_delay update
  after_delay-Lawful zero = record { runs = λ w. unchanged _ w w refl refl refl }
  after_delay-Lawful (suc n) = record { runs = λ w. unchanged _ w _ refl refl refl }

  wait_until-Lawful : (t : Time) (e : Option Time) → Keeps R (wait_until o t e)
  unfolding wait_until
  wait_until-Lawful t none = search lawful_rules
  wait_until-Lawful t (some e) = search (lawful_rules, after_delay-Lawful)

  pub review_tasks-Lawful : (ts : List Task) → Keeps R (for_each ts (review_task o))
  review_tasks-Lawful ts = Keeps-for_each (Lawful-preorder _) ts (review_task o) review_task-Lawful

  review_stopped_work-Lawful : (b : Board) → Keeps R (review_stopped_work o b)
  unfolding review_stopped_work
  review_stopped_work-Lawful b = review_tasks-Lawful b.tasks

  review_failed_gate-Lawful : Keeps R (review_failed_gate o)
  unfolding review_failed_gate
  review_failed_gate-Lawful = search (lawful_rules, read_board-Lawful, review_gate_of-Lawful)

  status-Lawful : Keeps R (status o)
  unfolding status
  status-Lawful = search (lawful_rules, read_board-Lawful, query-Lawful, blocked-Lawful) depth 9

  step-Lawful : Keeps R (step o)
  unfolding step
  step-Lawful = search (
    lawful_rules, run_cycle-Lawful, read_board-Lawful, review_stopped_work-Lawful,
    review_failed_gate-Lawful, status-Lawful,
  )

  wait_for_retry-Lawful : Keeps R (wait_for_retry o)
  unfolding wait_for_retry
  wait_for_retry-Lawful = search (lawful_rules, read_board-Lawful, now-Lawful, wait_until-Lawful)

  after_step-Lawful :
      (rest : Supervised Status) (s : Status) → Keeps R rest → Keeps R (after_step o rest s)
  unfolding after_step
  after_step-Lawful rest s h = search lawful_rules

  run-Lawful : (steps : ℕ) → Keeps R (run o steps)
  unfolding run
  run-Lawful zero = search lawful_rules
  run-Lawful (suc steps) = Keeps->>= (Lawful-preorder _) _ _ step-Lawful (λ s.
      after_step-Lawful _ s
        (Keeps->> (Lawful-preorder _) _ _ wait_for_retry-Lawful (run-Lawful steps)))

  run_goal-Lawful : (limit : ℤ) → Keeps R (run_goal o limit)
  unfolding run_goal
  run_goal-Lawful (pos zero) = record { runs = (run-Lawful 512).runs }
  run_goal-Lawful (pos (suc n)) = record { runs = (run-Lawful (suc n)).runs }
  run_goal-Lawful (negsuc n) = record { runs = (run-Lawful 512).runs }

  -- However a run of the supervisor ends, its decisions are sorted by the ids of their tasks with at
  -- most one for each, they are the ones that were announced, and the patches counted stay within the
  -- budget, if this held at the start; and nothing that was announced before is taken back.
  pub run_goal-Orderly :
      (limit : ℤ) (w : World)
      → Orderly o.authorize.max_patches w
      → Orderly o.authorize.max_patches (run_goal o limit w).0
        × (more : List Decision) × ((run_goal o limit w).0.announced ≡ w.announced ++ more)
  run_goal-Orderly limit w h =
      let l = (run_goal-Lawful limit).runs w in (l.orderly h, l.more, l.said)
