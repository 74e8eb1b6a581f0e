-- ===== src/Planner/Validate/Accepted.antt =====
-- What it says of a plan that `Plan.Validate` of internal/agoplanner/planner.go accepts it.
use mathlib.Core.List.{Memᴰ}
use ago.Prelude.{◌≡◌, ap, subst, ◌∙◌, true, false, Option, List, [], ◌∷◌, ◌++◌, map, arith}
use ago.Prelude.Grows.{All}
use ago.Prelude.Outcome.{ok, first_step}
use ago.GoString.{GoString}
use ago.Protocol.Records.{Dependency}
use ago.Protocol.Acyclic.{marked}
use ago.Protocol.Acyclic.Chains.{Chain}
use ago.Protocol.Validate.Sound.{Chain-from}
use ago.Planner.{PlanRequest, TaskProposal, DependencyProposal, Plan, Constraints}
use ago.Planner.Validate.{
  valid_scope, check_scopes, check_task, check_tasks, validate_plan, check_graph,
}
use ago.Planner.Checks.{scope_allowed, check_dependencies, has_cycle, as_dependency}
use ago.Planner.Validate.Cycles.{has_cycle_sound}

check_dependencies-known :
    (tasks seen : List GoString) (ds : List DependencyProposal)
    → check_dependencies tasks seen ds ≡ ok tt
    → (d : Dependency) → Memᴰ d (map as_dependency ds)
    → marked tasks d.task_id ≡ true
unfolding check_dependencies marked
check_dependencies-known tasks seen [] h d m = elim m [ ]
check_dependencies-known tasks seen (x ∷ xs) h d (Memᴰ.head e) = ground arith
check_dependencies-known tasks seen (x ∷ xs) h d (Memᴰ.tail m) =
    check_dependencies-known tasks ((x.task_id ++ (0 ∷ x.depends_on)) ∷ seen) xs (ground arith) d m

module _ (clean : GoString → GoString) where
  -- A scope that is clean and relative, and lies under one that the request allows.
  abbrev pub Inside : List GoString → GoString → Type 0
  Inside allowed s = (valid_scope clean s ≡ true) × (scope_allowed s allowed ≡ true)

  check_scopes-Inside :
      (allowed ss : List GoString) → check_scopes clean allowed ss ≡ ok tt → All (Inside allowed) ss
  unfolding check_scopes
  check_scopes-Inside allowed [] h = tt
  check_scopes-Inside allowed (s ∷ ss) h =
      (ground arith, check_scopes-Inside allowed ss (ground arith))

  check_task-Inside :
      (c : Constraints) (seen : List GoString) (t : TaskProposal)
      → check_task clean c seen t ≡ ok tt
      → All (Inside c.path_scopes) t.path_scopes
  unfolding check_task
  check_task-Inside c seen t h = check_scopes-Inside c.path_scopes t.path_scopes (ground arith)

  check_tasks-Inside :
      (c : Constraints) (seen : List GoString) (ts : List TaskProposal) {ids : List GoString}
      → check_tasks clean c seen ts ≡ ok ids
      → All (λ t. All (Inside c.path_scopes) t.path_scopes) ts
  unfolding check_tasks
  check_tasks-Inside c seen [] h = tt
  check_tasks-Inside c seen (t ∷ ts) h =
      let (u, p, q) = first_step (check_task clean c seen t) _ h in
      (check_task-Inside c seen t p, check_tasks-Inside c (t.id ∷ seen) ts q)

  -- The graph of a plan that was accepted.
  record Accepted (c : Constraints) (p : Plan) : Type 0 where
    tasks : List GoString
    checked : check_tasks clean c [] p.tasks ≡ ok tasks
    linked : check_dependencies tasks [] p.dependencies ≡ ok tt
    acyclic : has_cycle tasks (map as_dependency p.dependencies) ≡ ok false

  check_graph-Accepted : (c : Constraints) (p : Plan) → check_graph clean c p ≡ ok tt → Accepted c p
  unfolding check_graph
  check_graph-Accepted c p h =
      let (tasks, p1, h1) = first_step (check_tasks clean c [] p.tasks) _ h in
      let (u, p2, h2) = first_step (check_dependencies tasks [] p.dependencies) _ h1 in
      let (cyclic, p3, h3) = first_step (has_cycle tasks (map as_dependency p.dependencies)) _ h2 in
      let none_found : cyclic ≡ false = ground arith in
      record { tasks = tasks; checked = p1; linked = p2; acyclic = p3 ∙ ap ok none_found }

  validate_plan-graph :
      (encoded : Option GoString) (p : Plan) (r : PlanRequest)
      → validate_plan clean encoded p r ≡ ok tt
      → check_graph clean r.constraints p ≡ ok tt
  unfolding validate_plan
  validate_plan-graph encoded p r h = ground arith

  -- The scopes of every task lie inside those that are allowed, and the dependencies have no cycle.
  pub record IsSound (c : Constraints) (p : Plan) : Type 0 where
    pub scopes : All (λ t. All (Inside c.path_scopes) t.path_scopes) p.tasks
    pub acyclic : (a : GoString) → ¬ Chain (map as_dependency p.dependencies) a a

  Accepted-acyclic :
      (c : Constraints) (p : Plan)
      → Accepted c p
      → (a : GoString) → ¬ Chain (map as_dependency p.dependencies) a a
  Accepted-acyclic c p g a chain =
      let deps = map as_dependency p.dependencies in
      let (d, m, e) = Chain-from chain in
      let known : marked g.tasks a ≡ true =
        subst (λ k. marked g.tasks k ≡ true) e
          (check_dependencies-known g.tasks [] p.dependencies g.linked d m) in
      has_cycle_sound g.tasks deps g.acyclic a known chain

  -- In a plan that is accepted, every path scope of a task is clean and relative and lies under one that
  -- the request allows, and no task depends on itself through any chain of dependencies.
  pub validate_plan-IsSound :
      (encoded : Option GoString) (p : Plan) (r : PlanRequest)
      → validate_plan clean encoded p r ≡ ok tt
      → IsSound r.constraints p
  validate_plan-IsSound encoded p r h =
      let g = check_graph-Accepted r.constraints p (validate_plan-graph encoded p r h) in
      record {
        scopes = check_tasks-Inside r.constraints [] p.tasks g.checked;
        acyclic = Accepted-acyclic r.constraints p g;
      }
