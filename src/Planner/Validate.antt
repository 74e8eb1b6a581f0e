-- ===== src/Planner/Validate.antt =====
-- `Plan.Validate` of internal/agoplanner/planner.go.
pub mod Cycles
pub mod Accepted
use ago.Planner.Checks.{
  PlanError, Checks, blank, bounded_limit, required_bounded_strings, values_allowed, scope_allowed,
  same_gates, check_gates, as_dependency, has_cycle, repository_eq, objective_eq,
  check_dependencies,
}
use ago.Prelude.{
  ℕ, zero, suc, ◌+◌, ◌++◌, Bool, true, false, ◌&&◌, ◌||◌, not, List, [], ◌∷◌, length, any, map,
  is_empty, is_nil, if◌then◌else◌, ltb, Option, none, some,
}
use ago.Prelude.Ints.{ℤ, pos, negsuc, eq_int, ltb_int}
use ago.Prelude.Outcome.{Outcome, ok, err, ◌>>=◌, ◌>>◌, require, refuse, or_fail}
use ago.GoString.{GoString, codes, str_eq, has_prefix, trim_space}
use ago.Protocol.Records.{Dependency}
use ago.Protocol.Acyclic.{Marks, marked, unmark, adjacent, universe}
use ago.Planner.{
  Repository, Objective, GateProposal, Constraints, PlanRequest, TaskProposal, DependencyProposal,
  Plan,
}

-- `path.Clean` is a parameter.
module _ (clean : GoString → GoString) where
  -- `validScope`.
  unfoldable pub valid_scope : GoString → Bool
  unfolding has_prefix
  valid_scope s =
      not (is_empty s)
      && not (str_eq s (codes "."))
      && not (has_prefix s (codes "/"))
      && str_eq (clean s) s
      && not (str_eq s (codes ".."))
      && not (has_prefix s (codes "../"))

  -- The loop over the scopes that a request allows.
  unfoldable pub check_roots : List GoString → Checks (Unit {0})
  unfolding valid_scope
  check_roots [] = ok tt
  check_roots (s ∷ ss) = do require (valid_scope s) PlanError.invalid_scope; check_roots ss

  -- `Request.validate`.
  unfoldable pub validate_request : PlanRequest → Checks (Unit {0})
  unfolding blank required_bounded_strings check_roots check_gates
  validate_request r = do
    refuse (blank r.repository.id || blank r.repository.revision) PlanError.repository_required
    refuse (blank r.objective.id || blank r.objective.summary) PlanError.objective_required
    refuse (is_empty r.project_gates || ltb 16 (length r.project_gates)) PlanError.gate_count
    required_bounded_strings r.constraints.path_scopes 16
    check_roots r.constraints.path_scopes
    required_bounded_strings r.constraints.verifier_ids 16
    required_bounded_strings r.constraints.capability_tags 16
    refuse
        (ltb_int r.constraints.max_tasks (pos 0)
          || ltb_int (pos 32) r.constraints.max_tasks
          || ltb_int r.constraints.max_dependencies (pos 0)
          || ltb_int (pos 128) r.constraints.max_dependencies)
        PlanError.limits_exceeded
    check_gates [] r.constraints r.project_gates

  -- The loop over the scopes of a task.
  unfoldable pub check_scopes : List GoString → List GoString → Checks (Unit {0})
  unfolding valid_scope scope_allowed
  check_scopes allowed [] = ok tt
  check_scopes allowed (s ∷ ss) = do
    require (valid_scope s && scope_allowed s allowed) PlanError.scope_not_allowed
    check_scopes allowed ss

  -- One round of the loop over the tasks; `seen` are the ids so far.
  unfoldable pub check_task : Constraints → List GoString → TaskProposal → Checks (Unit {0})
  unfolding blank any required_bounded_strings check_scopes values_allowed
  check_task c seen t = do
    refuse (blank t.id || blank t.title || blank t.description) PlanError.task_required
    refuse (any (str_eq t.id) seen) PlanError.duplicate_task
    required_bounded_strings t.acceptance_criteria 16
    required_bounded_strings t.verifier_ids 16
    required_bounded_strings t.path_scopes 16
    required_bounded_strings t.capability_tags 16
    check_scopes c.path_scopes t.path_scopes
    values_allowed t.verifier_ids c.verifier_ids
    values_allowed t.capability_tags c.capability_tags

  unfoldable pub check_tasks :
      Constraints → List GoString → List TaskProposal → Checks (List GoString)
  unfolding check_task
  check_tasks c seen [] = ok seen
  check_tasks c seen (t ∷ ts) = do check_task c seen t; check_tasks c (t.id ∷ seen) ts

  -- The last part of `Plan.Validate`: the tasks and the graph of their dependencies.
  unfoldable pub check_graph : Constraints → Plan → Checks (Unit {0})
  unfolding check_tasks check_dependencies has_cycle
  check_graph c p = do
    tasks ← check_tasks c [] p.tasks
    check_dependencies tasks [] p.dependencies
    cyclic ← has_cycle tasks (map as_dependency p.dependencies)
    refuse cyclic PlanError.has_a_cycle

  -- `Plan.Validate`, after `json.Marshal` of the plan.
  unfoldable pub validate_plan : Option GoString → Plan → PlanRequest → Checks (Unit {0})
  unfolding validate_request same_gates check_graph
  validate_plan encoded p r = do
    validate_request r
    require (eq_int p.schema_version (pos 1)) PlanError.schema_unsupported
    text ← or_fail encoded PlanError.encode
    refuse (ltb 262144 (length text)) PlanError.too_large
    require (repository_eq p.repository r.repository && objective_eq p.objective r.objective)
        PlanError.request_mismatch
    refuse
        (is_empty p.tasks
          || ltb_int (bounded_limit r.constraints.max_tasks (pos 32)) (pos (length p.tasks)))
        PlanError.task_count
    refuse
        (ltb_int (bounded_limit r.constraints.max_dependencies (pos 128))
          (pos (length p.dependencies)))
        PlanError.dependency_count
    refuse (is_empty p.project_gates || ltb 16 (length p.project_gates)) PlanError.gate_count
    require (same_gates p.project_gates r.project_gates) PlanError.gates_mismatch
    check_graph r.constraints p
