-- ===== src/Planner/Checks.antt =====
-- internal/agoplanner/planner.go: the checks of a plan that need no path.
use ago.Prelude.{
  ℕ, zero, suc, ◌+◌, ◌++◌, Bool, true, false, ◌&&◌, ◌||◌, List, [], ◌∷◌, length, any, is_empty,
  if◌then◌else◌, ltb,
}
use ago.Prelude.Ints.{ℤ, pos, eq_int}
use ago.Prelude.Outcome.{Outcome, ok, err, ◌>>=◌, ◌>>◌, require, refuse}
use ago.GoString.{GoString, codes, str_eq, has_prefix, trim_space}
use ago.Protocol.Records.{Dependency}
use ago.Protocol.Acyclic.{Marks, marked, unmark, adjacent, universe}
use ago.Planner.{Repository, Objective, GateProposal, Constraints, DependencyProposal}

-- The kinds of error; `out_of_fuel` is none of the source's.
pub data PlanError : Type 0 where
  repository_required objective_required gate_count limits_exceeded invalid_scope : PlanError
  gate_required duplicate_gate value_count blank_value duplicate_value : PlanError
  value_not_allowed schema_unsupported encode too_large request_mismatch task_count : PlanError
  dependency_count gates_mismatch task_required duplicate_task scope_not_allowed : PlanError
  task_not_found prerequisite_not_found depends_on_itself duplicate_dependency : PlanError
  has_a_cycle out_of_fuel : PlanError

abbrev pub Checks : Type 0 → Type 0
Checks = Outcome PlanError

-- `blank`.
unfoldable pub blank : GoString → Bool
unfolding trim_space
blank s = is_empty (trim_space s)

-- `boundedLimit`.
abbrev pub bounded_limit : ℤ → ℤ → ℤ
bounded_limit n maximum = if eq_int n (pos 0) then maximum else n

-- The loop of `requiredBoundedStrings`; `seen` are the values so far.
unfoldable pub check_values : List GoString → List GoString → Checks (Unit {0})
unfolding blank any
check_values seen [] = ok tt
check_values seen (v ∷ vs) = do
  refuse (blank v) PlanError.blank_value
  refuse (any (str_eq v) seen) PlanError.duplicate_value
  check_values (v ∷ seen) vs

-- `requiredBoundedStrings`.
unfoldable pub required_bounded_strings : List GoString → ℕ → Checks (Unit {0})
unfolding check_values
required_bounded_strings vs maximum = do
  refuse (is_empty vs || ltb maximum (length vs)) PlanError.value_count
  check_values [] vs

-- `valuesAllowed`.
unfoldable pub values_allowed : List GoString → List GoString → Checks (Unit {0})
unfolding blank any
values_allowed [] allowed = ok tt
values_allowed (v ∷ vs) allowed = do
  refuse (blank v) PlanError.blank_value
  require (any (str_eq v) allowed) PlanError.value_not_allowed
  values_allowed vs allowed

-- `scopeAllowed`.
unfoldable pub scope_allowed : GoString → List GoString → Bool
unfolding any has_prefix
scope_allowed scope allowed =
    any (λ root. str_eq scope root || has_prefix scope (root ++ codes "/")) allowed

-- `sameStrings`.
unfoldable pub same_strings : List GoString → List GoString → Bool
same_strings [] [] = true
same_strings (x ∷ xs) (y ∷ ys) = let rest = same_strings xs ys in str_eq x y && rest
same_strings _ _ = false

-- `sameGates`.
unfoldable pub same_gates : List GateProposal → List GateProposal → Bool
unfolding same_strings
same_gates [] [] = true
same_gates (x ∷ xs) (y ∷ ys) =
    let rest = same_gates xs ys in
    str_eq x.id y.id
    && str_eq x.title y.title
    && same_strings x.acceptance_criteria y.acceptance_criteria
    && same_strings x.verifier_ids y.verifier_ids
    && rest
same_gates _ _ = false

-- The loop over the gates of a request.
unfoldable pub check_gates : List GoString → Constraints → List GateProposal → Checks (Unit {0})
unfolding blank any required_bounded_strings values_allowed
check_gates seen c [] = ok tt
check_gates seen c (g ∷ gs) = do
  refuse (blank g.id || blank g.title) PlanError.gate_required
  refuse (any (str_eq g.id) seen) PlanError.duplicate_gate
  required_bounded_strings g.acceptance_criteria 16
  required_bounded_strings g.verifier_ids 8
  values_allowed g.verifier_ids c.verifier_ids
  check_gates (g.id ∷ seen) c gs

-- The adjacency of `hasCycle`: each proposal as a dependency without an id.
abbrev pub as_dependency : DependencyProposal → Dependency
as_dependency d = record { id = []; task_id = d.task_id; depends_on = d.depends_on }

-- The loop over the neighbours, which ends where a cycle is found.
unfoldable pub seek_each :
    (GoString → Marks → Checks (Bool × Marks)) → List GoString → Marks → Checks (Bool × Marks)
seek_each f [] m = ok (false, m)
seek_each f (x ∷ xs) m = f x m >>= λ r. if r.0 then ok r else seek_each f xs r.1

-- The closure `visit` of `hasCycle`: `visiting` holds the ids in state 1, `visited` those in state 2.
-- Fuel bounds the depth of the recursion.
unfoldable pub seek : List Dependency → ℕ → GoString → Marks → Checks (Bool × Marks)
unfolding seek_each marked unmark adjacent
seek deps zero id m = err PlanError.out_of_fuel
seek deps (suc fuel) id m =
    let below =
      seek_each (seek deps fuel) (adjacent deps id) (record m { visiting = id ∷ m.visiting }) in
    if marked m.visiting id
    then ok (true, m)
    else if marked m.visited id
    then ok (false, m)
    else (below >>= λ r. ok (
        if r.0
        then r
        else (false, record { visiting = unmark r.1.visiting id; visited = id ∷ r.1.visited })))

-- `hasCycle`; the order in which Go ranges over the tasks is an argument.
unfoldable pub has_cycle : List GoString → List Dependency → Checks Bool
unfolding seek
has_cycle keys deps =
    seek_each (seek deps (length (universe keys deps) + 1)) keys
      (record { visiting = []; visited = [] })
    >>= λ r. ok r.0

abbrev pub repository_eq : Repository → Repository → Bool
repository_eq a b = str_eq a.id b.id && str_eq a.revision b.revision

abbrev pub objective_eq : Objective → Objective → Bool
objective_eq a b = str_eq a.id b.id && str_eq a.summary b.summary

-- The loop over the dependencies; `seen` are the edges so far.
unfoldable pub check_dependencies :
    List GoString → List GoString → List DependencyProposal → Checks (Unit {0})
unfolding any
check_dependencies tasks seen [] = ok tt
check_dependencies tasks seen (d ∷ ds) = do
  require (any (str_eq d.task_id) tasks) PlanError.task_not_found
  require (any (str_eq d.depends_on) tasks) PlanError.prerequisite_not_found
  refuse (str_eq d.task_id d.depends_on) PlanError.depends_on_itself
  let key : GoString = d.task_id ++ (0 ∷ d.depends_on)
  refuse (any (str_eq key) seen) PlanError.duplicate_dependency
  check_dependencies tasks (key ∷ seen) ds
