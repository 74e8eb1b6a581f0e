-- ===== src/Samples/PlanWitnesses.antt =====
-- The theorems on plans at a concrete proposal.
use ago.Prelude.{◌≡◌, refl, ◌⊎◌, true, false, some, List, [], ◌∷◌, map}
use ago.Prelude.Ints.{pos}
use ago.Prelude.Outcome.{ok}
use ago.GoString.{GoString, codes, GoString-discrete}
use ago.Protocol.Acyclic.Chains.{Chain}
use ago.Planner.{GateProposal, PlanRequest, TaskProposal, DependencyProposal, Plan}
use ago.Planner.Validate.{validate_plan}
use ago.Planner.Checks.{has_cycle, as_dependency}
use ago.Planner.Validate.Cycles.{has_cycle_total}
use ago.Planner.Validate.Accepted.{IsSound, validate_plan-IsSound}

abbrev job : GoString → TaskProposal
job id = record {
  id = id;
  title = codes "task";
  description = codes "text";
  path_scopes = codes "src/a" ∷ [];
  acceptance_criteria = codes "ok" ∷ [];
  verifier_ids = codes "v" ∷ [];
  capability_tags = codes "go" ∷ [];
}

abbrev gates : List GateProposal
gates =
    record {
      id = codes "g";
      title = codes "tests";
      acceptance_criteria = codes "green" ∷ [];
      verifier_ids = codes "v" ∷ [];
    }
    ∷ []

abbrev request : PlanRequest
request = record {
  repository = record { id = codes "repo"; revision = codes "r0" };
  objective = record { id = codes "o"; summary = codes "ship" };
  project_gates = gates;
  constraints = record {
    path_scopes = codes "src" ∷ [];
    capability_tags = codes "go" ∷ [];
    verifier_ids = codes "v" ∷ [];
    max_tasks = pos 0;
    max_dependencies = pos 0;
  };
}

abbrev order : DependencyProposal
order = record { task_id = codes "u"; depends_on = codes "t" }

abbrev proposal : Plan
proposal = record {
  schema_version = pos 1;
  repository = request.repository;
  objective = request.objective;
  tasks = job (codes "t") ∷ job (codes "u") ∷ [];
  dependencies = order ∷ [];
  project_gates = gates;
}

abbrev unchanged : GoString → GoString
unchanged s = s

proposal_accepted : validate_plan unchanged (some []) proposal request ≡ ok tt
unfolding validate_plan GoString-discrete
proposal_accepted = refl

validate_plan-IsSound_example : IsSound unchanged request.constraints proposal
validate_plan-IsSound_example =
    validate_plan-IsSound unchanged (some []) proposal request proposal_accepted

has_cycle_total_example :
    (has_cycle (codes "t" ∷ codes "u" ∷ []) (map as_dependency (order ∷ [])) ≡ ok false)
    ⊎ ((has_cycle (codes "t" ∷ codes "u" ∷ []) (map as_dependency (order ∷ [])) ≡ ok true)
        × ((a : GoString) × Chain (map as_dependency (order ∷ [])) a a))
has_cycle_total_example =
    has_cycle_total (codes "t" ∷ codes "u" ∷ []) (map as_dependency (order ∷ []))
