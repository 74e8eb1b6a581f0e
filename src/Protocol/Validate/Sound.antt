-- ===== src/Protocol/Validate/Sound.antt =====
-- What it says of a board that `Board.Validate` of internal/agoboardprotocol/protocol.go accepts it.
use mathlib.Core.List.{Memᴰ}
use ago.Prelude.{◌≡◌, ◌⊎◌, inl, inr, refl, true, List, [], ◌∷◌, map, any, arith, subst, Bool-cases}
use ago.Prelude.Outcome.{ok, err, panic}
use ago.GoString.{GoString, str_eq}
use ago.Protocol.Errors.{Checked, Error}
use ago.Protocol.Records.{Board, Task, Dependency, Attempt}
use ago.Protocol.Acyclic.{validate_acyclic, marked}
use ago.Protocol.Acyclic.Chains.{Chain, one, more}
use ago.Protocol.Acyclic.Search.{validate_acyclic_sound}
use ago.Protocol.Validate.Distinct.{Listed, Listed-any, Fresh-Distinct}
use ago.Protocol.Validate.{
  has_task, validate_tasks, validate_dependencies, validate_attempts, validate_leases,
  validate_evidence, validate_attempts_leases_evidence, validate,
}
use ago.Protocol.Validate.WellFormed.{IsWellFormed}
use ago.Protocol.Validate.Loops.{
  validate_tasks-Fresh, validate_tasks-kept, validate_dependencies-Fresh,
  validate_dependencies-tasks, validate_attempts-Fresh, validate_attempts-kept,
  validate_attempts-All, validate_leases-Fresh, validate_evidence-Fresh, validate_leases-All,
  validate_evidence-All,
}

-- The parts of a validation that succeeded; `tasks` and `attempts` are the maps that it builds.
pub record Valid (b : Board) : Type 0 where
  pub tasks : List Task
  pub attempts : List Attempt
  pub checked_tasks : validate_tasks [] b.tasks ≡ ok tasks
  pub checked_dependencies : validate_dependencies tasks [] b.dependencies ≡ ok tt
  pub acyclic : validate_acyclic (map (λ t. t.id) tasks) b.dependencies ≡ ok tt
  pub checked_attempts : validate_attempts tasks b.next_generation [] b.attempts ≡ ok attempts
  pub checked_leases : validate_leases attempts [] b.leases ≡ ok tt
  pub checked_evidence : validate_evidence attempts [] b.evidence ≡ ok tt

Outcome-cases :
    {A : Type 0} (m : Checked A)
    → ((a : A) × (m ≡ ok a)) ⊎ (((e : Error) × (m ≡ err e)) ⊎ (m ≡ panic))
Outcome-cases (ok a) = inl (a, refl)
Outcome-cases (err e) = inr (inl (e, refl))
Outcome-cases panic = inr (inr refl)

pub validate-Valid : (b : Board) → validate b ≡ ok tt → Valid b
unfolding validate validate_attempts_leases_evidence
validate-Valid b h = elim (Outcome-cases (validate_tasks [] b.tasks)) [
  | inr (inl (e, p)) ↦ absurd (ground arith)
  | inr (inr p) ↦ absurd (ground arith)
  | inl (ts, e) ↦ elim (Outcome-cases (validate_attempts ts b.next_generation [] b.attempts)) [
    | inr (inl (e', p)) ↦ absurd (ground arith)
    | inr (inr p) ↦ absurd (ground arith)
    | inl (as', f) ↦ record {
      tasks = ts;
      attempts = as';
      checked_tasks = e;
      checked_dependencies = ground arith;
      acyclic = ground arith;
      checked_attempts = f;
      checked_leases = ground arith;
      checked_evidence = ground arith;
    }
  ]
]

pub Chain-from :
    {ds : List Dependency} {a c : GoString}
    → Chain ds a c
    → (d : Dependency) × Memᴰ d ds × (d.task_id ≡ a)
Chain-from (one p) = (p.edge, p.listed, p.from)
Chain-from (more p q) = (p.edge, p.listed, p.from)

has_task-marked :
    (ts : List Task) (id : GoString) → has_task ts id ≡ true → marked (map (λ t. t.id) ts) id ≡ true
unfolding has_task marked any
has_task-marked [] id h = cc
has_task-marked (t ∷ ts) id h = elim (Bool-cases (str_eq t.id id)) [
  | inl e ↦ ground arith
  | inr e ↦ let rest = has_task-marked ts id (ground arith) in ground (arith, rest)
]

no_seen : {A : Type 0} {x : A} {xs : List A} → Memᴰ x [] ⊎ Memᴰ x xs → Memᴰ x xs
no_seen (inl m) = elim m [ ]
no_seen (inr m) = m

module _ {b : Board} (v : Valid b) where
  task_of_board : (k : GoString) → has_task v.tasks k ≡ true → Listed (λ t. t.id) b.tasks k
  unfolding has_task
  task_of_board k h =
      let (t, m, p) = Listed-any (λ t. t.id) v.tasks k h in
      (t, no_seen (validate_tasks-kept [] b.tasks v.checked_tasks t m), p)

  attempt_of_board : (a : Attempt) → Memᴰ a v.attempts → Memᴰ a b.attempts
  attempt_of_board a m =
      no_seen
        (validate_attempts-kept v.tasks b.next_generation [] b.attempts v.checked_attempts a m)

  Valid-acyclic : (a : GoString) → ¬ Chain b.dependencies a a
  Valid-acyclic a c =
      let (d, m, p) = Chain-from c in
      validate_acyclic_sound (map (λ t. t.id) v.tasks) b.dependencies v.acyclic a
        (has_task-marked v.tasks a (
          subst (λ k. has_task v.tasks k ≡ true) p
            (validate_dependencies-tasks v.tasks [] b.dependencies v.checked_dependencies d m)))
        c

  Valid-IsWellFormed : IsWellFormed b
  Valid-IsWellFormed = record {
    task_ids = Fresh-Distinct _ [] b.tasks (validate_tasks-Fresh [] b.tasks v.checked_tasks);
    dependency_ids =
        Fresh-Distinct _ [] b.dependencies
          (validate_dependencies-Fresh v.tasks [] b.dependencies v.checked_dependencies);
    attempt_ids =
        Fresh-Distinct _ [] b.attempts
          (validate_attempts-Fresh v.tasks b.next_generation [] b.attempts v.checked_attempts);
    lease_ids =
        Fresh-Distinct _ [] b.leases
          (validate_leases-Fresh v.attempts [] b.leases v.checked_leases);
    evidence_ids =
        Fresh-Distinct _ [] b.evidence
          (validate_evidence-Fresh v.attempts [] b.evidence v.checked_evidence);
    acyclic = Valid-acyclic;
    attempts = validate_attempts-All b v.tasks task_of_board [] b.attempts v.checked_attempts;
    leases = validate_leases-All b v.attempts attempt_of_board [] b.leases v.checked_leases;
    evidence = validate_evidence-All b v.attempts attempt_of_board [] b.evidence v.checked_evidence;
  }

-- A board that Board.Validate accepts is well formed: ids are distinct among the tasks, the
-- dependencies, the attempts, the leases and the evidence, no task depends on itself through any chain
-- of dependencies, every attempt has its task and a generation that is 0 or below the next one, and
-- every lease and every evidence record agrees with an attempt of the board, the lease in its
-- generation and token too.
pub validate-IsWellFormed : (b : Board) → validate b ≡ ok tt → IsWellFormed b
validate-IsWellFormed b h = Valid-IsWellFormed (validate-Valid b h)
