-- ===== src/Protocol/Validate/WellFormed.antt =====
-- Well-formed boards: what `Board.Validate` of internal/agoboardprotocol/protocol.go is for, without
-- the order of its loops.
use mathlib.Core.List.{Memᴰ}
use ago.Prelude.{◌<◌, ◌≡◌, ◌⊎◌}
use ago.GoString.{GoString}
use ago.Protocol.Records.{Board, Attempt, Lease, Evidence}
use ago.Protocol.Acyclic.Chains.{Chain}
use ago.Prelude.Grows.{All}
use ago.Protocol.Validate.Distinct.{Listed, Distinct}

-- What is required of an attempt: its task exists, and its generation was handed out.
pub record AttemptFits (b : Board) (a : Attempt) : Type 0 where
  pub task : Listed (λ t. t.id) b.tasks a.task_id
  pub generation : (a.generation ≡ 0) ⊎ (a.generation < b.next_generation)

-- What is required of a lease: it agrees with its attempt.
pub record LeaseFits (b : Board) (l : Lease) : Type 0 where
  pub attempt : Attempt
  pub listed : Memᴰ attempt b.attempts
  pub id : attempt.id ≡ l.attempt_id
  pub task_id : attempt.task_id ≡ l.task_id
  pub worker_id : attempt.worker_id ≡ l.worker_id
  pub generation : attempt.generation ≡ l.generation
  pub fencing_token : attempt.fencing_token ≡ l.fencing_token

-- What is required of an evidence record: it belongs to its attempt.
pub record EvidenceFits (b : Board) (e : Evidence) : Type 0 where
  pub attempt : Attempt
  pub listed : Memᴰ attempt b.attempts
  pub id : attempt.id ≡ e.attempt_id
  pub task_id : attempt.task_id ≡ e.task_id
  pub worker_id : attempt.worker_id ≡ e.worker_id

pub record IsWellFormed (b : Board) : Type 0 where
  pub task_ids : Distinct (λ t. t.id) b.tasks
  pub dependency_ids : Distinct (λ d. d.id) b.dependencies
  pub attempt_ids : Distinct (λ a. a.id) b.attempts
  pub lease_ids : Distinct (λ l. l.id) b.leases
  pub evidence_ids : Distinct (λ e. e.id) b.evidence
  pub acyclic : (a : GoString) → ¬ Chain b.dependencies a a
  pub attempts : All (AttemptFits b) b.attempts
  pub leases : All (LeaseFits b) b.leases
  pub evidence : All (EvidenceFits b) b.evidence
