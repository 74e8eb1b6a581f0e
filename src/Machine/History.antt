-- ===== src/Machine/History.antt =====
-- What every command of internal/agoboardprotocol/state_machine.go keeps of a board: its history.
-- Records are never removed or reordered, and what identifies them never changes.
pub mod Attempts
pub mod Steps
pub mod Handlers
use ago.Prelude.{ℕ, ◌≡◌, refl, ◌⊎◌, inl, inr, List, [], ◌∷◌, ◌∙◌, arith, false}
use ago.Prelude.Ints.{ℤ, inc_u64, ltb_int}
use ago.Prelude.Grows.{Grows, Grows-refl, Grows-append, Grows-modify, Grows-trans, All, All-modify}
use ago.Prelude.Outcome.{Outcome, ok, err, panic, Ensures, Ensures->>=}
use ago.GoString.{GoString}
use ago.Protocol.Records.{Board, Task, Attempt, Lease, Evidence}
use ago.Protocol.Commands.{Command, Draft}
use ago.Protocol.Retry.{max_attempts}
use ago.Machine.Work.{Work, emit, set_task, set_attempt, set_lease, set_evidence}

-- The same task: its identity, and where it came from.
pub record SameTask (t u : Task) : Type 0 where
  pub id : u.id ≡ t.id
  pub title : u.title ≡ t.title
  pub access_mode : u.access_mode ≡ t.access_mode
  pub origin : u.origin ≡ t.origin

-- The same attempt, with the fencing identity that it was leased under.
pub record SameAttempt (a b : Attempt) : Type 0 where
  pub id : b.id ≡ a.id
  pub task_id : b.task_id ≡ a.task_id
  pub worker_id : b.worker_id ≡ a.worker_id
  pub number : b.number ≡ a.number
  pub generation : b.generation ≡ a.generation
  pub fencing_token : b.fencing_token ≡ a.fencing_token

pub record SameLease (l k : Lease) : Type 0 where
  pub id : k.id ≡ l.id
  pub task_id : k.task_id ≡ l.task_id
  pub attempt_id : k.attempt_id ≡ l.attempt_id
  pub worker_id : k.worker_id ≡ l.worker_id
  pub generation : k.generation ≡ l.generation
  pub fencing_token : k.fencing_token ≡ l.fencing_token
  pub acquired_at : k.acquired_at ≡ l.acquired_at

pub record SameEvidence (e f : Evidence) : Type 0 where
  pub id : f.id ≡ e.id
  pub task_id : f.task_id ≡ e.task_id
  pub attempt_id : f.attempt_id ≡ e.attempt_id
  pub worker_id : f.worker_id ≡ e.worker_id
  pub artifact : f.artifact ≡ e.artifact
  pub result : f.result ≡ e.result

-- The retry budget of a task is not overspent.
abbrev pub InBudget : Task → Type 0
InBudget t = ltb_int max_attempts t.attempt_count ≡ false

pub record Keeps (b c : Board) : Type 0 where
  pub id : c.id ≡ b.id
  pub base_revision : c.base_revision ≡ b.base_revision
  pub tasks : Grows SameTask b.tasks c.tasks
  pub attempts : Grows SameAttempt b.attempts c.attempts
  pub leases : Grows SameLease b.leases c.leases
  pub evidence : Grows SameEvidence b.evidence c.evidence
  pub budget : All InBudget b.tasks → All InBudget c.tasks

pub SameTask-refl : (t : Task) → SameTask t t
SameTask-refl t = record { id = refl; title = refl; access_mode = refl; origin = refl }

pub SameAttempt-refl : (a : Attempt) → SameAttempt a a
SameAttempt-refl a = ground arith

pub SameLease-refl : (l : Lease) → SameLease l l
SameLease-refl l = ground arith

pub SameEvidence-refl : (e : Evidence) → SameEvidence e e
SameEvidence-refl e = ground arith

pub Keeps-refl : (b : Board) → Keeps b b
Keeps-refl b = record {
  id = refl;
  base_revision = refl;
  tasks = Grows-refl SameTask SameTask-refl b.tasks;
  attempts = Grows-refl SameAttempt SameAttempt-refl b.attempts;
  leases = Grows-refl SameLease SameLease-refl b.leases;
  evidence = Grows-refl SameEvidence SameEvidence-refl b.evidence;
  budget = λ h. h;
}

SameTask-trans : (t u v : Task) → SameTask t u → SameTask u v → SameTask t v
SameTask-trans t u v h k = ground arith

SameAttempt-trans : (a b c : Attempt) → SameAttempt a b → SameAttempt b c → SameAttempt a c
SameAttempt-trans a b c h k = ground arith

SameLease-trans : (a b c : Lease) → SameLease a b → SameLease b c → SameLease a c
SameLease-trans a b c h k = ground arith

SameEvidence-trans : (a b c : Evidence) → SameEvidence a b → SameEvidence b c → SameEvidence a c
SameEvidence-trans a b c h k = ground arith

pub Keeps-trans : {b c d : Board} → Keeps b c → Keeps c d → Keeps b d
Keeps-trans {b} {c} {d} h k = record {
  id = k.id ∙ h.id;
  base_revision = k.base_revision ∙ h.base_revision;
  tasks = Grows-trans SameTask SameTask-trans b.tasks c.tasks d.tasks h.tasks k.tasks;
  attempts =
      Grows-trans SameAttempt SameAttempt-trans b.attempts c.attempts d.attempts h.attempts
        k.attempts;
  leases = Grows-trans SameLease SameLease-trans b.leases c.leases d.leases h.leases k.leases;
  evidence =
      Grows-trans SameEvidence SameEvidence-trans b.evidence c.evidence d.evidence h.evidence
        k.evidence;
  budget = λ q. k.budget (h.budget q);
}

-- One rule for each way in which a handler changes a board.
module _ {b c : Board} (h : Keeps b c) where
  pub Keeps-task :
      (i : ℕ) (f : Task → Task)
      → ((t : Task) → SameTask t (f t))
      → ((t : Task) → InBudget t → InBudget (f t))
      → Keeps b (set_task i f c)
  Keeps-task i f same budget = Keeps-trans h (record {
    id = refl;
    base_revision = refl;
    tasks = Grows-modify SameTask SameTask-refl f same c.tasks i;
    attempts = Grows-refl SameAttempt SameAttempt-refl c.attempts;
    leases = Grows-refl SameLease SameLease-refl c.leases;
    evidence = Grows-refl SameEvidence SameEvidence-refl c.evidence;
    budget = All-modify InBudget f budget c.tasks i;
  })

  pub Keeps-attempt :
      (i : ℕ) (f : Attempt → Attempt)
      → ((a : Attempt) → SameAttempt a (f a))
      → Keeps b (set_attempt i f c)
  Keeps-attempt i f same = Keeps-trans h (record {
    id = refl;
    base_revision = refl;
    tasks = Grows-refl SameTask SameTask-refl c.tasks;
    attempts = Grows-modify SameAttempt SameAttempt-refl f same c.attempts i;
    leases = Grows-refl SameLease SameLease-refl c.leases;
    evidence = Grows-refl SameEvidence SameEvidence-refl c.evidence;
    budget = λ q. q;
  })

  pub Keeps-lease :
      (i : ℕ) (f : Lease → Lease) → ((l : Lease) → SameLease l (f l)) → Keeps b (set_lease i f c)
  Keeps-lease i f same = Keeps-trans h (record {
    id = refl;
    base_revision = refl;
    tasks = Grows-refl SameTask SameTask-refl c.tasks;
    attempts = Grows-refl SameAttempt SameAttempt-refl c.attempts;
    leases = Grows-modify SameLease SameLease-refl f same c.leases i;
    evidence = Grows-refl SameEvidence SameEvidence-refl c.evidence;
    budget = λ q. q;
  })

  pub Keeps-evidence :
      (i : ℕ) (f : Evidence → Evidence)
      → ((e : Evidence) → SameEvidence e (f e))
      → Keeps b (set_evidence i f c)
  Keeps-evidence i f same = Keeps-trans h (record {
    id = refl;
    base_revision = refl;
    tasks = Grows-refl SameTask SameTask-refl c.tasks;
    attempts = Grows-refl SameAttempt SameAttempt-refl c.attempts;
    leases = Grows-refl SameLease SameLease-refl c.leases;
    evidence = Grows-modify SameEvidence SameEvidence-refl f same c.evidence i;
    budget = λ q. q;
  })

pub Keeps-emit :
    {b : Board} (c : Command) (d : Draft) (w : Work) → Keeps b w.board → Keeps b (emit c d w).board
unfolding emit
Keeps-emit c d w h = record {
  id = h.id;
  base_revision = h.base_revision;
  tasks = h.tasks;
  attempts = h.attempts;
  leases = h.leases;
  evidence = h.evidence;
  budget = h.budget;
}

-- A change of the other fields.
pub Keeps-same :
    {b c : Board}
    → c.id ≡ b.id
    → c.base_revision ≡ b.base_revision
    → c.tasks ≡ b.tasks
    → c.attempts ≡ b.attempts
    → c.leases ≡ b.leases
    → c.evidence ≡ b.evidence
    → Keeps b c
Keeps-same {b} i r t a l e = record {
  id = i;
  base_revision = r;
  tasks = rw t (Keeps-refl b).tasks;
  attempts = rw a (Keeps-refl b).attempts;
  leases = rw l (Keeps-refl b).leases;
  evidence = rw e (Keeps-refl b).evidence;
  budget = rw t (Keeps-refl b).budget;
}

pub ruleset keeps_rules =
    (Ensures->>=, Keeps-refl, Keeps-emit, Keeps-task, Keeps-attempt, Keeps-lease, Keeps-evidence)
