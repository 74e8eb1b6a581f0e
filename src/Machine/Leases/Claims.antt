-- ===== src/Machine/Leases/Claims.antt =====
-- What a successful lease.acquire has checked, and what it adds to the board.
use ago.Prelude.{
  ℕ, ap, ◌≡◌, ◌⊎◌, inl, inr, refl, Bool, true, false, List, [], ◌∷◌, ◌++◌, some, arith,
  Option-cases, ◌||◌, any, ◌≢◌, get_elem?,
}
use ago.Prelude.Updates.{get_elem?-modify, get_elem?-modify_other, find_index-at, find_index-test}
use ago.Prelude.Ints.{inc_u64, inc_int, ltb_int}
use ago.Prelude.Outcome.{ok}
use ago.GoString.{str_eq}
use ago.Clock.{before, to_utc, is_zero, zero_time}
use ago.Protocol.States.{CommandType, TaskState, AttemptState, LeaseState}
use ago.Protocol.Records.{Board, Task, Attempt, Lease}
use ago.Protocol.Commands.{Command, LeaseSpec}
use ago.Protocol.Retry.{max_attempts}
use ago.Machine.Work.{Work, find_task}
use ago.Machine.Leases.{
  lease_acquire, check_claim, check_lease_spec, check_new_lease, check_new_attempt, new_attempt,
  new_lease, leased_task, expiry_utc, claimed,
}
use ago.Machine.Apply.{apply, opened, dispatch}
use ago.Machine.Apply.Parts.{apply-handled}

-- Neither the id of the lease nor its token occurs in the leases of the board.
module _ (s : LeaseSpec) where
  abbrev pub clashes_lease : Lease → Bool
  clashes_lease l = str_eq l.id s.id || str_eq l.fencing_token s.fencing_token

  abbrev pub clashes_attempt : Attempt → Bool
  clashes_attempt a = str_eq a.id s.attempt_id || str_eq a.fencing_token s.fencing_token

  check_new_lease-fresh :
      (ls : List Lease) → check_new_lease s ls ≡ ok tt → any clashes_lease ls ≡ false
  unfolding check_new_lease any
  check_new_lease-fresh [] h = refl
  check_new_lease-fresh (l ∷ ls) h =
      let rest = check_new_lease-fresh ls (ground arith) in ground (arith, rest)

  check_new_attempt-fresh :
      (as' : List Attempt) → check_new_attempt s as' ≡ ok tt → any clashes_attempt as' ≡ false
  unfolding check_new_attempt any
  check_new_attempt-fresh [] h = refl
  check_new_attempt-fresh (a ∷ as') h =
      let rest = check_new_attempt-fresh as' (ground arith) in ground (arith, rest)

-- The task may be claimed now: it is ready, or its backoff is over; and it has attempts left.
pub record Claimable (s : LeaseSpec) (t : Task) : Type 0 where
  pub eligible :
      (t.state ≡ TaskState.ready)
      ⊎ ((t.state ≡ TaskState.retry_wait) × (before s.acquired_at t.next_eligible_at ≡ false))
  pub budget : ltb_int t.attempt_count max_attempts ≡ true

check_claim-Claimable : (s : LeaseSpec) (t : Task) → check_claim s t ≡ ok tt → Claimable s t
unfolding check_claim
check_claim-Claimable s t h = ground arith

record Acquired (b : Board) (s : LeaseSpec) (i : ℕ) (t : Task) (w : Work) : Type 0 where
  running : b.paused ≡ false
  found : find_task b s.task_id ≡ some (i, t)
  spec : check_lease_spec s ≡ ok tt
  claim : check_claim s t ≡ ok tt
  leases : check_new_lease s b.leases ≡ ok tt
  attempts : check_new_attempt s b.attempts ≡ ok tt
  written : w.board ≡ record (claimed s i t b) { version = w.board.version }

acquire_parts :
    (b : Board) (c : Command) (s : LeaseSpec) {w : Work}
    → c.lease ≡ some s
    → lease_acquire c (opened b) ≡ ok w
    → (i : ℕ) × (t : Task) × Acquired b s i t w
unfolding lease_acquire
acquire_parts b c s p h = elim (Option-cases (find_task b s.task_id)) [
  | inl e ↦ absurd (ground arith)
  | inr ((i, t), e) ↦ (i, t, ground arith)
]

-- The attempt that a claim of the task `t` under the specification `s` begins.
pub record BeginsAttempt (b : Board) (s : LeaseSpec) (t : Task) (a : Attempt) : Type 0 where
  pub id : a.id ≡ s.attempt_id
  pub task_id : a.task_id ≡ t.id
  pub worker_id : a.worker_id ≡ s.worker_id
  pub state : a.state ≡ AttemptState.leased
  pub evidence_id : a.evidence_id ≡ []
  pub number : a.number ≡ inc_int t.attempt_count
  pub generation : a.generation ≡ b.next_generation
  pub fencing_token : a.fencing_token ≡ s.fencing_token

-- The lease that it opens.
pub record OpensLease (b : Board) (s : LeaseSpec) (t : Task) (l : Lease) : Type 0 where
  pub id : l.id ≡ s.id
  pub task_id : l.task_id ≡ t.id
  pub attempt_id : l.attempt_id ≡ s.attempt_id
  pub worker_id : l.worker_id ≡ s.worker_id
  pub state : l.state ≡ LeaseState.active
  pub generation : l.generation ≡ b.next_generation
  pub fencing_token : l.fencing_token ≡ s.fencing_token
  pub acquired_at : l.acquired_at ≡ to_utc s.acquired_at
  pub expires_at : is_zero s.expires_at ≡ false → l.expires_at ≡ to_utc s.expires_at

-- What it makes of the task.
pub record LeasesTask (s : LeaseSpec) (t u : Task) : Type 0 where
  pub id : u.id ≡ t.id
  pub state : u.state ≡ TaskState.leased
  pub active_attempt_id : u.active_attempt_id ≡ s.attempt_id
  pub active_lease_id : u.active_lease_id ≡ s.id
  pub attempt_count : u.attempt_count ≡ inc_int t.attempt_count
  pub next_eligible_at : u.next_eligible_at ≡ zero_time

-- What a claim of a task under the specification `s` has checked, added and changed.
pub record Claimed (b : Board) (s : LeaseSpec) (w : Work) : Type 0 where
  pub index : ℕ
  pub task : Task
  pub leased : Task
  pub attempt : Attempt
  pub lease : Lease
  pub running : b.paused ≡ false
  pub named : task.id ≡ s.task_id
  pub stood : get_elem? b.tasks index ≡ some task
  pub claimable : Claimable s task
  pub attempts : w.board.attempts ≡ b.attempts ++ attempt ∷ []
  pub begins : BeginsAttempt b s task attempt
  pub leases : w.board.leases ≡ b.leases ++ lease ∷ []
  pub opens : OpensLease b s task lease
  pub stands : get_elem? w.board.tasks index ≡ some leased
  pub changes : LeasesTask s task leased
  pub others : (j : ℕ) → j ≢ index → get_elem? w.board.tasks j ≡ get_elem? b.tasks j
  pub next_generation : w.board.next_generation ≡ inc_u64 b.next_generation

new_lease-OpensLease :
    (b : Board) (s : LeaseSpec) (t : Task) → OpensLease b s t (new_lease s t b.next_generation)
unfolding new_lease expiry_utc
new_lease-OpensLease b s t = record {
  id = refl;
  task_id = refl;
  attempt_id = refl;
  worker_id = refl;
  state = refl;
  generation = refl;
  fencing_token = refl;
  acquired_at = refl;
  expires_at = λ e. rw e refl;
}

-- The new attempt and lease as the handler writes them, for the modules that go on with them.
pub record Added (b : Board) (s : LeaseSpec) (w : Work) : Type 0 where
  pub task : Task
  pub index : ℕ
  pub found : find_task b s.task_id ≡ some (index, task)
  pub attempts : w.board.attempts ≡ b.attempts ++ new_attempt s task b.next_generation ∷ []
  pub leases : w.board.leases ≡ b.leases ++ new_lease s task b.next_generation ∷ []
  pub next_generation : w.board.next_generation ≡ inc_u64 b.next_generation

module _ (b : Board) (c : Command) (s : LeaseSpec) {w : Work}
    (claim : c.type ≡ CommandType.lease_acquire) (lease : c.lease ≡ some s)
    (applied : apply b c ≡ ok w) where
  acquired : (i : ℕ) × (t : Task) × Acquired b s i t w
  unfolding dispatch
  acquired = acquire_parts b c s lease (apply-handled b c CommandType.lease_acquire claim applied)

  pub lease_acquire_writes : Added b s w
  unfolding claimed
  lease_acquire_writes =
      let (i, t, a) = acquired in
      record {
        task = t;
        index = i;
        found = a.found;
        attempts = ap (λ (z : Board). z.attempts) a.written;
        leases = ap (λ (z : Board). z.leases) a.written;
        next_generation = ap (λ (z : Board). z.next_generation) a.written;
      }

  -- A lease.acquire that succeeds found its task on a board that is not paused; the task was ready, or
  -- waiting for a retry whose time had come, with fewer attempts than the bound. It adds one attempt
  -- and one lease, behind the others, both with the board's next generation, the token and the ids of
  -- the specification, and the number that follows the count of the task; it advances the generation;
  -- and it changes this task only, which becomes leased, points to the two, and counts the attempt.
  pub lease_acquire_adds : Claimed b s w
  unfolding claimed new_attempt leased_task find_task
  lease_acquire_adds =
      let (i, t, a) = acquired in
      let stood = find_index-at (λ u. str_eq u.id s.task_id) b.tasks a.found in
      record {
        index = i;
        task = t;
        leased = leased_task s t t;
        attempt = new_attempt s t b.next_generation;
        lease = new_lease s t b.next_generation;
        running = a.running;
        named = ground (arith, find_index-test (λ u. str_eq u.id s.task_id) b.tasks a.found);
        stood = stood;
        claimable = check_claim-Claimable s t a.claim;
        attempts = ap (λ (z : Board). z.attempts) a.written;
        begins = record {
          id = refl;
          task_id = refl;
          worker_id = refl;
          state = refl;
          evidence_id = refl;
          number = refl;
          generation = refl;
          fencing_token = refl;
        };
        leases = ap (λ (z : Board). z.leases) a.written;
        opens = new_lease-OpensLease b s t;
        stands =
            rw (ap (λ (z : Board). z.tasks) a.written)
              (get_elem?-modify b.tasks i (leased_task s t) stood);
        changes = record {
          id = refl;
          state = refl;
          active_attempt_id = refl;
          active_lease_id = refl;
          attempt_count = refl;
          next_eligible_at = refl;
        };
        others = λ j h.
            rw (ap (λ (z : Board). z.tasks) a.written)
              (get_elem?-modify_other b.tasks i j (leased_task s t) h);
        next_generation = ap (λ (z : Board). z.next_generation) a.written;
      }

  -- A lease.acquire that succeeds uses ids and a fencing token that no attempt and no lease of the
  -- board has, whatever became of them.
  pub lease_acquire_fresh :
      (any (clashes_attempt s) b.attempts ≡ false) × (any (clashes_lease s) b.leases ≡ false)
  lease_acquire_fresh =
      let (i, t, a) = acquired in
      (check_new_attempt-fresh s b.attempts a.attempts, check_new_lease-fresh s b.leases a.leases)

  pub lease_acquire-repository : w.board.repository ≡ b.repository
  unfolding claimed
  lease_acquire-repository = let (i, t, a) = acquired in ap (λ (z : Board). z.repository) a.written
