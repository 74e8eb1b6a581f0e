-- ===== src/Store/Claim.antt =====
-- internal/agoboardstore/claim.go: the transaction by which a scheduler takes a task.
pub mod Stages
pub mod Steps
pub mod Decisions
pub mod Slots
pub mod Again
pub mod Held
pub mod Exclusion
pub mod Credentials
use ago.Store.Picking.{
  ClaimRequest, ClaimOutcome, ClaimReason, ClaimResult, declined, eligible_task, backing_off,
  slot_available,
}
use ago.Prelude.{
  ℕ, suc, Bool, true, false, ◌&&◌, ◌||◌, not, Option, none, some, List, [], ◌∷◌, ◌++◌, find, any,
  select, is_empty, ◌⊎◌, inl, inr, is_nil, if◌then◌else◌, length, ltb, ◌+◌, leb, take,
}
use ago.Prelude.Ints.{ℤ, pos, negsuc, ltb_int, inc_int}
use ago.Prelude.Outcome.{ok, err, panic, ◌>>=◌, ◌>>◌, require, refuse, or_fail}
use ago.GoString.{GoString, codes, str_eq, print_nat}
use ago.Clock.{Time, zero_time, is_zero, to_utc, add, before}
use ago.Protocol.States.{
  CommandType, ActorRole, AccessMode, FailureClass, TaskState, role_eq, is_active,
}
use ago.Protocol.Records.{Actor, Board, Task, Attempt, zero_task}
use ago.Protocol.Commands.{Command, Event, LeaseSpec}
use ago.Protocol.Retry.{schema_version, max_attempts}
use ago.Machine.Work.{Work}
use ago.Machine.Apply.{apply}
use ago.Store.Rows.{Db, Tx, Codec, Request, Stored, StoreError, LeaseRow, SlotLimits}
use ago.Store.Receipts.{stored_result, insert_result, request_hash, hex}
use ago.Store.Boards.{lift, board_query, update_board, append_events}
use ago.Store.Projection.{sync_projection}

-- `strconv.Itoa`.
unfoldable pub print_int : ℤ → GoString
unfolding print_nat
print_int (pos n) = print_nat n
print_int (negsuc n) = codes "-" ++ print_nat (n + 1)

-- `generationOf`.
unfoldable pub generation_of : List Attempt → GoString → ℕ
generation_of [] id = 0
generation_of (a ∷ as') id = if str_eq a.id id then a.generation else generation_of as' id

pub record Claimed : Type 0 where
  pub db : Db
  pub result : ClaimResult

-- The lease that a claim asks the state machine for.
unfoldable pub claim_spec : ClaimRequest → Task → GoString → GoString → GoString → ℕ → LeaseSpec
claim_spec r t attempt_id lease_id token duration = record {
  id = lease_id;
  attempt_id = attempt_id;
  task_id = t.id;
  worker_id = r.worker_id;
  fencing_token = token;
  acquired_at = to_utc r.now;
  expires_at = add (to_utc r.now) duration;
}

unfoldable pub claim_command : ClaimRequest → Board → LeaseSpec → Command
claim_command r b s = record {
  schema_version = schema_version;
  id = r.command_id;
  expected_version = b.version;
  actor = r.actor;
  type = CommandType.lease_acquire;
  board = none;
  task = none;
  dependency = none;
  lease = some s;
  task_id = [];
  attempt_id = [];
  evidence = none;
  patch = none;
  revision = [];
  gate = none;
  reason = [];
  fencing_token = [];
  failure_class = FailureClass.no_failure;
  next_eligible_at = zero_time;
}

-- What a claim that took a task answers.
unfoldable pub acquired_result : Work → Task → GoString → GoString → GoString → ClaimResult
unfolding generation_of
acquired_result w t attempt_id lease_id token = record {
  outcome = ClaimOutcome.acquired;
  board = w.board;
  events = w.events;
  task_id = t.id;
  attempt_id = attempt_id;
  lease_id = lease_id;
  generation = generation_of w.board.attempts attempt_id;
  fencing_token = token;
  reason = ClaimReason.no_reason;
}

-- `request.LeaseDuration <= 0` is refused: the duration that is left.
abbrev pub positive : ℤ → Option ℕ
positive (pos n) = if ltb 0 n then some n else none
positive (negsuc n) = none

module _ (k : Codec) where
  -- `derivedClaimID`: the error of `requestHash` is dropped, and then `digest[:16]` panics.
  unfoldable pub derived_claim_id : GoString → GoString → GoString → ℤ → ℤ → Tx GoString
  unfolding hex print_int take
  derived_claim_id namespace board_id task_id retries number =
      elim (k.marshal (
        Request.texts
          (namespace ∷ board_id ∷ task_id ∷ print_int retries ∷ print_int number ∷ []))) [
            | none ↦ panic
            | some encoded ↦ ok (namespace ++ codes ":" ++ hex (take 16 (k.sha256 encoded)))
          ]

  -- A free slot was found: the attempt and its lease are made and stored. `token` is what
  -- `newFencingToken` returns, `none` its error.
  unfoldable pub take_task :
      ClaimRequest → ℕ → Option GoString → GoString → Board → Task → Db → Tx Claimed
  unfolding derived_claim_id claim_spec claim_command update_board append_events sync_projection
      insert_result acquired_result
  take_task r duration minted hash b t db = do
    token ← or_fail minted StoreError.no_randomness
    attempt_id ←
        derived_claim_id (codes "attempt") b.id t.id t.user_retries (inc_int t.attempt_count)
    lease_id ← derived_claim_id (codes "lease") b.id t.id t.user_retries (inc_int t.attempt_count)
    w ← lift (apply b (claim_command r b (claim_spec r t attempt_id lease_id token duration)))
    db1 ← update_board w.board db
    db2 ← append_events w.events db1
    db3 ← sync_projection w.board db2
    db4 ←
        insert_result r.actor.id r.command_id hash w.board.id
          (record { board = w.board; events = w.events }) db3
    ok (record { db = db4; result = acquired_result w t attempt_id lease_id token })

  -- An eligible task was found.
  unfoldable pub claim_task :
      ClaimRequest → ℕ → Option GoString → GoString → Board → Task → Db → Tx Claimed
  unfolding backing_off slot_available take_task
  claim_task r duration minted hash b t db =
      if backing_off b r.now && is_empty t.id
      then ok
          (record { db = db; result = declined ClaimOutcome.backed_off b [] ClaimReason.no_reason })
      else elim (slot_available b t r.limits db) [
        | some reason ↦
            ok (record { db = db; result = declined ClaimOutcome.no_slot b t.id reason })
        | none ↦ take_task r duration minted hash b t db
      ]

  -- The claim has no receipt.
  unfoldable pub claim_fresh :
      ClaimRequest → ℕ → Option GoString → GoString → Board → Db → Tx Claimed
  unfolding eligible_task claim_task
  claim_fresh r duration minted hash b db =
      if b.paused
      then ok (record {
        db = db;
        result = declined ClaimOutcome.paused b [] (ClaimReason.pause_reason b.pause_reason);
      })
      else elim (eligible_task b r.now) [
        | inr reason ↦ ok (record { db = db; result = declined ClaimOutcome.no_work b [] reason })
        | inl t ↦ claim_task r duration minted hash b t db
      ]

  -- A receipt of the claim was found.
  unfoldable pub claim_again : ClaimRequest → Stored → Db → Tx Claimed
  claim_again r s db = do
    require (str_eq s.board.id r.board_id) StoreError.command_conflict
    ok (record { db = db; result = declined ClaimOutcome.replayed s.board [] ClaimReason.honoured })

  unfoldable pub claim_hash : ClaimRequest → Tx GoString
  unfolding request_hash
  claim_hash r = request_hash k (Request.claim r.board_id r.actor r.worker_id r.limits)

  -- `Claim`.
  unfoldable pub claim : ClaimRequest → Option GoString → Db → Tx Claimed
  unfolding is_zero claim_hash stored_result board_query claim_fresh claim_again
  claim r minted db = do
    refuse (is_empty r.board_id || is_empty r.command_id || is_empty r.worker_id)
        StoreError.claim_incomplete
    require (role_eq r.actor.role ActorRole.coordinator) StoreError.claim_needs_coordinator
    refuse (is_zero r.now) StoreError.claim_needs_clock
    duration ← or_fail (positive r.lease_duration) StoreError.claim_needs_clock
    hash ← claim_hash r
    found ← stored_result r.actor.id r.command_id hash db
    elim found [
      | some s ↦ claim_again r s db
      | none ↦ board_query r.board_id db >>= λ b. claim_fresh r duration minted hash b db
    ]
