-- ===== src/Scheduler/Dispatching.antt =====
-- `claimAndDispatch` and `dispatch` of internal/agoscheduler/scheduler.go.
pub mod Attempts
pub mod Once
use ago.Prelude.{
  Bool, true, false, ◌||◌, ◌++◌, Option, none, some, List, [], ◌∷◌, is_empty, if◌then◌else◌,
}
use ago.Prelude.Ints.{ℤ}
use ago.Prelude.Outcome.{Outcome, ok, err, panic}
use ago.Prelude.Effect.{Act, pure, fail, skip, ◌>>=◌, ◌>>◌}
use ago.GoString.{GoString, codes, print_nat}
use ago.Clock.{Time}
use ago.Planner.{Plan, TaskProposal}
use ago.Protocol.States.{CommandType, FailureClass}
use ago.Protocol.Records.{Board, EvidenceResult}
use ago.Protocol.Commands.{Command, EvidenceSpec, zero_command}
use ago.Protocol.Retry.{schema_version}
use ago.Store.Rows.{Db, Tx, StoreError}
use ago.Store.Commit.{Committed}
use ago.Store.Claim.{Claimed, claim}
use ago.Store.Picking.{ClaimRequest, ClaimResult, ClaimOutcome, dispatchable}
use ago.Scheduler.{
  Goal, Dispatch, ExecutionResult, ExecutionError, Answer, failed, answered, Options, Site, Call,
  Fault, Scheduled,
}
use ago.Scheduler.Steps.{
  proposal_for, attempt_number_of, read_board, utc_now, next_eligible, runtime_definition, apply_to,
  redact_evidence, worker, coordinator,
}

-- What the executor has handed in: evidence, or the failure that `classifyExecutionFailure` makes of
-- an error or of evidence that is incomplete.
unfoldable pub classify :
    Answer ExecutionError ExecutionResult → Answer (FailureClass × GoString) ExecutionResult
classify (failed e) =
    failed (elim e.class [ none ↦ (FailureClass.transient, e.text) | some class ↦ (class, e.text) ])
classify (answered r) =
    if is_empty r.artifact || is_empty r.summary
    then failed (FailureClass.transient, codes "executor returned incomplete evidence")
    else answered r

-- `Store.Claim` mints a token only behind a free slot: where it fails for want of one.
abbrev pub asks_token : Tx Claimed → Bool
asks_token (err StoreError.no_randomness) = true
asks_token _ = false

module _ {X : Type 0} (o : Options X) (board_id : GoString) where
  -- The command of `applyFrom` before it is configured; `name` is the text of the type.
  abbrev pub worker_command : ClaimResult → CommandType → GoString → Board → Command
  worker_command c type name b = record zero_command {
    schema_version = schema_version;
    id = name ++ (codes ":" ++ c.attempt_id);
    expected_version = b.version;
    actor = worker o;
    type = type;
    task_id = c.task_id;
    attempt_id = c.attempt_id;
    fencing_token = c.fencing_token;
  }

  -- `Executor.Execute`.
  unfoldable pub execute : Dispatch → Scheduled X (Answer ExecutionError ExecutionResult)
  execute d s =
      let (x, r) = o.parts.execute d s.outside in
      (record s { outside = x; calls = s.calls ++ (Call.executed d ∷ []) }, ok r)

  unfoldable pub fail_attempt :
      ClaimResult → ℤ → Board → FailureClass × GoString → Scheduled X (Unit {0})
  unfolding next_eligible apply_to skip ◌>>=◌
  fail_attempt c number b (class, reason) = do
    t ← next_eligible o number
    applied ←
        apply_to o Fault.store board_id
          (record (worker_command c CommandType.attempt_fail (codes "attempt.fail") b) {
            failure_class = class;
            reason = reason;
            next_eligible_at = t;
          })
    skip

  -- `structured` of `dispatch`.
  unfoldable pub structured : ExecutionResult → EvidenceResult
  unfolding redact_evidence
  structured r =
      let e = redact_evidence o r.result in
      record e { summary = o.redact (if is_empty e.summary then r.summary else e.summary) }

  unfoldable pub submit_evidence : ClaimResult → Board → ExecutionResult → Scheduled X (Unit {0})
  unfolding structured apply_to skip ◌>>=◌
  submit_evidence c b r = do
    applied ←
        apply_to o Fault.submit_evidence board_id
          (record (worker_command c CommandType.evidence_submit (codes "evidence.submit") b) {
            evidence = some (record {
              id = codes "evidence:" ++ c.attempt_id;
              task_id = c.task_id;
              attempt_id = c.attempt_id;
              artifact = o.redact r.artifact;
              summary = (structured r).summary;
              result = structured r;
            });
          })
    skip

  unfoldable pub record_execution :
      ClaimResult
      → ℤ
      → Board
      → Answer (FailureClass × GoString) ExecutionResult
      → Scheduled X (Unit {0})
  unfolding fail_attempt submit_evidence
  record_execution c number b (failed f) = fail_attempt c number b f
  record_execution c number b (answered r) = submit_evidence c b r

  -- A started attempt is executed, and its end is recorded.
  unfoldable pub perform : ClaimResult → Dispatch → Committed → Scheduled X (Unit {0})
  unfolding execute record_execution classify ◌>>=◌
  perform c d started =
      execute d >>= λ r. record_execution c d.attempt_number started.result.board (classify r)

  abbrev pub start_command : ClaimResult → Command
  start_command c = worker_command c CommandType.attempt_start (codes "attempt.start") c.board

  unfoldable pub run_attempt : ClaimResult → Dispatch → Scheduled X (Unit {0})
  unfolding apply_to perform ◌>>=◌
  run_attempt c d = apply_to o Fault.start board_id (start_command c) >>= perform c d

  abbrev pub work_for : Goal → ClaimResult → TaskProposal → Dispatch
  unfolding attempt_number_of
  work_for goal c proposal = record {
    goal = goal;
    task = proposal;
    attempt_id = c.attempt_id;
    worker_id = o.worker_id;
    attempt_number = attempt_number_of c.board.attempts c.attempt_id;
    base_revision = c.board.integrated_revision;
  }

  unfoldable pub dispatch_as : ClaimResult → Goal → Option TaskProposal → Scheduled X (Unit {0})
  unfolding run_attempt work_for fail
  dispatch_as c goal none = fail (Fault.no_proposal c.task_id)
  dispatch_as c goal (some proposal) = run_attempt c (work_for goal c proposal)

  unfoldable pub dispatch_with : ClaimResult → Goal × Plan → Scheduled X (Unit {0})
  unfolding dispatch_as proposal_for
  dispatch_with c (goal, plan) = dispatch_as c goal (proposal_for plan c.task_id)

  -- `dispatch`.
  unfoldable pub dispatch : ClaimResult → Scheduled X (Unit {0})
  unfolding runtime_definition dispatch_with ◌>>=◌
  dispatch c = runtime_definition o board_id >>= dispatch_with c

  unfoldable pub claim_request : Board → Time → ClaimRequest
  unfolding print_nat
  claim_request b t = record {
    board_id = board_id;
    command_id = codes "claim:" ++ (board_id ++ (codes ":" ++ print_nat b.version));
    actor = coordinator o;
    worker_id = o.worker_id;
    now = t;
    lease_duration = o.lease_duration;
    limits = o.limits;
  }

  -- `Store.Claim`.
  abbrev pub claimed : Site X → Tx Claimed → Site X × Outcome Fault ClaimResult
  claimed s (ok c) = (record s { db = c.db }, ok c.result)
  claimed s (err e) = (s, err (Fault.store e))
  claimed s panic = (s, panic)

  unfoldable pub claim_work : ClaimRequest → Scheduled X ClaimResult
  unfolding claim
  claim_work r s =
      let (x, minted) =
        if asks_token (claim o.codec r none s.db)
        then o.parts.mint s.outside
        else (s.outside, none) in
      claimed (record s { outside = x }) (claim o.codec r minted s.db)

  -- What follows a claim: whether a task was taken, and the outcome.
  unfoldable pub follow_claim : ClaimResult → Scheduled X (Bool × ClaimOutcome)
  unfolding dispatch dispatchable pure ◌>>◌
  follow_claim c =
      if dispatchable c then dispatch c >> pure (true, c.outcome) else pure (false, c.outcome)

  unfoldable pub claim_at : Board → Time → Scheduled X (Bool × ClaimOutcome)
  unfolding claim_request claim_work follow_claim ◌>>=◌
  claim_at b t = claim_work (claim_request b t) >>= follow_claim

  -- `claimAndDispatch`.
  unfoldable pub claim_and_dispatch : Scheduled X (Bool × ClaimOutcome)
  unfolding read_board utc_now claim_at ◌>>=◌
  claim_and_dispatch = read_board board_id >>= λ b. utc_now o >>= claim_at b
