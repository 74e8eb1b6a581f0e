-- ===== src/Scheduler/Verifying.antt =====
-- `verifyPending`, `deferVerification`, `abandonVerification` and `applyVerdict` of
-- internal/agoscheduler/scheduler.go.
pub mod Shown
pub mod Durable
use ago.Prelude.{
  Bool, true, false, ◌++◌, ◌&&◌, ◌||◌, not, Option, none, some, List, [], ◌∷◌, find, map, select,
  if◌then◌else◌,
}
use ago.Prelude.Ints.{ℤ, pos, ltb_int}
use ago.Prelude.Outcome.{Outcome, ok, err}
use ago.Prelude.Effect.{pure, fail, skip, for_each, ◌>>=◌, ◌>>◌}
use ago.GoString.{GoString, codes, utf8, str_eq, trim_space}
use ago.Clock.{Time}
use ago.Planner.{Plan, TaskProposal}
use ago.Protocol.States.{CommandType, FailureClass, TaskState, state_eq, is_submitted}
use ago.Protocol.Records.{Board, Task, Evidence, Attempt}
use ago.Protocol.Commands.{Command, EvidenceSpec, zero_command}
use ago.Protocol.Retry.{schema_version, max_verification_attempts}
use ago.Store.Claim.{print_int}
use ago.Scheduler.{
  Goal, Input, Decision, Judgement, Answer, failed, answered, Options, Site, Call, Fault, Scheduled,
}
use ago.Scheduler.Steps.{
  proposal_for, evidence_by_id, task_by_id, attempt_number_of, fencing_token_for, read_board,
  next_eligible, runtime_definition, apply_to, apply_once, coordinate, verifier,
}
use ago.Scheduler.Integrating.{integrate}

-- `EvidenceSpec{ID: id}`.
abbrev evidence_ref : GoString → EvidenceSpec
evidence_ref id = record {
  id = id;
  task_id = [];
  attempt_id = [];
  artifact = [];
  summary = [];
  result = record {
    patch = none;
    summary = [];
    generation = 0;
    changed_files = [];
    commands = [];
    tests = [];
    artifacts = [];
    warnings = [];
  };
}

-- The loops of `deferVerification` and `applyVerdict` go on behind a match: the last one counts.
unfoldable pub verification_attempts : ℤ → List Evidence → GoString → ℤ
verification_attempts n [] id = n
verification_attempts n (e ∷ es) id =
    verification_attempts (if str_eq e.id id then e.verification_attempts else n) es id

unfoldable pub last_number : ℤ → List Attempt → GoString → ℤ
last_number n [] id = n
last_number n (a ∷ as') id = last_number (if str_eq a.id id then a.number else n) as' id

-- `failureClassFor`.
unfoldable pub failure_class_for : Decision → FailureClass
failure_class_for Decision.needs_input = FailureClass.needs_input
failure_class_for Decision.blocked_policy = FailureClass.policy
failure_class_for _ = FailureClass.verifier_feedback

-- The evidence that waits for a verdict.
unfoldable pub pending_evidence : Board → List GoString
unfolding select
pending_evidence b = map (λ e. e.id) (select (λ e. is_submitted e.state) b.evidence)

abbrev no_proposal : TaskProposal
no_proposal = record {
  id = [];
  title = [];
  description = [];
  path_scopes = [];
  acceptance_criteria = [];
  verifier_ids = [];
  capability_tags = [];
}

-- `proposal, _ := proposalFor(…)`.
abbrev proposal_or_zero : Option TaskProposal → TaskProposal
proposal_or_zero none = no_proposal
proposal_or_zero (some p) = p

-- What the verifier is shown.
unfoldable pub verification_input : Goal → Plan → Board → Task → Evidence → Input
unfolding proposal_for attempt_number_of
verification_input goal plan b t e =
    let p = proposal_or_zero (proposal_for plan e.task_id) in
    record {
      objective = goal.objective.summary;
      task_id = e.task_id;
      attempt_number = attempt_number_of b.attempts e.attempt_id;
      task_title = t.title;
      task_description = p.description;
      acceptance_criteria = t.terminal_contract.acceptance_criteria;
      allowed_path_scopes = p.path_scopes;
      evidence = e;
      evidence_id = e.id;
      integrated_revision = b.integrated_revision;
    }

abbrev pub is_accept : Decision → Bool
is_accept Decision.accept = true
is_accept _ = false

-- The evidence and its task, where both still wait for a verdict.
unfoldable pub open_case : Board → GoString → Option (Evidence × Task)
unfolding evidence_by_id task_by_id
open_case b id = elim (evidence_by_id b id) [
  | none ↦ none
  | some e ↦ if not (is_submitted e.state) then none else elim (task_by_id b e.task_id) [
    | none ↦ none
    | some t ↦ if state_eq t.state TaskState.verifying then some (e, t) else none
  ]
]

module _ {X : Type 0} (o : Options X) (board_id : GoString) where
  -- The fields that the verdicts on evidence have in common.
  abbrev verdict : CommandType → GoString → Board → Evidence → Command
  unfolding fencing_token_for
  verdict type id b e = record zero_command {
    schema_version = schema_version;
    id = id;
    expected_version = b.version;
    actor = verifier o;
    type = type;
    task_id = e.task_id;
    attempt_id = e.attempt_id;
    fencing_token = fencing_token_for b.attempts e.attempt_id;
    evidence = some (evidence_ref e.id);
  }

  -- `deferVerification`.
  unfoldable pub defer_verification : GoString → GoString → Scheduled X (Unit {0})
  unfolding read_board apply_to verification_attempts evidence_ref print_int skip utf8 ◌>>=◌
  defer_verification id cause = do
    b ← read_board board_id
    applied ←
        apply_to o Fault.store board_id
          (record (coordinate o CommandType.verification_deferred
            (codes "verify-defer:"
              ++ (id ++ (codes ":" ++ print_int (verification_attempts (pos 0) b.evidence id))))
            b) { evidence = some (evidence_ref id); reason = o.redact (utf8 "验收暂时无法进行：" ++ cause) })
    skip

  -- `abandonVerification`.
  unfoldable pub abandon_verification : Board → Task → Evidence → Scheduled X (Unit {0})
  unfolding apply_once verdict print_int trim_space utf8
  abandon_verification b t e =
      apply_once o board_id
        (record (verdict CommandType.evidence_reject (codes "verify-abandon:" ++ e.id) b e) {
          failure_class = FailureClass.exhausted;
          reason = o.redact (
              utf8 "验收在 "
              ++ (print_int e.verification_attempts
                  ++ (utf8 " 次尝试后仍未取得结论：" ++ trim_space t.blocked_reason)));
        })

  unfoldable pub accept_evidence : Board → Evidence → Judgement → Scheduled X (Unit {0})
  unfolding apply_to verdict integrate ◌>>=◌
  accept_evidence b e j = do
    applied ←
        apply_to o Fault.store board_id
          (record (verdict CommandType.evidence_accept (codes "verify-accept:" ++ e.id) b e) {
            reason = o.redact j.reason;
          })
    integrate o board_id e.task_id e.attempt_id e.result applied.result.board

  unfoldable pub reject_evidence : Board → Evidence → Judgement → Scheduled X (Unit {0})
  unfolding apply_to verdict next_eligible last_number failure_class_for skip ◌>>=◌
  reject_evidence b e j = do
    t ← next_eligible o (last_number (pos 1) b.attempts e.attempt_id)
    applied ←
        apply_to o Fault.store board_id
          (record (verdict CommandType.evidence_reject (codes "verify-reject:" ++ e.id) b e) {
            failure_class = failure_class_for j.decision;
            next_eligible_at = t;
            reason = o.redact j.reason;
          })
    skip

  -- `applyVerdict`.
  unfoldable pub apply_verdict : Board → Evidence → Judgement → Scheduled X (Unit {0})
  unfolding accept_evidence reject_evidence
  apply_verdict b e j =
      if is_accept j.decision then accept_evidence b e j else reject_evidence b e j

  -- `Verification.Verify`.
  unfoldable pub verify : Input → Scheduled X (Answer GoString Judgement)
  verify i s =
      let (x, r) = o.parts.verify i s.outside in
      (record s { outside = x; calls = s.calls ++ (Call.verified i ∷ []) }, ok r)

  unfoldable pub after_verify :
      Board → Evidence → Answer GoString Judgement → Scheduled X (Unit {0})
  unfolding defer_verification apply_verdict
  after_verify b e (failed cause) = defer_verification e.id cause
  after_verify b e (answered j) = apply_verdict b e j

  -- Evidence that is still to be judged.
  unfoldable pub judge : Goal → Plan → Board → Task → Evidence → Scheduled X (Unit {0})
  unfolding abandon_verification verify after_verify verification_input ◌>>=◌
  judge goal plan b t e =
      if ltb_int max_verification_attempts e.verification_attempts
      then abandon_verification b t e
      else verify (verification_input goal plan b t e) >>= after_verify b e

  unfoldable pub judge_case :
      Goal → Plan → Board → Option (Evidence × Task) → Scheduled X (Unit {0})
  unfolding judge skip
  judge_case goal plan b none = skip
  judge_case goal plan b (some (e, t)) = judge goal plan b t e

  -- The body of the second loop of `verifyPending`.
  unfoldable pub verify_one : Goal → Plan → GoString → Scheduled X (Unit {0})
  unfolding read_board judge_case open_case ◌>>=◌
  verify_one goal plan id = do b ← read_board board_id; judge_case goal plan b (open_case b id)

  -- `verifyPending`.
  unfoldable pub verify_pending : Scheduled X (Unit {0})
  unfolding read_board runtime_definition verify_one pending_evidence for_each ◌>>=◌
  verify_pending = do
    b ← read_board board_id
    (goal, plan) ← runtime_definition o board_id
    for_each (pending_evidence b) (verify_one goal plan)
