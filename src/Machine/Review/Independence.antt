-- ===== src/Machine/Review/Independence.antt =====
-- Nobody accepts their own work, and nobody accepts work whose required tests failed.
use ago.Prelude.{
  ◌≡◌, ◌≢◌, refl, ◌∙◌, true, false, List, [], ◌∷◌, map, some, is_empty, arith, select,
}
use ago.Prelude.Outcome.{ok, first_step, require-eq-ok}
use ago.Protocol.Errors.{required_tests_failed}
use ago.Protocol.States.{CommandType, ActorRole, AttemptState, EvidenceState, TaskState}
use ago.Protocol.Records.{Board, TestRecord, EvidenceResult}
use ago.Protocol.Commands.{Command}
use ago.Protocol.Rules.{
  failed_required_tests, required_tests_passed, blocks_acceptance, all_required_passed,
}
use ago.Machine.Work.{Work, find_task, find_attempt, find_evidence}
use ago.Machine.Review.{Target, find_target, evidence_accept, evidence_reject}
use ago.Machine.Apply.{apply, opened, dispatch}
use ago.Machine.Apply.Parts.{apply-handled}

-- The two readings of the required tests agree: no test blocks acceptance exactly when the list of
-- failed required tests is empty.
required_tests_agree :
    (r : EvidenceResult) → required_tests_passed r ≡ is_empty (failed_required_tests r)
unfolding required_tests_passed failed_required_tests
required_tests_agree r = agree r.tests
  where
    agree :
        (ts : List TestRecord)
        → all_required_passed ts ≡ is_empty (map (λ t. t.name) (select blocks_acceptance ts))
    agree [] = refl
    agree (t ∷ ts) = ground (arith, agree ts)

-- What a decision has established about the attempt and the evidence that it looks at.
pub record Reviewed (b : Board) (c : Command) (g : Target) : Type 0 where
  pub role : c.actor.role ≡ ActorRole.verifier
  pub task : find_task b c.task_id ≡ some (g.task_index, g.task)
  pub in_review : g.task.state ≡ TaskState.verifying
  pub current : g.task.active_attempt_id ≡ c.attempt_id
  pub attempt : find_attempt b c.attempt_id ≡ some (g.attempt_index, g.attempt)
  pub verifying : g.attempt.state ≡ AttemptState.verifying
  pub token : g.attempt.fencing_token ≡ c.fencing_token
  pub token_set : is_empty c.fencing_token ≡ false
  pub independent : c.actor.id ≢ g.attempt.worker_id
  pub reviewed : find_evidence b g.attempt.evidence_id ≡ some (g.evidence_index, g.evidence)
  pub submitted : g.evidence.state ≡ EvidenceState.submitted

target-Reviewed : (b : Board) (c : Command) {g : Target} → find_target c b ≡ ok g → Reviewed b c g
unfolding find_target
target-Reviewed b c h = ground arith

accept_parts :
    (c : Command) (w : Work) {v : Work}
    → evidence_accept c w ≡ ok v
    → (g : Target) × Reviewed w.board c g × (required_tests_passed g.evidence.result ≡ true)
unfolding evidence_accept
accept_parts c w h =
    let (g, found, rest) = first_step (find_target c w.board) _ h in
    (
      g,
      target-Reviewed w.board c found,
      required_tests_agree g.evidence.result
          ∙ require-eq-ok (is_empty (failed_required_tests g.evidence.result)) required_tests_failed
              _ rest,
    )

reject_parts :
    (c : Command) (w : Work) {v : Work}
    → evidence_reject c w ≡ ok v
    → (g : Target) × Reviewed w.board c g
unfolding evidence_reject
reject_parts c w h =
    let (g, found, rest) = first_step (find_target c w.board) _ h in
    (g, target-Reviewed w.board c found)

-- If evidence.accept succeeds, then the actor is a verifier, is not the worker of the attempt, and
-- presents the attempt's own non-empty fencing token; the task is in review with that attempt; the
-- evidence of the attempt is submitted, and every required test in it passed.
pub accept_independent :
    (b : Board) (c : Command) {w : Work}
    → c.type ≡ CommandType.evidence_accept
    → apply b c ≡ ok w
    → (g : Target) × Reviewed b c g × (required_tests_passed g.evidence.result ≡ true)
unfolding dispatch
accept_independent b c t h =
    accept_parts c (opened b) (apply-handled b c CommandType.evidence_accept t h)

-- If evidence.reject succeeds, the same holds of the actor, the attempt, the task and the evidence.
pub reject_independent :
    (b : Board) (c : Command) {w : Work}
    → c.type ≡ CommandType.evidence_reject
    → apply b c ≡ ok w
    → (g : Target) × Reviewed b c g
unfolding dispatch
reject_independent b c t h =
    reject_parts c (opened b) (apply-handled b c CommandType.evidence_reject t h)
