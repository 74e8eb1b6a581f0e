-- ===== src/Scheduler/Integrating.antt =====
-- `integrate`, `failIntegration` and `resumeIntegrating` of internal/agoscheduler/scheduler.go.
pub mod Promoting
use ago.Prelude.{
  Bool, true, false, not, ◌++◌, Option, none, some, List, [], ◌∷◌, find, if◌then◌else◌,
}
use ago.Prelude.Outcome.{Outcome, ok, err}
use ago.Prelude.Ints.{ℤ}
use ago.Prelude.Effect.{pure, fail, skip, ◌>>=◌, ◌>>◌}
use ago.GoString.{GoString, codes, utf8, str_eq, print_nat}
use ago.Protocol.States.{CommandType, FailureClass, TaskState, state_eq}
use ago.Protocol.Records.{Board, Task, Evidence, EvidenceResult, PatchRecord}
use ago.Protocol.Commands.{Command}
use ago.Scheduler.{
  Promotion, PromotionError, Answer, failed, answered, Options, Site, Call, Fault, Scheduled,
}
use ago.Scheduler.Steps.{read_board, apply_to, coordinate}

-- `acceptedEvidenceFor`.
unfoldable pub accepted_evidence_for : Board → Task → Option Evidence
unfolding find
accepted_evidence_for b t = find (λ e. str_eq e.id t.accepted_evidence_id) b.evidence

module _ {X : Type 0} (o : Options X) (board_id : GoString) where
  -- The closure `fail` of `integrate`.
  unfoldable pub fail_promotion :
      GoString → GoString → FailureClass → GoString → Scheduled X (Unit {0})
  unfolding read_board apply_to skip ◌>>=◌
  fail_promotion task_id attempt_id class reason = do
    current ← read_board board_id
    applied ←
        apply_to o Fault.store board_id
          (record (coordinate o CommandType.integration_fail
            (codes "integration-fail:" ++ attempt_id) current) {
              task_id = task_id;
              failure_class = class;
              reason = o.redact reason;
            })
    skip

  unfoldable pub complete_promotion : GoString → GoString → GoString → Scheduled X (Unit {0})
  unfolding read_board apply_to skip utf8 ◌>>=◌
  complete_promotion task_id attempt_id revision = do
    current ← read_board board_id
    applied ←
        apply_to o Fault.store board_id
          (record (coordinate o CommandType.integration_complete
            (codes "integration:" ++ attempt_id) current) {
              task_id = task_id;
              revision = revision;
              reason = utf8 "已集成到 " ++ revision;
            })
    skip

  -- What becomes of the answer of `Integrator.Integrate`. A conflict is work that can be repaired.
  unfoldable pub after_promotion :
      GoString → GoString → Answer PromotionError GoString → Scheduled X (Unit {0})
  unfolding fail_promotion complete_promotion utf8
  after_promotion task_id attempt_id (failed e) =
      fail_promotion task_id attempt_id
        (if e.conflict then FailureClass.verifier_feedback else FailureClass.repository)
        (utf8 "集成失败：" ++ e.text)
  after_promotion task_id attempt_id (answered revision) =
      complete_promotion task_id attempt_id revision

  -- `Integrator.Integrate`.
  unfoldable pub promote :
      (Promotion → X → X × Answer PromotionError GoString)
      → Promotion
      → Scheduled X (Answer PromotionError GoString)
  promote f p s =
      let (x, r) = f p s.outside in
      (record s { outside = x; calls = s.calls ++ (Call.promoted p ∷ []) }, ok r)

  unfoldable pub read_artifact :
      (GoString → ℤ → GoString → X → X × Answer GoString GoString)
      → PatchRecord
      → Scheduled X (Answer GoString GoString)
  read_artifact f p s =
      let (x, r) = f p.artifact_id p.bytes p.sha256 s.outside in (record s { outside = x }, ok r)

  abbrev promotion : Board → PatchRecord → GoString → GoString → GoString → Promotion
  promotion b p patch task_id summary = record {
    repository = b.repository;
    integration_ref = b.integration_ref;
    current_revision = b.integrated_revision;
    base_revision = p.base_revision;
    patch = patch;
    task_id = task_id;
    summary = summary;
  }

  unfoldable pub promote_patch :
      (Promotion → X → X × Answer PromotionError GoString)
      → GoString
      → GoString
      → EvidenceResult
      → PatchRecord
      → Board
      → Answer GoString GoString
      → Scheduled X (Unit {0})
  unfolding promote promotion after_promotion fail_promotion utf8 ◌>>=◌
  promote_patch f task_id attempt_id e p b (failed text) =
      fail_promotion task_id attempt_id FailureClass.repository (utf8 "无法读取变更补丁：" ++ text)
  promote_patch f task_id attempt_id e p b (answered patch) =
      promote f (promotion b p patch task_id e.summary) >>= after_promotion task_id attempt_id

  abbrev not_configured : GoString
  unfolding utf8
  not_configured = utf8 "未配置集成权威，已接受的变更无法应用。"

  -- Both the integrator and the reader of artifacts are needed.
  unfoldable pub integrate_with :
      Option (Promotion → X → X × Answer PromotionError GoString)
      → Option (GoString → ℤ → GoString → X → X × Answer GoString GoString)
      → GoString
      → GoString
      → EvidenceResult
      → PatchRecord
      → Board
      → Scheduled X (Unit {0})
  unfolding promote_patch read_artifact fail_promotion not_configured ◌>>=◌
  integrate_with (some f) (some g) task_id attempt_id e p b =
      read_artifact g p >>= promote_patch f task_id attempt_id e p b
  integrate_with (some f) none task_id attempt_id e p b =
      fail_promotion task_id attempt_id FailureClass.repository not_configured
  integrate_with none g task_id attempt_id e p b =
      fail_promotion task_id attempt_id FailureClass.repository not_configured

  unfoldable pub integrate_patch :
      Option PatchRecord → GoString → GoString → EvidenceResult → Board → Scheduled X (Unit {0})
  unfolding integrate_with skip
  integrate_patch none task_id attempt_id e b = skip
  integrate_patch (some p) task_id attempt_id e b =
      integrate_with o.parts.promote o.parts.artifact_bytes task_id attempt_id e p b

  -- `integrate`.
  unfoldable pub integrate : GoString → GoString → EvidenceResult → Board → Scheduled X (Unit {0})
  unfolding integrate_patch
  integrate task_id attempt_id e b = integrate_patch e.patch task_id attempt_id e b

  -- `failIntegration`.
  unfoldable pub fail_integration : GoString → FailureClass → GoString → Scheduled X (Unit {0})
  unfolding read_board apply_to skip print_nat ◌>>=◌
  fail_integration task_id class reason = do
    b ← read_board board_id
    applied ←
        apply_to o Fault.store board_id
          (record (coordinate o CommandType.integration_fail
            (codes "integration-fail:" ++ (task_id ++ (codes ":" ++ print_nat b.version))) b) {
              task_id = task_id;
              failure_class = class;
              reason = o.redact reason;
            })
    skip

  -- The loop of `resumeIntegrating`: over the tasks as first read, with the board as last read.
  unfoldable pub resume_tasks : List Task → Board → Scheduled X (Unit {0})
  unfolding accepted_evidence_for integrate fail_integration read_board skip utf8 ◌>>=◌ ◌>>◌
  resume_tasks [] b = skip
  resume_tasks (t ∷ ts) b =
      let rest = resume_tasks ts in
      if not (state_eq t.state TaskState.integrating)
      then rest b
      else elim (accepted_evidence_for b t) [
        | none ↦ fail_integration t.id FailureClass.repository (utf8 "任务处于集成中，但找不到已接受的证据。")
        | some e ↦ integrate t.id e.attempt_id e.result b >> (read_board board_id >>= rest)
      ]

  -- `resumeIntegrating`.
  unfoldable pub resume_integrating : Scheduled X (Unit {0})
  unfolding read_board resume_tasks ◌>>=◌
  resume_integrating = read_board board_id >>= λ b. resume_tasks b.tasks b
