-- ===== src/Protocol/Completion.antt =====
-- `EvaluateCompletion` of internal/agoboardprotocol/protocol.go. The counters start at 0 and are
-- bounded by the number of tasks, so they are native numbers.
pub mod Counts
pub mod Verdicts
use ago.Prelude.{
  ℕ, ◌+◌, Bool, true, false, ◌&&◌, ◌||◌, not, List, [], ◌∷◌, ltb, ◌==◌, if◌then◌else◌, length,
  is_empty,
}
use ago.GoString.{str_eq}
use ago.Protocol.States.{TaskState, state_eq}
use ago.Protocol.Records.{Board, Task}
use ago.Protocol.Rules.{established, satisfied_at, is_gate_failed}

pub data CompletionStatus : Type 0 where
  in_progress unproven passed failed : CompletionStatus

pub record Completion : Type 0 where
  pub status : CompletionStatus
  pub passed : ℕ
  pub failed : ℕ
  pub remaining : ℕ
  pub done : Bool
  pub proven : Bool

-- The counters of the loop over the tasks.
pub record Tally : Type 0 where
  pub passed : ℕ
  pub failed : ℕ
  pub remaining : ℕ
  pub settled : ℕ

unfoldable pub count_task : Tally → Task → Tally
count_task c t =
    if state_eq t.state TaskState.passed
    then record c { passed = c.passed + 1; settled = c.settled + 1 }
    else if t.cancelled || not (is_empty t.superseded_by)
    then record c { settled = c.settled + 1 }
    else if state_eq t.state TaskState.failed
    then record c { failed = c.failed + 1 }
    else record c { remaining = c.remaining + 1 }

unfoldable pub tally : Tally → List Task → Tally
unfolding count_task
tally c [] = c
tally c (t ∷ ts) = tally (count_task c t) ts

-- The last `switch`: every task is settled.
unfoldable pub judge : Board → Completion → Completion
unfolding established satisfied_at
judge b c =
    if not (established b.gate)
    then record c { status = CompletionStatus.passed; done = true }
    else if is_empty b.integrated_revision
    then record c { status = CompletionStatus.passed; done = true }
    else if satisfied_at b.gate b.integrated_revision
    then record c { status = CompletionStatus.passed; done = true; proven = true }
    else if is_gate_failed b.gate.state && str_eq b.gate.revision b.integrated_revision
    then record c { status = CompletionStatus.failed }
    else record c { status = CompletionStatus.unproven }

unfoldable pub evaluate_completion : Board → Completion
unfolding tally judge
evaluate_completion b =
    let c = tally (record { passed = 0; failed = 0; remaining = 0; settled = 0 }) b.tasks in
    let completion : Completion = record {
      status = CompletionStatus.in_progress;
      passed = c.passed;
      failed = c.failed;
      remaining = c.remaining;
      done = false;
      proven = false;
    } in
    if ltb 0 c.failed
    then record completion { status = CompletionStatus.failed }
    else if length b.tasks == 0 || not (c.settled == length b.tasks)
    then completion
    else judge b completion
