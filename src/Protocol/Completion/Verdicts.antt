-- ===== src/Protocol/Completion/Verdicts.antt =====
-- What the verdicts of `EvaluateCompletion` mean.
use ago.Prelude.{◌<◌, ◌≡◌, ◌↔◌, ◌≢◌, Bool, true, false, ◌||◌, not, length, all, arith, is_empty}
use ago.Protocol.Records.{Board}
use ago.Protocol.Rules.{established, satisfied_at}
use ago.Protocol.Completion.{CompletionStatus, Tally, evaluate_completion}
use ago.Protocol.Completion.Counts.{
  settled, stopped, count, tally-settled, tally-failed, all_of_count, count_of_all, stopped_of_all,
}

abbrev start : Tally
start = record { passed = 0; failed = 0; remaining = 0; settled = 0 }

-- What must hold beside the tasks: there is no gate, nothing was integrated, or the gate passed at
-- the integrated revision.
abbrev pub gate_lets_finish : Board → Bool
gate_lets_finish b =
    not (established b.gate)
    || (is_empty b.integrated_revision || satisfied_at b.gate b.integrated_revision)

-- A goal is reported as done exactly when the board has a task, every task is accepted, cancelled or
-- superseded, and there is no gate, nothing was integrated, or the gate passed at the integrated
-- revision.
pub done_iff :
    (b : Board)
    → ((evaluate_completion b).done ≡ true)
      ↔ ((0 < length b.tasks) × (all settled b.tasks ≡ true) × (gate_lets_finish b ≡ true))
unfolding evaluate_completion
done_iff b = (
  λ h. ground (arith, tally-settled start b.tasks, all_of_count b.tasks),
  λ h. ground (
    arith,
    tally-settled start b.tasks,
    tally-failed start b.tasks,
    count_of_all b.tasks,
    stopped_of_all b.tasks,
  ),
)

-- Where a task failed and was not withdrawn, the status is failed and the goal is not done.
pub status-failed :
    (b : Board)
    → count stopped b.tasks ≢ 0
    → ((evaluate_completion b).status ≡ CompletionStatus.failed)
      × ((evaluate_completion b).done ≡ false)
unfolding evaluate_completion
status-failed b h = ground (arith, tally-failed start b.tasks)
