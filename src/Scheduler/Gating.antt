-- ===== src/Scheduler/Gating.antt =====
-- `runProjectGate`, `recordGateUnavailable` and `gateFailureOutput` of
-- internal/agoscheduler/scheduler.go.
pub mod Due
use ago.Prelude.{
  Bool, true, false, ◌++◌, ◌&&◌, ◌||◌, not, Option, none, some, List, [], ◌∷◌, all, is_empty,
  if◌then◌else◌,
}
use ago.Prelude.Ints.{ℤ, ltb_int}
use ago.Prelude.Outcome.{Outcome, ok, err}
use ago.Prelude.Effect.{skip, ◌>>=◌}
use ago.GoString.{GoString, codes, utf8, str_eq, trim_space}
use ago.Clock.{Time}
use ago.Protocol.States.{CommandType, GateState, TaskState, state_eq}
use ago.Protocol.Records.{Board, Task}
use ago.Protocol.Commands.{Command, GateSpec}
use ago.Protocol.Retry.{max_gate_unavailable}
use ago.Protocol.Rules.{established}
use ago.Store.Claim.{print_int}
use ago.Scheduler.{
  Check, GateReport, Answer, failed, answered, Options, Site, Call, Fault, Scheduled,
}
use ago.Scheduler.Steps.{read_board, utc_now, apply_once, coordinate}

-- The line of one check, and `gateFailureOutput`.
unfoldable pub check_lines : List Check → GoString
unfolding print_int utf8
check_lines [] = []
check_lines (c ∷ cs) =
    let rest = check_lines cs in
    if c.passed
    then rest
    else (codes "$ "
        ++ (c.command
            ++ ((10 ∷ utf8 "退出码 ")
                ++ (print_int c.exit_code ++ ((10 ∷ c.output) ++ (10 ∷ 10 ∷ []))))))
      ++ rest

unfoldable pub gate_failure_output : GateReport → GoString
unfolding check_lines trim_space
gate_failure_output r = trim_space (check_lines r.checks)

abbrev pub is_gate_pending : GateState → Bool
is_gate_pending GateState.pending = true
is_gate_pending _ = false

abbrev pub outstanding : Task → Bool
outstanding t =
    not (state_eq t.state TaskState.passed) && not t.cancelled && is_empty t.superseded_by

-- The early returns of `runProjectGate`: the revision to prove, if there is one.
unfoldable pub gate_revision : Board → Option GoString
unfolding established all trim_space
gate_revision b =
    let revision = trim_space b.integrated_revision in
    if not (established b.gate) || b.paused
    then none
    else if not (all (λ t. not (outstanding t)) b.tasks)
    then none
    else if is_empty revision
    then none
    else if str_eq b.gate.revision revision && not (is_gate_pending b.gate.state)
    then none
    else if not (ltb_int b.gate.unavailable max_gate_unavailable)
    then none
    else some revision

module _ {X : Type 0} (o : Options X) (board_id : GoString) where
  -- `recordGateUnavailable`.
  unfoldable pub record_gate_unavailable : Board → GoString → GoString → Scheduled X (Unit {0})
  unfolding utc_now apply_once print_int utf8 ◌>>=◌
  record_gate_unavailable b revision cause = utc_now o >>= λ t.
      apply_once o board_id
        (record (coordinate o CommandType.gate_unavailable
          (codes "gate-unavailable:"
            ++ (board_id
                ++ (codes ":" ++ (revision ++ (codes ":" ++ print_int b.gate.unavailable)))))
          b) {
            revision = revision;
            gate = some (record {
              summary = o.redact (utf8 "项目门禁无法运行：" ++ cause);
              failure_output = [];
              ran_at = t;
            });
          })

  unfoldable pub record_gate : Board → GoString → GateReport → Scheduled X (Unit {0})
  unfolding utc_now apply_once gate_failure_output ◌>>=◌
  record_gate b revision r = utc_now o >>= λ t.
      apply_once o board_id
        (record (coordinate o (if r.passed then CommandType.gate_pass else CommandType.gate_fail)
          (codes "gate:" ++ (board_id ++ (codes ":" ++ revision))) b) {
            revision = revision;
            gate = some (record {
              summary = o.redact r.summary;
              failure_output = if r.passed then [] else o.redact (gate_failure_output r);
              ran_at = t;
            });
          })

  unfoldable pub after_gate : Board → GoString → Answer GoString GateReport → Scheduled X (Unit {0})
  unfolding record_gate_unavailable record_gate
  after_gate b revision (failed cause) = record_gate_unavailable b revision cause
  after_gate b revision (answered r) = record_gate b revision r

  -- `ProjectGate.Run`.
  unfoldable pub call_gate :
      (GoString → GoString → List GoString → X → X × Answer GoString GateReport)
      → Board
      → GoString
      → Scheduled X (Answer GoString GateReport)
  call_gate f b revision s =
      let (x, r) = f b.repository revision b.gate.commands s.outside in
      (
        record s {
          outside = x;
          calls = s.calls ++ (Call.gated b.repository revision b.gate.commands ∷ []);
        },
        ok r,
      )

  unfoldable pub prove :
      (GoString → GoString → List GoString → X → X × Answer GoString GateReport)
      → Board
      → Option GoString
      → Scheduled X (Unit {0})
  unfolding call_gate after_gate skip ◌>>=◌
  prove f b none = skip
  prove f b (some revision) = call_gate f b revision >>= after_gate b revision

  -- `runProjectGate`.
  unfoldable pub run_project_gate : Scheduled X (Unit {0})
  unfolding read_board prove gate_revision skip ◌>>=◌
  run_project_gate = elim o.parts.run_gate [
    | none ↦ skip
    | some f ↦ read_board board_id >>= λ b. prove f b (gate_revision b)
  ]
