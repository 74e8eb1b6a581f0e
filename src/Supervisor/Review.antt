-- ===== src/Supervisor/Review.antt =====
-- The passes of internal/agosupervisor/supervisor.go: `reviewStoppedWork`, `reviewFailedGate`,
-- `waitForRetry`, `status`, `Step` and `Run`. The context never ends.
pub mod Lawful
pub mod Silence
use ago.Prelude.{
  ℕ, zero, suc, ◌-◌, ◌+◌, Bool, true, false, ◌&&◌, ◌||◌, not, ◌++◌, Option, none, some, List, [],
  ◌∷◌, all, is_empty, if◌then◌else◌,
}
use ago.Prelude.Ints.{ℤ, pos, ltb_int}
use ago.Prelude.Outcome.{Outcome, ok, err, panic}
use ago.Prelude.Effect.{pure, fail, gets, update, skip, attempt, for_each, ◌>>=◌, ◌>>◌}
use ago.GoString.{GoString, codes, utf8, str_eq}
use ago.Clock.{Time, zero_time, is_zero, before}
use ago.Protocol.States.{TaskState, GateState, state_eq}
use ago.Protocol.Records.{Board, Task}
use ago.Protocol.Retry.{max_gate_repairs, max_gate_unavailable}
use ago.Protocol.Rules.{established, is_gate_failed}
use ago.Store.Rows.{Db}
use ago.Store.Claim.{print_int}
use ago.Store.Queries.{completion}
use ago.Supervisor.{
  DecisionKind, Decision, Fault, Options, World, Supervised, escalation_for, suggestion_for,
  failure_narrative,
}
use ago.Supervisor.Attention.{already_raised, now, raise_now}
use ago.Supervisor.Waiting.{settled, every_remaining_stop_needs_a_person}
use ago.Supervisor.Repair.{query, read_board, repair, repair_for_gate}

pub record Status : Type 0 where
  pub complete : Bool
  pub blocked : Bool
  pub passed : ℕ
  pub failed : ℕ
  pub remaining : ℕ
  pub decisions : List Decision
  pub proven : Bool
  pub gate_state : GateState
  pub gate_summary : GoString

-- A task that has stopped for good and was not withdrawn.
abbrev pub stopped : Task → Bool
stopped t = state_eq t.state TaskState.failed && not t.cancelled && is_empty t.superseded_by

abbrev pub gate_decision_id : GoString
gate_decision_id = codes "project-gate"

abbrev manual_retry : GoString
unfolding utf8
manual_retry = utf8 "检查任务契约是否可行，或缩小范围后手动重试。"

module _ (o : Options) where
  -- The end of the loop's body: what becomes of the error of `repair`.
  unfoldable pub after_repair : Task → Outcome Fault (Unit {0}) → Supervised (Unit {0})
  unfolding raise_now skip utf8
  after_repair t (err e) =
      raise_now o DecisionKind.exhausted t.id t.title (utf8 "自动修复失败：" ++ o.error_text e)
        manual_retry t.attempt_count
  after_repair t _ = skip

  -- The body behind the tests on the failure's class.
  unfoldable pub repair_or_raise : Task → Supervised (Unit {0})
  unfolding raise_now repair after_repair attempt failure_narrative print_int utf8 ◌>>=◌
  repair_or_raise t =
      if ltb_int t.user_retries o.authorize.max_repairs_per_task
      then attempt (repair o t) >>= after_repair t
      else raise_now o DecisionKind.exhausted t.id t.title
          (utf8 "自动修复已用尽（" ++ (print_int t.user_retries ++ (utf8 " 次）：" ++ failure_narrative t)))
          manual_retry t.attempt_count

  unfoldable pub decide : Task → Option DecisionKind → Supervised (Unit {0})
  unfolding raise_now repair_or_raise failure_narrative suggestion_for
  decide t none = repair_or_raise t
  decide t (some kind) =
      raise_now o kind t.id t.title (failure_narrative t) (suggestion_for kind) t.attempt_count

  -- The body of the loop of `reviewStoppedWork`.
  unfoldable pub visit_task : Bool → Task → Supervised (Unit {0})
  unfolding decide escalation_for skip
  visit_task passed_over t =
      if not (stopped t) || passed_over
      then skip
      else decide t (escalation_for t.failure_class o.authorize)

  unfoldable pub review_task : Task → Supervised (Unit {0})
  unfolding already_raised visit_task
  review_task t w = visit_task (already_raised t.id w.decisions) t w

  -- `reviewStoppedWork`.
  unfoldable pub review_stopped_work : Board → Supervised (Unit {0})
  unfolding review_task for_each
  review_stopped_work b = for_each b.tasks review_task

  -- What becomes of the error of `repairForGate`.
  unfoldable pub after_gate_repair : Board → Outcome Fault (Unit {0}) → Supervised (Unit {0})
  unfolding raise_now skip utf8
  after_gate_repair b (err e) =
      raise_now o DecisionKind.exhausted gate_decision_id (utf8 "项目门禁未通过")
        (b.gate.summary
          ++ ((10 ∷ 10 ∷ b.gate.failure_output)
              ++ ((10 ∷ 10 ∷ utf8 "（无法自动安排修复：") ++ (o.error_text e ++ utf8 "）"))))
        (utf8 "请检查集成分支上的失败，或缩小目标范围后重试。") (pos 0)
  after_gate_repair b _ = skip

  -- The gate has failed at what is integrated, and everything is settled.
  unfoldable pub repair_gate : Board → Supervised (Unit {0})
  unfolding raise_now repair_for_gate after_gate_repair attempt utf8 ◌>>=◌
  repair_gate b =
      if ltb_int max_gate_repairs b.gate.failures
      then raise_now o DecisionKind.exhausted gate_decision_id (utf8 "项目门禁未通过")
          (b.gate.summary ++ (10 ∷ 10 ∷ b.gate.failure_output))
          (utf8 "自动修复已用尽。请检查集成分支上的失败，或缩小目标范围后重试。") (pos 0)
      else attempt (repair_for_gate o b) >>= after_gate_repair b

  -- The gate could not be run too often.
  unfoldable pub gate_unrunnable : Board → Bool
  unfolding established
  gate_unrunnable b = established b.gate && not (ltb_int b.gate.unavailable max_gate_unavailable)

  unfoldable pub gate_rejects : Board → Bool
  unfolding all
  gate_rejects b =
      is_gate_failed b.gate.state
      && str_eq b.gate.revision b.integrated_revision
      && all settled b.tasks

  -- Whether the goal-level decision has been raised is read first: every path below does nothing then.
  unfoldable pub answer_gate : Bool → Board → Supervised (Unit {0})
  unfolding raise_now repair_gate gate_unrunnable gate_rejects print_int skip utf8
  answer_gate raised b =
      if raised
      then skip
      else if gate_unrunnable b
      then raise_now o DecisionKind.exhausted gate_decision_id (utf8 "项目门禁无法运行")
          (utf8 "连续 "
            ++ (print_int b.gate.unavailable ++ (utf8 " 次无法运行项目门禁：" ++ b.gate.last_error)))
          (utf8 "这通常是环境问题：检查仓库是否可读、工具链是否可用、磁盘是否可写。修好后重试。") (pos 0)
      else if gate_rejects b
      then repair_gate b
      else skip

  unfoldable pub review_gate_of : Board → Supervised (Unit {0})
  unfolding answer_gate already_raised
  review_gate_of b w = answer_gate (already_raised gate_decision_id w.decisions) b w

  -- `reviewFailedGate`.
  unfoldable pub review_failed_gate : Supervised (Unit {0})
  unfolding read_board review_gate_of ◌>>=◌
  review_failed_gate = read_board o >>= review_gate_of

  -- The last assignment of `status`: a closure of the dependencies that does not end is a panic here,
  -- which `saturate_total` excludes.
  abbrev blocked_of : Bool → Option Bool → Outcome Fault Bool
  blocked_of true r = ok false
  blocked_of false none = panic
  blocked_of false (some b) = ok b

  unfoldable pub blocked : Bool → Board → Supervised Bool
  unfolding every_remaining_stop_needs_a_person
  blocked complete b w =
      (w, blocked_of complete (every_remaining_stop_needs_a_person w.decisions b))

  -- `status`.
  unfoldable pub status : Supervised Status
  unfolding query completion read_board blocked gets pure ◌>>=◌
  status = do
    c ← query Fault.store (completion o.board_id)
    b ← read_board o
    stuck ← blocked c.done b
    ds ← gets (λ w. w.decisions)
    pure (record {
      complete = c.done;
      blocked = stuck;
      passed = c.passed;
      failed = c.failed;
      remaining = c.remaining;
      decisions = ds;
      proven = c.proven;
      gate_state = b.gate.state;
      gate_summary = b.gate.summary;
    })

  -- `Scheduler.RunOnceForBoard`.
  abbrev cycled : World → Db × Outcome Fault (Unit {0}) → World × Outcome Fault (Unit {0})
  cycled w (db, r) = (record w { db = db }, r)

  unfoldable pub run_cycle : Supervised (Unit {0})
  run_cycle w = cycled w (o.cycle w.db)

  -- `Step`.
  unfoldable pub step : Supervised Status
  unfolding run_cycle read_board review_stopped_work review_failed_gate status ◌>>=◌ ◌>>◌
  step = do run_cycle; b ← read_board o; review_stopped_work b; review_failed_gate; status

  -- The loop of `waitForRetry`: the earliest time of a retry so far, or none where something else is
  -- outstanding.
  unfoldable pub earliest_retry : List Decision → List Task → Time → Option Time
  unfolding already_raised is_zero
  earliest_retry ds [] earliest = some earliest
  earliest_retry ds (t ∷ ts) earliest =
      let keep = earliest_retry ds ts earliest in
      let take = earliest_retry ds ts t.next_eligible_at in
      if settled t
      then keep
      else if not (state_eq t.state TaskState.retry_wait)
      then if not (state_eq t.state TaskState.failed) || not (already_raised t.id ds)
        then none
        else keep
      else if is_zero earliest || before t.next_eligible_at earliest
      then take
      else keep

  -- `After(delay)` for a positive delay.
  abbrev pause : ℕ → World → World
  pause zero w = w
  pause (suc n) w = record w { waits = w.waits ++ (suc n ∷ []) }

  unfoldable pub after_delay : ℕ → Supervised (Unit {0})
  unfolding update
  after_delay delay = update (pause delay)

  unfoldable pub wait_until : Time → Option Time → Supervised (Unit {0})
  unfolding after_delay skip is_zero
  wait_until t none = skip
  wait_until t (some earliest) =
      if is_zero earliest then skip else after_delay (earliest.instant - t.instant)

  -- `waitForRetry`.
  unfoldable pub wait_for_retry : Supervised (Unit {0})
  unfolding read_board now earliest_retry wait_until gets ◌>>=◌
  wait_for_retry = do
    b ← read_board o
    t ← now o
    ds ← gets (λ w. w.decisions)
    wait_until t (earliest_retry ds b.tasks zero_time)

  -- The test behind a step, and the rest of the run.
  unfoldable pub after_step : Supervised Status → Status → Supervised Status
  unfolding pure
  after_step rest s = if s.complete || s.blocked then pure s else rest

  -- The loop of `Run`, from the number of steps that are left.
  unfoldable pub run : ℕ → Supervised Status
  unfolding step wait_for_retry fail ◌>>=◌ ◌>>◌
  run zero = fail Fault.not_terminal
  run (suc steps) = step >>= after_step (wait_for_retry >> run steps)

  -- `Run`: 512 steps unless there is a limit.
  unfoldable pub run_goal : ℤ → Supervised Status
  unfolding run
  run_goal (pos (suc n)) = run (suc n)
  run_goal _ = run 512
