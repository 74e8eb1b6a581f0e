-- ===== src/Machine/Log/Handlers.antt =====
-- The handlers of `Apply` in internal/agoboardprotocol/state_machine.go change the version of the board
-- and the list of events through `emit` only.
use ago.Prelude.{ℕ, List, ◌≡◌, Bool, true, false, arith, is_empty, subst, sym, refl}
use ago.Prelude.Outcome.{Outcome, ok, Ensures, ok_of_Ensures, Ensures->>=}
use ago.GoString.{GoString}
use ago.Protocol.Errors.{Error}
use ago.Protocol.States.{CommandType}
use ago.Protocol.Records.{Board, Evidence}
use ago.Protocol.Commands.{Command}
use ago.Machine.Work.{Work}
use ago.Machine.Graph.{
  board_create, task_add, dependency_add, task_activate, restarted, task_retry, set_paused,
}
use ago.Machine.Leases.{lease_acquire, lease_expire, lease_renew, claimed}
use ago.Machine.Execution.{attempt_start, evidence_submit, attempt_fail, complete_lease}
use ago.Machine.Review.{
  evidence_accept, evidence_reject, verification_deferred, accepted_board, deferred_board,
}
use ago.Machine.Integration.{
  GateOutcome, integration_complete, integration_fail, gate_result, integrated_board,
}
use ago.Machine.Patch.{plan_patch}
use ago.Machine.Apply.{apply, dispatch, opened}
use ago.Machine.Apply.Parts.{apply-Applied}
use ago.Machine.Log.{Logged, LoggedAt, Logged-emit}
use ago.Prelude.Ints.{ℤ}
use ago.Machine.Log.Levels.{
  Level, failed-Level, moved-Level, patched-Level, deferred_board-Level, complete_lease-Level,
  unblock_ready_tasks-Logged, Logged-if,
}

module _ (c : Command) (v : ℕ) (w : Work) (h : Logged c v w) where
  abbrev Written : Outcome Error Work → Type 0
  Written = Ensures (Logged c v)

  leveled : (d : Board) → Level w.board d → LoggedAt c v d.version w.events
  leveled d e = subst (λ n. LoggedAt c v n w.events) (sym e) h

  deferred : (i j : ℕ) (n : ℤ) → LoggedAt c v (deferred_board c i j n w.board).version w.events
  deferred i j n = leveled (deferred_board c i j n w.board) (deferred_board-Level c i j n w.board)

  completed :
      (d : Board) (es : List Evidence) (k : GoString)
      → Level w.board d
      → LoggedAt c v (complete_lease k (record d { evidence = es })).version w.events
  completed d es k e =
      leveled (complete_lease k (record d { evidence = es }))
        (complete_lease-Level k w.board (record d { evidence = es }) e)

  task_add-Logged : Written (task_add c w)
  unfolding task_add
  task_add-Logged = search (Ensures->>=, Logged-emit) depth 25

  dependency_add-Logged : Written (dependency_add c w)
  unfolding dependency_add
  dependency_add-Logged = search (Ensures->>=, Logged-emit) depth 25

  task_activate-Logged : Written (task_activate c w)
  unfolding task_activate
  task_activate-Logged = search (Ensures->>=, Logged-emit) depth 25

  task_retry-Logged : Written (task_retry c w)
  unfolding task_retry restarted
  task_retry-Logged = search (Ensures->>=, Logged-emit) depth 25

  lease_acquire-Logged : Written (lease_acquire c w)
  unfolding lease_acquire claimed
  lease_acquire-Logged = search (Ensures->>=, Logged-emit) depth 25

  lease_expire-Logged : Written (lease_expire c w)
  unfolding lease_expire
  lease_expire-Logged = search (Ensures->>=, Logged-emit, leveled, failed-Level) depth 25

  lease_renew-Logged : Written (lease_renew c w)
  unfolding lease_renew
  lease_renew-Logged = search (Ensures->>=, Logged-emit) depth 25

  attempt_start-Logged : Written (attempt_start c w)
  unfolding attempt_start
  attempt_start-Logged = search (Ensures->>=, Logged-emit, leveled, moved-Level) depth 25

  evidence_submit-Logged : Written (evidence_submit c w)
  unfolding evidence_submit
  evidence_submit-Logged = search (Ensures->>=, Logged-emit, completed, moved-Level) depth 25

  attempt_fail-Logged : Written (attempt_fail c w)
  unfolding attempt_fail
  attempt_fail-Logged = search (Ensures->>=, Logged-emit, leveled, failed-Level) depth 25

  evidence_accept-Logged : Written (evidence_accept c w)
  unfolding evidence_accept accepted_board
  evidence_accept-Logged =
      search (Ensures->>=, Logged-emit, unblock_ready_tasks-Logged, Logged-if) depth 25

  evidence_reject-Logged : Written (evidence_reject c w)
  unfolding evidence_reject
  evidence_reject-Logged = search (Ensures->>=, Logged-emit, leveled, failed-Level) depth 25

  verification_deferred-Logged : Written (verification_deferred c w)
  unfolding verification_deferred
  verification_deferred-Logged = search (Ensures->>=, Logged-emit, deferred) depth 25

  integration_complete-Logged : Written (integration_complete c w)
  unfolding integration_complete integrated_board
  integration_complete-Logged =
      search (Ensures->>=, Logged-emit, unblock_ready_tasks-Logged) depth 25

  integration_fail-Logged : Written (integration_fail c w)
  unfolding integration_fail
  integration_fail-Logged = search (Ensures->>=, Logged-emit) depth 25

  plan_patch-Logged : Written (plan_patch c w)
  unfolding plan_patch
  plan_patch-Logged =
      search (Ensures->>=, Logged-emit, leveled, patched-Level, unblock_ready_tasks-Logged) depth 25

  set_paused-Logged : (p : Bool) → Written (set_paused p c w)
  unfolding set_paused
  set_paused-Logged p = search (Ensures->>=, Logged-emit) depth 25

  gate_result-Logged : (o : GateOutcome) → Written (gate_result o c w)
  unfolding gate_result
  gate_result-Logged o = search (Ensures->>=, Logged-emit) depth 25

  board_create-refused : is_empty w.board.id ≡ false → Written (board_create c w)
  unfolding board_create
  board_create-refused q = ground arith

  dispatch-Logged : (t : CommandType) → is_empty w.board.id ≡ false → Written (dispatch t c w)
  unfolding dispatch
  dispatch-Logged CommandType.board_create q = board_create-refused q
  dispatch-Logged CommandType.task_add q = task_add-Logged
  dispatch-Logged CommandType.dependency_add q = dependency_add-Logged
  dispatch-Logged CommandType.task_activate q = task_activate-Logged
  dispatch-Logged CommandType.task_retry q = task_retry-Logged
  dispatch-Logged CommandType.lease_acquire q = lease_acquire-Logged
  dispatch-Logged CommandType.lease_expire q = lease_expire-Logged
  dispatch-Logged CommandType.lease_renew q = lease_renew-Logged
  dispatch-Logged CommandType.attempt_start q = attempt_start-Logged
  dispatch-Logged CommandType.evidence_submit q = evidence_submit-Logged
  dispatch-Logged CommandType.attempt_fail q = attempt_fail-Logged
  dispatch-Logged CommandType.evidence_accept q = evidence_accept-Logged
  dispatch-Logged CommandType.evidence_reject q = evidence_reject-Logged
  dispatch-Logged CommandType.verification_deferred q = verification_deferred-Logged
  dispatch-Logged CommandType.integration_complete q = integration_complete-Logged
  dispatch-Logged CommandType.integration_fail q = integration_fail-Logged
  dispatch-Logged CommandType.plan_patch q = plan_patch-Logged
  dispatch-Logged CommandType.board_pause q = set_paused-Logged true
  dispatch-Logged CommandType.board_resume q = set_paused-Logged false
  dispatch-Logged CommandType.gate_pass q = gate_result-Logged GateOutcome.pass
  dispatch-Logged CommandType.gate_fail q = gate_result-Logged GateOutcome.fail
  dispatch-Logged CommandType.gate_unavailable q = gate_result-Logged GateOutcome.unavailable
  dispatch-Logged (CommandType.unknown t) q = tt

-- The events of a command that succeeds on an initialized board carry the command's id with the numbers
-- 1, 2, 3 and so on, its actor, and the versions that follow the one of the board, one by one, modulo
-- 2 ^ 64; the new board has the version of the last event.
pub apply-Logged :
    (b : Board) (c : Command) {w : Work}
    → is_empty b.id ≡ false
    → apply b c ≡ ok w
    → Logged c b.version w
apply-Logged b c {w} h e =
    ok_of_Ensures (Logged c b.version) _
      (dispatch-Logged c b.version (opened b) (record { version = refl; events = tt }) c.type h)
      (apply-Applied b c e).handled
