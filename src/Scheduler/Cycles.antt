-- ===== src/Scheduler/Cycles.antt =====
-- `runCycle` of internal/agoscheduler/scheduler.go and its callers. The context never ends, and
-- `OnCycle` only observes.
use ago.Prelude.{
  ℕ, zero, suc, ◌+◌, Bool, true, false, ◌++◌, List, [], ◌∷◌, is_empty, if◌then◌else◌, length,
}
use ago.Prelude.Outcome.{Outcome, ok, err, panic}
use ago.Prelude.Effect.{pure, gets, ◌>>=◌, ◌>>◌}
use ago.GoString.{GoString}
use ago.Clock.{Time}
use ago.Store.Rows.{Db, Tx, Stored}
use ago.Store.Picking.{ClaimOutcome}
use ago.Store.Queries.{board_ids}
use ago.Store.Sweep.{expire_due_leases}
use ago.Scheduler.{Options, Site, Fault, Scheduled}
use ago.Scheduler.Steps.{utc_now, coordinator}
use ago.Scheduler.Dispatching.{claim_and_dispatch}
use ago.Scheduler.Integrating.{resume_integrating}
use ago.Scheduler.Verifying.{verify_pending}
use ago.Scheduler.Gating.{run_project_gate}

pub record Cycle : Type 0 where
  pub reconciled : ℕ
  pub claimed : ℕ
  pub dispatched : ℕ
  pub outcomes : List ClaimOutcome

module _ {X : Type 0} (o : Options X) where
  -- `ExpireDueLeases`.
  abbrev expired : Site X → Db × Tx (List Stored) → Site X × Outcome Fault ℕ
  expired s (db, ok results) = (record s { db = db }, ok (length results))
  expired s (db, err e) = (record s { db = db }, err (Fault.reconcile e))
  expired s (db, panic) = (record s { db = db }, panic)

  unfoldable pub reconcile : Time → Scheduled X ℕ
  unfolding expire_due_leases
  reconcile t s = expired s (expire_due_leases o.codec t (coordinator o) s.db)

  -- `maxClaimsPerCycle`.
  abbrev pub max_claims_per_cycle : ℕ
  max_claims_per_cycle = 16

  abbrev pub counted : Bool → ClaimOutcome → Cycle → Cycle
  counted claimed outcome c =
      if claimed
      then record c {
        claimed = c.claimed + 1;
        dispatched = c.dispatched + 1;
        outcomes = c.outcomes ++ (outcome ∷ []);
      }
      else record c { outcomes = c.outcomes ++ (outcome ∷ []) }

  -- What follows one claim, given the rest of the loop.
  unfoldable pub after_claim :
      (Cycle → Scheduled X Cycle) → Cycle → Bool × ClaimOutcome → Scheduled X Cycle
  unfolding pure
  after_claim rest c (claimed, outcome) =
      if claimed then rest (counted true outcome c) else pure (counted false outcome c)

  -- The loop of claims.
  unfoldable pub claim_loop : ℕ → GoString → Cycle → Scheduled X Cycle
  unfolding claim_and_dispatch after_claim pure ◌>>=◌
  claim_loop zero board_id c = pure c
  claim_loop (suc n) board_id c =
      claim_and_dispatch o board_id >>= after_claim (claim_loop n board_id) c

  -- The loop over the boards.
  unfoldable pub serve_board : GoString → Cycle → Scheduled X Cycle
  unfolding verify_pending resume_integrating claim_loop run_project_gate pure ◌>>=◌ ◌>>◌
  serve_board board_id c = do
    verify_pending o board_id
    resume_integrating o board_id
    c1 ← claim_loop max_claims_per_cycle board_id c
    run_project_gate o board_id
    pure c1

  unfoldable pub serve_boards : List GoString → Cycle → Scheduled X Cycle
  unfolding serve_board pure ◌>>=◌
  serve_boards [] c = pure c
  serve_boards (id ∷ ids) c = serve_board id c >>= serve_boards ids

  -- `runCycle`, for one board or, where its id is empty, for all.
  unfoldable pub run_cycle : GoString → Scheduled X Cycle
  unfolding utc_now reconcile board_ids serve_boards gets ◌>>=◌
  run_cycle only_board = do
    t ← utc_now o
    n ← reconcile t
    listed ← gets (λ s. if is_empty only_board then board_ids s.db else only_board ∷ [])
    serve_boards listed (record { reconciled = n; claimed = 0; dispatched = 0; outcomes = [] })

  -- `RunOnce` and `RunOnceForBoard`.
  unfoldable pub run_once : Scheduled X Cycle
  unfolding run_cycle
  run_once = run_cycle []

  unfoldable pub run_once_for_board : GoString → Scheduled X Cycle
  unfolding run_cycle
  run_once_for_board board_id = run_cycle board_id
