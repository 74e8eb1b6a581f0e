-- ===== src/Scheduler/Dispatching/Once.antt =====
-- The executor runs only behind a claim and a start that were committed.
use ago.Prelude.{
  ◌≡◌, refl, sym, ap, subst, ◌∙◌, Bool, true, Option, none, List, [], ◌∷◌, ◌++◌, arith, Bool-cases,
  ◌⊎◌, inl, inr, if◌then◌else◌,
}
use ago.Prelude.Outcome.{ok, err, panic}
use ago.Prelude.Effect.{bind_cases, pure, ◌>>=◌, ◌>>◌, proceed}
use ago.GoString.{GoString, codes, str_eq}
use ago.Clock.{Time, to_utc}
use ago.Protocol.States.{CommandType}
use ago.Protocol.Records.{Board}
use ago.Store.Rows.{Tx}
use ago.Store.Boards.{board_query}
use ago.Store.Commit.{Committed, apply_board}
use ago.Store.Claim.{Claimed, claim}
use ago.Store.Picking.{ClaimRequest, ClaimResult, ClaimOutcome, dispatchable}
use ago.Scheduler.{
  Goal, Dispatch, ExecutionResult, ExecutionError, Answer, failed, answered, Options, Site, Call,
  Fault, Scheduled,
}
use ago.Scheduler.Steps.{read_board, utc_now}
use ago.Scheduler.Steps.Calls.{query-ok, query-same}
use ago.Scheduler.Dispatching.{
  worker_command, execute, classify, fail_attempt, submit_evidence, record_execution, run_attempt,
  perform, start_command, work_for, dispatch_as, dispatch_with, dispatch, claim_request, claim_work,
  asks_token, follow_claim, claim_at, claim_and_dispatch,
}
use ago.Scheduler.Dispatching.Attempts.{Dispatches, dispatch-calls}

module _ {X : Type 0} (o : Options X) (id : GoString) where
  -- What stands behind a call of the executor.
  pub record Executes (s : Site X) (calls : List Call) : Type 0 where
    pub board : Board
    pub time : Time
    pub minted : Option GoString
    pub claimed : Claimed
    pub started : Committed
    pub work : Dispatch
    pub read : board_query id s.db ≡ ok board
    pub won : claim o.codec (claim_request o id board time) minted s.db ≡ ok claimed
    pub taken : dispatchable claimed.result ≡ true
    pub begun :
        apply_board o.codec id
          (worker_command o id claimed.result CommandType.attempt_start
            (codes "attempt.start")
            claimed.result.board)
          claimed.db
        ≡ ok started
    pub attempt : work.attempt_id ≡ claimed.result.attempt_id
    pub task : str_eq work.task.id claimed.result.task_id ≡ true
    pub base : work.base_revision ≡ claimed.result.board.integrated_revision
    pub called : calls ≡ s.calls ++ (Call.executed work ∷ [])

  -- A claim that was answered was answered by the store.
  record Answers (r : ClaimRequest) (s t : Site X) (c : ClaimResult) : Type 0 where
    minted : Option GoString
    claimed : Claimed
    won : claim o.codec r minted s.db ≡ ok claimed
    left : t.db ≡ claimed.db
    result : c ≡ claimed.result
    quiet : t.calls ≡ s.calls

  claim_work-Answers :
      (r : ClaimRequest) (s t : Site X) (c : ClaimResult)
      → claim_work o id r s ≡ (t, ok c)
      → Answers r s t c
  unfolding claim_work
  claim_work-Answers r s t c h =
      let (x, minted) =
        if asks_token (claim o.codec r none s.db)
        then o.parts.mint s.outside
        else (s.outside, none) in
      read x minted (claim o.codec r minted s.db) refl h
    where
      read :
          (x : X) (minted : Option GoString) (a : Tx Claimed)
          → claim o.codec r minted s.db ≡ a
          → ago.Scheduler.Dispatching.claimed o id (record s { outside = x }) a ≡ (t, ok c)
          → Answers r s t c
      read x minted (ok b) e h = record {
        minted = minted;
        claimed = b;
        won = e;
        left = sym (ap (λ z. z.0.db) h);
        result = ground arith;
        quiet = sym (ap (λ z. z.0.calls) h);
      }
      read x minted (err b) e h = absurd (cc)
      read x minted panic e h = absurd (cc)

  claim_work-quiet : (r : ClaimRequest) (s : Site X) → (claim_work o id r s).0.calls ≡ s.calls
  unfolding claim_work
  claim_work-quiet r s =
      let (x, minted) =
        if asks_token (claim o.codec r none s.db)
        then o.parts.mint s.outside
        else (s.outside, none) in
      read x (claim o.codec r minted s.db)
    where
      read :
          (x : X) (a : Tx Claimed)
          → (ago.Scheduler.Dispatching.claimed o id (record s { outside = x }) a).0.calls ≡ s.calls
      read x (ok b) = refl
      read x (err b) = refl
      read x panic = refl

  follow_claim-calls :
      (c : ClaimResult) (s : Site X)
      → ((follow_claim o id c s).0.calls ≡ s.calls)
        ⊎ ((dispatchable c ≡ true) × Dispatches o id c s (follow_claim o id c s).0.calls)
  unfolding follow_claim pure ◌>>◌
  follow_claim-calls c s = elim (Bool-cases (dispatchable c)) [
    | inr n ↦ inl (rw n refl)
    | inl y ↦
        let same : (follow_claim o id c s).0.calls ≡ (dispatch o id c s).0.calls =
          rw (y, if◌then◌else◌) (behind s) in
        elim (dispatch-calls o id c s) [ inl q ↦ inl (same ∙ q) | inr d ↦ inr (y, rw same d) ]
  ]
    where
      behind :
          (s : Site X)
          → (◌>>=◌ {B = Bool × ClaimOutcome}
              (dispatch o id c)
              (λ u. pure (true, c.outcome))
              s).0.calls
            ≡ (dispatch o id c s).0.calls
      behind s =
          elim (bind_cases {B = Bool × ClaimOutcome} (dispatch o id c) (λ u. pure (true, c.outcome))
            s) [
              | inl (t, u, h, e) ↦ ap (λ r. r.0.calls) e ∙ sym (ap (λ r. r.0.calls) h)
              | inr e ↦ ap (λ (t : Site X). t.calls) e
            ]

  claim_at-calls :
      (b : Board) (t : Time) (s : Site X)
      → board_query id s.db ≡ ok b
      → ((claim_at o id b t s).0.calls ≡ s.calls) ⊎ Executes s (claim_at o id b t s).0.calls
  unfolding claim_at
  claim_at-calls b t s q =
      elim (bind_cases (claim_work o id (claim_request o id b t)) (follow_claim o id) s) [
        | inr e ↦ inl (ap (λ (z : Site X). z.calls) e ∙ claim_work-quiet (claim_request o id b t) s)
        | inl (u, c, h, e) ↦ rw e (followed u c (claim_work-Answers _ s u c h))
      ]
    where
      followed :
          (u : Site X) (c : ClaimResult)
          → Answers (claim_request o id b t) s u c
          → ((follow_claim o id c u).0.calls ≡ s.calls) ⊎ Executes s (follow_claim o id c u).0.calls
      followed u c a = elim (follow_claim-calls c u) [
        | inl p ↦ inl (p ∙ a.quiet)
        | inr (y, d) ↦ inr (record {
          board = b;
          time = t;
          minted = a.minted;
          claimed = a.claimed;
          started = d.started;
          work = work_for o id d.goal c d.proposal;
          read = q;
          won = a.won;
          taken = subst (λ z. dispatchable z ≡ true) a.result y;
          begun =
              ap (λ z. apply_board o.codec id (start_command o id z) a.claimed.db) (sym a.result)
              ∙ ap (apply_board o.codec id (start_command o id c)) (sym a.left)
              ∙ d.begun;
          attempt = ap (λ z. z.attempt_id) a.result;
          task = subst (λ z. str_eq d.proposal.id z.task_id ≡ true) a.result d.planned;
          base = ap (λ z. z.board.integrated_revision) a.result;
          called =
              d.called
              ∙ ap
                  (λ (l : List Call). l ++ (Call.executed (work_for o id d.goal c d.proposal) ∷ []))
                  a.quiet;
        })
      ]

  after_clock :
      (b : Board) (s : Site X)
      → board_query id s.db ≡ ok b
      → (((utc_now o >>= claim_at o id b) s).0.calls ≡ s.calls)
        ⊎ Executes s ((utc_now o >>= claim_at o id b) s).0.calls
  unfolding utc_now ◌>>=◌ proceed
  after_clock b s q = split (o.parts.now s.outside)
    where
      split :
          (r : X × Time)
          → ((claim_at o id b (to_utc r.1) (record s { outside = r.0 })).0.calls ≡ s.calls)
            ⊎ Executes s (claim_at o id b (to_utc r.1) (record s { outside = r.0 })).0.calls
      split (x, t) = elim (claim_at-calls b (to_utc t) (record s { outside = x }) q) [
        | inl p ↦ inl p
        | inr d ↦ inr (moved x d)
      ]
        where
          moved : {l : List Call} (y : X) → Executes (record s { outside = y }) l → Executes s l
          moved y d = record {
            board = d.board;
            time = d.time;
            minted = d.minted;
            claimed = d.claimed;
            started = d.started;
            work = d.work;
            read = d.read;
            won = d.won;
            taken = d.taken;
            begun = d.begun;
            attempt = d.attempt;
            task = d.task;
            base = d.base;
            called = d.called;
          }

  -- One round of claiming calls the executor at most once, and no other part. It does so only after
  -- the store has granted a claim on the board that was read, and then accepted the start of its
  -- attempt; the work handed over is that attempt, of the claimed task, from the revision that was
  -- integrated when it was claimed.
  pub claim_and_dispatch-Executes :
      (s : Site X)
      → ((claim_and_dispatch o id s).0.calls ≡ s.calls)
        ⊎ Executes s (claim_and_dispatch o id s).0.calls
  unfolding claim_and_dispatch read_board
  claim_and_dispatch-Executes s =
      elim (bind_cases (read_board id) (λ b. utc_now o >>= claim_at o id b) s) [
        | inr e ↦ inl (ap (λ (z : Site X). z.calls) (e ∙ query-same Fault.store (board_query id) s))
        | inl (u, b, h, e) ↦
            let (same, q) = query-ok Fault.store (board_query id) s u b h in
            subst (λ r. (r.0.calls ≡ s.calls) ⊎ Executes s r.0.calls) (sym e)
              (subst
                (λ z.
                  (((utc_now o >>= claim_at o id b) u).0.calls ≡ z.calls)
                  ⊎ Executes z ((utc_now o >>= claim_at o id b) u).0.calls)
                same (after_clock b u (ap (λ (z : Site X). board_query id z.db) same ∙ q)))
      ]
