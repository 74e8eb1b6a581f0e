-- ===== src/Scheduler/Dispatching/Attempts.antt =====
-- The executor is called once the start of its attempt was committed, or not at all.
use ago.Prelude.{
  ◌≡◌, refl, sym, ap, ◌∙◌, Bool, true, some, List, [], ◌∷◌, ◌++◌, find, arith, Bool-cases,
  Option-cases, ◌⊎◌, inl, inr,
}
use ago.Prelude.Ints.{ℤ}
use ago.Prelude.Outcome.{ok}
use ago.Prelude.Effect.{Keeps, IsPreorder, bind_cases, keeps_rules, fail, ◌>>=◌, proceed}
use ago.GoString.{GoString, str_eq}
use ago.Planner.{Plan, TaskProposal}
use ago.Protocol.States.{FailureClass}
use ago.Protocol.Records.{Board}
use ago.Store.Rows.{Db, Tx, StoreError}
use ago.Store.Commit.{Committed, apply_board}
use ago.Store.Picking.{ClaimResult}
use ago.Scheduler.{
  Goal, Dispatch, ExecutionResult, Answer, failed, answered, Options, Site, Call, Fault,
}
use ago.Scheduler.Steps.{query, runtime_definition, apply_to, proposal_for}
use ago.Scheduler.Steps.Calls.{Quiet, quiet_rules, query-same, submit-ok, apply_to-Quiet}
use ago.Scheduler.Dispatching.{
  execute, classify, fail_attempt, submit_evidence, record_execution, run_attempt, perform,
  start_command, work_for, dispatch_as, dispatch_with, dispatch,
}

-- Nothing was changed.
record Same {X : Type 0} (a b : Site X) : Type 0 where
  site : b ≡ a

module _ {X : Type 0} where
  Same-preorder : IsPreorder (Same {X = X})
  Same-preorder = record {
    same = λ s. record { site = refl };
    chain = λ f g. record { site = g.site ∙ f.site };
  }

  query-Same :
      {A : Type 0} (wrap : StoreError → Fault) (q : Db → Tx A) → Keeps (Same {X = X}) (query wrap q)
  query-Same wrap q = record { runs = λ s. record { site = query-same wrap q s } }

find-holds : {A : Type 0} (p : A → Bool) (xs : List A) (x : A) → find p xs ≡ some x → p x ≡ true
unfolding find
find-holds p [] x h = absurd (cc)
find-holds p (y ∷ ys) x h = elim (Bool-cases (p y)) [
  | inl e ↦ ground arith
  | inr e ↦ find-holds p ys x (ground arith)
]

module _ {X : Type 0} (o : Options X) (id : GoString) where
  runtime_definition-Same : Keeps Same (runtime_definition o id)
  unfolding runtime_definition
  runtime_definition-Same = search (keeps_rules, Same-preorder, query-Same)

  fail_attempt-Quiet :
      (c : ClaimResult) (n : ℤ) (b : Board) (f : FailureClass × GoString)
      → Keeps Quiet (fail_attempt o id c n b f)
  unfolding fail_attempt
  fail_attempt-Quiet c n b (class, reason) = search quiet_rules

  submit_evidence-Quiet :
      (c : ClaimResult) (b : Board) (r : ExecutionResult) → Keeps Quiet (submit_evidence o id c b r)
  unfolding submit_evidence
  submit_evidence-Quiet c b r = search quiet_rules

  record_execution-Quiet :
      (c : ClaimResult) (n : ℤ) (b : Board) (r : Answer (FailureClass × GoString) ExecutionResult)
      → Keeps Quiet (record_execution o id c n b r)
  unfolding record_execution
  record_execution-Quiet c n b (failed f) = fail_attempt-Quiet c n b f
  record_execution-Quiet c n b (answered r) = submit_evidence-Quiet c b r

  perform-calls :
      (c : ClaimResult) (d : Dispatch) (started : Committed) (s : Site X)
      → (perform o id c d started s).0.calls ≡ s.calls ++ (Call.executed d ∷ [])
  unfolding perform execute ◌>>=◌ proceed
  perform-calls c d started s =
      let (x, r) = o.parts.execute d s.outside in
      ((record_execution-Quiet c d.attempt_number started.result.board (classify r)).runs _).calls

  -- The executor is called once the start of the attempt was committed, or not at all.
  run_attempt-calls :
      (c : ClaimResult) (d : Dispatch) (s : Site X)
      → ((run_attempt o id c d s).0.calls ≡ s.calls)
        ⊎ ((started : Committed) × (apply_board o.codec id (start_command o id c) s.db ≡ ok started)
            × ((run_attempt o id c d s).0.calls ≡ s.calls ++ (Call.executed d ∷ [])))
  unfolding run_attempt apply_to
  run_attempt-calls c d s =
      elim (bind_cases (apply_to o Fault.start id (start_command o id c)) (perform o id c d) s) [
        | inl (t, started, h, e) ↦
            let (begun, quiet) =
              submit-ok Fault.start (apply_board o.codec id (start_command o id c)) s t started h in
            inr (
              started,
              begun,
              ap (λ r. r.0.calls) e
                  ∙ perform-calls c d started t
                  ∙ ap (λ (l : List Call). l ++ (Call.executed d ∷ [])) quiet,
            )
        | inr e ↦ inl (
            ap (λ (t : Site X). t.calls) e
            ∙ ((apply_to-Quiet o Fault.start id (start_command o id c)).runs s).calls)
      ]

  -- What is known of a dispatch of the claim.
  pub record Dispatches (c : ClaimResult) (s : Site X) (calls : List Call) : Type 0 where
    pub goal : Goal
    pub proposal : TaskProposal
    pub started : Committed
    pub planned : str_eq proposal.id c.task_id ≡ true
    pub begun : apply_board o.codec id (start_command o id c) s.db ≡ ok started
    pub called : calls ≡ s.calls ++ (Call.executed (work_for o id goal c proposal) ∷ [])

  dispatch_with-calls :
      (c : ClaimResult) (goal : Goal) (plan : Plan) (s : Site X)
      → ((dispatch_with o id c (goal, plan) s).0.calls ≡ s.calls)
        ⊎ Dispatches c s (dispatch_with o id c (goal, plan) s).0.calls
  unfolding dispatch_with dispatch_as fail proposal_for
  dispatch_with-calls c goal plan s = elim (Option-cases (proposal_for plan c.task_id)) [
    | inl n ↦ inl (rw n refl)
    | inr (p, e) ↦ rw e (elim (run_attempt-calls c (work_for o id goal c p) s) [
      | inl q ↦ inl q
      | inr (started, begun, called) ↦ inr (record {
        goal = goal;
        proposal = p;
        started = started;
        planned = find-holds (λ t. str_eq t.id c.task_id) plan.tasks p e;
        begun = begun;
        called = called;
      })
    ])
  ]

  pub dispatch-calls :
      (c : ClaimResult) (s : Site X)
      → ((dispatch o id c s).0.calls ≡ s.calls) ⊎ Dispatches c s (dispatch o id c s).0.calls
  unfolding dispatch
  dispatch-calls c s = elim (bind_cases (runtime_definition o id) (dispatch_with o id c) s) [
    | inl (t, (goal, plan), h, e) ↦
        let same : t ≡ s = sym (ap (λ r. r.0) h) ∙ (runtime_definition-Same.runs s).site in
        rw (e, same) (dispatch_with-calls c goal plan s)
    | inr e ↦ inl (ap (λ (t : Site X). t.calls) (e ∙ (runtime_definition-Same.runs s).site))
  ]
