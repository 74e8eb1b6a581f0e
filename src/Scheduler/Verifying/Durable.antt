-- ===== src/Scheduler/Verifying/Durable.antt =====
-- The verifier judges what the store holds, and nothing is integrated without its acceptance.
use ago.Prelude.{
  ◌≡◌, refl, sym, ap, subst, ◌∙◌, Bool, true, false, Option, none, some, List, [], ◌∷◌, ◌++◌, all,
  arith, Bool-cases, Option-cases, find, ◌⊎◌, inl, inr, if◌then◌else◌,
}
use ago.Prelude.Ints.{ltb_int}
use ago.Prelude.Outcome.{ok}
use ago.Prelude.Effect.{Keeps, bind_cases, keeps_rules, skip, ◌>>=◌, proceed}
use mathlib.Core.List.{append-nil, append_assoc}
use ago.GoString.{GoString, str_eq}
use ago.Planner.{Plan}
use ago.Protocol.States.{TaskState, state_eq, is_submitted}
use ago.Protocol.Records.{Board, Task, Evidence}
use ago.Protocol.Retry.{max_verification_attempts}
use ago.Protocol.Commands.{Command}
use ago.Store.Rows.{StoreError}
use ago.Store.Boards.{board_query}
use ago.Scheduler.{Goal, Input, Judgement, Answer, failed, answered, Options, Site, Call, Fault}
use ago.Scheduler.Steps.{read_board, evidence_by_id, task_by_id, apply_to}
use ago.Scheduler.Steps.Calls.{Quiet, quiet_rules, query-ok, query-same, apply_to-Quiet}
use ago.Scheduler.Integrating.Promoting.{
  is_promotion, Promoting, Promoting-preorder, Quiet-Promoting, integrate-Promoting,
}
use ago.Scheduler.Verifying.Shown.{Shows, verification_input-Shows}
use ago.Scheduler.Verifying.{
  verification_input, defer_verification, abandon_verification, accept_evidence, reject_evidence,
  is_accept, apply_verdict, verify, after_verify, judge, open_case, judge_case, verify_one,
}

-- The verifier answered, and accepted.
abbrev pub accepts : Answer GoString Judgement → Bool
accepts (failed cause) = false
accepts (answered j) = is_accept j.decision

module _ {X : Type 0} (o : Options X) (id : GoString) where
  defer-Quiet : (e cause : GoString) → Keeps Quiet (defer_verification o id e cause)
  unfolding defer_verification
  defer-Quiet e cause = search quiet_rules

  abandon-Quiet :
      (b : Board) (t : Task) (e : Evidence) → Keeps Quiet (abandon_verification o id b t e)
  unfolding abandon_verification
  abandon-Quiet b t e = search quiet_rules

  reject-Quiet :
      (b : Board) (e : Evidence) (j : Judgement) → Keeps Quiet (reject_evidence o id b e j)
  unfolding reject_evidence
  reject-Quiet b e j = search quiet_rules

  apply_to-Promoting :
      (wrap : StoreError → Fault) (c : Command) → Keeps Promoting (apply_to o wrap id c)
  apply_to-Promoting wrap c = Quiet-Promoting (apply_to o wrap id c) (apply_to-Quiet o wrap id c)

  accept-Promoting :
      (b : Board) (e : Evidence) (j : Judgement) → Keeps Promoting (accept_evidence o id b e j)
  unfolding accept_evidence
  accept-Promoting b e j =
      search (keeps_rules, Promoting-preorder, apply_to-Promoting, integrate-Promoting)

  -- After the verifier's answer only the integrator is called, and only where it accepted.
  record Behind (s : Site X) (r : Answer GoString Judgement) (calls : List Call) : Type 0 where
    more : List Call
    made : calls ≡ s.calls ++ more
    only : all is_promotion more ≡ true
    deserved : (more ≡ []) ⊎ (accepts r ≡ true)

  Quiet-Behind : (s t : Site X) (r : Answer GoString Judgement) → Quiet s t → Behind s r t.calls
  unfolding all
  Quiet-Behind s t r q = record {
    more = [];
    made = q.calls ∙ sym (append-nil s.calls);
    only = refl;
    deserved = inl refl;
  }

  after_verify-Behind :
      (b : Board) (e : Evidence) (r : Answer GoString Judgement) (s : Site X)
      → Behind s r (after_verify o id b e r s).0.calls
  unfolding after_verify apply_verdict
  after_verify-Behind b e (failed cause) s = Quiet-Behind s _ _ ((defer-Quiet e.id cause).runs s)
  after_verify-Behind b e (answered j) s = elim (Bool-cases (is_accept j.decision)) [
    | inl y ↦
        let p = (accept-Promoting b e j).runs s in
        rw (y, if◌then◌else◌)
          (record { more = p.more; made = p.made; only = p.only; deserved = inr y })
    | inr n ↦ rw (n, if◌then◌else◌) (Quiet-Behind s _ _ ((reject-Quiet b e j).runs s))
  ]

  -- What stands behind a call of the verifier for the piece of evidence with the id.
  pub record Judges (goal : Goal) (plan : Plan) (evidence_id : GoString) (s : Site X)
      (calls : List Call) : Type 0 where
    pub board : Board
    pub evidence : Evidence
    pub task : Task
    pub shown : Input
    pub more : List Call
    pub read : board_query id s.db ≡ ok board
    pub found : find (λ e. str_eq e.id evidence_id) board.evidence ≡ some evidence
    pub submitted : is_submitted evidence.state ≡ true
    pub owner : find (λ t. str_eq t.id evidence.task_id) board.tasks ≡ some task
    pub verifying : state_eq task.state TaskState.verifying ≡ true
    pub within : ltb_int max_verification_attempts evidence.verification_attempts ≡ false
    pub shows : Shows goal plan board task evidence shown
    pub called : calls ≡ s.calls ++ (Call.verified shown ∷ more)
    pub only : all is_promotion more ≡ true
    pub deserved : (more ≡ []) ⊎ (accepts (o.parts.verify shown s.outside).1 ≡ true)

  module _ (goal : Goal) (plan : Plan) where
    judge-calls :
        (b : Board) (t : Task) (e : Evidence) (s : Site X)
        → ltb_int max_verification_attempts e.verification_attempts ≡ false
        → Behind
            (record s {
              calls = s.calls ++ (Call.verified (verification_input goal plan b t e) ∷ []);
            })
            (o.parts.verify (verification_input goal plan b t e) s.outside).1
            (judge o id goal plan b t e s).0.calls
    unfolding judge verify ◌>>=◌ proceed
    judge-calls b t e s w =
        rw (w, if◌then◌else◌)
          (moved (o.parts.verify (verification_input goal plan b t e) s.outside))
      where
        moved :
            (r : X × Answer GoString Judgement)
            → Behind
                (record s {
                  calls = s.calls ++ (Call.verified (verification_input goal plan b t e) ∷ []);
                })
                r.1
                (after_verify o id b e r.1 (record s {
                  outside = r.0;
                  calls = s.calls ++ (Call.verified (verification_input goal plan b t e) ∷ []);
                })).0.calls
        moved (x, r) =
            let k = after_verify-Behind b e r (record s {
              outside = x;
              calls = s.calls ++ (Call.verified (verification_input goal plan b t e) ∷ []);
            }) in
            record { more = k.more; made = k.made; only = k.only; deserved = k.deserved }

    -- What an open case is.
    open_case-found :
        (b : Board) (eid : GoString) (e : Evidence) (t : Task)
        → open_case b eid ≡ some (e, t)
        → (find (λ x. str_eq x.id eid) b.evidence ≡ some e)
          × (is_submitted e.state ≡ true)
          × (find (λ x. str_eq x.id e.task_id) b.tasks ≡ some t)
          × (state_eq t.state TaskState.verifying ≡ true)
    unfolding open_case evidence_by_id task_by_id
    open_case-found b eid e t h = elim (Option-cases (find (λ x. str_eq x.id eid) b.evidence)) [
      | inl n ↦ absurd (ground arith)
      | inr (f, p) ↦ elim (Bool-cases (is_submitted f.state)) [
        | inr n ↦ absurd (ground arith)
        | inl y ↦ elim (Option-cases (find (λ x. str_eq x.id f.task_id) b.tasks)) [
          | inl n ↦ absurd (ground arith)
          | inr (u, q) ↦ elim (Bool-cases (state_eq u.state TaskState.verifying)) [
            | inr n ↦ absurd (ground arith)
            | inl v ↦ (ground arith, ground arith, ground arith, ground arith)
          ]
        ]
      ]
    ]

    case-calls :
        (b : Board) (eid : GoString) (s : Site X) (c : Option (Evidence × Task))
        → board_query id s.db ≡ ok b
        → open_case b eid ≡ c
        → ((judge_case o id goal plan b c s).0.calls ≡ s.calls)
          ⊎ Judges goal plan eid s (judge_case o id goal plan b c s).0.calls
    unfolding judge_case judge skip
    case-calls b eid s none q h = inl refl
    case-calls b eid s (some (e, t)) q h =
        elim (Bool-cases (ltb_int max_verification_attempts e.verification_attempts)) [
          | inl y ↦ inl (rw (y, if◌then◌else◌) ((abandon-Quiet b t e).runs s).calls)
          | inr n ↦ inr (judged n (judge-calls b t e s n))
        ]
      where
        judged :
            ltb_int max_verification_attempts e.verification_attempts ≡ false
            → Behind
                (record s {
                  calls = s.calls ++ (Call.verified (verification_input goal plan b t e) ∷ []);
                })
                (o.parts.verify (verification_input goal plan b t e) s.outside).1
                (judge o id goal plan b t e s).0.calls
            → Judges goal plan eid s (judge o id goal plan b t e s).0.calls
        judged n k =
            let (p1, p2, p3, p4) = open_case-found b eid e t h in
            record {
              board = b;
              evidence = e;
              task = t;
              shown = verification_input goal plan b t e;
              more = k.more;
              shows = verification_input-Shows goal plan b t e;
              read = q;
              found = p1;
              submitted = p2;
              owner = p3;
              verifying = p4;
              within = n;
              called =
                  k.made
                  ∙ append_assoc s.calls (Call.verified (verification_input goal plan b t e) ∷ [])
                      k.more;
              only = k.only;
              deserved = k.deserved;
            }

    -- One round of verification calls the verifier at most once, and the executor and the gate never.
    -- It shows the verifier the evidence with the given id as the board in the database holds it,
    -- which is submitted, was not deferred too often, and belongs to a task that is being verified,
    -- with the task's title and criteria, the number of the attempt (1 where it is not on the
    -- board), the description and the scopes of the plan (empty where the plan lacks the task), the
    -- objective and the integrated revision. It calls the integrator only if the verifier accepted
    -- what it was shown.
    pub verify_one-Judges :
        (eid : GoString) (s : Site X)
        → ((verify_one o id goal plan eid s).0.calls ≡ s.calls)
          ⊎ Judges goal plan eid s (verify_one o id goal plan eid s).0.calls
    unfolding verify_one read_board
    verify_one-Judges eid s =
        elim (bind_cases (read_board id) (λ b. judge_case o id goal plan b (open_case b eid)) s) [
          | inr e ↦
              inl (ap (λ (z : Site X). z.calls) (e ∙ query-same Fault.store (board_query id) s))
          | inl (u, b, h, e) ↦
              let (same, q) = query-ok Fault.store (board_query id) s u b h in
              subst (λ r. (r.0.calls ≡ s.calls) ⊎ Judges goal plan eid s r.0.calls) (sym e)
                (subst
                  (λ z.
                    ((judge_case o id goal plan b (open_case b eid) u).0.calls ≡ z.calls)
                    ⊎ Judges goal plan eid z
                        (judge_case o id goal plan b (open_case b eid) u).0.calls)
                  same
                  (case-calls b eid u (open_case b eid)
                    (ap (λ (z : Site X). board_query id z.db) same ∙ q) refl))
        ]
