-- ===== src/Scheduler/Steps.antt =====
-- The steps that the methods of internal/agoscheduler/scheduler.go share: transactions, queries, the
-- clock, the searches, and the commands of a worker and of the coordinator.
pub mod Calls
use ago.Prelude.{
  Bool, true, false, ◌++◌, Option, none, some, List, [], ◌∷◌, find, map, is_empty, if◌then◌else◌,
}
use ago.Prelude.Ints.{ℤ, pos}
use ago.Prelude.Outcome.{Outcome, ok, err, panic}
use ago.Prelude.Effect.{Act, pure, fail, ◌>>=◌}
use ago.GoString.{GoString, codes, str_eq}
use ago.Clock.{Time, to_utc, add}
use ago.Planner.{Plan, TaskProposal}
use ago.Protocol.States.{ActorRole, CommandType}
use ago.Protocol.Records.{
  Actor, Board, Task, Attempt, Evidence, EvidenceResult, CommandRecord, TestRecord, ArtifactRef,
  ChangedFile,
}
use ago.Protocol.Commands.{Command, zero_command}
use ago.Protocol.Retry.{schema_version, retry_delay}
use ago.Store.Rows.{Db, Tx, StoreError}
use ago.Store.Boards.{board_query, plan_of}
use ago.Store.Commit.{Committed, apply_board}
use ago.Store.Queries.{definition}
use ago.Scheduler.{Goal, Options, Site, Fault, Scheduled}

-- `proposalFor`, `evidenceByID` and `taskByID`: the first with the id.
unfoldable pub proposal_for : Plan → GoString → Option TaskProposal
unfolding find
proposal_for p task_id = find (λ t. str_eq t.id task_id) p.tasks

unfoldable pub evidence_by_id : Board → GoString → Option Evidence
unfolding find
evidence_by_id b id = find (λ e. str_eq e.id id) b.evidence

unfoldable pub task_by_id : Board → GoString → Option Task
unfolding find
task_by_id b id = find (λ t. str_eq t.id id) b.tasks

-- `attemptNumberOf`, `fencingTokenFor`.
unfoldable pub attempt_number_of : List Attempt → GoString → ℤ
attempt_number_of [] id = pos 1
attempt_number_of (a ∷ as') id = if str_eq a.id id then a.number else attempt_number_of as' id

unfoldable pub fencing_token_for : List Attempt → GoString → GoString
fencing_token_for [] id = []
fencing_token_for (a ∷ as') id =
    if str_eq a.id id then a.fencing_token else fencing_token_for as' id

-- `errors.Is(err, agoboardstore.ErrCommandConflict)`.
abbrev pub is_conflict : StoreError → Bool
is_conflict StoreError.command_conflict = true
is_conflict _ = false

module _ {X : Type 0} where
  -- A query, whose error is returned.
  abbrev queried : {A : Type 0} → (StoreError → Fault) → Site X → Tx A → Site X × Outcome Fault A
  queried wrap s (ok a) = (s, ok a)
  queried wrap s (err e) = (s, err (wrap e))
  queried wrap s panic = (s, panic)

  unfoldable pub query : {A : Type 0} → (StoreError → Fault) → (Db → Tx A) → Scheduled X A
  query wrap q s = queried wrap s (q s.db)

  -- A transaction, whose error is returned.
  abbrev submitted : (StoreError → Fault) → Site X → Tx Committed → Site X × Outcome Fault Committed
  submitted wrap s (ok c) = (record s { db = c.db }, ok c)
  submitted wrap s (err e) = (s, err (wrap e))
  submitted wrap s panic = (s, panic)

  unfoldable pub submit : (StoreError → Fault) → (Db → Tx Committed) → Scheduled X Committed
  submit wrap t s = submitted wrap s (t s.db)

  -- The same where a conflict is no error.
  abbrev attempted : Site X → Tx Committed → Site X × Outcome Fault (Unit {0})
  attempted s (ok c) = (record s { db = c.db }, ok tt)
  attempted s (err e) = (s, if is_conflict e then ok tt else err (Fault.store e))
  attempted s panic = (s, panic)

  unfoldable pub submit_once : (Db → Tx Committed) → Scheduled X (Unit {0})
  submit_once t s = attempted s (t s.db)

  unfoldable pub read_board : GoString → Scheduled X Board
  unfolding query board_query
  read_board board_id = query Fault.store (board_query board_id)

module _ {X : Type 0} (o : Options X) where
  -- `options.Now().UTC()`.
  unfoldable pub utc_now : Scheduled X Time
  utc_now s = let (x, t) = o.parts.now s.outside in (record s { outside = x }, ok (to_utc t))

  -- `nextEligible`.
  unfoldable pub next_eligible : ℤ → Scheduled X Time
  unfolding utc_now retry_delay pure ◌>>=◌
  next_eligible number = do t ← utc_now; pure (add t (retry_delay number))

  -- `Runtime.Definition`.
  unfoldable pub runtime_definition : GoString → Scheduled X (Goal × Plan)
  unfolding query definition plan_of pure ◌>>=◌
  runtime_definition board_id = do
    raw ← query Fault.definition (definition o.codec board_id)
    goal ← query Fault.definition (λ db. o.decode_goal raw)
    plan ← query Fault.definition (λ db. plan_of o.codec raw)
    pure (goal, plan)

  -- `Store.ApplyBoard`.
  unfoldable pub apply_to : (StoreError → Fault) → GoString → Command → Scheduled X Committed
  unfolding submit apply_board
  apply_to wrap board_id c = submit wrap (apply_board o.codec board_id c)

  unfoldable pub apply_once : GoString → Command → Scheduled X (Unit {0})
  unfolding submit_once apply_board
  apply_once board_id c = submit_once (apply_board o.codec board_id c)

  abbrev pub coordinator : Actor
  coordinator = record { id = o.coordinator_id; role = ActorRole.coordinator }

  abbrev pub verifier : Actor
  verifier = record { id = o.verifier_id; role = ActorRole.verifier }

  abbrev pub worker : Actor
  worker = record { id = o.worker_id; role = ActorRole.worker }

  -- The fields that the commands of the coordinator have in common.
  abbrev pub coordinate : CommandType → GoString → Board → Command
  coordinate type id b = record zero_command {
    schema_version = schema_version;
    id = id;
    expected_version = b.version;
    actor = coordinator;
    type = type;
  }

  -- `redactEvidence`.
  unfoldable pub redact_evidence : EvidenceResult → EvidenceResult
  redact_evidence r = record r {
    summary = o.redact r.summary;
    warnings = map o.redact r.warnings;
    commands = map (λ (c : CommandRecord). record c { display = o.redact c.display }) r.commands;
    tests =
        map (λ (t : TestRecord). record t { name = o.redact t.name; command = o.redact t.command })
          r.tests;
    artifacts =
        map (λ (a : ArtifactRef). record a { display_name = o.redact a.display_name }) r.artifacts;
    changed_files = map (λ (f : ChangedFile). record f { path = o.redact f.path }) r.changed_files;
  }
