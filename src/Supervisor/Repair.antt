-- ===== src/Supervisor/Repair.antt =====
-- The repairs of internal/agosupervisor/supervisor.go: `repair`, `repairForGate`, `repairScopes`.
pub mod Lawful
use ago.Prelude.{
  Bool, true, false, ◌++◌, not, Option, none, some, List, [], ◌∷◌, any, is_empty, if◌then◌else◌,
}
use ago.Prelude.Ints.{ℤ, pos, inc_int, ltb_int}
use ago.Prelude.Outcome.{Outcome, ok, err, panic}
use ago.Prelude.Effect.{Act, pure, fail, update, skip, ◌>>=◌, ◌>>◌}
use ago.GoString.{GoString, codes, utf8, str_eq}
use ago.Planner.{Plan, TaskProposal}
use ago.Protocol.States.{AccessMode, CommandType, PatchOperation}
use ago.Protocol.Records.{Board, Task, TerminalContract}
use ago.Protocol.Commands.{Command, PatchStep, TaskSpec, zero_command, zero_step}
use ago.Protocol.Retry.{schema_version}
use ago.Store.Rows.{Db, Tx, StoreError}
use ago.Store.Boards.{board_query, plan_of}
use ago.Store.Commit.{Committed, apply_board, apply_board_with_proposal}
use ago.Store.Claim.{print_int}
use ago.Store.Queries.{definition}
use ago.Store.Deadlines.{text_before}
use ago.Supervisor.{DecisionKind, Fault, Options, World, Supervised, coordinator, failure_narrative}
use ago.Supervisor.Attention.{raise_now}

-- A query of the store, whose error is returned.
abbrev queried : {A : Type 0} → (StoreError → Fault) → World → Tx A → World × Outcome Fault A
queried wrap w (ok a) = (w, ok a)
queried wrap w (err e) = (w, err (wrap e))
queried wrap w panic = (w, panic)

unfoldable pub query : {A : Type 0} → (StoreError → Fault) → (Db → Tx A) → Supervised A
query wrap q w = queried wrap w (q w.db)

-- A transaction of the store: the error, if there is one, is looked at by the caller.
abbrev submitted : World → Tx Committed → World × Outcome Fault (Option StoreError)
submitted w (ok c) = (record w { db = c.db }, ok none)
submitted w (err e) = (w, ok (some e))
submitted w panic = (w, panic)

unfoldable pub submit : (Db → Tx Committed) → Supervised (Option StoreError)
submit t w = submitted w (t w.db)

-- `errors.Is(err, agoboardstore.ErrCommandConflict)`.
abbrev pub is_conflict : StoreError → Bool
is_conflict StoreError.command_conflict = true
is_conflict _ = false

-- The error of a transaction that is not a conflict is returned, with its message wrapped.
unfoldable pub forgive : (StoreError → Fault) → Option StoreError → Supervised (Unit {0})
unfolding skip fail
forgive wrap none = skip
forgive wrap (some e) = if is_conflict e then skip else fail (wrap e)

-- The loops of `repairScopes`, with the keys of the map `seen` as the scopes collected so far.
unfoldable pub new_scopes : List GoString → List GoString → List GoString
unfolding any
new_scopes [] scopes = scopes
new_scopes (s ∷ ss) scopes =
    new_scopes ss (if any (str_eq s) scopes then scopes else scopes ++ (s ∷ []))

unfoldable pub plan_scopes : List TaskProposal → List GoString → List GoString
unfolding new_scopes
plan_scopes [] scopes = scopes
plan_scopes (t ∷ ts) scopes = plan_scopes ts (new_scopes t.path_scopes scopes)

-- `sort.Strings`.
unfoldable pub place_text : GoString → List GoString → List GoString
unfolding text_before
place_text s [] = s ∷ []
place_text s (t ∷ ts) =
    let rest = place_text s ts in if text_before t s then t ∷ rest else s ∷ t ∷ ts

unfoldable pub sort_texts : List GoString → List GoString
unfolding place_text
sort_texts [] = []
sort_texts (s ∷ ss) = place_text s (sort_texts ss)

-- `proposal` and `command` of `repairForGate`.
unfoldable pub gate_round : Board → GoString
unfolding print_int
gate_round b = print_int b.gate.failures

unfoldable pub gate_criteria : Board → List GoString
unfolding utf8
gate_criteria b = utf8 "集成结果通过项目门禁的全部检查" ∷ (utf8 "修复以下失败：" ++ b.gate.summary) ∷ []

unfoldable pub gate_proposal : Board → List GoString → TaskProposal
unfolding gate_round gate_criteria utf8
gate_proposal b scopes = record {
  id = codes "gate-repair-" ++ gate_round b;
  title = utf8 "修复项目门禁失败（第 " ++ (gate_round b ++ utf8 " 次）");
  description = utf8 "集成结果没有通过项目门禁。失败输出如下，请修复到全部检查通过：" ++ (10 ∷ 10 ∷ b.gate.failure_output);
  path_scopes = scopes;
  acceptance_criteria = gate_criteria b;
  verifier_ids = codes "ago-verifier" ∷ [];
  capability_tags = codes "repo-read" ∷ codes "repo-write" ∷ codes "tests" ∷ [];
}

unfoldable pub gate_task : Board → TaskProposal → TaskSpec
unfolding gate_criteria utf8
gate_task b p = record {
  id = p.id;
  title = p.title;
  access_mode = AccessMode.write;
  terminal_contract = record { outcome = utf8 "项目门禁通过"; acceptance_criteria = gate_criteria b };
}

abbrev pub repair_id : Task → GoString
unfolding print_int
repair_id t = codes "repair:" ++ (t.id ++ (codes ":" ++ print_int (inc_int t.user_retries)))

-- The criteria of the task, and one that names what went wrong.
unfoldable pub sharpened : Task → TerminalContract
unfolding failure_narrative utf8
sharpened t = record {
  outcome = t.terminal_contract.outcome;
  acceptance_criteria =
      t.terminal_contract.acceptance_criteria ++ ((utf8 "修复上一次失败：" ++ failure_narrative t) ∷ []);
}

-- `supervisor.patches++`.
unfoldable pub count_patch : Supervised (Unit {0})
unfolding update
count_patch = update (λ w. record w { patches = inc_int w.patches })

module _ (o : Options) where
  -- A `plan.patch` with one step.
  unfoldable pub patch_command : Board → GoString → GoString → PatchStep → Command
  patch_command b patch_id reason step = record zero_command {
    schema_version = schema_version;
    id = codes "cmd:" ++ patch_id;
    expected_version = b.version;
    actor = coordinator o;
    type = CommandType.plan_patch;
    patch = some (record { id = patch_id; reason = reason; steps = step ∷ [] });
  }

  unfoldable pub read_board : Supervised Board
  unfolding query board_query
  read_board = query Fault.store (board_query o.board_id)

  -- `repairScopes`.
  unfoldable pub repair_scopes : Supervised (List GoString)
  unfolding query definition plan_of plan_scopes sort_texts ◌>>=◌ pure
  repair_scopes = do
    raw ← query Fault.plan_unreadable (definition o.codec o.board_id)
    plan ← query Fault.plan_unreadable (λ db. plan_of o.codec raw)
    pure (sort_texts (plan_scopes plan.tasks []))

  unfoldable pub gate_patch : Board → Command
  unfolding patch_command gate_round gate_task gate_proposal utf8
  gate_patch b =
      patch_command b (codes "gate-repair:" ++ gate_round b)
        (utf8 "集成结果未通过项目门禁，新增修复任务（第 " ++ (gate_round b ++ utf8 " 次）"))
        (record zero_step {
          operation = PatchOperation.add_task;
          task = some (gate_task b (gate_proposal b []));
        })

  -- `repairForGate`.
  unfoldable pub repair_for_gate : Board → Supervised (Unit {0})
  unfolding repair_scopes fail skip forgive gate_patch submit apply_board_with_proposal
      gate_proposal ◌>>=◌ ◌>>◌
  repair_for_gate b = do
    scopes ← repair_scopes
    if is_empty scopes then fail Fault.no_scopes else skip
    error ←
        submit
          (apply_board_with_proposal o.codec o.board_id (gate_patch b) (gate_proposal b scopes))
    forgive Fault.add_task error

  unfoldable pub repair_command : Task → Board → Command
  unfolding patch_command sharpened print_int utf8
  repair_command t b =
      patch_command b (repair_id t)
        (utf8 "验收未通过，自动生成修复要求（第 " ++ (print_int (inc_int t.user_retries) ++ utf8 " 次）"))
        (record zero_step {
          operation = PatchOperation.update_acceptance;
          task_id = t.id;
          acceptance = some (sharpened t);
        })

  unfoldable pub retry_command : Task → Board → Command
  unfolding failure_narrative print_int utf8
  retry_command t b = record zero_command {
    schema_version = schema_version;
    id = codes "cmd:retry:" ++ repair_id t;
    expected_version = b.version;
    actor = coordinator o;
    type = CommandType.task_retry;
    task_id = t.id;
    reason =
        utf8 "自动修复第 "
        ++ (print_int (inc_int t.user_retries) ++ (utf8 " 次：" ++ failure_narrative t));
  }

  -- The retry that follows a patch which was applied.
  unfoldable pub retry_after : Task → Supervised (Unit {0})
  unfolding read_board forgive submit apply_board retry_command ◌>>=◌
  retry_after t = do
    updated ← read_board
    error ← submit (apply_board o.codec o.board_id (retry_command t updated))
    forgive (Fault.repair_retry t.id) error

  unfoldable pub after_patch : Task → Option StoreError → Supervised (Unit {0})
  unfolding retry_after forgive
  after_patch t none = retry_after t
  after_patch t (some e) = forgive (Fault.repair_patch t.id) (some e)

  -- The patch, and the retry behind it.
  unfoldable pub issue_repair : Task → Supervised (Unit {0})
  unfolding read_board after_patch submit apply_board repair_command ◌>>=◌
  issue_repair t = do
    b ← read_board
    error ← submit (apply_board o.codec o.board_id (repair_command t b))
    after_patch t error

  -- Once the budget allows them.
  unfoldable pub patch_and_retry : Task → Supervised (Unit {0})
  unfolding issue_repair count_patch ◌>>◌
  patch_and_retry t = count_patch >> issue_repair t

  -- The decision of `repair` where no patch is left.
  unfoldable pub out_of_patches : Task → Supervised (Unit {0})
  unfolding raise_now print_int utf8
  out_of_patches t =
      raise_now o DecisionKind.budget t.id t.title
        (utf8 "已达到本目标的计划修改上限（" ++ (print_int o.authorize.max_patches ++ utf8 " 次）。"))
        (utf8 "提高预算或人工确认剩余工作。") (pos 0)

  -- `repair`.
  unfoldable pub repair : Task → Supervised (Unit {0})
  unfolding out_of_patches patch_and_retry
  repair t w =
      if ltb_int w.patches o.authorize.max_patches then patch_and_retry t w else out_of_patches t w
