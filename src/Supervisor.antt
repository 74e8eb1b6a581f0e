-- ===== src/Supervisor.antt =====
-- internal/agosupervisor/supervisor.go: what a supervisor is given and keeps, and when a stopped task
-- needs a person.
pub mod Attention
pub mod Waiting
pub mod Repair
pub mod Review
use ago.Prelude.{
  ℕ, Bool, true, false, ◌++◌, Option, none, some, List, [], not, is_empty, ◌||◌, if◌then◌else◌,
}
use ago.Prelude.Ints.{ℤ, pos, ltb_int}
use ago.Prelude.Outcome.{Outcome, ok, ◌>>=◌, ◌>>◌, require, refuse}
use ago.Prelude.Effect.{Act}
use ago.GoString.{GoString, codes, utf8, trim_space}
use ago.Clock.{Time}
use ago.Protocol.States.{FailureClass, GateState, ActorRole, is_no_failure}
use ago.Protocol.Records.{Task, Actor}
use ago.Store.Rows.{Db, Codec, StoreError}

pub data DecisionKind : Type 0 where
  destructive credential ambiguous budget exhausted : DecisionKind

pub record Decision : Type 0 where
  pub kind : DecisionKind
  pub task_id : GoString
  pub title : GoString
  pub reason : GoString
  pub suggestion : GoString
  pub raised_at : Time
  pub attempts_used : ℤ

pub record Authorization : Type 0 where
  pub local_file_writes : Bool
  pub local_commits : Bool
  pub push : Bool
  pub publish : Bool
  pub destructive : Bool
  pub max_repairs_per_task : ℤ
  pub max_patches : ℤ

-- The errors of the supervisor. One of the store carries the message that wraps it, by a constructor.
pub data Fault : Type 0 where
  cycle_failed no_scopes not_terminal : Fault
  parts_required identity_required : Fault
  store plan_unreadable add_task : StoreError → Fault
  repair_patch repair_retry : GoString → StoreError → Fault

-- `Options` without the callbacks, with what the callbacks and the rest of the program give: the
-- readings of the clock one after another, a cycle of the scheduler for the board, and the messages
-- of errors.
pub record Options : Type 0 where
  pub board_id : GoString
  pub authorize : Authorization
  pub coordinator_id : GoString
  pub clock : ℕ → Time
  pub cycle : Db → Db × Outcome Fault (Unit {0})
  pub error_text : Fault → GoString
  pub codec : Codec

-- The state of the run: the database, the fields `patches` and `decisions`, what `OnDecision` has
-- been told, how often the clock has been read, and the delays that `After` was asked for.
pub record World : Type 0 where
  pub db : Db
  pub patches : ℤ
  pub decisions : List Decision
  pub announced : List Decision
  pub readings : ℕ
  pub waits : List ℕ

abbrev pub Supervised : Type 0 → Type 0
Supervised A = Act World Fault A

-- `if limit <= 0 { limit = standard }`.
abbrev or_standard : ℤ → ℤ → ℤ
or_standard limit standard = if ltb_int (pos 0) limit then limit else standard

-- The defaults that `New` fills in.
unfoldable pub with_defaults : Authorization → Authorization
with_defaults a = record a {
  max_repairs_per_task = or_standard a.max_repairs_per_task (pos 2);
  max_patches = or_standard a.max_patches (pos 16);
}

-- `New`: whether there are a store and a scheduler, and the options.
unfoldable pub new : Bool → Bool → Options → Outcome Fault Options
unfolding with_defaults trim_space
new has_store has_scheduler o = do
  require has_store Fault.parts_required
  require has_scheduler Fault.parts_required
  refuse (is_empty (trim_space o.board_id) || is_empty (trim_space o.coordinator_id))
      Fault.identity_required
  ok (record o { authorize = with_defaults o.authorize })

-- What a new supervisor starts from.
abbrev pub started : Db → World
started db = record {
  db = db;
  patches = pos 0;
  decisions = [];
  announced = [];
  readings = 0;
  waits = [];
}

-- `escalationFor`: the kind of the decision, or none where the machine may go on.
unfoldable pub escalation_for : FailureClass → Authorization → Option DecisionKind
escalation_for FailureClass.auth a = some DecisionKind.credential
escalation_for FailureClass.needs_input a = some DecisionKind.ambiguous
escalation_for FailureClass.policy a = if a.destructive then none else some DecisionKind.destructive
escalation_for FailureClass.repository a = some DecisionKind.ambiguous
escalation_for FailureClass.exhausted a = some DecisionKind.exhausted
escalation_for FailureClass.verifier_feedback a = none
escalation_for FailureClass.transient a = none
escalation_for FailureClass.permanent a = none
escalation_for FailureClass.no_failure a = some DecisionKind.ambiguous
escalation_for (FailureClass.unknown s) a = some DecisionKind.ambiguous

-- `suggestionFor`.
unfoldable pub suggestion_for : DecisionKind → GoString
unfolding utf8
suggestion_for DecisionKind.credential = utf8 "在环境中配置所需凭据后重试；凭据不会写入任务或事件。"
suggestion_for DecisionKind.destructive = utf8 "拒绝并把该操作拆成一个需要显式授权的任务。"
suggestion_for DecisionKind.ambiguous = utf8 "补充这项信息，然后从任务抽屉重试。"
suggestion_for DecisionKind.exhausted = utf8 "检查任务契约是否可行，或缩小范围后手动重试。"
suggestion_for DecisionKind.budget = utf8 "提高预算或人工确认剩余工作。"

-- The texts of the constants of `FailureClass`.
unfoldable pub class_text : FailureClass → GoString
class_text FailureClass.no_failure = []
class_text FailureClass.transient = codes "transient"
class_text FailureClass.verifier_feedback = codes "verifier-feedback"
class_text FailureClass.auth = codes "auth"
class_text FailureClass.policy = codes "policy"
class_text FailureClass.needs_input = codes "needs-input"
class_text FailureClass.repository = codes "repository"
class_text FailureClass.permanent = codes "permanent"
class_text FailureClass.exhausted = codes "exhausted"
class_text (FailureClass.unknown s) = s

-- `failureNarrative`.
unfoldable pub failure_narrative : Task → GoString
unfolding trim_space class_text utf8
failure_narrative t =
    let trimmed = trim_space t.blocked_reason in
    let reason : GoString = if is_empty trimmed then utf8 "未记录原因" else trimmed in
    if is_no_failure t.failure_class
    then reason
    else reason ++ (utf8 "（" ++ (class_text t.failure_class ++ utf8 "）"))

-- `coordinator`.
abbrev pub coordinator : Options → Actor
coordinator o = record { id = o.coordinator_id; role = ActorRole.coordinator }
