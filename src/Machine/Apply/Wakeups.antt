-- ===== src/Machine/Apply/Wakeups.antt =====
-- The cases of `Apply` in internal/agoboardprotocol/state_machine.go that can let tasks go on.
use ago.Prelude.{ℕ, ◌≡◌, ◌⊎◌, inl, inr, false, some, get_elem?}
use ago.Prelude.Outcome.{ok, Ensures, Ensures->>=, ok_of_Ensures}
use ago.Protocol.States.{CommandType}
use ago.Protocol.Records.{Board, Task}
use ago.Protocol.Commands.{Command}
use ago.Machine.Work.{Work}
use ago.Machine.Work.Wakeups.{stuck, unblock_ready_tasks_complete}
use ago.Machine.Integration.{integration_complete}
use ago.Machine.Patch.{plan_patch}
use ago.Machine.Apply.{apply, dispatch, opened}
use ago.Machine.Apply.Parts.{apply-handled}

-- No task of the board is stuck.
abbrev Awake : Work → Type 0
Awake w = (i : ℕ) (t : Task) → get_elem? w.board.tasks i ≡ some t → stuck w.board t ≡ false

module _ (c : Command) (w : Work) where
  plan_patch-Awake : Ensures Awake (plan_patch c w)
  unfolding plan_patch
  plan_patch-Awake = search (Ensures->>=, unblock_ready_tasks_complete) depth 25

  integration_complete-Awake : Ensures Awake (integration_complete c w)
  unfolding integration_complete
  integration_complete-Awake = search (Ensures->>=, unblock_ready_tasks_complete) depth 25

-- After a plan.patch or an integration.complete that succeeds, no task of the board is blocked whose
-- dependencies have all passed.
pub apply-wakeups :
    (b : Board) (c : Command) {w : Work} (i : ℕ) (t : Task)
    → (c.type ≡ CommandType.plan_patch) ⊎ (c.type ≡ CommandType.integration_complete)
    → apply b c ≡ ok w
    → get_elem? w.board.tasks i ≡ some t
    → stuck w.board t ≡ false
unfolding dispatch
apply-wakeups b c i t (inl e) h =
    ok_of_Ensures Awake _ (plan_patch-Awake c (opened b))
      (apply-handled b c CommandType.plan_patch e h) i t
apply-wakeups b c i t (inr e) h =
    ok_of_Ensures Awake _ (integration_complete-Awake c (opened b))
      (apply-handled b c CommandType.integration_complete e h) i t
