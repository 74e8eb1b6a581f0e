-- ===== src/Machine/Log/Levels.antt =====
-- The helpers of internal/agoboardprotocol/state_machine.go leave the version of a board alone, or emit
-- events.
use ago.Prelude.{
  ℕ, List, ◌≡◌, Bool, true, false, subst, zero, suc, ◌+◌, get_elem?, Option-cases, inl, inr,
  if◌then◌else◌, [], ◌∷◌, length, refl,
}
use ago.Prelude.Outcome.{ok, Ensures, ok_of_Ensures, Ensures->>=}
use ago.GoString.{GoString}
use ago.Clock.{Time}
use ago.Protocol.States.{TaskState, AttemptState, FailureClass, PatchOperation}
use ago.Protocol.Records.{Board, Task}
use ago.Protocol.Commands.{Command, PatchStep}
use ago.Machine.Work.{
  Work, unblock, unblock_at, unblock_from, unblock_ready_tasks, find_lease, task_for,
}
use ago.Machine.Patch.{
  apply_patch_steps, patch_case, apply_patch_step, patch_add_task, patch_add_dependency,
  patch_remove_dependency, patch_update_acceptance, patch_supersede_task, patch_cancel_task,
  end_live_work,
}
use ago.Machine.Attempts.{record_attempt_failure, transition_attempt}
use ago.Machine.Execution.{complete_lease}
use ago.Machine.Review.{deferred_board}
use ago.Machine.Log.{Logged, Logged-emit}
use ago.Prelude.Ints.{ℤ}

-- The two boards have the same version.
abbrev pub Level : Board → Board → Type 0
Level b c = c.version ≡ b.version

pub failed-Level :
    (b c : Board) (ti ai li : ℕ) (k : FailureClass) (r : GoString) (n : Time)
    → record_attempt_failure b ti ai li k r n ≡ ok c
    → Level b c
unfolding record_attempt_failure
failed-Level b c ti ai li k r n =
    ok_of_Ensures (Level b) (record_attempt_failure b ti ai li k r n) (search Ensures->>= depth 15)

pub moved-Level :
    (b d : Board) (c : Command) (t u : TaskState) (a e : AttemptState)
    → transition_attempt b c t u a e ≡ ok d
    → Level b d
unfolding transition_attempt
moved-Level b d c t u a e =
    ok_of_Ensures (Level b) (transition_attempt b c t u a e) (search Ensures->>= depth 15)

Level-if :
    (b : Board) (x : Bool) (c d : Board) → Level b c → Level b d → Level b (if x then c else d)
Level-if b true c d h k = h
Level-if b false c d h k = k

end_live_work-Level : (t : Task) (b : Board) → Level b (end_live_work t b)
unfolding end_live_work
end_live_work-Level t b = Level-if b _ _ _ refl refl

patch_case-Level :
    (o : PatchOperation) (p : GoString) (s : PatchStep) (b : Board)
    → Ensures (Level b) (patch_case o p s b)
unfolding patch_case patch_add_task patch_add_dependency patch_remove_dependency
    patch_update_acceptance patch_supersede_task patch_cancel_task
patch_case-Level PatchOperation.add_task p s b = search Ensures->>= depth 20
patch_case-Level PatchOperation.add_dependency p s b = search (Ensures->>=, Level-if) depth 20
patch_case-Level PatchOperation.remove_dependency p s b = search Ensures->>= depth 20
patch_case-Level PatchOperation.update_acceptance p s b = search Ensures->>= depth 20
patch_case-Level PatchOperation.supersede_task p s b = search Ensures->>= depth 20
patch_case-Level PatchOperation.cancel_task p s b =
    search (Ensures->>=, end_live_work-Level) depth 20
patch_case-Level (PatchOperation.unknown o) p s b = tt

apply_patch_steps-Level :
    (p : GoString) (ss : List PatchStep) (b : Board) → Ensures (Level b) (apply_patch_steps p ss b)
unfolding apply_patch_steps apply_patch_step
apply_patch_steps-Level p [] b = refl
apply_patch_steps-Level p (s ∷ ss) b =
    Ensures->>= (Level b) (apply_patch_step p s b) (λ c. apply_patch_steps p ss c)
      (λ c e.
        subst (λ n. Ensures (λ d. d.version ≡ n) (apply_patch_steps p ss c))
          (ok_of_Ensures (Level b) _ (patch_case-Level s.operation p s b) e)
          (apply_patch_steps-Level p ss c))

pub patched-Level :
    (p : GoString) (ss : List PatchStep) (b c : Board) → apply_patch_steps p ss b ≡ ok c → Level b c
patched-Level p ss b c =
    ok_of_Ensures (Level b) (apply_patch_steps p ss b) (apply_patch_steps-Level p ss b)

pub deferred_board-Level :
    (c : Command) (i j : ℕ) (n : ℤ) (b : Board) → Level b (deferred_board c i j n b)
unfolding deferred_board
deferred_board-Level c i j n b = Level-if b _ _ _ refl refl

pub complete_lease-Level : (k : GoString) (b c : Board) → Level b c → Level b (complete_lease k c)
unfolding complete_lease
complete_lease-Level k b c h = elim (Option-cases (find_lease c (task_for c k).active_lease_id)) [
  | inl e ↦ rw (e, complete_lease) h
  | inr (p, e) ↦ rw (e, complete_lease) h
]

module _ (c : Command) (v : ℕ) where
  pub Logged-if :
      (x : Bool) (w w' : Work) → Logged c v w → Logged c v w' → Logged c v (if x then w else w')
  Logged-if true w w' h k = h
  Logged-if false w w' h k = k

  unblock-Logged : (i : ℕ) (t : Task) (w : Work) → Logged c v w → Logged c v (unblock c w i t)
  unfolding unblock
  unblock-Logged i t w h = Logged-if _ _ _ (Logged-emit c v _ _ h) h

  unblock_at-Logged : (i : ℕ) (w : Work) → Logged c v w → Logged c v (unblock_at c i w)
  unfolding unblock_at
  unblock_at-Logged i w h = elim (Option-cases (get_elem? w.board.tasks i)) [
    | inl e ↦ rw (e, unblock_at) h
    | inr (t, e) ↦ rw (e, unblock_at) (unblock-Logged i t w h)
  ]

  unblock_from-Logged : (n i : ℕ) (w : Work) → Logged c v w → Logged c v (unblock_from c n i w)
  unfolding unblock_from
  unblock_from-Logged zero i w h = h
  unblock_from-Logged (suc n) i w h =
      unblock_from-Logged n (i + 1) (unblock_at c i w) (unblock_at-Logged i w h)

  pub unblock_ready_tasks-Logged : (w : Work) → Logged c v w → Logged c v (unblock_ready_tasks c w)
  unfolding unblock_ready_tasks
  unblock_ready_tasks-Logged w h = unblock_from-Logged (length w.board.tasks) 0 w h
