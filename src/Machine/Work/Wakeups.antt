-- ===== src/Machine/Work/Wakeups.antt =====
-- Lemmas on `unblockReadyTasks` of internal/agoboardprotocol/state_machine.go: no wakeup is lost.
use ago.Prelude.{
  ℕ_discrete, ◌⊎◌, ℕ, zero, suc, ◌+◌, ◌<◌, ◌≡◌, refl, sym, ◌∙◌, ap, subst, Bool, false, ◌&&◌,
  Option, none, some, List, [], ◌∷◌, length, get_elem?, modify, find_index, arith, Bool-cases,
  Option-cases, inl, inr,
}
use ago.Prelude.Updates.{get_elem?-modify, get_elem?-modify_other}
use ago.GoString.{GoString, str_eq}
use ago.Protocol.States.{TaskState, state_eq}
use ago.Protocol.Records.{Board, Task, Dependency}
use ago.Protocol.Commands.{Command}
use ago.Machine.Work.{
  Work, emit, find_task, dependency_passed, all_dependencies_passed, dependencies_passed, unblock,
  unblock_at, unblock_from, unblock_ready_tasks,
}

-- The task is blocked although everything it depends on has passed.
abbrev pub stuck : Board → Task → Bool
stuck b t = state_eq t.state TaskState.blocked && dependencies_passed b t.id

abbrev wake : Task → Task
wake t = record t { state = TaskState.ready }

abbrev passed : Option (ℕ × Task) → Bool
passed none = false
passed (some (i, t)) = state_eq t.state TaskState.passed

-- Waking a blocked task changes nothing about which tasks have passed.
passed-wake :
    (k : GoString) (ts : List Task) (i : ℕ) (t : Task)
    → get_elem? ts i ≡ some t
    → t.state ≡ TaskState.blocked
    → passed (find_index (λ u. str_eq u.id k) (modify ts i wake))
      ≡ passed (find_index (λ u. str_eq u.id k) ts)
unfolding find_index modify
passed-wake k [] i t h e = cc
passed-wake k (u ∷ ts) zero t h e = ground arith
passed-wake k (u ∷ ts) (suc i) t h e = let rest = passed-wake k ts i t h e in ground (arith, rest)

module _ (b c : Board)
    (same : (k : GoString) → passed (find_task c k) ≡ passed (find_task b k)) where
  all-same :
      (id : GoString) (ds : List Dependency)
      → all_dependencies_passed c id ds ≡ all_dependencies_passed b id ds
  unfolding all_dependencies_passed dependency_passed
  all-same id [] = refl
  all-same id (d ∷ ds) =
      let rest = all-same id ds in let one = same d.depends_on in ground (arith, rest, one)

  dependencies-same :
      (id : GoString)
      → c.dependencies ≡ b.dependencies
      → dependencies_passed c id ≡ dependencies_passed b id
  unfolding dependencies_passed
  dependencies-same id e = ap (all_dependencies_passed c id) e ∙ all-same id b.dependencies

-- No task before the index `i` is stuck.
abbrev Calm : Board → ℕ → Type 0
Calm b i = (j : ℕ) (t : Task) → j < i → get_elem? b.tasks j ≡ some t → stuck b t ≡ false

Calm-suc :
    (b : Board) (i : ℕ)
    → Calm b i
    → ((t : Task) → get_elem? b.tasks i ≡ some t → stuck b t ≡ false)
    → Calm b (i + 1)
Calm-suc b i h f j t l e = elim (ℕ_discrete j i) [
  | yes p ↦ f t (subst (λ k. get_elem? b.tasks k ≡ some t) p e)
  | no n ↦ h j t (omega (arith, n, l)) e
]

length-wake : (ts : List Task) (i : ℕ) → length (modify ts i wake) ≡ length ts
unfolding modify
length-wake [] i = refl
length-wake (t ∷ ts) zero = refl
length-wake (t ∷ ts) (suc i) = omega (arith, length-wake ts i)

get_elem?-bound : (ts : List Task) (j : ℕ) {t : Task} → get_elem? ts j ≡ some t → j < length ts
get_elem?-bound [] j h = cc
get_elem?-bound (t ∷ ts) zero h = omega arith
get_elem?-bound (t ∷ ts) (suc j) h = omega (arith, get_elem?-bound ts j h)

-- The board `c` is the board `b` in which the blocked task at `i` has become ready.
record Woken (b c : Board) (i : ℕ) : Type 0 where
  tasks : c.tasks ≡ modify b.tasks i wake
  dependencies : c.dependencies ≡ b.dependencies
  task : Task
  found : get_elem? b.tasks i ≡ some task
  blocked : task.state ≡ TaskState.blocked

module _ {b c : Board} {i : ℕ} (w : Woken b c i) where
  stuck-Woken : (t : Task) → stuck c t ≡ stuck b t
  unfolding find_task
  stuck-Woken t =
      ap (λ x. state_eq t.state TaskState.blocked && x)
        (dependencies-same b c
          (λ k.
            ap (λ ts. passed (find_index (λ u. str_eq u.id k) ts)) w.tasks
            ∙ passed-wake k b.tasks i w.task w.found w.blocked)
          t.id w.dependencies)

  Woken-Calm : Calm b i → Calm c (i + 1)
  Woken-Calm h j t l e = elim (ℕ_discrete j i) [
    | yes p ↦
        let u = wake w.task in
        ground (arith, get_elem?-modify b.tasks i wake w.found, ap (λ ts. get_elem? ts j) w.tasks)
    | no n ↦
        stuck-Woken t
        ∙ h j t (omega (arith, n, l)) (
            sym (get_elem?-modify_other b.tasks i j wake n)
            ∙ ap (λ ts. get_elem? ts j) (sym w.tasks)
            ∙ e)
  ]

-- One round wakes the task at its index, or leaves all as it is, with nothing stuck there.
unblock_at-cases :
    (c : Command) (w : Work) (i : ℕ)
    → Woken w.board (unblock_at c i w).board i
      ⊎ ((unblock_at c i w ≡ w)
          × ((t : Task) → get_elem? w.board.tasks i ≡ some t → stuck w.board t ≡ false))
unfolding unblock_at unblock emit
unblock_at-cases c w i = elim (Option-cases (get_elem? w.board.tasks i)) [
  | inl e ↦ inr (ground arith, λ t h. ground arith)
  | inr (t, e) ↦ elim (Bool-cases (stuck w.board t)) [
    | inl p ↦ inl (record {
      tasks = ground arith;
      dependencies = ground arith;
      task = t;
      found = e;
      blocked = ground arith;
    })
    | inr p ↦ inr (ground arith, λ u h. ground arith)
  ]
]

unblock-Calm :
    (c : Command) (w : Work) (i : ℕ)
    → Calm w.board i
    → Calm (unblock_at c i w).board (i + 1)
      × (length (unblock_at c i w).board.tasks ≡ length w.board.tasks)
unblock-Calm c w i h = elim (unblock_at-cases c w i) [
  | inl k ↦ (Woken-Calm k h, ap length k.tasks ∙ length-wake w.board.tasks i)
  | inr (e, f) ↦ (
    subst (λ v. Calm v.board (i + 1)) (sym e) (Calm-suc w.board i h f),
    ap (λ v. length v.board.tasks) e,
  )
]

unblock_from-Calm :
    (c : Command) (n i : ℕ) (w : Work)
    → Calm w.board i
    → Calm (unblock_from c n i w).board (i + n)
      × (length (unblock_from c n i w).board.tasks ≡ length w.board.tasks)
unfolding unblock_from
unblock_from-Calm c zero i w h = (subst (Calm w.board) (omega arith) h, refl)
unblock_from-Calm c (suc n) i w h =
    let (k, e) = unblock-Calm c w i h in
    let (l, f) = unblock_from-Calm c n (i + 1) (unblock_at c i w) k in
    (subst (Calm _) (omega arith) l, f ∙ e)

-- After the tasks were unblocked no task of the board is blocked whose dependencies have all passed.
pub unblock_ready_tasks_complete :
    (c : Command) (w : Work) (i : ℕ) (t : Task)
    → get_elem? (unblock_ready_tasks c w).board.tasks i ≡ some t
    → stuck (unblock_ready_tasks c w).board t ≡ false
unfolding unblock_ready_tasks
unblock_ready_tasks_complete c w i t h =
    let (k, e) =
      unblock_from-Calm c (length w.board.tasks) 0 w (λ j t' l q. absurd (omega arith)) in
    k i t (omega (arith, e, get_elem?-bound _ i h)) h
