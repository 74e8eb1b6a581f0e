-- ===== src/Supervisor/Waiting.antt =====
-- `everyRemainingStopNeedsAPerson` of internal/agosupervisor/supervisor.go. The map `waiting` is the
-- list of its keys, whose values are all true.
pub mod Closure
pub mod Stuck
use ago.Prelude.{
  ℕ, zero, suc, ◌+◌, Bool, true, false, ◌&&◌, ◌||◌, not, Option, none, some, List, [], ◌∷◌, length,
  any, all, is_empty, select, ltb, ◌==◌, if◌then◌else◌,
}
use ago.GoString.{GoString, str_eq}
use ago.Protocol.States.{TaskState, state_eq}
use ago.Protocol.Records.{Board, Task, Dependency}
use ago.Supervisor.{Decision}
use ago.Supervisor.Attention.{already_raised}

-- `waiting[id]`.
unfoldable pub listed : GoString → List GoString → Bool
unfolding any
listed id ids = any (λ j. str_eq j id) ids

-- The tasks that have failed and were raised.
unfoldable pub halted : List Decision → List Task → List GoString
unfolding already_raised
halted ds [] = []
halted ds (t ∷ ts) =
    let rest = halted ds ts in
    if state_eq t.state TaskState.failed && already_raised t.id ds then t.id ∷ rest else rest

abbrev pub extends : List GoString → Dependency → Bool
extends waiting d = listed d.depends_on waiting && not (listed d.task_id waiting)

-- One pass over the dependencies, which sees the keys that the pass has added.
unfoldable pub pass : List Dependency → List GoString → List GoString
unfolding listed
pass [] waiting = waiting
pass (d ∷ ds) waiting = pass ds (if extends waiting d then d.task_id ∷ waiting else waiting)

-- `changed` after a pass: a pass only adds keys.
abbrev pub grew : List GoString → List GoString → Bool
grew before after = ltb (length before) (length after)

-- `for changed := true; changed; { … }`. A pass that changes something adds a task that some
-- dependency names, so one more round than there are dependencies is enough; the fuel is an argument.
unfoldable pub saturate : ℕ → List Dependency → List GoString → Option (List GoString)
unfolding pass
saturate zero ds waiting = none
saturate (suc fuel) ds waiting =
    let next = pass ds waiting in
    let rest = saturate fuel ds next in if grew waiting next then rest else some next

abbrev pub settled : Task → Bool
settled t = state_eq t.state TaskState.passed || t.cancelled || not (is_empty t.superseded_by)

-- The counters `pending` and `stuck`.
unfoldable pub count_pending : List Task → ℕ
count_pending [] = 0
count_pending (t ∷ ts) = let n = count_pending ts in if settled t then n else n + 1

unfoldable pub count_stuck : List GoString → List Task → ℕ
unfolding listed
count_stuck waiting [] = 0
count_stuck waiting (t ∷ ts) =
    let n = count_stuck waiting ts in
    if settled t then n else if listed t.id waiting then n + 1 else n

-- `none` would be a loop that does not end.
unfoldable pub every_remaining_stop_needs_a_person : List Decision → Board → Option Bool
unfolding halted saturate count_pending count_stuck
every_remaining_stop_needs_a_person ds b =
    elim (saturate (length b.dependencies + 1) b.dependencies (halted ds b.tasks)) [
      | none ↦ none
      | some waiting ↦
          some
            (ltb 0 (count_pending b.tasks) && count_pending b.tasks == count_stuck waiting b.tasks)
    ]
