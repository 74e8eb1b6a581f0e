-- ===== src/Store/Claim/Decisions.antt =====
-- What a claim of internal/agoboardstore/claim.go decides: the task it takes, the slots it needs, and
-- what it answers when it is asked again.
use ago.Prelude.{
  ◌≡◌, Bool, true, false, ◌&&◌, ◌||◌, Option, none, some, List, [], ◌∷◌, arith, Bool-cases,
  Option-cases, ◌⊎◌, inl, inr, find, any, not, if◌then◌else◌,
}
use ago.Clock.{Time, before}
use ago.Protocol.States.{TaskState}
use ago.Protocol.Records.{Board, Task}
use ago.Store.Picking.{
  ClaimReason, Choice, choose, eligible_from, eligible_task, has_budget, is_waiting,
}

abbrev pub is_ready : TaskState → Bool
is_ready TaskState.ready = true
is_ready _ = false

-- It is ready, or its retry time has come.
abbrev pub may_start : Time → Task → TaskState → Bool
may_start now t s = is_ready s || (is_waiting s && not (before now t.next_eligible_at))

-- A task that may be taken now: it has attempts left, and it may start.
abbrev pub takeable : Time → Task → Bool
takeable now t = has_budget t && may_start now t t.state

-- A task that would be taken later.
abbrev pub later : Time → Task → TaskState → Bool
later now t s = has_budget t && is_waiting s && before now t.next_eligible_at

abbrev pub deferred : Time → Task → Bool
deferred now t = later now t t.state

abbrev pub first_or : ClaimReason → Option Task → Task ⊎ ClaimReason
first_or why none = inr why
first_or why (some t) = inl t

choose-eq :
    (now : Time) (t : Task) (s : TaskState)
    → choose now t s ≡ (
        if has_budget t && may_start now t s
        then Choice.takes
        else if later now t s
        then Choice.waits
        else Choice.passes)
unfolding choose
choose-eq now t TaskState.ready = elim (Bool-cases (has_budget t)) [
  | inl e ↦ ground arith
  | inr e ↦ ground arith
]
choose-eq now t TaskState.retry_wait = elim (Bool-cases (has_budget t)) [
  | inl e ↦ elim (Bool-cases (before now t.next_eligible_at)) [
    | inl d ↦ ground arith
    | inr d ↦ ground arith
  ]
  | inr e ↦ ground arith
]
choose-eq now t TaskState.planned = ground arith
choose-eq now t TaskState.blocked = ground arith
choose-eq now t TaskState.leased = ground arith
choose-eq now t TaskState.running = ground arith
choose-eq now t TaskState.verifying = ground arith
choose-eq now t TaskState.integrating = ground arith
choose-eq now t TaskState.passed = ground arith
choose-eq now t TaskState.failed = ground arith
choose-eq now t (TaskState.unknown text) = ground arith

abbrev no_task : Bool → ClaimReason
no_task waiting = if waiting then ClaimReason.all_waiting else ClaimReason.no_ready_task

eligible_from-first :
    (now : Time) (waiting : Bool) (ts : List Task)
    → eligible_from now waiting ts
      ≡ first_or (no_task (waiting || any (deferred now) ts)) (find (takeable now) ts)
unfolding eligible_from any find
eligible_from-first now waiting [] = ground arith
eligible_from-first now waiting (t ∷ ts) = elim (Bool-cases (takeable now t)) [
  | inl e ↦
      let c : choose now t t.state ≡ Choice.takes = ground (arith, choose-eq now t t.state) in
      ground arith
  | inr e ↦ elim (Bool-cases (deferred now t)) [
    | inl d ↦
        let c : choose now t t.state ≡ Choice.waits = ground (arith, choose-eq now t t.state) in
        ground (arith, eligible_from-first now true ts)
    | inr d ↦
        let c : choose now t t.state ≡ Choice.passes = ground (arith, choose-eq now t t.state) in
        ground (arith, eligible_from-first now waiting ts)
  ]
]

-- The task of a claim is the first one, in the order of the board, that may be taken now; where there
-- is none, the answer tells whether one would be taken later.
pub eligible_task-first :
    (b : Board) (now : Time)
    → eligible_task b now ≡ elim (find (takeable now) b.tasks) [
      | some t ↦ inl t
      | none ↦ inr (
          if any (deferred now) b.tasks then ClaimReason.all_waiting else ClaimReason.no_ready_task)
    ]
unfolding eligible_task
eligible_task-first b now = elim (Option-cases (find (takeable now) b.tasks)) [
  | inl e ↦ ground (arith, eligible_from-first now false b.tasks)
  | inr (t, e) ↦ ground (arith, eligible_from-first now false b.tasks)
]
