-- ===== src/Supervisor/Waiting/Stuck.antt =====
-- A goal is blocked exactly when every task that is not settled waits for a person.
use mathlib.Core.List.{Memᴰ}
use ago.Prelude.{
  ◌+◌, ◌≤◌, ◌<◌, ◌≡◌, refl, subst, Bool, true, false, ◌&&◌, some, List, [], ◌∷◌, length, any, arith,
  Bool-cases, inl, inr, ltb, ◌↔◌, ◌==◌,
}
use ago.GoString.{GoString, str_eq}
use ago.Protocol.States.{TaskState, state_eq}
use ago.Protocol.Records.{Board, Task}
use ago.Protocol.Acyclic.Chains.{Depends}
use ago.Supervisor.{Decision}
use ago.Supervisor.Attention.{already_raised}
use ago.Supervisor.Waiting.{
  listed, halted, saturate, settled, count_pending, count_stuck,
  every_remaining_stop_needs_a_person,
}
use ago.Supervisor.Waiting.Closure.{Closed, saturate-Closed, missing-le}

-- The task is one that has failed and was raised.
pub record Halts (ds : List Decision) (ts : List Task) (id : GoString) : Type 0 where
  pub task : Task
  pub known : Memᴰ task ts
  pub named : task.id ≡ id
  pub failed : state_eq task.state TaskState.failed ≡ true
  pub raised : already_raised task.id ds ≡ true

-- It waits for a person: it is such a task, or depends on one that waits.
pub data Waits (ds : List Decision) (b : Board) : GoString → Type 0 where
  start : {id : GoString} → Halts ds b.tasks id → Waits ds b id
  behind : {id on : GoString} → Depends b.dependencies id on → Waits ds b on → Waits ds b id

later :
    {ds : List Decision} {ts : List Task} {id : GoString} (t : Task)
    → Halts ds ts id
    → Halts ds (t ∷ ts) id
later t h = record {
  task = h.task;
  known = Memᴰ.tail h.known;
  named = h.named;
  failed = h.failed;
  raised = h.raised;
}

halted-Halts :
    (ds : List Decision) (ts : List Task) (id : GoString)
    → listed id (halted ds ts) ≡ true
    → Halts ds ts id
unfolding halted listed any
halted-Halts ds [] id h = absurd (cc)
halted-Halts ds (t ∷ ts) id h =
    elim (Bool-cases
      ((state_eq t.state TaskState.failed && already_raised t.id ds) && str_eq t.id id)) [
        | inl e ↦ record {
          task = t;
          known = Memᴰ.head refl;
          named = ground arith;
          failed = ground arith;
          raised = ground arith;
        }
        | inr e ↦ later t (halted-Halts ds ts id (ground arith))
      ]

Halts-listed :
    (ds : List Decision) (ts : List Task) (t : Task)
    → Memᴰ t ts
    → state_eq t.state TaskState.failed ≡ true
    → already_raised t.id ds ≡ true
    → listed t.id (halted ds ts) ≡ true
unfolding halted listed any
Halts-listed ds [] t m f r = elim m [ ]
Halts-listed ds (u ∷ us) t (Memᴰ.head e) f r = ground (arith, e)
Halts-listed ds (u ∷ us) t (Memᴰ.tail m) f r = ground (arith, Halts-listed ds us t m f r)

Waits-listed :
    (ds : List Decision) (b : Board) (v : List GoString)
    → Closed b.dependencies (halted ds b.tasks) v
    → (id : GoString) → Waits ds b id
    → listed id v ≡ true
Waits-listed ds b v c id (start h) = c.contains id (
    subst (λ i. listed i (halted ds b.tasks) ≡ true) h.named
      (Halts-listed ds b.tasks h.task h.known h.failed h.raised))
Waits-listed ds b v c id (behind {on = on} d r) =
    ground (arith, c.shut d.edge d.listed, Waits-listed ds b v c on r, d.from, d.to)

listed-Waits :
    (ds : List Decision) (b : Board) (v : List GoString)
    → Closed b.dependencies (halted ds b.tasks) v
    → (id : GoString) → listed id v ≡ true
    → Waits ds b id
listed-Waits ds b v c =
    c.least (Waits ds b)
      (λ d m w. behind (record { edge = d; listed = m; from = refl; to = refl }) w)
      (λ id l. start (halted-Halts ds b.tasks id l))

stuck_le_pending : (v : List GoString) (ts : List Task) → count_stuck v ts ≤ count_pending ts
unfolding count_stuck count_pending
stuck_le_pending v [] = omega arith
stuck_le_pending v (t ∷ ts) = ground (arith, stuck_le_pending v ts)

stuck-listed :
    (v : List GoString) (ts : List Task)
    → count_pending ts ≡ count_stuck v ts
    → (t : Task) → Memᴰ t ts
    → settled t ≡ false
    → listed t.id v ≡ true
unfolding count_stuck count_pending
stuck-listed v [] e t m n = elim m [ ]
stuck-listed v (u ∷ us) e t (Memᴰ.head p) n = ground (arith, stuck_le_pending v us, p)
stuck-listed v (u ∷ us) e t (Memᴰ.tail m) n =
    stuck-listed v us (ground (arith, stuck_le_pending v us)) t m n

listed-stuck :
    (v : List GoString) (ts : List Task)
    → ((t : Task) → Memᴰ t ts → settled t ≡ false → listed t.id v ≡ true)
    → count_pending ts ≡ count_stuck v ts
unfolding count_stuck count_pending
listed-stuck v [] h = refl
listed-stuck v (t ∷ ts) h =
    ground (arith, listed-stuck v ts (λ u m. h u (Memᴰ.tail m)), h t (Memᴰ.head refl))

pending-some :
    (ts : List Task) → 0 < count_pending ts → (t : Task) × Memᴰ t ts × (settled t ≡ false)
unfolding count_pending
pending-some [] h = absurd (omega arith)
pending-some (t ∷ ts) h = elim (Bool-cases (settled t)) [
  | inl e ↦ let (u, m, n) = pending-some ts (ground arith) in (u, Memᴰ.tail m, n)
  | inr e ↦ (t, Memᴰ.head refl, e)
]

some-pending : (ts : List Task) (t : Task) → Memᴰ t ts → settled t ≡ false → 0 < count_pending ts
unfolding count_pending
some-pending [] t m n = elim m [ ]
some-pending (u ∷ us) t (Memᴰ.head p) n = ground (arith, p)
some-pending (u ∷ us) t (Memᴰ.tail m) n = ground (arith, some-pending us t m n)

-- Something is left to do, and all of it waits for a person.
pub record IsStuck (ds : List Decision) (b : Board) : Type 0 where
  pub task : Task
  pub known : Memᴰ task b.tasks
  pub left : settled task ≡ false
  pub waiting : (t : Task) → Memᴰ t b.tasks → settled t ≡ false → Waits ds b t.id

module _ (ds : List Decision) (b : Board) (v : List GoString)
    (c : Closed b.dependencies (halted ds b.tasks) v) where
  stuck : 0 < count_pending b.tasks → count_pending b.tasks ≡ count_stuck v b.tasks → IsStuck ds b
  stuck p q =
      let (t, m, n) = pending-some b.tasks p in
      record {
        task = t;
        known = m;
        left = n;
        waiting = λ u l k. listed-Waits ds b v c u.id (stuck-listed v b.tasks q u l k);
      }

  decided :
      IsStuck ds b
      → (ltb 0 (count_pending b.tasks) && count_pending b.tasks == count_stuck v b.tasks) ≡ true
  decided s = ground (
    arith,
    some-pending b.tasks s.task s.known s.left,
    listed-stuck v b.tasks (λ t m n. Waits-listed ds b v c t.id (s.waiting t m n)),
  )

  answer :
      saturate (length b.dependencies + 1) b.dependencies (halted ds b.tasks) ≡ some v
      → (r : Bool) × (every_remaining_stop_needs_a_person ds b ≡ some r)
        × ((r ≡ true) ↔ IsStuck ds b)
  unfolding every_remaining_stop_needs_a_person
  answer e = (
    ltb 0 (count_pending b.tasks) && count_pending b.tasks == count_stuck v b.tasks,
    rw (e, every_remaining_stop_needs_a_person) refl,
    (λ h. stuck (ground arith) (ground arith), λ s. decided s),
  )

-- Whether every remaining stop needs a person is always decided: the passes over the dependencies
-- end. It holds exactly when some task is not settled, and each that is not has failed and was
-- raised, or depends, through any chain of dependencies, on one that has.
pub needs_a_person-IsStuck :
    (ds : List Decision) (b : Board)
    → (r : Bool) × (every_remaining_stop_needs_a_person ds b ≡ some r) × ((r ≡ true) ↔ IsStuck ds b)
needs_a_person-IsStuck ds b =
    let (v, e, c) =
      saturate-Closed (length b.dependencies + 1) b.dependencies (halted ds b.tasks)
        (omega (arith, missing-le b.dependencies (halted ds b.tasks))) in
    answer ds b v c e
