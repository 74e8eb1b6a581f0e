-- ===== src/Scheduler/Gating/Due.antt =====
-- When the gate of a project is run.
use mathlib.Core.List.{Memᴰ}
use ago.Prelude.{
  ◌≡◌, refl, ap, ◌∙◌, true, false, not, ◌&&◌, Option, none, some, List, [], ◌∷◌, ◌++◌, all,
  is_empty, arith, Option-cases, ◌⊎◌, inl, inr,
}
use ago.Prelude.Ints.{ltb_int}
use ago.Prelude.Outcome.{ok}
use ago.Prelude.Effect.{Keeps, ◌>>=◌, proceed, skip}
use ago.GoString.{GoString, str_eq, trim_space}
use ago.Protocol.Records.{Board, Task}
use ago.Protocol.Retry.{max_gate_unavailable}
use ago.Protocol.Rules.{established}
use ago.Store.Boards.{board_query}
use ago.Scheduler.{GateReport, Answer, failed, answered, Options, Site, Call}
use ago.Scheduler.Steps.{query, read_board}
use ago.Scheduler.Steps.Calls.{Quiet, quiet_rules}
use ago.Scheduler.Gating.{
  is_gate_pending, outstanding, gate_revision, record_gate_unavailable, record_gate, after_gate,
  call_gate, prove, run_project_gate,
}

-- The gate has something to prove about the revision, and has not answered yet.
pub record IsDue (b : Board) (revision : GoString) : Type 0 where
  pub checks : established b.gate ≡ true
  pub running : b.paused ≡ false
  pub still : (t : Task) → Memᴰ t b.tasks → outstanding t ≡ false
  pub named : revision ≡ trim_space b.integrated_revision
  pub integrated : is_empty revision ≡ false
  pub unanswered : (str_eq b.gate.revision revision && not (is_gate_pending b.gate.state)) ≡ false
  pub runnable : ltb_int b.gate.unavailable max_gate_unavailable ≡ true

all-still :
    (ts : List Task)
    → all (λ t. not (outstanding t)) ts ≡ true
    → (t : Task) → Memᴰ t ts
    → outstanding t ≡ false
unfolding all
all-still [] h t m = elim m [ ]
all-still (u ∷ us) h t (Memᴰ.head e) = ground (arith, e)
all-still (u ∷ us) h t (Memᴰ.tail m) = all-still us (ground arith) t m

still-all :
    (ts : List Task)
    → ((t : Task) → Memᴰ t ts → outstanding t ≡ false)
    → all (λ t. not (outstanding t)) ts ≡ true
unfolding all
still-all [] h = refl
still-all (t ∷ ts) h = ground (arith, h t (Memᴰ.head refl), still-all ts (λ u m. h u (Memᴰ.tail m)))

gate_revision-IsDue :
    (b : Board) (revision : GoString) → gate_revision b ≡ some revision → IsDue b revision
unfolding gate_revision
gate_revision-IsDue b revision h =
    let same : revision ≡ trim_space b.integrated_revision = ground arith in
    record {
      checks = ground arith;
      running = ground arith;
      still = all-still b.tasks (ground arith);
      named = same;
      integrated = ground arith;
      unanswered = ground arith;
      runnable = ground arith;
    }

IsDue-gate_revision :
    (b : Board) (revision : GoString) → IsDue b revision → gate_revision b ≡ some revision
unfolding gate_revision
IsDue-gate_revision b revision d = ground (
  arith,
  d.checks,
  d.running,
  still-all b.tasks d.still,
  d.named,
  d.integrated,
  d.unanswered,
  d.runnable,
)

module _ {X : Type 0} (o : Options X) (id : GoString) where
  record_gate_unavailable-Quiet :
      (b : Board) (revision cause : GoString)
      → Keeps Quiet (record_gate_unavailable o id b revision cause)
  unfolding record_gate_unavailable
  record_gate_unavailable-Quiet b revision cause = search quiet_rules

  record_gate-Quiet :
      (b : Board) (revision : GoString) (r : GateReport)
      → Keeps Quiet (record_gate o id b revision r)
  unfolding record_gate
  record_gate-Quiet b revision r = search quiet_rules

  after_gate-Quiet :
      (b : Board) (revision : GoString) (r : Answer GoString GateReport)
      → Keeps Quiet (after_gate o id b revision r)
  unfolding after_gate
  after_gate-Quiet b revision (failed cause) = record_gate_unavailable-Quiet b revision cause
  after_gate-Quiet b revision (answered r) = record_gate-Quiet b revision r

  module _ (f : GoString → GoString → List GoString → X → X × Answer GoString GateReport)
      (s : Site X) (b : Board) where
    prove-calls :
        (r : Option GoString) {revision : GoString}
        → r ≡ some revision
        → (prove o id f b r s).0.calls
          ≡ s.calls ++ (Call.gated b.repository revision b.gate.commands ∷ [])
    unfolding prove call_gate ◌>>=◌ proceed
    prove-calls none h = absurd (cc)
    prove-calls (some r) {revision} h =
        let (x, a) = f b.repository r b.gate.commands s.outside in
        ((after_gate-Quiet b r a).runs _).calls
        ∙ ap (λ (q : GoString). s.calls ++ (Call.gated b.repository q b.gate.commands ∷ []))
            (ground arith)

    run-prove :
        o.parts.run_gate ≡ some f
        → board_query id s.db ≡ ok b
        → run_project_gate o id s ≡ prove o id f b (gate_revision b) s
    unfolding run_project_gate read_board query ◌>>=◌ proceed
    run-prove g q = rw (g, q) refl

    -- With a gate that can be run, on a board that can be read, a pass calls the gate just where it
    -- is due, and then once, on the repository of the board, the integrated revision and the commands
    -- of the gate: checks are established, the board is not paused, no task is outstanding, something
    -- is integrated, this revision has no answer yet, and the gate was not unavailable too often.
    -- Where it is not due, the pass changes nothing.
    pub run_project_gate-calls :
        o.parts.run_gate ≡ some f
        → board_query id s.db ≡ ok b
        → ((revision : GoString) × IsDue b revision
            × ((run_project_gate o id s).0.calls
                ≡ s.calls ++ (Call.gated b.repository revision b.gate.commands ∷ [])))
          ⊎ (((revision : GoString) → ¬ IsDue b revision) × (run_project_gate o id s ≡ (s, ok tt)))
    unfolding prove skip
    run_project_gate-calls g q = elim (Option-cases (gate_revision b)) [
      | inl n ↦ inr (λ revision d. cc (IsDue-gate_revision b revision d), run-prove g q ∙ idle n)
      | inr (revision, e) ↦ inl (
        revision,
        gate_revision-IsDue b revision e,
        ap (λ r. r.0.calls) (run-prove g q) ∙ prove-calls (gate_revision b) e,
      )
    ]
      where
        idle : gate_revision b ≡ none → prove o id f b (gate_revision b) s ≡ (s, ok tt)
        idle n = rw n refl
