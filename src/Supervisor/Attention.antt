-- ===== src/Supervisor/Attention.antt =====
-- The queue of decisions of internal/agosupervisor/supervisor.go: `alreadyRaised` and `raise`.
pub mod Ordered
pub mod Orderly
use ago.Prelude.{ℕ, ◌+◌, Bool, ◌++◌, List, [], ◌∷◌, any, if◌then◌else◌}
use ago.Prelude.Ints.{ℤ}
use ago.Prelude.Outcome.{ok}
use ago.Prelude.Effect.{update, ◌>>=◌}
use ago.GoString.{GoString, str_eq}
use ago.Clock.{Time, to_utc}
use ago.Store.Deadlines.{text_before}
use ago.Supervisor.{DecisionKind, Decision, Options, World, Supervised}

abbrev pub about : GoString → Decision → Bool
about task_id d = str_eq d.task_id task_id

-- `alreadyRaised`.
unfoldable pub already_raised : GoString → List Decision → Bool
unfolding any
already_raised task_id ds = any (about task_id) ds

-- `sort.SliceStable` by the ids of the tasks: an element stays behind its equals.
unfoldable pub place_decision : Decision → List Decision → List Decision
unfolding text_before
place_decision d [] = d ∷ []
place_decision d (e ∷ es) =
    let rest = place_decision d es in
    if text_before e.task_id d.task_id then e ∷ rest else d ∷ e ∷ es

unfoldable pub sort_decisions : List Decision → List Decision
unfolding place_decision
sort_decisions [] = []
sort_decisions (d ∷ ds) = place_decision d (sort_decisions ds)

abbrev enqueue : Decision → World → World
unfolding sort_decisions
enqueue d w = record w {
  decisions = sort_decisions (w.decisions ++ (d ∷ []));
  announced = w.announced ++ (d ∷ []);
}

-- `raise`.
unfoldable pub raise : Decision → Supervised (Unit {0})
unfolding already_raised sort_decisions update
raise d = update (λ w. if already_raised d.task_id w.decisions then w else enqueue d w)

module _ (o : Options) where
  -- `supervisor.options.Now()`.
  unfoldable pub now : Supervised Time
  unfolding update
  now w = (record w { readings = w.readings + 1 }, ok (o.clock w.readings))

  -- `raise(Decision{…, RaisedAt: supervisor.options.Now().UTC()})`.
  unfoldable pub raise_now :
      DecisionKind → GoString → GoString → GoString → GoString → ℤ → Supervised (Unit {0})
  unfolding now raise ◌>>=◌
  raise_now kind task_id title reason suggestion attempts_used = do
    t ← now
    raise (record {
      kind = kind;
      task_id = task_id;
      title = title;
      reason = reason;
      suggestion = suggestion;
      raised_at = to_utc t;
      attempts_used = attempts_used;
    })
