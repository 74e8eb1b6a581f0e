-- ===== src/Scheduler/Steps/Calls.antt =====
-- The shared steps of the scheduler call no executor, verifier, integrator or gate.
use ago.Prelude.{◌≡◌, refl, sym, ap, ◌∙◌, arith}
use ago.Prelude.Ints.{ℤ}
use ago.Prelude.Outcome.{ok, err, panic}
use ago.Prelude.Effect.{Keeps, IsPreorder, keeps_rules, ◌>>=◌, pure}
use ago.GoString.{GoString}
use ago.Protocol.Commands.{Command}
use ago.Store.Rows.{Db, Tx, StoreError}
use ago.Store.Commit.{Committed, apply_board}
use ago.Scheduler.{Options, Site, Call, Fault}
use ago.Scheduler.Steps.{
  query, submit, submit_once, read_board, utc_now, next_eligible, runtime_definition, apply_to,
  apply_once,
}

-- No call was made between the two sites.
pub record Quiet {X : Type 0} (a b : Site X) : Type 0 where
  pub calls : b.calls ≡ a.calls

module _ {X : Type 0} where
  pub Quiet-preorder : IsPreorder (Quiet {X = X})
  Quiet-preorder = record {
    same = λ s. record { calls = refl };
    chain = λ f g. record { calls = g.calls ∙ f.calls };
  }

  -- A query leaves the site alone, and returns what the database answers.
  pub query-ok :
      {A : Type 0} (wrap : StoreError → Fault) (q : Db → Tx A) (s t : Site X) (a : A)
      → query wrap q s ≡ (t, ok a)
      → (t ≡ s) × (q s.db ≡ ok a)
  unfolding query
  query-ok {A} wrap q s t a h = read (q s.db) h
    where
      read : (r : Tx A) → ago.Scheduler.Steps.queried wrap s r ≡ (t, ok a) → (t ≡ s) × (r ≡ ok a)
      read (ok b) h = (sym (ap (λ z. z.0) h), ground arith)
      read (err e) h = absurd (cc)
      read panic h = absurd (cc)

  pub query-same :
      {A : Type 0} (wrap : StoreError → Fault) (q : Db → Tx A) (s : Site X) → (query wrap q s).0 ≡ s
  unfolding query
  query-same {A} wrap q s = same (q s.db)
    where
      same : (r : Tx A) → (ago.Scheduler.Steps.queried wrap s r).0 ≡ s
      same (ok a) = refl
      same (err e) = refl
      same panic = refl

  pub query-Quiet :
      {A : Type 0} (wrap : StoreError → Fault) (q : Db → Tx A)
      → Keeps (Quiet {X = X}) (query wrap q)
  query-Quiet wrap q = record {
    runs = λ s. record { calls = ap (λ t. t.calls) (query-same wrap q s) };
  }

  pub submit-ok :
      (wrap : StoreError → Fault) (q : Db → Tx Committed) (s t : Site X) (c : Committed)
      → submit wrap q s ≡ (t, ok c)
      → (q s.db ≡ ok c) × (t.calls ≡ s.calls)
  unfolding submit
  submit-ok wrap q s t c h = read (q s.db) h
    where
      read :
          (r : Tx Committed)
          → ago.Scheduler.Steps.submitted wrap s r ≡ (t, ok c)
          → (r ≡ ok c) × (t.calls ≡ s.calls)
      read (ok b) h = (ground arith, sym (ap (λ z. z.0.calls) h))
      read (err e) h = absurd (cc)
      read panic h = absurd (cc)

  submit-Quiet :
      (wrap : StoreError → Fault) (t : Db → Tx Committed) → Keeps (Quiet {X = X}) (submit wrap t)
  unfolding submit
  submit-Quiet wrap t = record { runs = λ s. kept s (t s.db) }
    where
      kept : (s : Site X) (r : Tx Committed) → Quiet s (ago.Scheduler.Steps.submitted wrap s r).0
      kept s (ok c) = record { calls = refl }
      kept s (err e) = record { calls = refl }
      kept s panic = record { calls = refl }

  submit_once-Quiet : (t : Db → Tx Committed) → Keeps (Quiet {X = X}) (submit_once t)
  unfolding submit_once
  submit_once-Quiet t = record { runs = λ s. kept s (t s.db) }
    where
      kept : (s : Site X) (r : Tx Committed) → Quiet s (ago.Scheduler.Steps.attempted s r).0
      kept s (ok c) = record { calls = refl }
      kept s (err e) = record { calls = refl }
      kept s panic = record { calls = refl }

  pub read_board-Quiet : (id : GoString) → Keeps (Quiet {X = X}) (read_board id)
  unfolding read_board
  read_board-Quiet id = query-Quiet _ _

module _ {X : Type 0} (o : Options X) where
  pub utc_now-Quiet : Keeps Quiet (utc_now o)
  unfolding utc_now
  utc_now-Quiet = record { runs = λ s. record { calls = refl } }

  pub next_eligible-Quiet : (n : ℤ) → Keeps Quiet (next_eligible o n)
  unfolding next_eligible
  next_eligible-Quiet n = search (keeps_rules, Quiet-preorder, utc_now-Quiet)

  pub runtime_definition-Quiet : (id : GoString) → Keeps Quiet (runtime_definition o id)
  unfolding runtime_definition
  runtime_definition-Quiet id = search (keeps_rules, Quiet-preorder, query-Quiet)

  pub apply_to-Quiet :
      (wrap : StoreError → Fault) (id : GoString) (c : Command) → Keeps Quiet (apply_to o wrap id c)
  unfolding apply_to
  apply_to-Quiet wrap id c = submit-Quiet wrap (apply_board o.codec id c)

  pub apply_once-Quiet : (id : GoString) (c : Command) → Keeps Quiet (apply_once o id c)
  unfolding apply_once
  apply_once-Quiet id c = submit_once-Quiet (apply_board o.codec id c)

pub ruleset quiet_rules = (
  keeps_rules, Quiet-preorder, read_board-Quiet, utc_now-Quiet, next_eligible-Quiet,
  runtime_definition-Quiet, apply_to-Quiet, apply_once-Quiet,
)
