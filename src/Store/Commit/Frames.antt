-- ===== src/Store/Commit/Frames.antt =====
-- Lemmas on internal/agoboardstore/store.go: which tables a statement leaves alone.
use ago.Prelude.{◌≡◌, refl, ◌∙◌, Option, none, some, List, [], ◌∷◌}
use ago.Prelude.Outcome.{ok, Ensures, Ensures->>=, ok_of_Ensures}
use ago.GoString.{GoString}
use ago.Planner.{TaskProposal}
use ago.Protocol.Records.{Board, Evidence}
use ago.Protocol.Commands.{Command, Event}
use ago.Store.Rows.{Db, Codec, Binding}
use ago.Store.Boards.{append_events, insert_binding, extend_definition}
use ago.Store.Projection.{
  sync_tasks, sync_dependencies, sync_attempts, sync_leases, sync_evidence, sync_projection,
}
use ago.Store.Commit.{save_binding, save_proposal}

-- The boards and the receipts are the same.
pub record Shelved (d e : Db) : Type 0 where
  pub boards : e.boards ≡ d.boards
  pub commands : e.commands ≡ d.commands

pub Shelved-refl : (d : Db) → Shelved d d
Shelved-refl d = record { boards = refl; commands = refl }

module _ (d : Db) where
  -- Other tables may change.
  pub Shelved-step :
      {e f : Db} → Shelved d e → f.boards ≡ e.boards → f.commands ≡ e.commands → Shelved d f
  Shelved-step h b c = record { boards = b ∙ h.boards; commands = c ∙ h.commands }

  append_events-Ensures :
      (es : List Event) (e : Db) → Shelved d e → Ensures (Shelved d) (append_events es e)
  unfolding append_events
  append_events-Ensures [] e h = h
  append_events-Ensures (x ∷ es) e h =
      search (Ensures->>=, append_events-Ensures es, Shelved-step h refl refl) depth 10

  pub append_events-Shelved :
      {e f : Db} (es : List Event) → Shelved d e → append_events es e ≡ ok f → Shelved d f
  append_events-Shelved {e} es h =
      ok_of_Ensures (Shelved d) (append_events es e) (append_events-Ensures es e h)

  sync_evidence-Ensures :
      (b : Board) (es : List Evidence) (e : Db)
      → Shelved d e
      → Ensures (Shelved d) (sync_evidence b es e)
  unfolding sync_evidence
  sync_evidence-Ensures b [] e h = h
  sync_evidence-Ensures b (x ∷ es) e h =
      search (Ensures->>=, sync_evidence-Ensures b es, Shelved-step h refl refl) depth 10

  sync_tables :
      (b : Board) (e : Db)
      → Shelved d e
      → Ensures (Shelved d) (sync_tasks b e)
        × Ensures (Shelved d) (sync_dependencies b e)
        × Ensures (Shelved d) (sync_attempts b e)
        × Ensures (Shelved d) (sync_leases b e)
  unfolding sync_tasks sync_dependencies sync_attempts sync_leases
  sync_tables b e h = (
    search (Ensures->>=, Shelved-step h refl refl) depth 10,
    search (Ensures->>=, Shelved-step h refl refl) depth 10,
    search (Ensures->>=, Shelved-step h refl refl) depth 10,
    search (Ensures->>=, Shelved-step h refl refl) depth 10,
  )

  sync_projection-Ensures :
      (b : Board) (e : Db) → Shelved d e → Ensures (Shelved d) (sync_projection b e)
  unfolding sync_projection
  sync_projection-Ensures b e h = Ensures->>= (Shelved d) _ _ (λ d1 e1.
      let h1 = ok_of_Ensures (Shelved d) (sync_tasks b e) (sync_tables b e h).0 e1 in
      Ensures->>= (Shelved d) _ _ (λ d2 e2.
        let h2 = ok_of_Ensures (Shelved d) (sync_dependencies b d1) (sync_tables b d1 h1).1 e2 in
        Ensures->>= (Shelved d) _ _ (λ d3 e3.
          let h3 = ok_of_Ensures (Shelved d) (sync_attempts b d2) (sync_tables b d2 h2).2 e3 in
          Ensures->>= (Shelved d) _ _ (λ d4 e4.
            let h4 = ok_of_Ensures (Shelved d) (sync_leases b d3) (sync_tables b d3 h3).3 e4 in
            sync_evidence-Ensures b b.evidence d4 h4))))

  pub sync_projection-Shelved :
      {e f : Db} (b : Board) → Shelved d e → sync_projection b e ≡ ok f → Shelved d f
  sync_projection-Shelved {e} b h =
      ok_of_Ensures (Shelved d) (sync_projection b e) (sync_projection-Ensures b e h)

  save_binding-Ensures :
      (v : Option Binding) (c : Command) (b : Board) (e : Db)
      → Shelved d e
      → Ensures (Shelved d) (save_binding v c b e)
  unfolding save_binding insert_binding
  save_binding-Ensures none c b e h = h
  save_binding-Ensures (some v) c b e h = search (Ensures->>=, Shelved-step h refl refl) depth 10

  pub save_binding-Shelved :
      {e f : Db} (v : Option Binding) (c : Command) (b : Board)
      → Shelved d e
      → save_binding v c b e ≡ ok f
      → Shelved d f
  save_binding-Shelved {e} v c b h =
      ok_of_Ensures (Shelved d) (save_binding v c b e) (save_binding-Ensures v c b e h)

  save_proposal-Ensures :
      (k : Codec) (id : GoString) (p : Option TaskProposal) (e : Db)
      → Shelved d e
      → Ensures (Shelved d) (save_proposal k id p e)
  unfolding save_proposal extend_definition
  save_proposal-Ensures k id none e h = h
  save_proposal-Ensures k id (some p) e h = search (Ensures->>=, Shelved-step h refl refl) depth 12

  pub save_proposal-Shelved :
      {e f : Db} (k : Codec) (id : GoString) (p : Option TaskProposal)
      → Shelved d e
      → save_proposal k id p e ≡ ok f
      → Shelved d f
  save_proposal-Shelved {e} k id p h =
      ok_of_Ensures (Shelved d) (save_proposal k id p e) (save_proposal-Ensures k id p e h)
