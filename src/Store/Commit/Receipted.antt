-- ===== src/Store/Commit/Receipted.antt =====
-- The steps of `Store.apply` of internal/agoboardstore/store.go and the receipt that they leave.
use ago.Prelude.{
  ◌≡◌, ◌≢◌, sym, ap, ◌∙◌, Bool, true, false, Option, some, List, [], ◌∷◌, ◌++◌, map, any, find,
  arith, Bool-cases, Option-cases, inl, inr,
}
use ago.Prelude.Outcome.{ok, err, first_step}
use ago.GoString.{GoString}
use ago.Planner.{TaskProposal}
use ago.Protocol.Records.{Board}
use ago.Protocol.Commands.{Command}
use ago.Machine.Work.{Work}
use ago.Machine.Apply.{apply}
use ago.Store.Rows.{Db, Codec, Stored, Binding, CommandRow, command_conflict}
use ago.Store.Receipts.{stored_result, insert_result, is_receipt}
use ago.Store.Boards.{lift, insert_board, update_board, replace_board, append_events}
use ago.Store.Commit.{
  Committed, is_create, current_board, save, save_board, save_binding, save_proposal, apply_fresh,
}
use ago.Store.Commit.Frames.{
  Shelved, Shelved-refl, append_events-Shelved, sync_projection-Shelved, save_binding-Shelved,
  save_proposal-Shelved,
}

find-append :
    {A : Type 0} (p : A → Bool) (xs : List A) (x : A)
    → any p xs ≡ false
    → p x ≡ true
    → find p (xs ++ x ∷ []) ≡ some x
unfolding find any
find-append p [] x h e = ground arith
find-append p (y ∷ xs) x h e = ground (arith, find-append p xs x (ground arith) e)

-- The receipt that was inserted is found again, by whoever asks with the same hash.
pub stored-insert :
    (actor id hash board_id : GoString) (r : Stored) (d e : Db)
    → insert_result actor id hash board_id r d ≡ ok e
    → stored_result actor id hash e ≡ ok (some r)
unfolding insert_result stored_result
stored-insert actor id hash board_id r d e h =
    let row : CommandRow = record {
      actor_id = actor;
      command_id = id;
      request_hash = hash;
      board_id = board_id;
      result = r;
    } in
    let fresh : any (is_receipt actor id) d.commands ≡ false = ground arith in
    ground (arith, find-append (is_receipt actor id) d.commands row fresh)

-- With another hash the command is refused.
pub stored-other :
    (actor id hash other : GoString) (r : Stored) (d : Db)
    → stored_result actor id hash d ≡ ok (some r)
    → other ≢ hash
    → stored_result actor id other d ≡ err command_conflict
unfolding stored_result
stored-other actor id hash other r d h n =
    elim (Option-cases (find (is_receipt actor id) d.commands)) [
      | inl e ↦ absurd (ground arith)
      | inr (row, e) ↦ ground arith
    ]

-- Only the commands of a database are asked for a receipt.
pub stored-commands :
    (actor id hash : GoString) (d e : Db)
    → e.commands ≡ d.commands
    → stored_result actor id hash e ≡ stored_result actor id hash d
unfolding stored_result
stored-commands actor id hash d e h = ground arith

-- The steps of a command that had no receipt.
pub record Fresh (k : Codec) (id : GoString) (c : Command) (binding : Option Binding)
    (proposal : Option TaskProposal) (hash : GoString) (d : Db) (a : Committed) : Type 0 where
  pub current : Board
  pub work : Work
  pub saved : Db
  pub bound : Db
  pub receipted : Db
  pub read : current_board id c d ≡ ok current
  pub applied : lift (apply current c) ≡ ok work
  pub saving : save c work d ≡ ok saved
  pub binding_saved : save_binding binding c work.board saved ≡ ok bound
  pub receipt :
      insert_result c.actor.id c.id hash work.board.id
        (record { board = work.board; events = work.events })
        bound
      ≡ ok receipted
  pub extended : save_proposal k id proposal receipted ≡ ok a.db
  pub result : a.result ≡ record { board = work.board; events = work.events }
  pub fresh : a.fresh ≡ true

pub apply_fresh-Fresh :
    (k : Codec) (id : GoString) (c : Command) (binding : Option Binding)
    (proposal : Option TaskProposal) (hash : GoString) (d : Db) {a : Committed}
    → apply_fresh k id c binding proposal hash d ≡ ok a
    → Fresh k id c binding proposal hash d a
unfolding apply_fresh
apply_fresh-Fresh k id c binding proposal hash d h =
    let (current, p1, h1) = first_step (current_board id c d) _ h in
    let (w, p2, h2) = first_step (lift (apply current c)) _ h1 in
    let (d1, p3, h3) = first_step (save c w d) _ h2 in
    let (d2, p4, h4) = first_step (save_binding binding c w.board d1) _ h3 in
    let (d3, p5, h5) = first_step (insert_result c.actor.id c.id hash w.board.id _ d2) _ h4 in
    let (d4, p6, h6) = first_step (save_proposal k id proposal d3) _ h5 in
    record {
      current = current;
      work = w;
      saved = d1;
      bound = d2;
      receipted = d3;
      read = p1;
      applied = p2;
      saving = p3;
      binding_saved = p4;
      receipt = p5;
      extended = ground arith;
      result = ground arith;
      fresh = ground arith;
    }

-- What writing the board does with the two tables.
save_board_parts :
    (c : Command) (b : Board) (d : Db) {e : Db}
    → save_board c b d ≡ ok e
    → (e.commands ≡ d.commands)
      × (is_create c.type ≡ false → e.boards ≡ map (replace_board b) d.boards)
unfolding save_board insert_board update_board
save_board_parts c b d h = elim (Bool-cases (is_create c.type)) [
  | inl p ↦ (ground arith, λ q. ground arith)
  | inr p ↦ (ground arith, λ q. ground arith)
]

save_parts :
    (c : Command) (w : Work) (d : Db) {e : Db}
    → save c w d ≡ ok e
    → (e.commands ≡ d.commands)
      × (is_create c.type ≡ false → e.boards ≡ map (replace_board w.board) d.boards)
unfolding save
save_parts c w d h =
    let (d1, p1, h1) = first_step (save_board c w.board d) _ h in
    let (d2, p2, p3) = first_step (append_events w.events d1) _ h1 in
    let parts = save_board_parts c w.board d p1 in
    let s =
      sync_projection-Shelved d1 w.board (append_events-Shelved d1 w.events (Shelved-refl d1) p2)
        p3 in
    (s.commands ∙ parts.0, λ q. s.boards ∙ parts.1 q)

module _ {k : Codec} {id : GoString} {c : Command} {binding : Option Binding}
    {proposal : Option TaskProposal} {hash : GoString} {d : Db} {a : Committed}
    (f : Fresh k id c binding proposal hash d a) where
  kept : Shelved f.receipted a.db
  kept = save_proposal-Shelved f.receipted k id proposal (Shelved-refl f.receipted) f.extended

  pub Fresh-stored : stored_result c.actor.id c.id hash a.db ≡ ok (some a.result)
  Fresh-stored =
      stored-commands c.actor.id c.id hash f.receipted a.db kept.commands
      ∙ stored-insert c.actor.id c.id hash f.work.board.id _ f.bound f.receipted f.receipt
      ∙ ap (λ r. ok (some r)) (sym f.result)

  pub Fresh-boards :
      is_create c.type ≡ false → a.db.boards ≡ map (replace_board f.work.board) d.boards
  unfolding insert_result
  Fresh-boards q =
      let bound =
        save_binding-Shelved f.saved binding c f.work.board (Shelved-refl f.saved)
          f.binding_saved in
      let same : f.receipted.boards ≡ f.bound.boards = ground (arith, f.receipt) in
      kept.boards ∙ same ∙ bound.boards ∙ (save_parts c f.work d f.saving).1 q
