-- ===== src/Store/Commit/Replay.antt =====
-- A command of internal/agoboardstore/store.go that was honoured is answered by its receipt.
use ago.Prelude.{
  ◌≡◌, ◌≢◌, refl, sym, ap, ◌∙◌, false, Option, some, List, [], ◌∷◌, map, arith, Bool-cases,
  Option-cases, inl, inr, ◌⊎◌,
}
use ago.Prelude.Outcome.{ok, err, ◌>>=◌, first_step}
use ago.GoString.{GoString}
use ago.Clock.{Time}
use ago.Planner.{TaskProposal}
use ago.Protocol.Records.{Board}
use ago.Protocol.Commands.{Command}
use ago.Store.Rows.{Db, Codec, Stored, Binding, BoardRow, command_conflict}
use ago.Store.Receipts.{stored_result, command_request_hash}
use ago.Store.Boards.{sole_board_id, replace_board, board_row}
use ago.Store.Commit.{Committed, is_create, target_board, with_deadline, apply_command}
use ago.Store.Commit.Receipted.{Fresh, apply_fresh-Fresh, Fresh-stored, Fresh-boards, stored-other}

sole_board_id-map :
    (b : Board) (rows : List BoardRow)
    → sole_board_id (map (replace_board b) rows) ≡ sole_board_id rows
unfolding sole_board_id board_row
sole_board_id-map b [] = refl
sole_board_id-map b (r ∷ []) = ground arith
sole_board_id-map b (r ∷ q ∷ rows) = refl

with_deadline-type : (e : Time) (c : Command) → (with_deadline e c).type ≡ c.type
unfolding with_deadline
with_deadline-type e c = ground arith

with_deadline-actor : (e : Time) (c : Command) → (with_deadline e c).actor.id ≡ c.actor.id
unfolding with_deadline
with_deadline-actor e c = ground arith

with_deadline-id : (e : Time) (c : Command) → (with_deadline e c).id ≡ c.id
unfolding with_deadline
with_deadline-id e c = ground arith

target_board-same :
    (id : GoString) (c : Command) (b : Board) (d e : Db)
    → (is_create c.type ≡ false → e.boards ≡ map (replace_board b) d.boards)
    → target_board id c e ≡ target_board id c d
unfolding target_board
target_board-same id c b d e h = elim (Bool-cases (is_create c.type)) [
  | inl p ↦ ground arith
  | inr p ↦
      let same : sole_board_id e.boards ≡ sole_board_id d.boards =
        ap sole_board_id (h p) ∙ sole_board_id-map b d.boards in
      ground (arith, same)
]

-- The steps of a command up to its receipt, and then one of two ends.
record Looked (k : Codec) (id : GoString) (c : Command) (e : Time) (binding : Option Binding)
    (proposal : Option TaskProposal) (d : Db) (a : Committed) : Type 0 where
  board_id : GoString
  hash : GoString
  target : target_board id c d ≡ ok board_id
  hashed : command_request_hash k board_id (with_deadline e c) e binding ≡ ok hash
  ended :
      ((r : Stored) × (stored_result (with_deadline e c).actor.id (with_deadline e c).id hash d
          ≡ ok (some r))
        × (a ≡ record { db = d; result = r; fresh = false }))
      ⊎ Fresh k board_id (with_deadline e c) binding proposal hash d a

module _ (k : Codec) (id : GoString) (c : Command) (e : Time) (binding : Option Binding)
    (proposal : Option TaskProposal) where
  looked :
      (d : Db) {a : Committed}
      → apply_command k id c e binding proposal d ≡ ok a
      → Looked k id c e binding proposal d a
  unfolding apply_command
  looked d h =
      let (b, p1, h1) = first_step (target_board id c d) _ h in
      let (hash, p2, h2) =
        first_step (command_request_hash k b (with_deadline e c) e binding) _ h1 in
      let (found, p3, h3) =
        first_step (stored_result (with_deadline e c).actor.id (with_deadline e c).id hash d) _
          h2 in
      record {
        board_id = b;
        hash = hash;
        target = p1;
        hashed = p2;
        ended = elim (Option-cases found) [
          | inl q ↦
              inr (apply_fresh-Fresh k b (with_deadline e c) binding proposal hash d (ground arith))
          | inr (r, q) ↦ inl (r, p3 ∙ ap ok q, ground arith)
        ];
      }

  -- The receipt is there in the end.
  receipted :
      (d : Db) {a : Committed} (l : Looked k id c e binding proposal d a)
      → stored_result (with_deadline e c).actor.id (with_deadline e c).id l.hash a.db
        ≡ ok (some a.result)
  receipted d {a} l = elim l.ended [ inl (r, s, q) ↦ rw q s | inr f ↦ Fresh-stored f ]

  target_after :
      (d : Db) {a : Committed}
      → Looked k id c e binding proposal d a
      → target_board id c a.db ≡ target_board id c d
  target_after d {a} l = elim l.ended [
    | inl (r, s, q) ↦ ap (λ z. target_board id c z.db) q
    | inr f ↦
        target_board-same id c f.work.board d a.db
          (λ q. Fresh-boards f (ap is_create (with_deadline-type e c) ∙ q))
  ]

  -- What the database answers once the receipt is there.
  answered :
      (d : Db) (b hash : GoString) (r : Stored)
      → target_board id c d ≡ ok b
      → command_request_hash k b (with_deadline e c) e binding ≡ ok hash
      → stored_result (with_deadline e c).actor.id (with_deadline e c).id hash d ≡ ok (some r)
      → apply_command k id c e binding proposal d
        ≡ ok (record { db = d; result = r; fresh = false })
  unfolding apply_command
  answered d b hash r p q s = rw (p, ◌>>=◌) (rw (q, ◌>>=◌) (rw (s, ◌>>=◌) refl))

  -- Where a command succeeds, whether it was honoured now or before, the same command gets the same
  -- result from the database that is left, and changes nothing: a retry is harmless.
  pub apply_command-replay :
      (d : Db) {a : Committed}
      → apply_command k id c e binding proposal d ≡ ok a
      → apply_command k id c e binding proposal a.db
        ≡ ok (record { db = a.db; result = a.result; fresh = false })
  apply_command-replay d {a} h =
      let l = looked d h in
      answered a.db l.board_id l.hash a.result (target_after d l ∙ l.target) l.hashed
        (receipted d l)

  -- After a command succeeded, a request under the id of its actor and its own id, but with another
  -- hash, is refused as a conflict.
  pub apply_command-conflict :
      (d : Db) {a : Committed} {b hash : GoString} (id' : GoString) (c' : Command) (e' : Time)
      (binding' : Option Binding) (proposal' : Option TaskProposal) (b' hash' : GoString)
      → apply_command k id c e binding proposal d ≡ ok a
      → target_board id c d ≡ ok b
      → command_request_hash k b (with_deadline e c) e binding ≡ ok hash
      → target_board id' c' a.db ≡ ok b'
      → command_request_hash k b' (with_deadline e' c') e' binding' ≡ ok hash'
      → c'.actor.id ≡ c.actor.id
      → c'.id ≡ c.id
      → hash' ≢ hash
      → apply_command k id' c' e' binding' proposal' a.db ≡ err command_conflict
  unfolding apply_command
  apply_command-conflict d {a} {b} {hash} id' c' e' binding' proposal' b' hash' h t p t' p' ha hi
        n =
      let l = looked d h in
      let same_board : l.board_id ≡ b = ground (arith, l.target) in
      let same_hash : l.hash ≡ hash = ground (arith, l.hashed, same_board) in
      let stored = receipted d l in
      let actors : (with_deadline e' c').actor.id ≡ (with_deadline e c).actor.id =
        with_deadline-actor e' c' ∙ ha ∙ sym (with_deadline-actor e c) in
      let ids : (with_deadline e' c').id ≡ (with_deadline e c).id =
        with_deadline-id e' c' ∙ hi ∙ sym (with_deadline-id e c) in
      let refusal = stored-other _ _ _ hash' a.result a.db stored (λ q. n (q ∙ same_hash)) in
      let moved : stored_result (with_deadline e' c').actor.id (with_deadline e' c').id hash' a.db
          ≡ err command_conflict =
        rw actors (rw ids refusal) in
      rw (t', ◌>>=◌) (rw (p', ◌>>=◌) (rw (moved, ◌>>=◌) refl))
