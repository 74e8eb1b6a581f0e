-- ===== src/Store/Claim/Exclusion.antt =====
-- Two claims of internal/agoboardstore/claim.go on one repository: a writer is alone.
use mathlib.Core.List.{Memᴰ}
use ago.Prelude.{
  ◌≡◌, ◌≢◌, refl, sym, subst, ◌∙◌, true, false, ◌||◌, Option, some, arith, Bool-cases, inl, inr,
  find,
}
use ago.Prelude.Outcome.{ok, same_value}
use ago.GoString.{GoString}
use ago.Protocol.States.{AccessMode, valid_access_mode}
use ago.Protocol.Records.{Board, Task}
use ago.Store.Rows.{Db, Stored, Codec}
use ago.Store.Boards.{board_query}
use ago.Store.Receipts.{insert_result}
use ago.Store.Claim.{Claimed, claim, claim_spec, claim_command}
use ago.Store.Picking.{
  ClaimRequest, is_acquired, count_rows, writes_to, reads_from, is_write, is_read,
}
use ago.Store.Claim.Decisions.{takeable}
use ago.Store.Claim.Steps.{claim-Won}
use ago.Store.Claim.Stages.{Won}
use ago.Store.Claim.Slots.{HasSlot, claim-Admitted, eligible_task-find}
use ago.Store.Claim.Again.{lift-ok, board_query-validate}
use ago.Store.Claim.Held.{find-Mem, counted, Holds, row_of_lease}

read_or_write :
    (m : AccessMode) → valid_access_mode m ≡ true → is_write m ≡ false → is_read m ≡ true
unfolding valid_access_mode
read_or_write AccessMode.read v h = refl
read_or_write AccessMode.write v h = cc
read_or_write (AccessMode.unknown s) v h = cc

-- A row of the repository keeps the slot from a writer, and from anybody if it is a writer's.
row_excludes :
    (b b' : Board) (t u : Task) (r : ClaimRequest) (d : Db)
    → Holds b t d
    → b'.repository ≡ b.repository
    → (is_write t.access_mode || is_write u.access_mode) ≡ true
    → ¬ HasSlot b' u r.limits d
unfolding count_rows
row_excludes b b' t u r d held same writes slot =
    let row = held.row in
    let there = held.repository ∙ sym same in
    let mode = held.mode in
    let active = held.active in
    let alone = slot.alone in
    elim (Bool-cases (is_write row.access_mode)) [
      | inl w ↦
          let here = counted (writes_to b'.repository) d.leases row held.listed (ground arith) in
          elim (Bool-cases (is_write u.access_mode)) [ inl v ↦ ground arith | inr v ↦ ground arith ]
      | inr w ↦
          let reads = read_or_write row.access_mode held.valid w in
          let here = counted (reads_from b'.repository) d.leases row held.listed (ground arith) in
          ground arith
    ]

receipt_leases :
    (actor id hash board_id : GoString) (r : Stored) (d : Db) {e : Db}
    → insert_result actor id hash board_id r d ≡ ok e
    → e.leases ≡ d.leases
unfolding insert_result
receipt_leases actor id hash board_id r d h = ground arith

module _ (k : Codec) (r : ClaimRequest) (d : Db) (c : Claimed) (w : Won k r d c) where
  task_listed : Memᴰ w.task w.board.tasks
  task_listed =
      find-Mem (takeable r.now) w.board.tasks w.task
        (eligible_task-find w.board w.task r w.eligible)

  -- The row of the lease of a claim that took a task.
  Won-Holds : Holds w.board w.task c.db
  unfolding claim_spec claim_command
  Won-Holds =
      let t = w.taken in
      let spec = claim_spec r w.task t.attempt_id t.lease_id t.token w.asked.duration in
      let held =
        row_of_lease w.board (claim_command r w.board spec) spec w.task refl refl
          (lift-ok _ t.applied) (board_query-validate r.board_id d w.read) t.appended task_listed
          refl t.syncing in
      record {
        row = held.row;
        listed =
            subst (λ rows. Memᴰ held.row rows) (sym (receipt_leases _ _ _ _ _ t.synced t.receipt))
              held.listed;
        active = held.active;
        repository = held.repository;
        mode = held.mode;
        valid = held.valid;
      }

some_value : {A : Type 0} {x y : A} (m : Option A) → m ≡ some x → m ≡ some y → x ≡ y
some_value m g h = ground arith

module _ (k : Codec) (r : ClaimRequest) (minted : Option GoString) (d : Db) {c : Claimed}
    (b : Board) (t : Task) (h : claim k r minted d ≡ ok c) (a : is_acquired c.result.outcome ≡ true)
    (read : board_query r.board_id d ≡ ok b) (first : find (takeable r.now) b.tasks ≡ some t) where
  claim-Holds : Holds b t c.db
  claim-Holds =
      let w = claim-Won k r minted d h a in
      let at_board : w.board ≡ b = same_value _ w.read read in
      let found : find (takeable r.now) w.board.tasks ≡ some t =
        subst (λ z. find (takeable r.now) z.tasks ≡ some t) (sym at_board) first in
      let at_task : w.task ≡ t =
        some_value _ (eligible_task-find w.board w.task r w.eligible) found in
      subst (λ z. Holds z t c.db) at_board
        (subst (λ z. Holds w.board z c.db) at_task (Won-Holds k r d c w))

  claim-HasSlot : HasSlot b t r.limits d
  claim-HasSlot =
      let x = claim-Admitted k r minted d h a in
      let at_board : x.board ≡ b = same_value _ x.read read in
      let found : find (takeable r.now) x.board.tasks ≡ some t =
        subst (λ z. find (takeable r.now) z.tasks ≡ some t) (sym at_board) first in
      let at_task : x.task ≡ t = some_value _ x.first found in
      subst (λ z. HasSlot z t r.limits d) at_board
        (subst (λ z. HasSlot x.board z r.limits d) at_task x.slot)

-- After a claim that took a task `t` of a board, another claim, for whatever board, that takes a
-- task `u` from the database that is left is for a board of another repository, if one of the two
-- tasks writes.
pub claim-exclusive :
    (k : Codec) (r r' : ClaimRequest) (minted minted' : Option GoString) (d : Db) {c c' : Claimed}
    (b b' : Board) (t u : Task)
    → claim k r minted d ≡ ok c
    → is_acquired c.result.outcome ≡ true
    → board_query r.board_id d ≡ ok b
    → find (takeable r.now) b.tasks ≡ some t
    → claim k r' minted' c.db ≡ ok c'
    → is_acquired c'.result.outcome ≡ true
    → board_query r'.board_id c.db ≡ ok b'
    → find (takeable r'.now) b'.tasks ≡ some u
    → (is_write t.access_mode || is_write u.access_mode) ≡ true
    → b'.repository ≢ b.repository
claim-exclusive k r r' minted minted' d {c} b b' t u h a read first h' a' read' first' writes same =
    row_excludes b b' t u r' c.db (claim-Holds k r minted d b t h a read first) same writes
      (claim-HasSlot k r' minted' c.db b' u h' a' read' first')
