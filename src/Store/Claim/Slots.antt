-- ===== src/Store/Claim/Slots.antt =====
-- The slots of a claim of internal/agoboardstore/claim.go.
use ago.Prelude.{
  ℕ, ◌≡◌, ap, true, false, Option, none, some, arith, Bool-cases, Option-cases, inl, inr, find,
  if◌then◌else◌, ltb, ◌+◌,
}
use ago.Prelude.Outcome.{ok}
use ago.GoString.{GoString}
use ago.Protocol.Records.{Board, Task}
use ago.Store.Rows.{Db, Codec, SlotLimits}
use ago.Store.Boards.{board_query}
use ago.Store.Claim.{Claimed, acquired_result, claim}
use ago.Store.Picking.{
  ClaimRequest, slot_available, is_acquired, count_rows, writes_to, reads_from, active_row,
  active_on_board, reached, is_write, eligible_task,
}
use ago.Store.Claim.Decisions.{takeable, eligible_task-first}
use ago.Store.Claim.Steps.{claim-Won}

-- The counts of active leases that let a task of the board run: no writer beside it, no reader either
-- if it writes itself, and no limit reached.
pub record HasSlot (b : Board) (t : Task) (limits : SlotLimits) (d : Db) : Type 0 where
  pub below_global : reached limits.global_running (count_rows active_row d) ≡ false
  pub below_board : reached limits.board_running (count_rows (active_on_board b.id) d) ≡ false
  pub alone :
      (if is_write t.access_mode
        then count_rows (writes_to b.repository) d + count_rows (reads_from b.repository) d
        else count_rows (writes_to b.repository) d)
      ≡ 0
  pub below_repository :
      (if is_write t.access_mode
        then reached limits.repository_writers (count_rows (writes_to b.repository) d)
        else reached limits.repository_readers (count_rows (reads_from b.repository) d))
      ≡ false

none_above : (n : ℕ) → ltb 0 n ≡ false → n ≡ 0
none_above n h = ground arith

slot_available-HasSlot :
    (b : Board) (t : Task) (limits : SlotLimits) (d : Db)
    → slot_available b t limits d ≡ none
    → HasSlot b t limits d
unfolding slot_available
slot_available-HasSlot b t limits d h =
    let writers = count_rows (writes_to b.repository) d in
    let readers = count_rows (reads_from b.repository) d in
    elim (Bool-cases (is_write t.access_mode)) [
      | inl w ↦
          let none_active : ltb 0 (writers + readers) ≡ false = ground arith in
          record {
            below_global = ground arith;
            below_board = ground arith;
            alone = rw w (none_above _ none_active);
            below_repository = ground arith;
          }
      | inr w ↦
          let none_active : ltb 0 writers ≡ false = ground arith in
          record {
            below_global = ground arith;
            below_board = ground arith;
            alone = rw w (none_above _ none_active);
            below_repository = ground arith;
          }
    ]

-- What a claim that took a task found: the board is not paused, the task is the first one that may be
-- taken, and there is a slot for it.
pub record Admitted (r : ClaimRequest) (d : Db) (c : Claimed) : Type 0 where
  pub board : Board
  pub task : Task
  pub read : board_query r.board_id d ≡ ok board
  pub running : board.paused ≡ false
  pub first : find (takeable r.now) board.tasks ≡ some task
  pub named : c.result.task_id ≡ task.id
  pub slot : HasSlot board task r.limits d

pub eligible_task-find :
    (b : Board) (t : Task) (r : ClaimRequest)
    → eligible_task b r.now ≡ inl t
    → find (takeable r.now) b.tasks ≡ some t
eligible_task-find b t r h =
    let e = eligible_task-first b r.now in
    elim (Option-cases (find (takeable r.now) b.tasks)) [
      | inl q ↦ absurd (ground arith)
      | inr (u, q) ↦ ground arith
    ]

-- A claim takes a task only on a board that is not paused, only the first task that may be taken, and
-- only where the active leases leave a slot: below each limit, with no writer of the repository, and
-- with no reader of it either if the task writes.
pub claim-Admitted :
    (k : Codec) (r : ClaimRequest) (minted : Option GoString) (d : Db) {c : Claimed}
    → claim k r minted d ≡ ok c
    → is_acquired c.result.outcome ≡ true
    → Admitted r d c
unfolding acquired_result
claim-Admitted k r minted d h a =
    let w = claim-Won k r minted d h a in
    record {
      board = w.board;
      task = w.task;
      read = w.read;
      running = w.running;
      first = eligible_task-find w.board w.task r w.eligible;
      named = ap (λ z. z.task_id) w.taken.result;
      slot = slot_available-HasSlot w.board w.task r.limits d w.slot;
    }
