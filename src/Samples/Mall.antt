-- ===== src/Samples/Mall.antt =====
-- A database of two boards, and two claims in turn.
use ago.Prelude.{◌≡◌, refl, some, Option, [], ◌∷◌, true, find}
use ago.Prelude.Ints.{pos}
use ago.Prelude.Outcome.{ok}
use ago.GoString.{GoString, codes}
use ago.Protocol.Records.{Board, Task, zero_task}
use ago.Protocol.Commands.{Command}
use ago.Store.Rows.{SlotLimits, Db}
use ago.Store.Boards.{board_row, board_query}
use ago.Store.Claim.{Claimed, claim}
use ago.Store.Picking.{ClaimRequest, is_acquired}
use ago.Store.Claim.Decisions.{takeable}
use ago.Samples.{default, has_value, some_of_value, play, empty_board, is_ok, value_or, value_of_ok}
use ago.Samples.Commands.{create, add, activate}
use ago.Samples.Shop.{codec, ready_board, shop, moment, pick, token, nothing_claimed}

-- A second board, of another repository.
abbrev create_other : Command
create_other = record create {
  board = some (record {
    id = codes "c";
    title = codes "ship that";
    repository = codes "other";
    base_revision = codes "r0";
    integration_ref = codes "refs/heads/ago/c";
    gate_commands = [];
  });
}

unfoldable pub other_board : Board
unfolding play
other_board = play empty_board (create_other ∷ add (codes "t") 1 ∷ activate (codes "t") 2 ∷ [])

unfoldable pub mall : Db
unfolding shop ready_board other_board board_row
mall = record shop { boards = board_row ready_board ∷ board_row other_board ∷ [] }

abbrev free : SlotLimits
free = record {
  global_running = pos 0;
  board_running = pos 0;
  repository_writers = pos 0;
  repository_readers = pos 0;
}

abbrev pub one_pick : ClaimRequest
one_pick = record pick { limits = free }

abbrev pub other_pick : ClaimRequest
other_pick = record one_pick { board_id = codes "c"; command_id = codes "claim 2" }

abbrev pub other_token : Option GoString
other_token = some (codes "q")

abbrev pub one_picked : Claimed
one_picked = value_or nothing_claimed (claim codec one_pick token mall)

abbrev pub other_picked : Claimed
other_picked = value_or nothing_claimed (claim codec other_pick other_token one_picked.db)

one_pick_works : is_ok (claim codec one_pick token mall) ≡ true
unfolding mall claim codec
one_pick_works = refl

other_pick_works : is_ok (claim codec other_pick other_token one_picked.db) ≡ true
unfolding mall claim codec
other_pick_works = refl

pub one_pick-picked : claim codec one_pick token mall ≡ ok one_picked
one_pick-picked = value_of_ok nothing_claimed _ one_pick_works

pub other_pick-picked : claim codec other_pick other_token one_picked.db ≡ ok other_picked
other_pick-picked = value_of_ok nothing_claimed _ other_pick_works

pub one_picked_acquired : is_acquired one_picked.result.outcome ≡ true
unfolding mall claim codec
one_picked_acquired = refl

pub other_picked_acquired : is_acquired other_picked.result.outcome ≡ true
unfolding mall claim codec
other_picked_acquired = refl

-- What the claims have read.
abbrev pub seen : GoString → Db → Board
seen id d = value_or empty_board (board_query id d)

one_seen_works : is_ok (board_query (codes "b") mall) ≡ true
unfolding mall board_query
one_seen_works = refl

pub one_seen : board_query (codes "b") mall ≡ ok (seen (codes "b") mall)
one_seen = value_of_ok empty_board _ one_seen_works

other_seen_works : is_ok (board_query (codes "c") one_picked.db) ≡ true
unfolding mall board_query claim codec
other_seen_works = refl

pub other_seen : board_query (codes "c") one_picked.db ≡ ok (seen (codes "c") one_picked.db)
other_seen = value_of_ok empty_board _ other_seen_works

abbrev pub chosen : GoString → Db → Task
chosen id d = default zero_task (find (takeable (moment 0)) (seen id d).tasks)

one_chosen_here : has_value (find (takeable (moment 0)) (seen (codes "b") mall).tasks) ≡ true
unfolding mall board_query find
one_chosen_here = refl

pub one_chosen :
    find (takeable (moment 0)) (seen (codes "b") mall).tasks ≡ some (chosen (codes "b") mall)
one_chosen = some_of_value zero_task _ one_chosen_here

other_chosen_here :
    has_value (find (takeable (moment 0)) (seen (codes "c") one_picked.db).tasks) ≡ true
unfolding mall board_query find claim codec
other_chosen_here = refl

pub other_chosen :
    find (takeable (moment 0)) (seen (codes "c") one_picked.db).tasks
    ≡ some (chosen (codes "c") one_picked.db)
other_chosen = some_of_value zero_task _ other_chosen_here
