-- ===== src/Samples/Shop.antt =====
-- A small database and the requests that drive it, for the instances of the theorems on the store.
use ago.Prelude.{ℕ, ◌+◌, ◌++◌, ◌≡◌, refl, none, some, Option, [], ◌∷◌, true, false}
use ago.Prelude.Ints.{pos}
use ago.Prelude.Outcome.{ok}
use ago.GoString.{GoString, codes}
use ago.Clock.{Time, zero_time, unix_epoch}
use ago.Protocol.States.{ActorRole, CommandType, FailureClass}
use ago.Protocol.Records.{Board}
use ago.Protocol.Commands.{Command}
use ago.Store.Rows.{Db, Codec, Request}
use ago.Store.Boards.{board_row}
use ago.Store.Commit.{Committed, apply_command}
use ago.Store.Claim.{Claimed, claim}
use ago.Store.Picking.{ClaimRequest, declined, ClaimOutcome, ClaimReason, is_acquired}
use ago.Store.Sweep.{mutate_lease}
use ago.Store.Deadlines.{LeaseCommand}
use ago.Samples.{play, empty_board, is_ok, value_or, value_of_ok}
use ago.Samples.Commands.{create, add, activate, ask}

-- An encoding that tells the requests of the samples apart.
encode : Request → GoString
encode (Request.command board_id c expires_at binding) =
    codes "command" ++ board_id ++ c.id ++ c.reason
encode (Request.graph plan commands definition) = codes "graph" ++ plan
encode (Request.claim board_id actor worker limits) = codes "claim" ++ board_id ++ worker
encode (Request.lease id board_id lease_id actor expire token expiry reason class) =
    codes "lease" ++ id
encode (Request.texts texts) = codes "texts"
encode (Request.expiry board_id lease_id expiry) = codes "expiry" ++ board_id ++ lease_id

unfoldable pub codec : Codec
unfolding encode
codec = record {
  marshal = λ r. some (encode r);
  sha256 = λ text. text;
  valid_json = λ text. true;
  decode_object = λ text. some [];
  encode_object = λ fields. some [];
  decode_plan = λ text. none;
  encode_plan = λ plan. some [];
}

-- A board with one task, which is ready.
unfoldable pub ready_board : Board
unfolding play
ready_board = play empty_board (create ∷ add (codes "t") 1 ∷ activate (codes "t") 2 ∷ [])

unfoldable pub shop : Db
unfolding ready_board board_row
shop = record {
  boards = board_row ready_board ∷ [];
  definitions = [];
  events = [];
  commands = [];
  tasks = [];
  dependencies = [];
  attempts = [];
  bindings = [];
  leases = [];
  evidence = [];
  artifacts = [];
}

abbrev pub halt : Command
halt = record (ask CommandType.board_pause 3) { reason = codes "lunch" }

abbrev pub nothing_committed : Committed
nothing_committed = record {
  db = shop;
  result = record { board = empty_board; events = [] };
  fresh = false;
}

abbrev pub halted : Committed
halted = value_or nothing_committed (apply_command codec (codes "b") halt zero_time none none shop)

halt_works : is_ok (apply_command codec (codes "b") halt zero_time none none shop) ≡ true
unfolding shop apply_command codec
halt_works = refl

pub halt-halted : apply_command codec (codes "b") halt zero_time none none shop ≡ ok halted
halt-halted = value_of_ok nothing_committed _ halt_works

-- `n` nanoseconds after 2020-01-01 in UTC.
abbrev pub moment : ℕ → Time
moment n = record zero_time { instant = unix_epoch + 1577836800000000000 + n }

-- The task is asked for.
abbrev pub pick : ClaimRequest
pick = record {
  board_id = codes "b";
  command_id = codes "claim";
  actor = record { id = codes "ago"; role = ActorRole.coordinator };
  worker_id = codes "w";
  now = moment 0;
  lease_duration = pos 60000000000;
  limits = record {
    global_running = pos 1;
    board_running = pos 1;
    repository_writers = pos 1;
    repository_readers = pos 1;
  };
}

abbrev pub token : Option GoString
token = some (codes "k")

abbrev pub nothing_claimed : Claimed
nothing_claimed = record {
  db = shop;
  result = declined ClaimOutcome.no_work empty_board [] ClaimReason.no_ready_task;
}

abbrev pub picked : Claimed
picked = value_or nothing_claimed (claim codec pick token shop)

pick_works : is_ok (claim codec pick token shop) ≡ true
unfolding shop claim codec
pick_works = refl

pub pick-picked : claim codec pick token shop ≡ ok picked
pick-picked = value_of_ok nothing_claimed _ pick_works

pub picked_acquired : is_acquired picked.result.outcome ≡ true
unfolding shop claim codec
picked_acquired = refl

-- The lease of the claim is renewed.
abbrev pub extend : LeaseCommand
extend = record {
  id = codes "renew";
  expected_version = 4;
  actor = record { id = codes "ago"; role = ActorRole.coordinator };
  board_id = codes "b";
  lease_id = picked.result.lease_id;
  expires_at = moment 120000000000;
  reason = [];
  failure_class = FailureClass.no_failure;
  next_eligible_at = zero_time;
  fencing_token = codes "k";
}

abbrev pub extended : Committed
extended = value_or nothing_committed (mutate_lease codec extend false none picked.db)

extend_works : is_ok (mutate_lease codec extend false none picked.db) ≡ true
unfolding shop claim codec mutate_lease
extend_works = refl

pub extend-extended : mutate_lease codec extend false none picked.db ≡ ok extended
extend-extended = value_of_ok nothing_committed _ extend_works

pub extended_fresh : extended.fresh ≡ true
unfolding shop claim codec mutate_lease
extended_fresh = refl
