-- ===== src/Samples/Pilot.antt =====
-- A supervisor and a scheduler over small databases.
use ago.Prelude.{◌≡◌, refl, none, some, [], ◌∷◌, true, false, map, List}
use ago.Prelude.Ints.{pos}
use ago.Prelude.Outcome.{ok}
use ago.GoString.{GoString, codes}
use ago.Clock.{zero_time}
use ago.Protocol.States.{CommandType, FailureClass, TaskState}
use ago.Protocol.Records.{Board, Task, Lease, Evidence}
use ago.Store.Rows.{Db}
use ago.Store.Boards.{board_row, board_query}
use ago.Supervisor
use ago.Scheduler
use ago.Scheduler.{GateReport, Answer, failed, answered, Parts, Site, Goal}
use ago.Samples.{result, review, play, empty_board, is_ok, value_or, value_of_ok}
use ago.Samples.Commands.{create, decide}
use ago.Samples.Shop.{codec, shop, ready_board, moment}

abbrev stop : FailureClass → Task → Task
stop c t = record t { state = TaskState.failed; failure_class = c }

-- The board of the shop, with its task stopped by a failure of the class.
unfoldable pub stopped_board : FailureClass → Board
unfolding ready_board
stopped_board c = record ready_board { tasks = map (stop c) ready_board.tasks }

abbrev pub stopped_shop : FailureClass → Db
unfolding shop stopped_board board_row
stopped_shop c = record shop { boards = board_row (stopped_board c) ∷ [] }

abbrev pub pilot : Supervisor.Options
pilot = record {
  board_id = codes "b";
  authorize = record {
    local_file_writes = true;
    local_commits = true;
    push = false;
    publish = false;
    destructive = false;
    max_repairs_per_task = pos 2;
    max_patches = pos 16;
  };
  coordinator_id = codes "ago";
  clock = moment;
  cycle = λ db. (db, ok tt);
  error_text = λ e. codes "error";
  codec = codec;
}

-- The board on which evidence waits for a verdict.
unfoldable pub judged : Db
unfolding shop review board_row
judged = record shop { boards = board_row review ∷ [] }

-- A board without tasks: its gate is due.
unfoldable pub bare_board : Board
unfolding play
bare_board = play empty_board (create ∷ [])

unfoldable pub bare : Db
unfolding shop bare_board board_row
bare = record shop { boards = board_row bare_board ∷ [] }

abbrev pub goal : Goal
goal = record {
  board_id = codes "b";
  repository = record { id = codes "repo"; revision = codes "r0" };
  objective = record { id = codes "o"; summary = codes "ship it" };
  project_gates = [];
  constraints = record {
    path_scopes = [];
    capability_tags = [];
    verifier_ids = [];
    max_tasks = pos 8;
    max_dependencies = pos 8;
  };
  execution_mode = [];
  base_revision = codes "r0";
  integration_ref = codes "refs/heads/ago/b";
  gate_commands = [];
}

abbrev pub passing :
    GoString → GoString → List GoString → Unit {0} → Unit {0} × Answer GoString GateReport
passing repository revision commands x =
    (x, answered (record { checks = []; passed = true; summary = codes "ok" }))

abbrev pub parts : Parts (Unit {0})
parts = record {
  now = λ x. (x, moment 0);
  mint = λ x. (x, some (codes "k"));
  execute = λ d x. (x, failed (record { class = none; text = codes "crashed" }));
  verify = λ i x. (x, failed (codes "offline"));
  artifact_bytes = none;
  promote = none;
  run_gate = some passing;
}

abbrev pub keeper : Scheduler.Options (Unit {0})
keeper = record {
  parts = parts;
  codec = codec;
  decode_goal = λ fields. ok goal;
  redact = λ text. text;
  coordinator_id = codes "ago";
  worker_id = codes "w";
  verifier_id = codes "v";
  lease_duration = pos 60000000000;
  limits = ago.Scheduler.default_limits;
}

abbrev pub at_work : Db → Site (Unit {0})
at_work db = record { db = db; outside = tt; calls = [] }

abbrev pub bare_seen : Board
bare_seen = value_or empty_board (board_query (codes "b") bare)

bare_seen_works : is_ok (board_query (codes "b") bare) ≡ true
unfolding bare board_query
bare_seen_works = refl

pub bare_seen_lem : board_query (codes "b") bare ≡ ok bare_seen
bare_seen_lem = value_of_ok empty_board _ bare_seen_works

-- A board from before verdicts and times were written down, on which evidence was accepted.
abbrev unspoken : Evidence → Evidence
unspoken e = record e { verdict = [] }

abbrev undated : Lease → Lease
undated l = record l { acquired_at = zero_time; expires_at = zero_time }

unfoldable pub old_board : Board
unfolding result review
old_board =
    let b = (result review (decide CommandType.evidence_accept)).board in
    record b { evidence = map unspoken b.evidence; leases = map undated b.leases }

unfoldable pub old_store : Db
unfolding shop old_board board_row
old_store = record shop { boards = board_row old_board ∷ [] }
