-- ===== src/Store/Upgrade.antt =====
-- `upgradeAggregates` of internal/agoboardstore/store.go: boards of an older schema become boards of
-- this one. The scripts that alter the tables are not modelled; a new column has its default already.
pub mod Authority
use ago.Prelude.{
  ◌==◌, Bool, false, ◌&&◌, not, none, some, List, [], ◌∷◌, map, find, is_empty, if◌then◌else◌,
}
use ago.Prelude.Ints.{ℤ, pos, inc_int, eq_int, ltb_int}
use ago.Prelude.Outcome.{ok, ◌>>=◌, ◌>>◌}
use ago.GoString.{GoString, codes, str_eq}
use ago.Clock.{is_zero, from_unix_nano}
use ago.Protocol.States.{AccessMode, EvidenceState}
use ago.Protocol.Records.{Board, Task, Attempt, Lease, Evidence}
use ago.Protocol.Retry.{schema_version}
use ago.Protocol.Validate.{validate}
use ago.Store.Rows.{Db, Tx, BoardRow, LeaseRow}
use ago.Store.Boards.{lift}
use ago.Store.Projection.{sync_projection}

-- `attemptsPerTask[id]`, after the attempts given.
unfoldable pub attempts_of : GoString → List Attempt → ℤ
attempts_of id [] = pos 0
attempts_of id (a ∷ as') =
    let rest = attempts_of id as' in if str_eq a.task_id id then inc_int rest else rest

-- The loop over the attempts; `seen` are those before, in reverse.
unfoldable pub number_attempts : List Attempt → List Attempt → List Attempt
unfolding attempts_of
number_attempts seen [] = []
number_attempts seen (a ∷ as') =
    (if eq_int a.number (pos 0) then record a { number = attempts_of a.task_id (a ∷ seen) } else a)
    ∷ number_attempts (a ∷ seen) as'

-- The access mode is the empty text.
abbrev pub is_unset : AccessMode → Bool
is_unset (AccessMode.unknown s) = is_empty s
is_unset _ = false

unfoldable pub upgrade_task : List Attempt → Task → Task
unfolding attempts_of
upgrade_task attempts t = record t {
  access_mode = if is_unset t.access_mode then AccessMode.write else t.access_mode;
  attempt_count =
      if eq_int t.attempt_count (pos 0) then attempts_of t.id attempts else t.attempt_count;
}

-- `deadlines[key]` holds the column `expires_at` of the lease.
unfoldable pub upgrade_lease : GoString → List LeaseRow → Lease → Lease
unfolding find is_zero from_unix_nano
upgrade_lease board_id rows l =
    if not (is_zero l.expires_at)
    then l
    else elim (find (λ r. str_eq r.board_id board_id && str_eq r.lease_id l.id) rows) [
      | none ↦ l
      | some r ↦
          if ltb_int (pos 0) r.expires_at
          then record l { expires_at = from_unix_nano r.expires_at }
          else l
    ]

-- The verdict that the state of old evidence implies.
abbrev pub implied_verdict : EvidenceState → GoString
implied_verdict EvidenceState.accepted = codes "accept"
implied_verdict EvidenceState.rejected = codes "reject"
implied_verdict _ = []

unfoldable pub upgrade_evidence : Evidence → Evidence
upgrade_evidence e = record e {
  result = if is_empty e.result.summary then record e.result { summary = e.summary } else e.result;
  verdict = if is_empty e.verdict then implied_verdict e.state else e.verdict;
}

unfoldable pub upgrade_board : GoString → List LeaseRow → Board → Board
unfolding number_attempts upgrade_task upgrade_lease upgrade_evidence
upgrade_board id rows b = record b {
  schema_version = schema_version;
  next_generation = if b.next_generation == 0 then 1 else b.next_generation;
  attempts = number_attempts [] b.attempts;
  tasks = map (upgrade_task b.attempts) b.tasks;
  leases = map (upgrade_lease id rows) b.leases;
  evidence = map upgrade_evidence b.evidence;
}

-- The first loop over the boards: all are upgraded and validated before anything is written.
unfoldable pub upgrade_boards : List LeaseRow → List BoardRow → Tx (List BoardRow)
unfolding upgrade_board
upgrade_boards leases [] = ok []
upgrade_boards leases (r ∷ rs) = do
  let b : Board = upgrade_board r.board_id leases r.board
  lift (validate b)
  rest ← upgrade_boards leases rs
  ok (
      record r {
        board = b;
        repository_id = b.repository;
        paused = b.paused;
        next_generation = b.next_generation;
      }
      ∷ rest)

-- The second loop projects each board again.
unfoldable pub project_boards : List BoardRow → Db → Tx Db
unfolding sync_projection
project_boards [] db = ok db
project_boards (r ∷ rs) db = do next ← sync_projection r.board db; project_boards rs next

-- `upgradeAggregates`. The order of the boards does not matter, since each has rows of its own.
unfoldable pub upgrade_aggregates : Db → Tx Db
unfolding upgrade_boards project_boards
upgrade_aggregates db = do
  rows ← upgrade_boards db.leases db.boards
  project_boards rows (record db { boards = rows })
