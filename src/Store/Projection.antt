-- ===== src/Store/Projection.antt =====
-- `syncProjection` of internal/agoboardstore/store.go: the tables that are rewritten from a board.
pub mod Leases
pub mod Edges
use ago.Store.Mapping.{
  not_negative, task_row, dependency_row, attempt_row, lease_row, evidence_row, artifact_row,
  same_task, same_dependency, same_attempt, same_lease, same_evidence, same_artifact, merge_task,
  merge_dependency, merge_attempt, merge_lease, merge_evidence, merge_artifact,
}
use ago.Prelude.{Bool, false, ◌&&◌, not, List, [], ◌∷◌, any, is_empty, if◌then◌else◌}
use ago.Prelude.Ints.{ℤ, pos, ltb_int}
use ago.Prelude.Outcome.{ok, ◌>>=◌}
use ago.GoString.{GoString, str_eq}
use ago.Clock.{Time, is_zero, unix_nano}
use ago.Protocol.States.{AccessMode, is_active, valid_access_mode}
use ago.Protocol.Records.{Board, Task, Dependency, Attempt, Lease, Evidence, ArtifactRef}
use ago.Protocol.Rules.{required_tests_passed}
use ago.Store.Rows.{Db, Tx, TaskRow, DependencyRow, AttemptRow, LeaseRow, EvidenceRow, ArtifactRow}
use ago.Store.Tables.{write_all}

-- The foreign keys.
abbrev pub has_board_row : Db → GoString → Bool
has_board_row db b = any (λ o. str_eq o.board_id b) db.boards

abbrev pub has_task_row : Db → GoString → GoString → Bool
has_task_row db b t = any (λ o. str_eq o.board_id b && str_eq o.task_id t) db.tasks

abbrev pub has_attempt_row : Db → GoString → GoString → Bool
has_attempt_row db b a = any (λ o. str_eq o.board_id b && str_eq o.attempt_id a) db.attempts

unfoldable pub sync_tasks : Board → Db → Tx Db
unfolding write_all task_row valid_access_mode any
sync_tasks b db = do
  rows ←
      write_all same_task merge_task (λ o r. false)
        (λ r.
          has_board_row db r.board_id
          && valid_access_mode r.access_mode
          && not_negative r.attempt_count
          && not_negative r.next_eligible_at)
        (task_row b) b.tasks db.tasks
  ok (record db { tasks = rows })

-- `UNIQUE(board_id, task_id, depends_on)`, and the foreign keys of a dependency.
abbrev pub clashing_dependency : DependencyRow → DependencyRow → Bool
clashing_dependency o r =
    str_eq o.board_id r.board_id && str_eq o.task_id r.task_id && str_eq o.depends_on r.depends_on

unfoldable pub dependency_allowed : Db → DependencyRow → Bool
unfolding any
dependency_allowed db r =
    has_board_row db r.board_id
    && has_task_row db r.board_id r.task_id
    && has_task_row db r.board_id r.depends_on

unfoldable pub sync_dependencies : Board → Db → Tx Db
unfolding write_all dependency_row dependency_allowed
sync_dependencies b db = do
  rows ←
      write_all same_dependency merge_dependency clashing_dependency (dependency_allowed db)
        (dependency_row b) b.dependencies db.dependencies
  ok (record db { dependencies = rows })

unfoldable pub sync_attempts : Board → Db → Tx Db
unfolding write_all attempt_row any
sync_attempts b db = do
  rows ←
      write_all same_attempt merge_attempt
        (λ o r. not (is_empty r.fencing_token) && str_eq o.fencing_token r.fencing_token)
        (λ r.
          has_board_row db r.board_id
          && has_task_row db r.board_id r.task_id
          && not_negative r.attempt_number)
        (attempt_row b) b.attempts db.attempts
  ok (record db { attempts = rows })

-- The unique index of the active leases by task, and the checks and foreign keys of a lease.
abbrev pub clashing_lease : LeaseRow → LeaseRow → Bool
clashing_lease o r =
    is_active o.state
    && is_active r.state
    && str_eq o.board_id r.board_id
    && str_eq o.task_id r.task_id

unfoldable pub lease_allowed : Db → LeaseRow → Bool
unfolding any valid_access_mode
lease_allowed db r =
    has_board_row db r.board_id
    && has_task_row db r.board_id r.task_id
    && has_attempt_row db r.board_id r.attempt_id
    && not_negative r.expires_at
    && not_negative r.acquired_at
    && valid_access_mode r.access_mode

unfoldable pub sync_leases : Board → Db → Tx Db
unfolding write_all lease_row lease_allowed
sync_leases b db = do
  rows ←
      write_all same_lease merge_lease clashing_lease (lease_allowed db) (lease_row b) b.leases
        db.leases
  ok (record db { leases = rows })

-- The statements of the loop over the evidence.
unfoldable pub write_evidence : Board → Evidence → Db → Tx (List EvidenceRow)
unfolding write_all evidence_row any
write_evidence b e db =
    write_all same_evidence merge_evidence (λ o r. false)
      (λ r.
        has_board_row db r.board_id
        && has_task_row db r.board_id r.task_id
        && has_attempt_row db r.board_id r.attempt_id)
      (evidence_row b) (e ∷ []) db.evidence

unfoldable pub write_artifacts : Board → Evidence → Db → Tx (List ArtifactRow)
unfolding write_all artifact_row any
write_artifacts b e db =
    write_all same_artifact merge_artifact (λ o r. false)
      (λ r. has_board_row db r.board_id && not_negative r.byte_size) (artifact_row b e)
      e.result.artifacts db.artifacts

-- The body of the loop over the evidence: a row, then its artifacts.
unfoldable pub sync_evidence : Board → List Evidence → Db → Tx Db
unfolding write_evidence write_artifacts
sync_evidence b [] db = ok db
sync_evidence b (e ∷ es) db = do
  rows ← write_evidence b e db
  refs ← write_artifacts b e db
  sync_evidence b es (record db { evidence = rows; artifacts = refs })

unfoldable pub sync_projection : Board → Db → Tx Db
unfolding sync_tasks sync_dependencies sync_attempts sync_leases sync_evidence
sync_projection b db = do
  db1 ← sync_tasks b db
  db2 ← sync_dependencies b db1
  db3 ← sync_attempts b db2
  db4 ← sync_leases b db3
  sync_evidence b b.evidence db4
