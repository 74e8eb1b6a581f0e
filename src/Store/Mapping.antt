-- ===== src/Store/Mapping.antt =====
-- internal/agoboardstore/store.go: the rows that the projection writes, and what becomes of a row on a conflict.
use ago.Prelude.{Bool, ◌&&◌, not, List, [], ◌∷◌, any, if◌then◌else◌}
use ago.Prelude.Ints.{ℤ, pos, ltb_int}
use ago.GoString.{GoString, str_eq}
use ago.Clock.{Time, is_zero, unix_nano}
use ago.Protocol.States.{AccessMode}
use ago.Protocol.Records.{Board, Task, Dependency, Attempt, Lease, Evidence, ArtifactRef}
use ago.Protocol.Rules.{required_tests_passed}
use ago.Store.Rows.{TaskRow, DependencyRow, AttemptRow, LeaseRow, EvidenceRow, ArtifactRow}

-- `timeNanos`.
unfoldable pub time_nanos : Time → ℤ
unfolding is_zero unix_nano
time_nanos t = if is_zero t then pos 0 else unix_nano t

-- `CHECK(column >= 0)`.
abbrev pub not_negative : ℤ → Bool
not_negative n = not (ltb_int n (pos 0))

unfoldable pub task_row : Board → Task → TaskRow
unfolding time_nanos
task_row b t = record {
  board_id = b.id;
  task_id = t.id;
  state = t.state;
  task = t;
  access_mode = t.access_mode;
  attempt_count = t.attempt_count;
  next_eligible_at = time_nanos t.next_eligible_at;
  failure_class = t.failure_class;
}

unfoldable pub dependency_row : Board → Dependency → DependencyRow
dependency_row b d = record {
  board_id = b.id;
  dependency_id = d.id;
  task_id = d.task_id;
  depends_on = d.depends_on;
  dependency = d;
}

unfoldable pub attempt_row : Board → Attempt → AttemptRow
attempt_row b a = record {
  board_id = b.id;
  attempt_id = a.id;
  task_id = a.task_id;
  worker_id = a.worker_id;
  state = a.state;
  attempt = a;
  attempt_number = a.number;
  generation = a.generation;
  fencing_token = a.fencing_token;
  failure_class = a.failure_class;
}

-- `accessModes[id]`: the map holds the mode of the last task with the id.
unfoldable pub access_mode_of : List Task → GoString → AccessMode
access_mode_of [] id = AccessMode.unknown []
access_mode_of (t ∷ ts) id =
    let rest = access_mode_of ts id in
    if str_eq t.id id && not (any (λ u. str_eq u.id id) ts) then t.access_mode else rest

unfoldable pub lease_row : Board → Lease → LeaseRow
unfolding time_nanos access_mode_of
lease_row b l = record {
  board_id = b.id;
  lease_id = l.id;
  task_id = l.task_id;
  attempt_id = l.attempt_id;
  worker_id = l.worker_id;
  state = l.state;
  expires_at = time_nanos l.expires_at;
  lease = l;
  generation = l.generation;
  fencing_token = l.fencing_token;
  acquired_at = time_nanos l.acquired_at;
  access_mode = access_mode_of b.tasks l.task_id;
  repository_id = b.repository;
}

unfoldable pub evidence_row : Board → Evidence → EvidenceRow
unfolding required_tests_passed
evidence_row b e = record {
  board_id = b.id;
  evidence_id = e.id;
  task_id = e.task_id;
  attempt_id = e.attempt_id;
  state = e.state;
  evidence = e;
  required_tests_passed = required_tests_passed e.result;
  verdict = e.verdict;
}

unfoldable pub artifact_row : Board → Evidence → ArtifactRef → ArtifactRow
artifact_row b e r = record {
  board_id = b.id;
  artifact_id = r.id;
  evidence_id = e.id;
  task_id = e.task_id;
  media_type = r.type;
  display_name = r.display_name;
  byte_size = r.bytes;
  sha256 = r.sha256;
}

-- The primary keys.
abbrev pub same_task : TaskRow → TaskRow → Bool
same_task o r = str_eq o.board_id r.board_id && str_eq o.task_id r.task_id

abbrev pub same_dependency : DependencyRow → DependencyRow → Bool
same_dependency o r = str_eq o.board_id r.board_id && str_eq o.dependency_id r.dependency_id

abbrev pub same_attempt : AttemptRow → AttemptRow → Bool
same_attempt o r = str_eq o.board_id r.board_id && str_eq o.attempt_id r.attempt_id

abbrev pub same_lease : LeaseRow → LeaseRow → Bool
same_lease o r = str_eq o.board_id r.board_id && str_eq o.lease_id r.lease_id

abbrev pub same_evidence : EvidenceRow → EvidenceRow → Bool
same_evidence o r = str_eq o.board_id r.board_id && str_eq o.evidence_id r.evidence_id

abbrev pub same_artifact : ArtifactRow → ArtifactRow → Bool
same_artifact o r = str_eq o.board_id r.board_id && str_eq o.artifact_id r.artifact_id

-- The `DO UPDATE SET` clauses: what is not set keeps its value.
abbrev pub merge_task : TaskRow → TaskRow → TaskRow
merge_task o r = record r { board_id = o.board_id; task_id = o.task_id }

abbrev pub merge_dependency : DependencyRow → DependencyRow → DependencyRow
merge_dependency o r = record o { dependency = r.dependency }

abbrev pub merge_attempt : AttemptRow → AttemptRow → AttemptRow
merge_attempt o r = record r {
  board_id = o.board_id;
  attempt_id = o.attempt_id;
  task_id = o.task_id;
  worker_id = o.worker_id;
}

abbrev pub merge_lease : LeaseRow → LeaseRow → LeaseRow
merge_lease o r = record r {
  board_id = o.board_id;
  lease_id = o.lease_id;
  task_id = o.task_id;
  attempt_id = o.attempt_id;
  worker_id = o.worker_id;
}

abbrev pub merge_evidence : EvidenceRow → EvidenceRow → EvidenceRow
merge_evidence o r = record r {
  board_id = o.board_id;
  evidence_id = o.evidence_id;
  task_id = o.task_id;
  attempt_id = o.attempt_id;
}

abbrev pub merge_artifact : ArtifactRow → ArtifactRow → ArtifactRow
merge_artifact o r = record r { board_id = o.board_id; artifact_id = o.artifact_id }
