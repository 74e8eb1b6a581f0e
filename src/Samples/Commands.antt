-- ===== src/Samples/Commands.antt =====
-- The commands that the samples submit.
use ago.Prelude.{ℕ, ◌+◌, ◌*◌, none, some, [], ◌∷◌, true}
use ago.Prelude.Ints.{pos}
use ago.GoString.{GoString, codes}
use ago.Clock.{Time, zero_time}
use ago.Protocol.States.{AccessMode, FailureClass, ActorRole, CommandType, PatchOperation}
use ago.Protocol.Records.{EvidenceResult}
use ago.Protocol.Commands.{Command, LeaseSpec}
use ago.Protocol.Retry.{schema_version}

-- The instant `n` days after the zero instant.
abbrev pub day : ℕ → Time
day n = record zero_time { instant = 9223372036854775808 * 1000000000 + n * 86400000000000 }

-- A command of the coordinator with the given type, at the given version of the board.
abbrev pub ask : CommandType → ℕ → Command
ask t v = record {
  schema_version = schema_version;
  id = codes "c";
  expected_version = v;
  actor = record { id = codes "ago"; role = ActorRole.coordinator };
  type = t;
  board = none;
  task = none;
  dependency = none;
  lease = none;
  task_id = [];
  attempt_id = [];
  evidence = none;
  patch = none;
  revision = [];
  gate = none;
  reason = [];
  fencing_token = [];
  failure_class = FailureClass.no_failure;
  next_eligible_at = zero_time;
}

abbrev pub create : Command
create = record (ask CommandType.board_create 0) {
  board = some (record {
    id = codes "b";
    title = codes "ship it";
    repository = codes "repo";
    base_revision = codes "r0";
    integration_ref = codes "refs/heads/ago/b";
    gate_commands = codes "go test ./..." ∷ [];
  });
}

abbrev pub add : GoString → ℕ → Command
add id v = record (ask CommandType.task_add v) {
  task = some (record {
    id = id;
    title = codes "task";
    terminal_contract = record { outcome = codes "done"; acceptance_criteria = codes "ok" ∷ [] };
    access_mode = AccessMode.write;
  });
}

-- The task `u` waits for the task `t`.
abbrev pub link : Command
link = record (ask CommandType.dependency_add 3) {
  dependency = some (record { id = codes "d"; task_id = codes "u"; depends_on = codes "t" });
}

abbrev pub activate : GoString → ℕ → Command
activate id v = record (ask CommandType.task_activate v) { task_id = id }

abbrev pub claim_spec : LeaseSpec
claim_spec = record {
  id = codes "l";
  attempt_id = codes "a";
  task_id = codes "t";
  worker_id = codes "w";
  fencing_token = codes "k";
  acquired_at = day 1;
  expires_at = day 2;
}

abbrev pub claim : Command
claim = record (ask CommandType.lease_acquire 6) { lease = some claim_spec }

abbrev pub by_worker : CommandType → ℕ → Command
by_worker t v = record (ask t v) {
  actor = record { id = codes "w"; role = ActorRole.worker };
  task_id = codes "t";
  attempt_id = codes "a";
  fencing_token = codes "k";
}

abbrev pub begin : Command
begin = by_worker CommandType.attempt_start 7

abbrev pub green : EvidenceResult
green = record {
  patch = none;
  summary = codes "s";
  generation = 0;
  changed_files = [];
  commands = [];
  tests =
      record {
        name = codes "unit";
        command = codes "go test";
        passed = true;
        exit_code = pos 0;
        required = true;
      }
      ∷ [];
  artifacts = [];
  warnings = [];
}

abbrev pub submit : Command
submit = record (by_worker CommandType.evidence_submit 8) {
  evidence = some (record {
    id = codes "e";
    task_id = codes "t";
    attempt_id = codes "a";
    artifact = codes "x";
    summary = codes "s";
    result = green;
  });
}

abbrev pub decide : CommandType → Command
decide t = record submit {
  type = t;
  expected_version = 9;
  actor = record { id = codes "v"; role = ActorRole.verifier };
  next_eligible_at = day 3;
}

-- The second task is to wait no more.
abbrev pub relax : Command
relax = record (ask CommandType.plan_patch 6) {
  patch = some (record {
    id = codes "p";
    reason = codes "r";
    steps =
        record {
          operation = PatchOperation.remove_dependency;
          task = none;
          task_id = codes "u";
          depends_on = codes "t";
          superseded_by = [];
          acceptance = none;
          reason = [];
        }
        ∷ [];
  });
}
