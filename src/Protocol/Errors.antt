-- ===== src/Protocol/Errors.antt =====
-- The errors of internal/agoboardprotocol, one constructor for each kind of `fmt.Errorf`; the
-- formatted message is left out. `out_of_fuel` stands for a recursion that did not end.
use ago.Prelude.Outcome.{Outcome}

pub data Error : Type 0 where
  -- protocol.go
  board_schema board_id_required board_title_required : Error
  task_id_title_required duplicate_task invalid_task_state invalid_access_mode : Error
  invalid_failure_class negative_attempt_count retry_without_time : Error
  dependency_id_required duplicate_dependency self_loop missing_task missing_prerequisite : Error
  duplicate_edge paused_without_reason cycle out_of_fuel : Error
  contract_incomplete criterion_empty : Error
  attempt_ids_required duplicate_attempt attempt_without_task invalid_attempt_state : Error
  token_without_generation generation_not_below : Error
  lease_ids_required duplicate_lease lease_without_attempt invalid_lease_state : Error
  lease_fencing_mismatch evidence_fields_required duplicate_evidence : Error
  evidence_without_attempt invalid_evidence_state : Error
  -- state_machine.go
  command_schema command_ids_required version_conflict wrong_role unsupported_command : Error
  board_create_refused not_initialized spec_required illegal_transition : Error
  board_is_paused not_eligible_yet attempts_exhausted token_already_issued : Error
  attempt_id_required attempt_not_found token_not_authorized not_owner : Error
  evidence_mismatch evidence_too_large path_required path_not_relative test_name_required : Error
  artifact_incomplete artifact_negative_size attempt_not_verifying reviewer_not_independent : Error
  evidence_not_submitted lease_not_found required_tests_failed failure_class_required : Error
  time_required deadline_not_extended reason_required patch_too_long : Error
  revision_required already_in_state no_gate gate_summary_required revision_not_integrated : Error
  replacement_not_found task_accepted task_running unsupported_operation dependency_missing : Error

abbrev pub Checked : Type 0 → Type 0
Checked = Outcome Error
