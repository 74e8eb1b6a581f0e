-- ===== src/Protocol/Rules.antt =====
-- The small rules of internal/agoboardprotocol: contracts, required tests, the project gate, and the
-- bounds on structured evidence (protocol.go and the end of state_machine.go).
pub mod Paths
use ago.Prelude.{
  ℕ, Bool, true, false, ◌&&◌, ◌||◌, not, List, [], ◌∷◌, map, ltb, ◌==◌, if◌then◌else◌, length,
  is_empty, any, select,
}
use ago.Prelude.Ints.{pos, ltb_int}
use ago.Prelude.Outcome.{ok, ◌>>◌, refuse, require}
use ago.GoString.{
  GoString, codes, str_eq, has_prefix, has_suffix, contains, trim_space, GoString-discrete,
}
use ago.Protocol.Errors.{
  Checked, contract_incomplete, criterion_empty, evidence_too_large, path_required,
  path_not_relative, test_name_required, artifact_incomplete, artifact_negative_size,
}
use ago.Protocol.States.{GateState}
use ago.Protocol.Records.{
  TerminalContract, ProjectGate, EvidenceResult, TestRecord, ChangedFile, ArtifactRef,
}

-- `TerminalContract.validate`.
unfoldable pub validate_contract : TerminalContract → Checked (Unit {0})
unfolding any
validate_contract c = do
  refuse (is_empty c.outcome || is_empty c.acceptance_criteria) contract_incomplete
  refuse (any is_empty c.acceptance_criteria) criterion_empty

-- The test of both loops over required checks.
unfoldable pub blocks_acceptance : TestRecord → Bool
blocks_acceptance t = t.required && not t.passed

-- `EvidenceResult.RequiredTestsPassed`.
unfoldable pub all_required_passed : List TestRecord → Bool
unfolding blocks_acceptance
all_required_passed [] = true
all_required_passed (t ∷ ts) = if blocks_acceptance t then false else all_required_passed ts

unfoldable pub required_tests_passed : EvidenceResult → Bool
unfolding all_required_passed
required_tests_passed r = all_required_passed r.tests

-- `EvidenceResult.FailedRequiredTests`.
unfoldable pub failed_required_tests : EvidenceResult → List GoString
unfolding blocks_acceptance select
failed_required_tests r = map (λ t. t.name) (select blocks_acceptance r.tests)

-- `ProjectGate.Established`.
unfoldable pub established : ProjectGate → Bool
established g = ltb 0 (length g.commands)

-- `gate.State == GatePassed` and `gate.State == GateFailed`.
abbrev pub is_gate_passed : GateState → Bool
is_gate_passed GateState.passed = true
is_gate_passed _ = false

abbrev pub is_gate_failed : GateState → Bool
is_gate_failed GateState.failed = true
is_gate_failed _ = false

-- `ProjectGate.SatisfiedAt`.
unfoldable pub satisfied_at : ProjectGate → GoString → Bool
unfolding established
satisfied_at g revision =
    if not (established g) then false else is_gate_passed g.state && str_eq g.revision revision

-- `len(value) >= 2 && value[1] == ':'`.
abbrev has_drive : GoString → Bool
has_drive [] = false
has_drive (c ∷ []) = false
has_drive (c ∷ d ∷ s) = d == b':'

-- `relativeRepositoryPath`.
unfoldable pub relative_repository_path : GoString → Bool
unfolding has_prefix has_suffix contains GoString-discrete
relative_repository_path value =
    if is_empty value || has_prefix value (codes "/") || contains value (codes "\\")
    then false
    else if str_eq value (codes "..")
        || has_prefix value (codes "../")
        || contains value (codes "/../")
        || has_suffix value (codes "/..")
    then false
    else not (has_drive value)

abbrev pub max_evidence_items : ℕ
max_evidence_items = 256

-- The loops of `validateEvidenceResult`, each over one section.
validate_files : List ChangedFile → Checked (Unit {0})
unfolding relative_repository_path
validate_files [] = ok tt
validate_files (f ∷ fs) = do
  refuse (is_empty f.path) path_required
  require (relative_repository_path f.path) path_not_relative
  validate_files fs

validate_artifacts : List ArtifactRef → Checked (Unit {0})
validate_artifacts [] = ok tt
validate_artifacts (a ∷ as') = do
  refuse (is_empty a.id || is_empty a.sha256) artifact_incomplete
  refuse (ltb_int a.bytes (pos 0)) artifact_negative_size
  validate_artifacts as'

-- `validateEvidenceResult`.
unfoldable pub validate_evidence_result : EvidenceResult → Checked (Unit {0})
unfolding validate_files validate_artifacts any
validate_evidence_result r = do
  refuse
      (ltb max_evidence_items (length r.changed_files)
        || ltb max_evidence_items (length r.commands)
        || ltb max_evidence_items (length r.tests)
        || ltb max_evidence_items (length r.artifacts)
        || ltb max_evidence_items (length r.warnings))
      evidence_too_large
  validate_files r.changed_files
  refuse (any (λ t. is_empty t.name) r.tests) test_name_required
  validate_artifacts r.artifacts

-- The loop of `newProjectGate`.
unfoldable pub clean_commands : List GoString → List GoString
unfolding trim_space
clean_commands [] = []
clean_commands (c ∷ cs) =
    let trimmed = trim_space c in
    let rest = clean_commands cs in if is_empty trimmed then rest else trimmed ∷ rest

-- `firstNonBlank`, at the two values that it is called with.
unfoldable pub first_non_blank : List GoString → GoString
unfolding trim_space
first_non_blank [] = []
first_non_blank (v ∷ vs) = if is_empty (trim_space v) then first_non_blank vs else v
