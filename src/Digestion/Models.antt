-- ===== src/Digestion/Models.antt =====
-- The records of documents/digestion/models.py and the evidence of documents/models.py. A text is a
-- list of code points, an id of evidence a number; fields with one possible value, and those that
-- no check of the package reads (versions and profile names), are left out.
use estudio_polymind_llm_orc.Prelude.{ℕ, Bool, Option, List}
use estudio_polymind_llm_orc.Jobs.Models.{Uuid, Digest, Scope, ObjectRef}
use estudio_polymind_llm_orc.Documents.Models.{Text, Span}

-- the categories of `DigestionError`
pub data Category : Type 0 where
  structural_planning_failed analysis_failed reducer_failed evidence_validation_failed
        coverage_failed inference_contract_error synthesis_limit_exceeded incompatible_checkpoint :
      Category

pub data ValidationDiagnostic : Type 0 where
  no_diagnostic stage_binding claim_identity claim_contract evidence_validation coverage_validation
        response_limit :
      ValidationDiagnostic

-- the reasons of documents/digestion/diagnostics.py that `validate_result` gives
pub data ValidationReason : Type 0 where
  no_reason stage_id_mismatch stage_kind_mismatch unavailable_with_claims
        unavailable_missing_limitation analyzed_without_claims unavailable_reduction
        claim_id_mismatch duplicate_claim_id originating_stage_mismatch subject_on_nonfact
        foreign_evidence duplicate_evidence invalid_qualification_source invalid_child_link
        duplicate_child_link unsupported_fact other_evidence_validation missing_source_coverage
        missing_child_coverage canonical_response_limit claim_limit annotation_limit text_limit :
      ValidationReason

pub record DigestionError : Type 0 where
  pub category : Category
  pub diagnostic : ValidationDiagnostic
  pub reason : ValidationReason

pub record ManagedInputBudget : Type 0 where
  pub input_bytes : ℕ
  pub base_bytes : ℕ
  pub child_bytes : ℕ

-- `DigestionProfile`; the minimum of the coverage in millionths
pub record DigestionProfile : Type 0 where
  pub context_tokens : ℕ
  pub reserved_output_tokens : ℕ
  pub template_tokens : ℕ
  pub chunk_characters : ℕ
  pub max_fan_in : ℕ
  pub max_result_characters : ℕ
  pub max_response_bytes : Option ℕ
  pub managed_input_budget : Option ManagedInputBudget
  pub max_claims : ℕ
  pub max_claim_characters : ℕ
  pub max_annotations : ℕ
  pub max_source_units : ℕ
  pub max_chunks : ℕ
  pub max_steps : ℕ
  pub max_artifact_bytes : ℕ
  pub max_depth : ℕ
  pub allow_partial : Bool
  pub minimum_coverage : ℕ
  pub max_failed_units : ℕ

pub data UnitKind : Type 0 where
  document section subsection fallback : UnitKind

pub record StructuralUnit : Type 0 where
  pub structural_unit_id : Uuid
  pub parent_id : Option Uuid
  pub child_ids : List Uuid
  pub order : ℕ
  pub kind : UnitKind
  pub path : List Text
  pub block_ids : List Uuid

-- `EvidenceRef` of documents/models.py
pub record EvidenceRef : Type 0 where
  pub scope : Scope
  pub document_version_id : Uuid
  pub extraction_id : Uuid
  pub source_id : Uuid
  pub block_id : Uuid
  pub span : Span

pub record SourcePiece : Type 0 where
  pub evidence : EvidenceRef
  pub text : Text

pub record AnalysisChunk : Type 0 where
  pub chunk_id : Uuid
  pub structural_parent : Uuid
  pub path : List Text
  pub pieces : List SourcePiece

pub record ReductionNode : Type 0 where
  pub stage_id : Uuid
  pub structural_parent : Uuid
  pub children : List Uuid
  pub level : ℕ
  pub path : List Text
  pub estimated_tokens : ℕ

pub record Plan : Type 0 where
  pub profile : DigestionProfile
  pub units : List StructuralUnit
  pub chunks : List AnalysisChunk
  pub reducers : List ReductionNode
  pub root_id : Uuid
  pub eligible : List Uuid
  pub skipped : List Uuid
  pub unsupported : List Uuid

pub record ClaimLink : Type 0 where
  pub stage_id : Uuid
  pub claim_id : Uuid

pub record Qualification : Type 0 where
  pub text : Text
  pub evidence_ids : List Uuid

pub data ClaimKind : Type 0 where
  fact unknown_claim unsupported_claim commentary structural : ClaimKind

pub data Stance : Type 0 where
  affirmed denied unknown_stance : Stance

pub data ClaimStatus : Type 0 where
  supported unknown_status unsupported_status : ClaimStatus

pub record Claim : Type 0 where
  pub claim_id : Uuid
  pub originating_stage : Uuid
  pub text : Text
  pub kind : ClaimKind
  pub evidence_ids : List Uuid
  pub contradicting_evidence_ids : List Uuid
  pub qualifications : List Qualification
  pub lineage : List ClaimLink
  pub subject : Option Text
  pub stance : Stance
  pub status : ClaimStatus

pub data Stage : Type 0 where
  analysis reduction : Stage

pub data StageOutcome : Type 0 where
  analyzed unavailable : StageOutcome

pub record StageResult : Type 0 where
  pub stage_id : Uuid
  pub kind : Stage
  pub outcome : StageOutcome
  pub claims : List Claim
  pub open_questions : List Text
  pub limitations : List Text

pub record Proposition : Type 0 where
  pub subject : Text
  pub affirmed : Bool
  pub denied : Bool

pub record InheritedSummary : Type 0 where
  pub analyzed_pieces : ℕ
  pub failed_pieces : ℕ
  pub qualifications : ℕ
  pub contradictions : ℕ
  pub open_questions : ℕ

pub record ChildInput : Type 0 where
  pub artifact : ObjectRef
  pub result : StageResult
  pub inherited : InheritedSummary

pub record StageRequest : Type 0 where
  pub stage_id : Uuid
  pub stage : Stage
  pub profile : DigestionProfile
  pub structural_path : List Text
  pub source_data : List SourcePiece
  pub children : List ChildInput

pub record Checkpoint : Type 0 where
  pub plan_hash : Digest
  pub parents : List ObjectRef
  pub result : StageResult
  pub inherited : InheritedSummary
  pub propositions : List Proposition

pub record Coverage : Type 0 where
  pub eligible : List Uuid
  pub analyzed : List Uuid
  pub failed : List Uuid
  pub skipped : List Uuid
  pub unsupported : List Uuid
  pub included : List Uuid

pub record Contradiction : Type 0 where
  pub subject : Text
  pub affirmed : List Uuid
  pub denied : List Uuid

pub data DigestStatus : Type 0 where
  complete partial failed : DigestStatus

-- The functions of the package that read encodings: UUIDs on the parts of a place, and the lengths of
-- the canonical JSON texts (documents/digestion/codec.py and `escaped_size` of sizing.py).
pub record Codec : Type 0 where
  pub evidence_id : EvidenceRef → Uuid
  pub claim_id : Uuid → ℕ → Uuid
  pub chunk_id : Uuid → List SourcePiece → Uuid
  pub node_id : Uuid → List Uuid → Uuid
  pub encoded_request : StageRequest → ℕ
  pub encoded_result : StageResult → ℕ
  pub path_size : List Text → ℕ
  pub result_size : StageResult → ℕ
  pub links_size : List Claim → ℕ
  -- of the ids as a sorted set
  pub evidence_size : List Uuid → ℕ
  pub child_size : ChildInput → ℕ
  pub pieces_size : List SourcePiece → ℕ
