-- ===== src/Scenarios/Digests.antt =====
-- A digest of a text of two blocks: one analysis with two claims, and one reduction.
use estudio_polymind_llm_orc.Prelude.{
  ℕ, ◌≡◌, refl, Bool, true, ◌||◌, none, some, List, [], ◌∷◌, All, any,
}
use estudio_polymind_llm_orc.Jobs.Models.{Uuid, Kind, ObjectRef}
use estudio_polymind_llm_orc.Documents.Artifact.{rstrip}
use estudio_polymind_llm_orc.Digestion.Models.{
  EvidenceRef, SourcePiece, Claim, ClaimLink, ClaimKind, Stance, ClaimStatus, Stage, StageOutcome,
  StageResult, InheritedSummary, StageRequest, Checkpoint,
}
use estudio_polymind_llm_orc.Digestion.Sizes.{
  references, result_contribution, request_size, managed_size, in_context, check_request,
}
use estudio_polymind_llm_orc.Digestion.Evidence.{block_of, lines_of, placed_in, resolve}
use estudio_polymind_llm_orc.Digestion.Results.{
  lineages, links_in, links, link_at, inherited, has_source, check_values, check_lineage,
  check_qualification, check_qualifications, check_identity, check_lengths, check_fact,
  check_subject, check_claim, check_claims,
}
use estudio_polymind_llm_orc.Digestion.Validation.{
  check_size, check_contribution, check_binding, check_outcome, check_counts, check_pieces,
  check_sources, check_children, check_texts, allowed, validate_result,
}
use estudio_polymind_llm_orc.Digestion.Grounded.{Grounded}
use estudio_polymind_llm_orc.Digestion.Quoted.{Quoted, validate_result-Quoted}
use estudio_polymind_llm_orc.Digestion.Summary.{stance_of, inherited_summary}
use estudio_polymind_llm_orc.Digestion.Inherited.{
  denying, stated, claims_side, inherited_summary-stated,
}
use estudio_polymind_llm_orc.Scenarios.Texts.{an_artifact}
use estudio_polymind_llm_orc.Scenarios.Trees.{codec, a_profile}

abbrev pub evidence_at : Uuid → ℕ → ℕ → ℕ → EvidenceRef
evidence_at block start end line = record {
  scope = record { tenant = 1; owner = 2 };
  document_version_id = 50;
  extraction_id = 80;
  source_id = 90;
  block_id = block;
  span = record { start = start; end = end; line_start = some line; line_end = some line };
}

abbrev pub two_pieces : List SourcePiece
two_pieces =
    record { evidence = evidence_at 0 0 3 1; text = 104 ∷ 105 ∷ 10 ∷ [] }
    ∷ record { evidence = evidence_at 1 3 4 2; text = 97 ∷ [] }
    ∷ []

abbrev a_claim : Uuid → Uuid → List Uuid → List ClaimLink → Claim
a_claim id stage evidence lineage = record {
  claim_id = id;
  originating_stage = stage;
  text = 120 ∷ [];
  kind = ClaimKind.fact;
  evidence_ids = evidence;
  contradicting_evidence_ids = [];
  qualifications = [];
  lineage = lineage;
  subject = some (115 ∷ []);
  stance = Stance.affirmed;
  status = ClaimStatus.supported;
}

abbrev pub an_analysis : StageResult
an_analysis = record {
  stage_id = 7;
  kind = Stage.analysis;
  outcome = StageOutcome.analyzed;
  claims = a_claim 70 7 (200 ∷ []) [] ∷ a_claim 71 7 (203 ∷ []) [] ∷ [];
  open_questions = [];
  limitations = [];
}

abbrev to_analyze : StageRequest
to_analyze = record {
  stage_id = 7;
  stage = Stage.analysis;
  profile = a_profile;
  structural_path = [];
  source_data = two_pieces;
  children = [];
}

abbrev pub a_reduction : StageResult
a_reduction = record {
  stage_id = 8;
  kind = Stage.reduction;
  outcome = StageOutcome.analyzed;
  claims =
      a_claim 80 8 []
        (record { stage_id = 7; claim_id = 70 } ∷ record { stage_id = 7; claim_id = 71 } ∷ [])
      ∷ [];
  open_questions = [];
  limitations = [];
}

abbrev pub no_summary : InheritedSummary
no_summary = record {
  analyzed_pieces = 0;
  failed_pieces = 0;
  qualifications = 0;
  contradictions = 0;
  open_questions = 0;
}

abbrev pub a_ref : Uuid → ObjectRef
a_ref id = record {
  scope = record { tenant = 1; owner = 2 };
  kind = Kind.artifact;
  object_id = id;
  key = id;
  sha256 = 60;
  byte_size = 4;
}

abbrev to_reduce : StageRequest
to_reduce = record {
  stage_id = 8;
  stage = Stage.reduction;
  profile = a_profile;
  structural_path = [];
  source_data = [];
  children = record { artifact = a_ref 7; result = an_analysis; inherited = no_summary } ∷ [];
}

analysis_passes : validate_result codec an_artifact to_analyze an_analysis ≡ none
unfolding references result_contribution request_size managed_size in_context check_request block_of
    lines_of placed_in resolve lineages links_in links link_at inherited has_source check_values
    check_lineage check_qualification check_qualifications check_identity check_lengths check_fact
    check_subject check_claim check_claims check_size check_contribution check_binding check_outcome
    check_counts check_pieces check_sources check_children check_texts allowed validate_result
    rstrip
analysis_passes = refl

validate_result-Quoted_example : All (Quoted an_artifact) two_pieces
validate_result-Quoted_example =
    validate_result-Quoted codec an_artifact to_analyze an_analysis analysis_passes

abbrev pub a_checkpoint : StageResult → Bool → Checkpoint
a_checkpoint r denied = record {
  plan_hash = 1;
  parents = [];
  result = r;
  inherited = no_summary;
  propositions = record { subject = 115 ∷ []; affirmed = true; denied = denied } ∷ [];
}

inherited_summary-stated_example :
    stated denying
      (115 ∷ [])
      (inherited_summary a_reduction to_reduce (a_checkpoint an_analysis true ∷ [])).1
    ≡ (any
          (λ (c : Checkpoint). stated denying (115 ∷ []) c.propositions)
          (a_checkpoint an_analysis true ∷ [])
        || any
            (λ (k : Claim). claims_side denying (115 ∷ []) (stance_of k.subject k.stance))
            a_reduction.claims)
inherited_summary-stated_example =
    inherited_summary-stated denying (115 ∷ []) a_reduction to_reduce
      (a_checkpoint an_analysis true ∷ [])
