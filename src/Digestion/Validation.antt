-- ===== src/Digestion/Validation.antt =====
-- `validate_result` of documents/digestion/validation.py, on a response that is decoded. The result of a
-- validation is the result it is given, so a check has only its error.
use estudio_polymind_llm_orc.Prelude.{
  ℕ, ◌+◌, Bool, false, not, ◌&&◌, ◌||◌, Option, none, some, List, [], ◌∷◌, ◌++◌, ◌==◌, ltb, length,
  if◌then◌else◌,
}
use estudio_polymind_llm_orc.Jobs.Models.{Uuid}
use estudio_polymind_llm_orc.Documents.Models.{Text, ExtractionArtifact}
use estudio_polymind_llm_orc.Documents.Artifact.{same_text}
use estudio_polymind_llm_orc.Digestion.Models.{
  synthesis_limit_exceeded, inference_contract_error, evidence_validation_failed, coverage_failed,
  no_diagnostic, stage_binding, evidence_validation, coverage_validation, response_limit, no_reason,
  stage_id_mismatch, stage_kind_mismatch, unavailable_with_claims, unavailable_missing_limitation,
  analyzed_without_claims, unavailable_reduction, other_evidence_validation,
  missing_source_coverage, missing_child_coverage, canonical_response_limit, claim_limit,
  annotation_limit, text_limit, DigestionProfile, ManagedInputBudget, SourcePiece, StageResult,
  StageRequest, Codec,
}
use estudio_polymind_llm_orc.Digestion.Sets.{same_set, keys_within}
use estudio_polymind_llm_orc.Digestion.Sizes.{
  check_request, result_contribution, child_wrapper_bytes, references, evidence_ids,
}
use estudio_polymind_llm_orc.Digestion.Evidence.{resolve}
use estudio_polymind_llm_orc.Digestion.Results.{
  error, Check, refuse_if, ◌then◌, is_analysis, is_unavailable, same_stage, nonempty, lineages,
  links, keys, inherited, check_claims,
}

-- a check of the size of the request that raises
abbrev pub sized : Option ℕ → Check
sized (some n) = none
sized none = some (error synthesis_limit_exceeded no_diagnostic no_reason)

-- index.resolve(piece.evidence) != piece.text, or its error
abbrev pub quotes : Option Text → Text → Bool
quotes none text = false
quotes (some t) text = same_text t text

module _ (c : Codec) (a : ExtractionArtifact) where
  -- the bound of the encoded result
  unfoldable pub check_size : DigestionProfile → StageResult → Check
  check_size p r =
      refuse_if (ltb p.max_result_characters (c.encoded_result r))
        (error synthesis_limit_exceeded response_limit canonical_response_limit)

  -- the bound of a managed budget
  unfoldable pub check_contribution : Option ManagedInputBudget → StageResult → Check
  check_contribution none r = none
  check_contribution (some b) r =
      refuse_if (ltb b.child_bytes (result_contribution c r + child_wrapper_bytes))
        (error synthesis_limit_exceeded response_limit no_reason)

  unfoldable pub check_binding : StageRequest → StageResult → Check
  check_binding q r =
      refuse_if (not (r.stage_id == q.stage_id) || not (same_stage r.kind q.stage)) (
        error inference_contract_error stage_binding
          (if not (r.stage_id == q.stage_id) then stage_id_mismatch else stage_kind_mismatch))

  -- an outcome that is unavailable, and an analysis without claims
  unfoldable pub check_outcome : StageRequest → StageResult → Check
  check_outcome q r =
      if is_unavailable r.outcome
      then refuse_if
          (not (is_analysis q.stage) || nonempty r.claims || not (nonempty r.limitations))
          (error inference_contract_error stage_binding (
            if not (is_analysis q.stage)
            then unavailable_reduction
            else if nonempty r.claims
            then unavailable_with_claims
            else unavailable_missing_limitation))
      else refuse_if (is_analysis q.stage && not (nonempty r.claims))
          (error inference_contract_error stage_binding analyzed_without_claims)

  unfoldable pub check_counts : DigestionProfile → StageResult → Check
  check_counts p r =
      refuse_if
        (ltb p.max_claims (length r.claims)
          || ltb p.max_annotations (length r.open_questions)
          || ltb p.max_annotations (length r.limitations))
        (error synthesis_limit_exceeded response_limit
          (if ltb p.max_claims (length r.claims) then claim_limit else annotation_limit))

  -- the loop over the source pieces
  unfoldable pub check_pieces : List SourcePiece → Check
  check_pieces [] = none
  check_pieces (s ∷ ss) =
      refuse_if (not (quotes (resolve a s.evidence) s.text))
        (error evidence_validation_failed evidence_validation other_evidence_validation)
      then check_pieces ss

  -- the tests behind the loop: every piece is used, and every claim of the children is linked
  unfoldable pub check_sources : StageRequest → StageResult → Check
  check_sources q r =
      refuse_if
        (not (is_unavailable r.outcome)
          && is_analysis q.stage
          && not (same_set (references r.claims) (evidence_ids c q.source_data)))
        (error coverage_failed coverage_validation missing_source_coverage)

  unfoldable pub check_children : StageRequest → StageResult → Check
  check_children q r =
      refuse_if
        (not (is_analysis q.stage)
          && not (
              keys_within (lineages r.claims) (keys (links q.children))
              && keys_within (keys (links q.children)) (lineages r.claims)))
        (error coverage_failed coverage_validation missing_child_coverage)

  unfoldable pub check_texts : DigestionProfile → List Text → Check
  check_texts p [] = none
  check_texts p (t ∷ ts) =
      refuse_if (ltb p.max_claim_characters (length t))
        (error synthesis_limit_exceeded response_limit text_limit)
      then check_texts p ts

  -- `allowed`
  unfoldable pub allowed : StageRequest → List Uuid
  allowed q = evidence_ids c q.source_data ++ inherited q.children

  -- `validate_result`
  unfoldable pub validate_result : StageRequest → StageResult → Check
  validate_result q r =
      sized (check_request c q)
      then check_size q.profile r
      then check_contribution q.profile.managed_input_budget r
      then check_binding q r
      then check_outcome q r
      then check_counts q.profile r
      then check_pieces q.source_data
      then check_claims c q.profile q.stage_id (allowed q) (links q.children) 0 [] r.claims
      then check_sources q r
      then check_children q r
      then check_texts q.profile (r.open_questions ++ r.limitations)
