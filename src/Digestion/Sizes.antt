-- ===== src/Digestion/Sizes.antt =====
-- documents/digestion/sizing.py, and `request_size` and `check_request` of planning.py. A text of JSON
-- is its length; no path has a shorter text than the empty one, so the differences are not negative.
use estudio_polymind_llm_orc.Prelude.{
  ℕ, ◌+◌, ◌-◌, ◌*◌, max, Option, none, some, List, [], ◌∷◌, ◌++◌, ltb, length, any, ◌||◌,
  if◌then◌else◌,
}
use estudio_polymind_llm_orc.Jobs.Models.{Uuid}
use estudio_polymind_llm_orc.Documents.Models.{Text}
use estudio_polymind_llm_orc.Digestion.Models.{
  ManagedInputBudget, Claim, StageResult, ChildInput, StageRequest, analysis, reduction,
  SourcePiece, Codec,
}

abbrev pub child_wrapper_bytes : ℕ
child_wrapper_bytes = 1024

-- (*claim.evidence_ids, *claim.contradicting_evidence_ids) of every claim
unfoldable pub references : List Claim → List Uuid
references [] = []
references (k ∷ ks) = k.evidence_ids ++ k.contradicting_evidence_ids ++ references ks

module _ (c : Codec) where
  unfoldable pub result_contribution : StageResult → ℕ
  result_contribution r =
      c.result_size r + c.links_size r.claims + c.evidence_size (references r.claims) + 8

  unfoldable pub child_contribution : ChildInput → ℕ
  child_contribution k = result_contribution k.result + c.child_size k - c.result_size k.result

  unfoldable pub reduction_size : ManagedInputBudget → List Text → ℕ → ℕ
  reduction_size b path children =
      b.base_bytes + c.path_size path - c.path_size [] + children * b.child_bytes

  abbrev pub evidence_ids : List SourcePiece → List Uuid
  evidence_ids [] = []
  evidence_ids (p ∷ ps) = c.evidence_id p.evidence ∷ evidence_ids ps

  unfoldable pub analysis_size : ManagedInputBudget → StageRequest → ℕ
  analysis_size b r =
      reduction_size b r.structural_path 0
      + c.pieces_size r.source_data
      + c.evidence_size (evidence_ids r.source_data)

  unfoldable pub request_size : StageRequest → ℕ
  request_size r = c.encoded_request r + r.profile.template_tokens

  -- the size of a request under a managed budget
  unfoldable pub rendered : ManagedInputBudget → StageRequest → ℕ
  rendered b r = elim r.stage [
    | analysis ↦ analysis_size b r
    | reduction ↦ reduction_size b r.structural_path (length r.children)
  ]

  -- the tests of a managed budget, and the size that goes on
  unfoldable pub managed_size : Option ManagedInputBudget → StageRequest → Option ℕ
  managed_size none r = some (request_size r)
  managed_size (some b) r =
      if any (λ k. ltb b.child_bytes (child_contribution k)) r.children
        || ltb b.input_bytes (rendered b r)
      then none
      else some (max (request_size r) (rendered b r))

  -- the test of the context, and the size
  unfoldable pub in_context : StageRequest → Option ℕ → Option ℕ
  in_context r none = none
  in_context r (some size) =
      if ltb r.profile.context_tokens (size + r.profile.reserved_output_tokens)
      then none
      else some size

  -- `check_request`; `none` is its one error, synthesis_limit_exceeded
  unfoldable pub check_request : StageRequest → Option ℕ
  check_request r = in_context r (managed_size r.profile.managed_input_budget r)
