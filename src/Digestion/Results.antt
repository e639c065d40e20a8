-- ===== src/Digestion/Results.antt =====
-- The loop over the claims in `validate_result` (documents/digestion/validation.py).
use estudio_polymind_llm_orc.Prelude.{
  ℕ, suc, Bool, true, false, not, ◌&&◌, ◌||◌, Option, none, some, List, [], ◌∷◌, ◌++◌, ◌==◌, ltb,
  length, any, map, if◌then◌else◌, is_some,
}
use estudio_polymind_llm_orc.Jobs.Models.{Uuid}
use estudio_polymind_llm_orc.Digestion.Models.{
  Category, synthesis_limit_exceeded, inference_contract_error, evidence_validation_failed,
  ValidationDiagnostic, claim_identity, claim_contract, evidence_validation, response_limit,
  ValidationReason, claim_id_mismatch, duplicate_claim_id, originating_stage_mismatch,
  subject_on_nonfact, foreign_evidence, duplicate_evidence, invalid_qualification_source,
  invalid_child_link, duplicate_child_link, unsupported_fact, annotation_limit, text_limit,
  DigestionError, DigestionProfile, Claim, ClaimLink, ClaimKind, fact, ClaimStatus, supported,
  Qualification, Stage, analysis, reduction, StageOutcome, analyzed, unavailable, ChildInput, Codec,
}
use estudio_polymind_llm_orc.Digestion.Sets.{
  has, within, distinct, Key, same_key, keys_within, distinct_keys,
}
use estudio_polymind_llm_orc.Digestion.Sizes.{references}
use estudio_polymind_llm_orc.Digestion.Evidence.{later}

abbrev pub error : Category → ValidationDiagnostic → ValidationReason → DigestionError
error c d r = record { category = c; diagnostic = d; reason = r }

-- A check comes to the error that it raises, if it does.
abbrev pub Check : Type 0
Check = Option DigestionError

-- `if test: raise error`
abbrev pub refuse_if : Bool → DigestionError → Check
refuse_if true e = some e
refuse_if false e = none

-- one check after the other
infixr 3 ◌then◌
abbrev pub ◌then◌ : Check → Check → Check
some e then c = some e
none then c = c

abbrev pub is_analysis : Stage → Bool
is_analysis analysis = true
is_analysis reduction = false

abbrev pub is_unavailable : StageOutcome → Bool
is_unavailable unavailable = true
is_unavailable analyzed = false

abbrev pub same_stage : Stage → Stage → Bool
same_stage analysis analysis = true
same_stage reduction reduction = true
same_stage _ _ = false

abbrev pub is_fact : ClaimKind → Bool
is_fact fact = true
is_fact _ = false

abbrev pub is_supported : ClaimStatus → Bool
is_supported supported = true
is_supported _ = false

abbrev pub nonempty {ℓ} : {A : Type ℓ} → List A → Bool
nonempty [] = false
nonempty (x ∷ xs) = true

abbrev pub key_of : ClaimLink → Key
key_of k = (k.stage_id, k.claim_id)

abbrev pub lineage_of : Claim → List Key
lineage_of k = map (λ l. key_of l) k.lineage

-- `linked` after the loop
unfoldable pub lineages : List Claim → List Key
lineages [] = []
lineages (k ∷ ks) = lineage_of k ++ lineages ks

-- `links`: the claims of the children under their keys, the last of a key
unfoldable pub links_in : Uuid → List Claim → List (Key × Claim)
links_in stage [] = []
links_in stage (k ∷ ks) = ((stage, k.claim_id), k) ∷ links_in stage ks

unfoldable pub links : List ChildInput → List (Key × Claim)
links [] = []
links (c ∷ cs) = links_in c.result.stage_id c.result.claims ++ links cs

abbrev pub keys : List (Key × Claim) → List Key
keys [] = []
keys ((k, _) ∷ ls) = k ∷ keys ls

unfoldable pub link_at : List (Key × Claim) → Key → Option Claim
link_at [] key = none
link_at ((k, claim) ∷ ls) key = later (link_at ls key) (if same_key k key then some claim else none)

-- links[k].evidence_ids or links[k].lineage
abbrev pub sourced : Option Claim → Bool
sourced none = false
sourced (some k) = nonempty k.evidence_ids || nonempty k.lineage

-- `inherited`
unfoldable pub inherited : List ChildInput → List Uuid
inherited [] = []
inherited (c ∷ cs) = references c.result.claims ++ inherited cs

-- `has_source`
unfoldable pub has_source : List (Key × Claim) → Claim → Bool
has_source ls k = nonempty k.evidence_ids || any (λ key. sourced (link_at ls key)) (lineage_of k)

module _ (c : Codec) (p : DigestionProfile) where
  -- the two lists of a claim, each without repetitions and permitted
  unfoldable pub check_values : List Uuid → List Uuid → Check
  check_values allowed values = refuse_if (not (distinct values) || not (within values allowed)) (
      error evidence_validation_failed evidence_validation
        (if not (distinct values) then duplicate_evidence else foreign_evidence))

  unfoldable pub check_lineage : List (Key × Claim) → List Key → Check
  check_lineage ls lineage =
      refuse_if (not (distinct_keys lineage) || not (keys_within lineage (keys ls))) (
        error evidence_validation_failed evidence_validation
          (if not (distinct_keys lineage) then duplicate_child_link else invalid_child_link))

  unfoldable pub check_qualification : List Uuid → Qualification → Check
  check_qualification allowed q =
      refuse_if
        (not (nonempty q.evidence_ids)
          || ltb p.max_claim_characters (length q.text)
          || not (distinct q.evidence_ids)
          || not (within q.evidence_ids allowed))
        (error evidence_validation_failed evidence_validation (
          if nonempty q.evidence_ids && ltb p.max_claim_characters (length q.text)
          then text_limit
          else invalid_qualification_source))

  -- the loop over the qualifications
  unfoldable pub check_qualifications : List Uuid → List Qualification → Check
  check_qualifications allowed [] = none
  check_qualifications allowed (q ∷ qs) =
      check_qualification allowed q then check_qualifications allowed qs

  -- the identity of a claim at a position, after the claims `ids`
  unfoldable pub check_identity : Uuid → ℕ → List Uuid → Claim → Check
  check_identity stage position ids k =
      refuse_if
        (not (k.claim_id == c.claim_id stage position)
          || has ids k.claim_id
          || not (k.originating_stage == stage))
        (error inference_contract_error claim_identity (
          if has ids k.claim_id
          then duplicate_claim_id
          else if not (k.claim_id == c.claim_id stage position)
          then claim_id_mismatch
          else originating_stage_mismatch))

  unfoldable pub check_lengths : Claim → Check
  check_lengths k =
      refuse_if
        (ltb p.max_claim_characters (length k.text)
          || ltb p.max_annotations (length k.qualifications))
        (error synthesis_limit_exceeded response_limit
          (if ltb p.max_claim_characters (length k.text) then text_limit else annotation_limit))

  unfoldable pub check_fact : List (Key × Claim) → Claim → Check
  check_fact ls k =
      refuse_if (is_fact k.kind && (not (has_source ls k) || not (is_supported k.status)))
        (error evidence_validation_failed evidence_validation unsupported_fact)

  unfoldable pub check_subject : Claim → Check
  check_subject k =
      refuse_if (is_some k.subject && not (is_fact k.kind))
        (error inference_contract_error claim_contract subject_on_nonfact)

  -- the body of the loop over the claims
  unfoldable pub check_claim : Uuid → List Uuid → List (Key × Claim) → ℕ → List Uuid → Claim → Check
  check_claim stage allowed ls position ids k =
      check_identity stage position ids k
      then check_lengths k
      then check_values allowed k.evidence_ids
      then check_values allowed k.contradicting_evidence_ids
      then check_lineage ls (lineage_of k)
      then check_fact ls k
      then check_qualifications allowed k.qualifications
      then check_subject k

  -- the loop over the claims
  unfoldable pub check_claims :
      Uuid → List Uuid → List (Key × Claim) → ℕ → List Uuid → List Claim → Check
  check_claims stage allowed ls position ids [] = none
  check_claims stage allowed ls position ids (k ∷ ks) =
      check_claim stage allowed ls position ids k
      then check_claims stage allowed ls (suc position) (k.claim_id ∷ ids) ks
