-- ===== src/Digestion/Artifacts.antt =====
-- The artifact of `make_digest` (documents/digestion/validation.py), and the function itself.
use estudio_polymind_llm_orc.Prelude.{
  Bool, true, false, not, ◌&&◌, Option, none, some, List, [], ◌∷◌, ◌++◌, ◌==◌, any, find, sort_by,
  if◌then◌else◌,
}
use estudio_polymind_llm_orc.Jobs.Models.{Uuid, ObjectRef}
use estudio_polymind_llm_orc.Documents.Models.{Text, ExtractionArtifact}
use estudio_polymind_llm_orc.Documents.Artifact.{same_text}
use estudio_polymind_llm_orc.Digestion.Models.{
  coverage_failed, EvidenceRef, ReductionNode, UnitKind, section, subsection, StructuralUnit, Plan,
  Claim, Qualification, StageResult, Coverage, Contradiction, DigestStatus, Codec,
}
use estudio_polymind_llm_orc.Digestion.Sets.{same_set, Key, has_key}
use estudio_polymind_llm_orc.Digestion.Attempt.{Attempt, returns, ◌>>=◌, unless}
use estudio_polymind_llm_orc.Digestion.Evidence.{later}
use estudio_polymind_llm_orc.Digestion.Results.{nonempty}
use estudio_polymind_llm_orc.Digestion.Summary.{text_before}
use estudio_polymind_llm_orc.Digestion.Graph.{Claims, claims_of, roots_of, walk_claims}
use estudio_polymind_llm_orc.Digestion.Digest.{full_keys, is_complete, status_of, coverage_with}
use estudio_polymind_llm_orc.Digestion.Notices.{
  no_findings, incomplete, unavailable_content, conflicting,
}
use estudio_polymind_llm_orc.Digestion.Making.{
  Checkpoints, stages, result_at, expected, Gathered, gather, empty_gathered, contradictions_of,
}

pub record SectionSummary : Type 0 where
  pub structural_unit_id : Uuid
  pub stage_id : Uuid
  pub synthesis : Text

pub record DigestArtifact : Type 0 where
  pub status : DigestStatus
  pub executive_summary : Text
  pub root : Uuid
  pub sections : List SectionSummary
  pub findings : List Claim
  pub synthesis_claims : List Claim
  pub qualifications : List Qualification
  pub contradictions : List Contradiction
  pub open_questions : List Text
  pub coverage : Coverage
  pub limitations : List Text
  pub evidence : List (Uuid × EvidenceRef)
  pub checkpoints : List ObjectRef

-- a set of texts, sorted: each text once
abbrev pub add_text : Text → List Text → List Text
add_text t ts = if any (same_text t) ts then ts else t ∷ ts

abbrev pub add_texts : List Text → List Text → List Text
add_texts [] ts = ts
add_texts (t ∷ more) ts = add_text t (add_texts more ts)

unfoldable pub sorted_set : List Text → List Text
sorted_set ts = sort_by text_before (add_texts ts [])

-- every text of every checkpoint
abbrev pub all_texts : (StageResult → List Text) → Checkpoints → List Text
all_texts f [] = []
all_texts f ((k, cp) ∷ cps) = f cp.result ++ all_texts f cps

abbrev pub notice_if : Bool → Text → List Text
notice_if true t = t ∷ []
notice_if false t = []

abbrev pub is_section : UnitKind → Bool
is_section section = true
is_section subsection = true
is_section _ = false

-- section_nodes.get(key): the last reducer of the unit
unfoldable pub section_node : List ReductionNode → Uuid → Option Uuid
section_node [] key = none
section_node (n ∷ ns) key =
    later (section_node ns key) (if n.structural_parent == key then some n.stage_id else none)

abbrev pub summary_of : Uuid → Uuid → List Claim → List SectionSummary
summary_of unit stage [] = []
summary_of unit stage (k ∷ ks) =
    record { structural_unit_id = unit; stage_id = stage; synthesis = k.text } ∷ []

abbrev pub section_at : Checkpoints → Uuid → Option Uuid → Attempt (List SectionSummary)
section_at cps unit none = returns []
section_at cps unit (some stage) =
    result_at cps stage >>= λ r. returns (summary_of unit stage r.claims)

-- `sections`
unfoldable pub sections_of :
    Checkpoints → List ReductionNode → List StructuralUnit → Attempt (List SectionSummary)
sections_of cps nodes [] = returns []
sections_of cps nodes (u ∷ us) =
    (if is_section u.kind
      then section_at cps u.structural_unit_id (section_node nodes u.structural_unit_id)
      else returns [])
    >>= λ s. sections_of cps nodes us >>= λ rest. returns (s ++ rest)

-- the qualifications of the claims that the walk has seen
unfoldable pub qualifications_of : List Key → Claims → List Qualification
qualifications_of seen [] = []
qualifications_of seen ((key, k) ∷ rows) =
    (if has_key seen key then k.qualifications else []) ++ qualifications_of seen rows

abbrev pub ref_in : Option (Uuid × ObjectRef) → List ObjectRef
ref_in none = []
ref_in (some (k, ref)) = ref ∷ []

-- tuple(refs[k] for k in checkpoints); every key has one behind the first test
unfoldable pub refs_for : Checkpoints → List (Uuid × ObjectRef) → List ObjectRef
refs_for [] refs = []
refs_for ((key, cp) ∷ cps) refs = ref_in (find (λ r. r.0 == key) refs) ++ refs_for cps refs

abbrev pub executive : List Claim → Text
executive [] = no_findings
executive (k ∷ ks) = k.text

module _ (c : Codec) (a : ExtractionArtifact) (plan : Plan) where
  -- from the coverage on
  unfoldable pub artifact_of :
      Checkpoints
      → List (Uuid × ObjectRef)
      → Claims
      → List Key
      → StageResult
      → Gathered
      → Coverage
      → Attempt DigestArtifact
  artifact_of cps refs claims seen root g v =
      let contradictions = contradictions_of g.findings in
      sections_of cps plan.reducers plan.units >>= λ sections. returns record {
        status = status_of plan.profile v;
        executive_summary = executive root.claims;
        root = plan.root_id;
        sections = sections;
        findings = g.findings;
        synthesis_claims = root.claims;
        qualifications = qualifications_of seen claims;
        contradictions = contradictions;
        open_questions = sorted_set (
            all_texts (λ r. r.open_questions) cps
            ++ notice_if (nonempty plan.unsupported) unavailable_content
            ++ notice_if (nonempty contradictions) conflicting);
        coverage = v;
        limitations =
            sorted_set
              (all_texts (λ r. r.limitations) cps ++ notice_if (not (is_complete v)) incomplete);
        evidence = g.evidence;
        checkpoints = refs_for cps refs;
      }

  -- from the walk on
  unfoldable pub digest_from :
      Checkpoints
      → List (Uuid × ObjectRef)
      → Claims
      → StageResult
      → List Key
      → Attempt DigestArtifact
  digest_from cps refs claims root seen = gather c a cps seen plan.chunks empty_gathered >>= λ g.
      full_keys a g.analyzed_parts plan.eligible >>= λ analyzed.
      full_keys a g.included_parts plan.eligible >>= λ included.
      artifact_of cps refs claims seen root g (coverage_with plan analyzed included)

  -- `make_digest`
  unfoldable pub make_digest : Checkpoints → List (Uuid × ObjectRef) → Attempt DigestArtifact
  make_digest cps refs =
      unless (same_set (stages cps) (expected plan) && same_set (stages refs) (expected plan))
        coverage_failed
        (result_at cps plan.root_id >>= λ root.
          let claims = claims_of cps [] in
          walk_claims claims (roots_of plan.root_id root.claims)
          >>= digest_from cps refs claims root)
