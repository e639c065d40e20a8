-- ===== src/Digestion/Making.antt =====
-- `make_digest` of documents/digestion/validation.py. The fields of the artifact with one possible value,
-- and those that repeat the references of the plan, are left out.
use estudio_polymind_llm_orc.Prelude.{
  Bool, true, false, ◌&&◌, Option, none, some, List, [], ◌∷◌, ◌++◌, ◌==◌, find, select, any, all,
  update, sort_by, map, if◌then◌else◌,
}
use estudio_polymind_llm_orc.Jobs.Models.{Uuid}
use estudio_polymind_llm_orc.Documents.Models.{Text, ExtractionArtifact}
use estudio_polymind_llm_orc.Documents.Artifact.{same_text}
use estudio_polymind_llm_orc.Digestion.Models.{
  coverage_failed, evidence_validation_failed, EvidenceRef, SourcePiece, AnalysisChunk,
  ReductionNode, Plan, Claim, StageResult, Checkpoint, Contradiction, Codec,
}
use estudio_polymind_llm_orc.Digestion.Sets.{Key, has_key}
use estudio_polymind_llm_orc.Digestion.Attempt.{Attempt, returns, raises, crashes, ◌>>=◌, unless}
use estudio_polymind_llm_orc.Digestion.Evidence.{resolve}
use estudio_polymind_llm_orc.Digestion.Results.{is_unavailable, nonempty}
use estudio_polymind_llm_orc.Digestion.Summary.{text_before, stance_of}
use estudio_polymind_llm_orc.Digestion.Digest.{Part, part_of}

abbrev pub Checkpoints : Type 0
Checkpoints = List (Uuid × Checkpoint)

abbrev pub stages : {A : Type 0} → List (Uuid × A) → List Uuid
stages [] = []
stages ((k, _) ∷ rows) = k ∷ stages rows

abbrev pub result_in : Option (Uuid × Checkpoint) → Attempt StageResult
result_in none = crashes
result_in (some (k, cp)) = returns cp.result

-- checkpoints[key].result
unfoldable pub result_at : Checkpoints → Uuid → Attempt StageResult
result_at cps key = result_in (find (λ r. r.0 == key) cps)

-- the chunks and reducers of the plan
unfoldable pub expected : Plan → List Uuid
expected plan =
    map (λ (c : AnalysisChunk). c.chunk_id) plan.chunks
    ++ map (λ (n : ReductionNode). n.stage_id) plan.reducers

-- what the loop over the chunks writes
pub record Gathered : Type 0 where
  pub findings : List Claim
  pub evidence : List (Uuid × EvidenceRef)
  pub analyzed_parts : List Part
  pub included_parts : List Part

-- evidence[key] = ref
abbrev pub put_ref : Uuid → EvidenceRef → List (Uuid × EvidenceRef) → List (Uuid × EvidenceRef)
put_ref key ref rows =
    if any (λ r. r.0 == key) rows
    then update (λ r. r.0 == key) (λ r. (key, ref)) rows
    else rows ++ (key, ref) ∷ []

module _ (c : Codec) (a : ExtractionArtifact) where
  abbrev pub with_piece : SourcePiece → Gathered → Gathered
  with_piece p g = record {
    findings = g.findings;
    evidence = put_ref (c.evidence_id p.evidence) p.evidence g.evidence;
    analyzed_parts = g.analyzed_parts ++ part_of p ∷ [];
    included_parts = g.included_parts ++ part_of p ∷ [];
  }

  abbrev pub resolved : {A : Type 0} → Option Text → Attempt A → Attempt A
  resolved none m = raises evidence_validation_failed
  resolved (some t) m = m

  -- the loop over the pieces of a chunk
  unfoldable pub gather_pieces : List SourcePiece → Gathered → Attempt Gathered
  gather_pieces [] g = returns g
  gather_pieces (p ∷ ps) g = resolved (resolve a p.evidence) (gather_pieces ps (with_piece p g))

  abbrev pub with_findings : List Claim → Gathered → Gathered
  with_findings ks g = record {
    findings = g.findings ++ ks;
    evidence = g.evidence;
    analyzed_parts = g.analyzed_parts;
    included_parts = g.included_parts;
  }

  -- the body of the loop over the chunks, on the result of the chunk
  unfoldable pub gather_result :
      List Key → AnalysisChunk → Gathered → StageResult → Attempt Gathered
  gather_result seen chunk g r =
      if is_unavailable r.outcome
      then returns g
      else unless (all (λ (k : Claim). has_key seen (chunk.chunk_id, k.claim_id)) r.claims)
          coverage_failed (gather_pieces chunk.pieces (with_findings r.claims g))

  -- the loop over the chunks
  unfoldable pub gather : Checkpoints → List Key → List AnalysisChunk → Gathered → Attempt Gathered
  gather cps seen [] g = returns g
  gather cps seen (chunk ∷ chunks) g =
      result_at cps chunk.chunk_id >>= gather_result seen chunk g >>= gather cps seen chunks

abbrev pub empty_gathered : Gathered
empty_gathered = record { findings = []; evidence = []; analyzed_parts = []; included_parts = [] }

-- subjects[subject][stance].append(claim_id)
abbrev pub add_side : Uuid → Bool → Contradiction → Contradiction
add_side id true k = record {
  subject = k.subject;
  affirmed = k.affirmed;
  denied = k.denied ++ id ∷ [];
}
add_side id false k = record {
  subject = k.subject;
  affirmed = k.affirmed ++ id ∷ [];
  denied = k.denied;
}

abbrev pub about_subject : Text → Contradiction → Bool
about_subject s k = same_text k.subject s

abbrev pub new_side : Text → Uuid → Bool → Contradiction
new_side s id true = record { subject = s; affirmed = []; denied = id ∷ [] }
new_side s id false = record { subject = s; affirmed = id ∷ []; denied = [] }

unfoldable pub take_side : Uuid → Option (Text × Bool) → List Contradiction → List Contradiction
take_side id none subjects = subjects
take_side id (some (s, side)) subjects =
    if any (about_subject s) subjects
    then update (about_subject s) (add_side id side) subjects
    else subjects ++ new_side s id side ∷ []

-- the loop over the findings
unfoldable pub take_sides : List Claim → List Contradiction → List Contradiction
take_sides [] subjects = subjects
take_sides (k ∷ ks) subjects =
    take_sides ks (take_side k.claim_id (stance_of k.subject k.stance) subjects)

-- `contradictions`
unfoldable pub contradictions_of : List Claim → List Contradiction
contradictions_of findings =
    select (λ (k : Contradiction). nonempty k.affirmed && nonempty k.denied)
      (sort_by (λ (x : Contradiction) (y : Contradiction). text_before x.subject y.subject)
        (take_sides findings []))
