-- ===== src/Scenarios/Complete.antt =====
-- A complete digest of the two blocks, from the results of one analysis and one reduction.
use estudio_polymind_llm_orc.Prelude.{◌≡◌, ◌≢◌, refl, true, false, List, [], ◌∷◌, All, sort_by}
use estudio_polymind_llm_orc.Jobs.Models.{Uuid, ObjectRef}
use estudio_polymind_llm_orc.Documents.Artifact.{rstrip}
use estudio_polymind_llm_orc.Digestion.Models.{Plan, DigestStatus}
use estudio_polymind_llm_orc.Digestion.Sets.{Key, has_key}
use estudio_polymind_llm_orc.Digestion.Attempt.{returns, exhausted}
use estudio_polymind_llm_orc.Digestion.Structure.{extend}
use estudio_polymind_llm_orc.Digestion.Evidence.{block_of, lines_of, placed_in, resolve}
use estudio_polymind_llm_orc.Digestion.Results.{nonempty}
use estudio_polymind_llm_orc.Digestion.Graph.{
  Claims, put_claims, claims_of, claim_of, follow, walk_claims,
}
use estudio_polymind_llm_orc.Digestion.Closed.{Linked, walk_claims-ends, walk_claims-Linked}
use estudio_polymind_llm_orc.Digestion.Digest.{
  covered, full_span, full, full_keys, at_least, is_complete, permitted_partial, status_of,
}
use estudio_polymind_llm_orc.Digestion.Making.{
  Checkpoints, result_at, expected, gather_pieces, gather_result, gather, take_side, take_sides,
  contradictions_of,
}
use estudio_polymind_llm_orc.Digestion.Artifacts.{
  DigestArtifact, sorted_set, section_node, sections_of, qualifications_of, refs_for, artifact_of,
  digest_from, make_digest,
}
use estudio_polymind_llm_orc.Digestion.Complete.{Covered}
use estudio_polymind_llm_orc.Digestion.Accepted.{accepted, make_digest-complete}
use estudio_polymind_llm_orc.Scenarios.Texts.{an_artifact}
use estudio_polymind_llm_orc.Scenarios.Trees.{codec, a_profile}
use estudio_polymind_llm_orc.Scenarios.Digests.{
  two_pieces, evidence_at, an_analysis, a_reduction, a_ref, a_checkpoint,
}

abbrev a_plan : Plan
a_plan = record {
  profile = a_profile;
  units = [];
  chunks = record { chunk_id = 7; structural_parent = 1; path = []; pieces = two_pieces } ∷ [];
  reducers =
      record {
        stage_id = 8;
        structural_parent = 1;
        children = 7 ∷ [];
        level = 1;
        path = [];
        estimated_tokens = 0;
      }
      ∷ [];
  root_id = 8;
  eligible = 0 ∷ 1 ∷ [];
  skipped = [];
  unsupported = [];
}

abbrev checkpoints : Checkpoints
checkpoints = (7, a_checkpoint an_analysis false) ∷ (8, a_checkpoint a_reduction false) ∷ []

abbrev refs : List (Uuid × ObjectRef)
refs = (7, a_ref 7) ∷ (8, a_ref 8) ∷ []

abbrev a_digest : DigestArtifact
a_digest = record {
  status = DigestStatus.complete;
  executive_summary = 120 ∷ [];
  root = 8;
  sections = [];
  findings = an_analysis.claims;
  synthesis_claims = a_reduction.claims;
  qualifications = [];
  contradictions = [];
  open_questions = [];
  coverage = record {
    eligible = 0 ∷ 1 ∷ [];
    analyzed = 0 ∷ 1 ∷ [];
    failed = [];
    skipped = [];
    unsupported = [];
    included = 0 ∷ 1 ∷ [];
  };
  limitations = [];
  evidence = (200, evidence_at 0 0 3 1) ∷ (203, evidence_at 1 3 4 2) ∷ [];
  checkpoints = a_ref 7 ∷ a_ref 8 ∷ [];
}

digested : make_digest codec an_artifact a_plan checkpoints refs ≡ returns a_digest
unfolding extend block_of lines_of placed_in resolve put_claims claims_of claim_of follow
    walk_claims covered full_span full full_keys at_least is_complete permitted_partial status_of
    result_at expected gather_pieces gather_result gather take_side take_sides contradictions_of
    sorted_set section_node sections_of qualifications_of refs_for artifact_of digest_from
    make_digest rstrip sort_by
digested = refl

make_digest-complete_example :
    (nonempty {A = Uuid} [] ≡ false)
    × All (Covered an_artifact (accepted checkpoints a_plan.chunks)) (0 ∷ 1 ∷ [])
make_digest-complete_example =
    make_digest-complete codec an_artifact a_plan checkpoints refs a_digest digested refl

abbrev all_claims : Claims
all_claims = claims_of checkpoints []

walk_claims-ends_example : walk_claims all_claims ((8, 80) ∷ []) ≢ exhausted
walk_claims-ends_example = walk_claims-ends all_claims ((8, 80) ∷ [])

abbrev all_keys : List Key
all_keys = (7, 70) ∷ (7, 71) ∷ (8, 80) ∷ []

walked : walk_claims all_claims ((8, 80) ∷ []) ≡ returns all_keys
unfolding extend put_claims claims_of claim_of follow walk_claims
walked = refl

walk_claims-Linked_example :
    All (λ key. has_key all_keys key ≡ true) ((8, 80) ∷ [])
    × All (Linked all_claims (λ key. has_key all_keys key ≡ true)) all_keys
walk_claims-Linked_example = walk_claims-Linked all_claims ((8, 80) ∷ []) all_keys walked
