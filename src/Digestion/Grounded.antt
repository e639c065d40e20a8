-- ===== src/Digestion/Grounded.antt =====
-- What a result of a stage that passes `validate_result` (documents/digestion/validation.py) keeps of
-- the material of its request.
use estudio_polymind_llm_orc.Prelude.{
  if◌then◌else◌, ◌≡◌, refl, Bool, true, false, not, ◌&&◌, none, some, List, [], all, arith,
}
use estudio_polymind_llm_orc.Jobs.Models.{Uuid}
use estudio_polymind_llm_orc.Documents.Models.{ExtractionArtifact}
use estudio_polymind_llm_orc.Digestion.Models.{
  DigestionError, Claim, ChildInput, StageResult, StageRequest, Codec,
}
use estudio_polymind_llm_orc.Digestion.Sets.{has, keys_within}
use estudio_polymind_llm_orc.Digestion.Sizes.{evidence_ids, check_request}
use estudio_polymind_llm_orc.Digestion.Results.{
  Check, refuse_if, ◌then◌, is_fact, is_supported, lineage_of, links, keys, has_source,
  check_claims,
}
use estudio_polymind_llm_orc.Digestion.Validation.{
  sized, check_size, check_contribution, check_binding, check_outcome, check_counts, check_pieces,
  check_sources, check_children, allowed, validate_result,
}

pub then_inv : (x y : Check) → (x then y) ≡ none → (x ≡ none) × (y ≡ none)
then_inv none y h = (refl, h)
then_inv (some e) y h = cc

pub refuse_if_inv : (b : Bool) (e : DigestionError) → refuse_if b e ≡ none → b ≡ false
refuse_if_inv true e h = cc
refuse_if_inv false e h = refl

pub refuse_not-inv : (b : Bool) (e : DigestionError) → refuse_if (not b) e ≡ none → b ≡ true
refuse_not-inv true e h = refl
refuse_not-inv false e h = cc

not-and : (a b : Bool) → (a && not b) ≡ false → a ≡ true → b ≡ true
not-and a b h e = ground arith

-- the checks of `validate_result` that the theorems below read
pub record Passed (c : Codec) (a : ExtractionArtifact) (q : StageRequest) (r : StageResult)
    : Type 0 where
  pub binding : check_binding c a q r ≡ none
  pub outcome : check_outcome c a q r ≡ none
  pub counts : check_counts c a q.profile r ≡ none
  pub pieces : check_pieces c a q.source_data ≡ none
  pub claims :
      check_claims c q.profile q.stage_id (allowed c a q) (links q.children) 0 [] r.claims ≡ none
  pub sources : check_sources c a q r ≡ none
  pub children : check_children c a q r ≡ none

pub validate_result-Passed :
    (c : Codec) (a : ExtractionArtifact) (q : StageRequest) (r : StageResult)
    → validate_result c a q r ≡ none
    → Passed c a q r
unfolding validate_result
validate_result-Passed c a q r h =
    let (_, h) = then_inv (sized (check_request c q)) _ h in
    let (_, h) = then_inv (check_size c a q.profile r) _ h in
    let (_, h) = then_inv (check_contribution c a q.profile.managed_input_budget r) _ h in
    let (b, h) = then_inv (check_binding c a q r) _ h in
    let (o, h) = then_inv (check_outcome c a q r) _ h in
    let (n, h) = then_inv (check_counts c a q.profile r) _ h in
    let (p, h) = then_inv (check_pieces c a q.source_data) _ h in
    let (k, h) =
      then_inv
        (check_claims c q.profile q.stage_id (allowed c a q) (links q.children) 0 [] r.claims) _
        h in
    let (s, h) = then_inv (check_sources c a q r) _ h in
    let (d, h) = then_inv (check_children c a q r) _ h in
    record {
      binding = b;
      outcome = o;
      counts = n;
      pieces = p;
      claims = k;
      sources = s;
      children = d;
    }

-- what a claim draws on: evidence that is permitted, claims of the children, and for a fact a source
abbrev pub Grounded : List Uuid → List ChildInput → Claim → Type 0
Grounded ids children k =
    (all (has ids) k.evidence_ids ≡ true)
    × (all (has ids) k.contradicting_evidence_ids ≡ true)
    × (keys_within (lineage_of k) (keys (links children)) ≡ true)
    × (is_fact k.kind ≡ true
        → (has_source (links children) k ≡ true) × (is_supported k.status ≡ true))
