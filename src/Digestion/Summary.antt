-- ===== src/Digestion/Summary.antt =====
-- `inherited_summary` of documents/digestion/validation.py: the propositions and the counts that a stage
-- takes over from its children.
use estudio_polymind_llm_orc.Prelude.{
  ℕ, ◌+◌, Bool, true, false, ◌&&◌, ◌||◌, Option, none, some, List, [], ◌∷◌, ◌++◌, ltb, ◌==◌, length,
  any, count, update, sum_of, sort_by, if◌then◌else◌,
}
use estudio_polymind_llm_orc.Documents.Models.{Text}
use estudio_polymind_llm_orc.Documents.Artifact.{same_text}
use estudio_polymind_llm_orc.Digestion.Models.{
  Claim, Stance, affirmed, denied, unknown_stance, StageOutcome, analyzed, unavailable, StageResult,
  StageRequest, Proposition, InheritedSummary, Checkpoint,
}
use estudio_polymind_llm_orc.Digestion.Results.{nonempty}

-- the order of texts by their code points
abbrev pub text_before : Text → Text → Bool
text_before [] [] = false
text_before [] (b ∷ t) = true
text_before (a ∷ s) [] = false
text_before (a ∷ s) (b ∷ t) = ltb a b || (a == b && text_before s t)

abbrev pub about : Text → Proposition → Bool
about s p = same_text p.subject s

abbrev pub with_sides : Bool → Bool → Proposition → Proposition
with_sides a d p = record {
  subject = p.subject;
  affirmed = p.affirmed || a;
  denied = p.denied || d;
}

abbrev pub proposition : Text → Bool → Bool → Proposition
proposition s a d = record { subject = s; affirmed = a; denied = d }

-- sides = subjects[s]; sides[0] |= a; sides[1] |= d
unfoldable pub merge : Text → Bool → Bool → List Proposition → List Proposition
merge s a d subjects =
    if any (about s) subjects
    then update (about s) (with_sides a d) subjects
    else subjects ++ proposition s a d ∷ []

-- the loop over the propositions of one child
unfoldable pub merge_all : List Proposition → List Proposition → List Proposition
merge_all [] subjects = subjects
merge_all (p ∷ ps) subjects = merge_all ps (merge p.subject p.affirmed p.denied subjects)

-- the loop over the children
unfoldable pub merge_children : List Checkpoint → List Proposition → List Proposition
merge_children [] subjects = subjects
merge_children (c ∷ cs) subjects = merge_children cs (merge_all c.propositions subjects)

-- the stance of a claim on a subject, if it has one that counts
abbrev pub stance_of : Option Text → Stance → Option (Text × Bool)
stance_of none stance = none
stance_of (some s) unknown_stance = none
stance_of (some s) affirmed = if nonempty s then some (s, false) else none
stance_of (some s) denied = if nonempty s then some (s, true) else none

abbrev pub merge_stance : Option (Text × Bool) → List Proposition → List Proposition
merge_stance none subjects = subjects
merge_stance (some (s, true)) subjects = merge s false true subjects
merge_stance (some (s, false)) subjects = merge s true false subjects

-- the loop over the claims
unfoldable pub merge_claims : List Claim → List Proposition → List Proposition
merge_claims [] subjects = subjects
merge_claims (k ∷ ks) subjects =
    merge_claims ks (merge_stance (stance_of k.subject k.stance) subjects)

abbrev pub earlier_subject : Proposition → Proposition → Bool
earlier_subject p q = text_before p.subject q.subject

-- `propositions`
unfoldable pub propositions : StageResult → List Checkpoint → List Proposition
propositions r children =
    sort_by earlier_subject (merge_claims r.claims (merge_children children []))

abbrev pub if_analyzed : StageOutcome → ℕ → ℕ
if_analyzed analyzed n = n
if_analyzed unavailable n = 0

abbrev pub if_unavailable : StageOutcome → ℕ → ℕ
if_unavailable analyzed n = 0
if_unavailable unavailable n = n

-- `inherited_summary`
unfoldable pub inherited_summary :
    StageResult → StageRequest → List Checkpoint → InheritedSummary × List Proposition
inherited_summary r q children =
    let ps = propositions r children in
    (
      record {
        analyzed_pieces =
            sum_of (λ (c : Checkpoint). c.inherited.analyzed_pieces) children
            + if_analyzed r.outcome (length q.source_data);
        failed_pieces =
            sum_of (λ (c : Checkpoint). c.inherited.failed_pieces) children
            + if_unavailable r.outcome (length q.source_data);
        qualifications =
            sum_of (λ (c : Checkpoint). c.inherited.qualifications) children
            + sum_of (λ (k : Claim). length k.qualifications) r.claims;
        contradictions = count (λ (p : Proposition). p.affirmed && p.denied) ps;
        open_questions =
            sum_of (λ (c : Checkpoint). c.inherited.open_questions) children
            + length r.open_questions;
      },
      ps,
    )
