-- ===== src/Digestion/Quoted.antt =====
-- The source pieces of a request that a result passes `validate_result` for
-- (documents/digestion/validation.py): they quote the extraction.
use estudio_polymind_llm_orc.Prelude.{
  if◌then◌else◌, ◌≡◌, refl, Bool, true, false, Option, none, some, List, [], ◌∷◌, All, arith, ◌≤◌,
}
use estudio_polymind_llm_orc.Documents.Models.{Text, Block, TextUnit, ExtractionArtifact}
use estudio_polymind_llm_orc.Documents.Artifact.{slice}
use estudio_polymind_llm_orc.Documents.Coverage.{same_text→≡}
use estudio_polymind_llm_orc.Digestion.Models.{
  EvidenceRef, SourcePiece, StageResult, StageRequest, Codec,
}
use estudio_polymind_llm_orc.Digestion.Evidence.{
  same_extraction, resolve, same_extraction, block_of, placed_in, text_at,
}
use estudio_polymind_llm_orc.Digestion.Results.{refuse_if, ◌then◌}
use estudio_polymind_llm_orc.Digestion.Validation.{quotes, check_pieces, validate_result}
use estudio_polymind_llm_orc.Digestion.Grounded.{then_inv, refuse_not-inv, validate_result-Passed}

-- a piece whose text is that of the extraction at its place, inside its block
abbrev pub Quoted : ExtractionArtifact → SourcePiece → Type 0
Quoted a p =
    (u : TextUnit) × (b : Block) × (block_of a.units p.evidence.block_id ≡ some (u, b))
    × (b.span.start ≤ p.evidence.span.start)
    × (p.evidence.span.end ≤ b.span.end)
    × (slice p.evidence.span.start p.evidence.span.end u.text ≡ p.text)

quotes-if :
    (b : Bool) (m : Option Text) (t : Text)
    → quotes (if b then m else none) t ≡ true
    → quotes m t ≡ true
quotes-if true m t h = h
quotes-if false m t h = cc

quotes_if-test :
    (b : Bool) (m : Option Text) (t : Text) → quotes (if b then m else none) t ≡ true → b ≡ true
quotes_if-test true m t h = refl
quotes_if-test false m t h = cc

placed_in-le :
    (a : ExtractionArtifact) (u : TextUnit) (b : Block) (ref : EvidenceRef)
    → placed_in a u b ref ≡ true
    → (b.span.start ≤ ref.span.start) × (ref.span.end ≤ b.span.end)
unfolding placed_in
placed_in-le a u b ref h = (ground arith, ground arith)

text_at-Quoted :
    (a : ExtractionArtifact) (p : SourcePiece) (o : Option (TextUnit × Block))
    → block_of a.units p.evidence.block_id ≡ o
    → quotes (text_at a p.evidence o) p.text ≡ true
    → Quoted a p
text_at-Quoted a p none f h = cc
text_at-Quoted a p (some (u, b)) f h =
    let at = some (slice p.evidence.span.start p.evidence.span.end u.text) in
    let (start, end) =
      placed_in-le a u b p.evidence (quotes_if-test (placed_in a u b p.evidence) at p.text h) in
    (u, b, f, start, end, same_text→≡ _ _ (quotes-if (placed_in a u b p.evidence) at p.text h))

pub quotes-Quoted :
    (a : ExtractionArtifact) (p : SourcePiece)
    → quotes (resolve a p.evidence) p.text ≡ true
    → Quoted a p
unfolding resolve
quotes-Quoted a p h =
    let o = block_of a.units p.evidence.block_id in
    text_at-Quoted a p o refl
      (quotes-if (same_extraction a p.evidence) (text_at a p.evidence o) p.text h)

check_pieces-Quoted :
    (c : Codec) (a : ExtractionArtifact) (ps : List SourcePiece)
    → check_pieces c a ps ≡ none
    → All (Quoted a) ps
unfolding check_pieces
check_pieces-Quoted c a [] h = tt
check_pieces-Quoted c a (p ∷ ps) h =
    let (e, h) = then_inv (refuse_if _ _) (check_pieces c a ps) h in
    (quotes-Quoted a p (refuse_not-inv _ _ e), check_pieces-Quoted c a ps h)

-- Every source piece of a request that a result passes for quotes the extraction: its text is that of
-- the unit of its block, at its span, which lies inside the block.
pub validate_result-Quoted :
    (c : Codec) (a : ExtractionArtifact) (q : StageRequest) (r : StageResult)
    → validate_result c a q r ≡ none
    → All (Quoted a) q.source_data
validate_result-Quoted c a q r h =
    check_pieces-Quoted c a q.source_data (validate_result-Passed c a q r h).pieces
