-- ===== src/Digestion/Evidence.antt =====
-- `EvidenceIndex` of documents/digestion/validation.py: the text that a reference names.
use estudio_polymind_llm_orc.Prelude.{
  ℕ, suc, ◌+◌, Bool, not, ◌&&◌, Option, none, some, List, [], ◌∷◌, ◌==◌, ltb, leb, count,
  if◌then◌else◌, is_some,
}
use estudio_polymind_llm_orc.Jobs.Models.{Uuid, same_scope}
use estudio_polymind_llm_orc.Documents.Models.{Text, Block, Span, TextUnit, ExtractionArtifact}
use estudio_polymind_llm_orc.Documents.Artifact.{same_number, is_newline, newlines, rstrip, slice}
use estudio_polymind_llm_orc.Digestion.Models.{EvidenceRef}

-- a dictionary keeps the last value of a key
abbrev pub later {ℓ} : {A : Type ℓ} → Option A → Option A → Option A
later (some b) a = some b
later none a = a

abbrev pub block_in : TextUnit → List Block → Uuid → Option (TextUnit × Block)
block_in u [] key = none
block_in u (b ∷ bs) key =
    later (block_in u bs key) (if b.block_id == key then some (u, b) else none)

-- self.blocks.get(key)
unfoldable pub block_of : List TextUnit → Uuid → Option (TextUnit × Block)
block_of [] key = none
block_of (u ∷ us) key = later (block_of us key) (block_in u u.blocks key)

-- [i for i, char in enumerate(text) if char == "\n"], from the index `i` on
abbrev pub newline_indices : ℕ → Text → List ℕ
newline_indices i [] = []
newline_indices i (c ∷ cs) =
    let rest = newline_indices (suc i) cs in if is_newline c then i ∷ rest else rest

-- self.lines.get(key)
unfoldable pub lines_of : List TextUnit → Uuid → Option (List ℕ)
lines_of [] key = none
lines_of (u ∷ us) key = later (lines_of us key) (
    if u.source_id == key && not (is_some u.physical_page)
    then some (newline_indices 0 u.text)
    else none)

-- bisect_left on a sorted list
abbrev pub bisect_left : List ℕ → ℕ → ℕ
bisect_left lines n = count (λ i. ltb i n) lines

-- (expected, end) of the lines
abbrev pub expected_lines : Option (List ℕ) → Span → Text → Option ℕ × Option ℕ
expected_lines none span text = (none, none)
expected_lines (some lines) span text =
    let expected = suc (bisect_left lines span.start) in
    (some expected, some (expected + newlines (rstrip text)))

module _ (a : ExtractionArtifact) where
  -- the tests of the document and the extraction
  abbrev pub same_extraction : EvidenceRef → Bool
  same_extraction ref =
      same_scope ref.scope a.document.scope
      && ref.document_version_id == a.document.document_version_id
      && ref.extraction_id == a.extraction_id

  -- the tests of the place in the block, and of its lines
  unfoldable pub placed_in : TextUnit → Block → EvidenceRef → Bool
  placed_in u b ref =
      u.source_id == ref.source_id
      && leb b.span.start ref.span.start
      && leb ref.span.start ref.span.end
      && leb ref.span.end b.span.end
      && (let (first, last) =
            expected_lines (lines_of a.units u.source_id) ref.span
              (slice ref.span.start ref.span.end u.text) in
          same_number ref.span.line_start first && same_number ref.span.line_end last)

  abbrev pub text_at : EvidenceRef → Option (TextUnit × Block) → Option Text
  text_at ref none = none
  text_at ref (some (u, b)) =
      if placed_in u b ref then some (slice ref.span.start ref.span.end u.text) else none

  -- `resolve`; `none` is its one error, other_evidence_validation
  unfoldable pub resolve : EvidenceRef → Option Text
  resolve ref = if same_extraction ref then text_at ref (block_of a.units ref.block_id) else none
