-- ===== src/Documents/Artifact.antt =====
-- The validators of documents/models.py: `Document.lineage`, `Span.ordered` and
-- `ExtractionArtifact.validate_graph`.
use estudio_polymind_llm_orc.Prelude.{
  ℕ, zero, suc, ◌+◌, ◌-◌, Bool, true, false, not, ◌&&◌, ◌||◌, Option, none, some, List, [], ◌∷◌,
  ◌==◌, leb, length, any, all, count, sum_of, take, drop, or_else, is_some, str_eq, if◌then◌else◌,
}
use estudio_polymind_llm_orc.Jobs.Models.{Uuid, same_scope, Mime, application_pdf}
use estudio_polymind_llm_orc.Jobs.Admit.{is_source}
use estudio_polymind_llm_orc.Security.Models.{same_bool}
use estudio_polymind_llm_orc.Documents.Models.{
  Text, Document, Span, Block, Observations, TextUnit, failed, ExtractionArtifact, Library,
}

abbrev pub same_text : Text → Text → Bool
same_text [] [] = true
same_text (a ∷ s) (b ∷ t) = a == b && same_text s t
same_text _ _ = false

abbrev pub same_number : Option ℕ → Option ℕ → Bool
same_number none none = true
same_number (some a) (some b) = a == b
same_number _ _ = false

abbrev pub is_newline : ℕ → Bool
is_newline c = c == 10

-- text.count("\n")
abbrev pub newlines : Text → ℕ
newlines = count is_newline

abbrev pub is_empty : Text → Bool
is_empty [] = true
is_empty (c ∷ cs) = false

-- text.rstrip("\n")
unfoldable pub rstrip : Text → Text
rstrip [] = []
rstrip (c ∷ cs) = let rest = rstrip cs in if is_newline c && is_empty rest then [] else c ∷ rest

-- text[start:end]
abbrev pub slice : ℕ → ℕ → Text → Text
slice start end text = take (end - start) (drop start text)

abbrev pub is_pdf : Mime → Bool
is_pdf application_pdf = true
is_pdf _ = false

-- `Span.ordered`
abbrev pub ordered_lines : Option ℕ → Option ℕ → Bool
ordered_lines none none = true
ordered_lines (some a) (some b) = leb a b
ordered_lines _ _ = false

unfoldable pub valid_span : Span → Bool
valid_span s = leb s.start s.end && ordered_lines s.line_start s.line_end

-- `Document.lineage`
unfoldable pub valid_lineage : Library → Document → Bool
valid_lineage l d =
    let expected = l.version_id d.scope d.document_id d.source.sha256 in
    same_scope d.source.scope d.scope
    && is_source d.source.kind
    && d.document_version_id == expected
    && d.source.object_id == expected
    && same_bool (is_pdf d.detected_mime) (is_some d.page_count)

-- the pages that the units must have, from `page` on
abbrev pub numbered : ℕ → ℕ → List TextUnit → Bool
numbered page zero [] = true
numbered page (suc n) (u ∷ us) = same_number u.physical_page (some page) && numbered (suc page) n us
numbered page _ _ = false

-- the inventory of the pages; a text has one unit without page
unfoldable pub complete_inventory : Option ℕ → List TextUnit → Bool
complete_inventory none (u ∷ []) = same_number u.physical_page none
complete_inventory none _ = false
complete_inventory (some n) us = numbered 1 n us

-- the lines of a block, for a text; a block of a PDF has none
abbrev pub valid_lines : Option ℕ → ℕ → Block → Bool
valid_lines none line b =
    same_number b.span.line_start (some line)
    && same_number b.span.line_end (some (line + newlines (rstrip b.source_text)))
valid_lines (some n) line b = not (is_some b.span.line_start)

abbrev pub normal : Option Text → Text → Bool
normal none text = true
normal (some t) text = same_text t text

abbrev pub in_blocks : Option Uuid → List Uuid → Bool
in_blocks none ids = true
in_blocks (some id) ids = any (λ k. k == id) ids

abbrev pub block_ids : List Block → List Uuid
block_ids [] = []
block_ids (b ∷ bs) = b.block_id ∷ block_ids bs

abbrev pub distinct : List Uuid → Bool
distinct [] = true
distinct (d ∷ ds) = not (any (λ e. e == d) ds) && distinct ds

module _ (l : Library) (a : ExtractionArtifact) where
  -- the tests of the loop on one block, from the offset that the blocks before it cover
  unfoldable pub valid_block : TextUnit → ℕ → ℕ → ℕ → Block → Bool
  unfolding valid_span
  valid_block u index covered line b =
      valid_span b.span
      && b.block_id == l.block_id a.extraction_id u.source_id index
      && b.source_id == u.source_id
      && b.reading_order == index
      && b.span.start == covered
      && leb b.span.end (length u.text)
      && same_text (slice b.span.start b.span.end u.text) b.source_text
      && normal b.normalized_text b.source_text
      && in_blocks b.parent_id (block_ids u.blocks)
      && all (λ c. in_blocks (some c) (block_ids u.blocks)) b.child_ids
      && valid_lines a.document.page_count line b
      && (elim b.image [ none ↦ true | some r ↦ same_scope r.scope a.document.scope ])

  -- the loop over the blocks of a unit, and the test behind it
  unfoldable pub valid_blocks : TextUnit → ℕ → ℕ → ℕ → List Block → Bool
  valid_blocks u index covered line [] = covered == length u.text
  valid_blocks u index covered line (b ∷ bs) =
      valid_block u index covered line b
      && valid_blocks u (suc index) b.span.end (line + newlines b.source_text) bs

  -- the observations of a unit
  unfoldable pub valid_observations : TextUnit → Observations → Bool
  valid_observations u o =
      o.character_count == length u.text
      && o.block_count == length u.blocks
      && same_bool o.has_native_text (any (λ c. not (l.is_space c)) u.text)
      && same_bool o.structure_required a.budget.structure_required
      && same_bool o.parser_failed (elim u.status [ failed ↦ true | _ ↦ false ])
      && o.printable_ratio == (
          if is_empty u.text
          then l.ratio 1 1
          else l.ratio (count (λ c. l.is_printable c || c == 13 || c == 10 || c == 9) u.text)
              (length u.text))
      && o.replacement_ratio == (
          if is_empty u.text
          then l.ratio 0 1
          else l.ratio (count (λ c. c == 0xfffd) u.text) (length u.text))

  -- the tests of the loop on one unit, with the ids of the units before it
  unfoldable pub valid_unit : List Uuid → TextUnit → Bool
  unfolding valid_observations
  valid_unit ids u =
      u.document_version_id == a.document.document_version_id
      && not (any (λ k. k == u.source_id) ids)
      && u.decision.source_id == u.source_id
      && str_eq u.parser_version a.parser_version
      && u.source_id == l.source_id a.document.document_version_id u.physical_page
      && valid_observations u u.decision.observations
      && (is_some u.physical_page || not u.page_metadata)
      && distinct (block_ids u.blocks)
      && valid_blocks u 0 0 1 u.blocks

  -- the loop over the units
  unfoldable pub valid_units : List Uuid → List TextUnit → Bool
  valid_units ids [] = true
  valid_units ids (u ∷ us) = valid_unit ids u && valid_units (u.source_id ∷ ids) us

  -- `validate_graph`
  unfoldable pub valid_graph : Bool
  unfolding complete_inventory
  valid_graph =
      a.extraction_id
        == l.extraction_identity a.document.scope a.document.document_version_id a.parser_version
            a.extracted_at a.budget
      && leb a.document.source.byte_size a.budget.max_source_bytes
      && leb (or_else a.document.page_count 0) a.budget.max_pages
      && complete_inventory a.document.page_count a.units
      && valid_units [] a.units
      && leb (sum_of (λ u. length u.text) a.units) a.budget.max_characters
      && leb (sum_of (λ u. length u.blocks) a.units) a.budget.max_blocks
