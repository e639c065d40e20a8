-- ===== src/Scenarios/Texts.antt =====
-- A text of two lines, extracted into two blocks.
use estudio_polymind_llm_orc.Prelude.{ℕ, suc, ◌≡◌, refl, true, false, none, some, [], ◌∷◌, All}
use estudio_polymind_llm_orc.Jobs.Models.{Kind, Mime}
use estudio_polymind_llm_orc.Documents.Models.{
  Text, Block, TextUnit, native_text, ExtractionArtifact, Library,
}
use estudio_polymind_llm_orc.Documents.Artifact.{
  valid_graph, valid_units, valid_unit, valid_blocks, valid_block, valid_span, valid_observations,
  complete_inventory, rstrip,
}
use estudio_polymind_llm_orc.Documents.Coverage.{source_texts, valid_graph-source_texts}

abbrev library : Library
library = record {
  version_id = λ _ _ _. 50;
  extraction_identity = λ _ _ _ _ _. 80;
  source_id = λ _ _. 90;
  block_id = λ _ _ i. i;
  is_printable = λ _. true;
  is_space = λ _. false;
  ratio = λ _ _. 1;
}

abbrev pub a_block : ℕ → Text → ℕ → ℕ → Block
a_block index text start end = record {
  block_id = index;
  source_id = 90;
  reading_order = index;
  source_text = text;
  span = record {
    start = start;
    end = end;
    line_start = some (suc index);
    line_end = some (suc index);
  };
  normalized_text = none;
  parent_id = none;
  child_ids = [];
  image = none;
}

abbrev pub a_unit : TextUnit
a_unit = record {
  source_id = 90;
  document_version_id = 50;
  physical_page = none;
  page_metadata = false;
  status = native_text;
  parser_version = "utf8-strict/1";
  text = 104 ∷ 105 ∷ 10 ∷ 97 ∷ [];
  blocks = a_block 0 (104 ∷ 105 ∷ 10 ∷ []) 0 3 ∷ a_block 1 (97 ∷ []) 3 4 ∷ [];
  decision = record {
    source_id = 90;
    observations = record {
      character_count = 4;
      printable_ratio = 1;
      replacement_ratio = 1;
      has_native_text = true;
      parser_failed = false;
      structure_required = false;
      block_count = 2;
    };
  };
}

abbrev pub an_artifact : ExtractionArtifact
an_artifact = record {
  document = record {
    document_id = 40;
    document_version_id = 50;
    scope = record { tenant = 1; owner = 2 };
    source = record {
      scope = record { tenant = 1; owner = 2 };
      kind = Kind.source;
      object_id = 50;
      key = 51;
      sha256 = 60;
      byte_size = 4;
    };
    detected_mime = Mime.text_plain;
    page_count = none;
  };
  extraction_id = 80;
  parser_version = "utf8-strict/1";
  extracted_at = 1000;
  budget = record {
    max_source_bytes = 100;
    max_pages = 10;
    max_characters = 100;
    max_blocks = 10;
    structure_required = false;
  };
  units = a_unit ∷ [];
}

valid_graph-source_texts_example :
    All (λ (u : TextUnit). source_texts u.blocks ≡ u.text) (a_unit ∷ [])
unfolding valid_graph valid_units valid_unit valid_blocks valid_block valid_span valid_observations
    complete_inventory rstrip
valid_graph-source_texts_example = valid_graph-source_texts library an_artifact refl
