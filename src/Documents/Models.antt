-- ===== src/Documents/Models.antt =====
-- The records of documents/models.py that an extraction holds. A text is a list of code points; the
-- fields that no validator reads (geometry, confidences, the engine of an OCR) are left out.
use estudio_polymind_llm_orc.Prelude.{ℕ, Bool, Option, List, String}
use estudio_polymind_llm_orc.Jobs.Models.{Uuid, Digest, Micros, Scope, ObjectRef, Mime}

abbrev pub Text : Type 0
Text = List ℕ

pub record Document : Type 0 where
  pub document_id : Uuid
  pub document_version_id : Uuid
  pub scope : Scope
  pub source : ObjectRef
  pub detected_mime : Mime
  pub page_count : Option ℕ

pub record Span : Type 0 where
  pub start : ℕ
  pub end : ℕ
  pub line_start : Option ℕ
  pub line_end : Option ℕ

pub record Block : Type 0 where
  pub block_id : Uuid
  pub source_id : Uuid
  pub reading_order : ℕ
  pub source_text : Text
  pub span : Span
  pub normalized_text : Option Text
  pub parent_id : Option Uuid
  pub child_ids : List Uuid
  -- `visual.image`
  pub image : Option ObjectRef

-- the two ratios are the numbers that the division of `Library` gives
pub record Observations : Type 0 where
  pub character_count : ℕ
  pub printable_ratio : ℕ
  pub replacement_ratio : ℕ
  pub has_native_text : Bool
  pub parser_failed : Bool
  pub structure_required : Bool
  pub block_count : ℕ

pub record Decision : Type 0 where
  pub source_id : Uuid
  pub observations : Observations

pub data UnitStatus : Type 0 where
  native_text blank image_only unresolved failed : UnitStatus

pub record TextUnit : Type 0 where
  pub source_id : Uuid
  pub document_version_id : Uuid
  pub physical_page : Option ℕ
  -- one of `printed_label`, `width`, `height` and `rotation` is there
  pub page_metadata : Bool
  pub status : UnitStatus
  pub parser_version : String
  pub text : Text
  pub blocks : List Block
  pub decision : Decision

pub record Budget : Type 0 where
  pub max_source_bytes : ℕ
  pub max_pages : ℕ
  pub max_characters : ℕ
  pub max_blocks : ℕ
  pub structure_required : Bool

pub record ExtractionArtifact : Type 0 where
  pub document : Document
  pub extraction_id : Uuid
  pub parser_version : String
  pub extracted_at : Micros
  pub budget : Budget
  pub units : List TextUnit

-- The library functions that the validators call: UUID version 5 on the parts of each place, the
-- classes of characters, and the float division of two counts.
pub record Library : Type 0 where
  pub version_id : Scope → Uuid → Digest → Uuid
  pub extraction_identity : Scope → Uuid → String → Micros → Budget → Uuid
  pub source_id : Uuid → Option ℕ → Uuid
  pub block_id : Uuid → Uuid → ℕ → Uuid
  pub is_printable : ℕ → Bool
  pub is_space : ℕ → Bool
  pub ratio : ℕ → ℕ → ℕ
