-- ===== src/Publication/Planning.antt =====
-- `records` and `plan_publication` of documents/publication/planning.py. The splitter of the encoder
-- and the check of a job, `accepted`, are parameters; canonical UUID texts stand in the order of their
-- numbers.
use estudio_polymind_llm_orc.Prelude.{
  ℕ, suc, ◌+◌, not, Option, none, some, List, [], ◌∷◌, ◌++◌, ltb, select, map, sort_by,
  if◌then◌else◌,
}
use estudio_polymind_llm_orc.Jobs.Models.{Uuid, Digest, Scope}
use estudio_polymind_llm_orc.Documents.Models.{Text, Block, TextUnit, Span, ExtractionArtifact}
use estudio_polymind_llm_orc.Documents.Artifact.{same_text, newlines, rstrip}
use estudio_polymind_llm_orc.Digestion.Models.{EvidenceRef, StructuralUnit}
use estudio_polymind_llm_orc.Digestion.Sets.{has}
use estudio_polymind_llm_orc.Digestion.Evidence.{later, lines_of, bisect_left, resolve}
use estudio_polymind_llm_orc.Publication.Models.{
  Published, published, failed, ◌>>=◌, publication_invalid_input, provenance_invalid,
  digestion_error, validation_error, AcceptedDocument, RetrievalRecord, PublicationManifest,
  ActivePublication, Identities, valid_record, valid_manifest,
}

-- what `accepted` returns: the document, its extraction, and what `records` reads of digest and plan
pub record Accepted : Type 0 where
  pub document : AcceptedDocument
  pub artifact : ExtractionArtifact
  pub included : List Uuid
  pub units : List StructuralUnit

-- a part of a block that the encoder takes: start, end and text
pub record Piece : Type 0 where
  pub start : ℕ
  pub end : ℕ
  pub text : Text

-- owners.get(block_id, ())
unfoldable pub path_of : List StructuralUnit → Uuid → List Text
path_of units key = elim (owner units) [ none ↦ [] | some path ↦ path ]
  where
    owner : List StructuralUnit → Option (List Text)
    owner [] = none
    owner (u ∷ us) = later (owner us) (if has u.block_ids key then some u.path else none)

-- the lines of a span, from those of the text of the unit
abbrev pub span_of : Option (List ℕ) → ℕ → ℕ → Text → Span
span_of none start end text = record {
  start = start;
  end = end;
  line_start = none;
  line_end = none;
}
span_of (some lines) start end text =
    let line = suc (bisect_left lines start) in
    record {
      start = start;
      end = end;
      line_start = some line;
      line_end = some (line + newlines (rstrip text));
    }

module _ (i : Identities) (split : Text → List Piece) (profile : Digest) where
  -- `record_values`
  unfoldable pub record_values : RetrievalRecord → Published RetrievalRecord
  record_values draft =
      let r = record draft { record_id = i.record_identity draft } in
      if valid_record i r then published r else failed validation_error

  abbrev pub evidence_of : Accepted → TextUnit → Block → Piece → EvidenceRef
  evidence_of d u b p = record {
    scope = d.document.scope;
    document_version_id = d.document.document_version_id;
    extraction_id = d.document.extraction_id;
    source_id = u.source_id;
    block_id = b.block_id;
    span =
        span_of (lines_of d.artifact.units u.source_id) (p.start + b.span.start)
          (p.end + b.span.start) p.text;
  }

  abbrev pub draft_of : Accepted → TextUnit → Block → Piece → RetrievalRecord
  draft_of d u b p = record {
    record_id = 0;
    document_id = d.document.document_id;
    document_version_id = d.document.document_version_id;
    extraction_id = d.document.extraction_id;
    text = p.text;
    evidence = evidence_of d u b p;
    structural_path = path_of d.units b.block_id;
    profile = profile;
  }

  -- index.resolve(evidence) != text
  abbrev pub verified : Option Text → RetrievalRecord → Published RetrievalRecord
  verified none draft = failed digestion_error
  verified (some t) draft =
      if same_text t draft.text then record_values draft else failed provenance_invalid

  -- the loop over the parts of a block
  unfoldable pub piece_records :
      Accepted → TextUnit → Block → List Piece → Published (List RetrievalRecord)
  piece_records d u b [] = published []
  piece_records d u b (p ∷ ps) =
      verified (resolve d.artifact (evidence_of d u b p)) (draft_of d u b p) >>= λ r.
      piece_records d u b ps >>= λ rest. published (r ∷ rest)

  -- the loop over the blocks of a unit
  unfoldable pub block_records : Accepted → TextUnit → List Block → Published (List RetrievalRecord)
  block_records d u [] = published []
  block_records d u (b ∷ bs) =
      (if has d.included b.block_id
        then piece_records d u b (split b.source_text)
        else published [])
      >>= λ rows. block_records d u bs >>= λ rest. published (rows ++ rest)

  -- the loop over the units
  unfoldable pub unit_records : Accepted → List TextUnit → Published (List RetrievalRecord)
  unit_records d [] = published []
  unit_records d (u ∷ us) =
      block_records d u u.blocks >>= λ rows. unit_records d us >>= λ rest. published (rows ++ rest)

  -- `records`
  unfoldable pub records : Accepted → Published (List RetrievalRecord)
  records d = unit_records d d.artifact.units

  module _ (accepted : Uuid → Option Accepted) where
    -- the body of the loop over the jobs, before what the later jobs give
    unfoldable pub accept_one :
        Accepted
        → Published (List AcceptedDocument × List RetrievalRecord)
        → Published (List AcceptedDocument × List RetrievalRecord)
    accept_one d later_jobs = records d >>= λ rows.
        later_jobs >>= λ (docs, rest). published (d.document ∷ docs, rows ++ rest)

    -- the loop over the jobs
    unfoldable pub accept_all : List Uuid → Published (List AcceptedDocument × List RetrievalRecord)
    accept_all [] = published ([], [])
    accept_all (key ∷ keys) = elim (accepted key) [
      | none ↦ failed publication_invalid_input
      | some d ↦ accept_one d (accept_all keys)
    ]

    abbrev pub add_key : Uuid → List Uuid → List Uuid
    add_key k ks = if has ks k then ks else k ∷ ks

    -- sorted(set(keys))
    unfoldable pub sorted_keys : List Uuid → List Uuid
    sorted_keys keys = sort_by ltb (unique keys)
      where
        unique : List Uuid → List Uuid
        unique [] = []
        unique (k ∷ ks) = add_key k (unique ks)

    abbrev pub versions : List AcceptedDocument → List Uuid
    versions docs = map (λ (d : AcceptedDocument). d.document_version_id) docs

    -- `removed`
    unfoldable pub removed : Option PublicationManifest → List AcceptedDocument → List Uuid
    removed none docs = []
    removed (some m) docs =
        sorted_keys (select (λ k. not (has (versions docs) k)) (versions m.documents))

    -- `manifest_values`
    unfoldable pub manifest_values : PublicationManifest → Published PublicationManifest
    manifest_values draft =
        let m = record draft { generation = i.manifest_identity draft } in
        if valid_manifest i m then published m else failed validation_error

    abbrev pub manifest_draft :
        Scope
        → ActivePublication
        → Option PublicationManifest
        → List AcceptedDocument × List RetrievalRecord
        → PublicationManifest
    manifest_draft scope base previous (docs, rows) = record {
      generation = 0;
      scope = scope;
      base = base;
      profile = profile;
      documents =
          sort_by (λ (a : AcceptedDocument) (b : AcceptedDocument). ltb a.document_id b.document_id)
            docs;
      records =
          sort_by (λ (a : RetrievalRecord) (b : RetrievalRecord). ltb a.document_id b.document_id)
            rows;
      removed_versions = removed previous docs;
    }

    -- `plan_publication`
    unfoldable pub plan_publication :
        Scope
        → List Uuid
        → ActivePublication
        → Option PublicationManifest
        → Published PublicationManifest
    plan_publication scope job_ids base previous = accept_all (sorted_keys job_ids) >>= λ r.
        manifest_values (manifest_draft scope base previous r)
