-- ===== src/Scenarios/Releases.antt =====
-- A publication of the two blocks of a text.
use estudio_polymind_llm_orc.Prelude.{
  ℕ, ◌+◌, ◌≡◌, refl, Option, none, some, List, [], ◌∷◌, All, length, sort_by,
}
use estudio_polymind_llm_orc.Jobs.Models.{Uuid}
use estudio_polymind_llm_orc.Documents.Models.{Text}
use estudio_polymind_llm_orc.Documents.Artifact.{rstrip}
use estudio_polymind_llm_orc.Digestion.Evidence.{block_of, lines_of, placed_in, resolve}
use estudio_polymind_llm_orc.Publication.Models.{
  published, AcceptedDocument, RetrievalRecord, PublicationManifest, ActivePublication, Identities,
  valid_record, document_of, in_scope, has_provenance, valid_manifest,
}
use estudio_polymind_llm_orc.Publication.Planning.{
  Accepted, Piece, path_of, record_values, piece_records, block_records, unit_records, records,
  accept_one, accept_all, sorted_keys, removed, manifest_values, plan_publication,
}
use estudio_polymind_llm_orc.Publication.Provenance.{Sourced, plan_publication-Sourced}
use estudio_polymind_llm_orc.Scenarios.Texts.{an_artifact}
use estudio_polymind_llm_orc.Scenarios.Digests.{evidence_at, a_ref}

abbrev identities : Identities
identities = record {
  record_identity = λ r. r.evidence.span.start + 600;
  manifest_identity = λ _. 9;
}

abbrev whole : Text → List Piece
whole t = record { start = 0; end = length t; text = t } ∷ []

abbrev a_document : AcceptedDocument
a_document = record {
  scope = record { tenant = 1; owner = 2 };
  job_id = 500;
  document_id = 40;
  document_version_id = 50;
  extraction_id = 80;
  extraction = a_ref 80;
  digest = a_ref 81;
}

abbrev accepted_jobs : Uuid → Option Accepted
accepted_jobs key =
    some
      (record { document = a_document; artifact = an_artifact; included = 0 ∷ 1 ∷ []; units = [] })

abbrev a_record : ℕ → Text → ℕ → ℕ → ℕ → RetrievalRecord
a_record block text start end line = record {
  record_id = start + 600;
  document_id = 40;
  document_version_id = 50;
  extraction_id = 80;
  text = text;
  evidence = evidence_at block start end line;
  structural_path = [];
  profile = 77;
}

abbrev no_publication : ActivePublication
no_publication = record { generation = none; epoch = 0 }

abbrev a_manifest : PublicationManifest
a_manifest = record {
  generation = 9;
  scope = record { tenant = 1; owner = 2 };
  base = no_publication;
  profile = 77;
  documents = a_document ∷ [];
  records = a_record 0 (104 ∷ 105 ∷ 10 ∷ []) 0 3 1 ∷ a_record 1 (97 ∷ []) 3 4 2 ∷ [];
  removed_versions = [];
}

planned :
    plan_publication identities whole 77 accepted_jobs
      (a_document.scope)
      (500 ∷ [])
      no_publication
      none
    ≡ published a_manifest
unfolding rstrip block_of lines_of placed_in resolve valid_record document_of in_scope
    has_provenance valid_manifest path_of record_values piece_records block_records unit_records
    records accept_one accept_all sorted_keys removed manifest_values plan_publication sort_by
planned = refl

plan_publication-Sourced_example :
    All
      (Sourced identities whole 77 accepted_jobs
        (sorted_keys identities whole 77 accepted_jobs (500 ∷ [])))
      a_manifest.records
plan_publication-Sourced_example =
    plan_publication-Sourced identities whole 77 accepted_jobs a_document.scope (500 ∷ [])
      no_publication none a_manifest planned
