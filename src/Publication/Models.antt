-- ===== src/Publication/Models.antt =====
-- documents/publication/models.py: the records of a publication and the validators of a record and a
-- manifest. The kinds of blocks and the fields with one possible value are left out; identities hash
-- the fields and are functions of `Identities`.
use estudio_polymind_llm_orc.Prelude.{
  ℕ, Bool, false, ◌&&◌, Option, none, some, List, ◌==◌, leb, length, all, find, map,
}
use estudio_polymind_llm_orc.Jobs.Models.{Uuid, Digest, Scope, same_scope, ObjectRef}
use estudio_polymind_llm_orc.Documents.Models.{Text}
use estudio_polymind_llm_orc.Digestion.Models.{EvidenceRef}
use estudio_polymind_llm_orc.Digestion.Sets.{distinct, same_set}

-- the errors that end the planning of a publication; the last two are other exceptions
pub data PublicationError : Type 0 where
  publication_invalid_input provenance_invalid digestion_error validation_error : PublicationError

pub data Published {ℓ} (A : Type ℓ) : Type ℓ where
  published : A → Published A
  failed : PublicationError → Published A

infixl 5 ◌>>=◌
abbrev pub ◌>>=◌ : {A B : Type 0} → Published A → (A → Published B) → Published B
published a >>= f = f a
failed e >>= f = failed e

pub record AcceptedDocument : Type 0 where
  pub scope : Scope
  pub job_id : Uuid
  pub document_id : Uuid
  pub document_version_id : Uuid
  pub extraction_id : Uuid
  pub extraction : ObjectRef
  pub digest : ObjectRef

pub record RetrievalRecord : Type 0 where
  pub record_id : Uuid
  pub document_id : Uuid
  pub document_version_id : Uuid
  pub extraction_id : Uuid
  pub text : Text
  pub evidence : EvidenceRef
  pub structural_path : List Text
  pub profile : Digest

-- `ActivePublication`
pub record ActivePublication : Type 0 where
  pub generation : Option Uuid
  pub epoch : ℕ

pub record PublicationManifest : Type 0 where
  pub generation : Uuid
  pub scope : Scope
  pub base : ActivePublication
  pub profile : Digest
  pub documents : List AcceptedDocument
  pub records : List RetrievalRecord
  pub removed_versions : List Uuid

-- `RetrievalRecord.identity` and `PublicationManifest.identity`, which do not read the field that
-- they name
pub record Identities : Type 0 where
  pub record_identity : RetrievalRecord → Uuid
  pub manifest_identity : PublicationManifest → Uuid

-- `RetrievalRecord.valid`, and the bounds of its fields
unfoldable pub valid_record : Identities → RetrievalRecord → Bool
valid_record i r =
    leb 1 (length r.text)
    && leb (length r.text) 4096
    && leb (length r.structural_path) 32
    && r.record_id == i.record_identity r
    && r.document_version_id == r.evidence.document_version_id
    && r.extraction_id == r.evidence.extraction_id

-- docs.get(id)
unfoldable pub document_of : List AcceptedDocument → Uuid → Option AcceptedDocument
document_of docs id = find (λ d. d.document_id == id) docs

abbrev pub document_ids : List AcceptedDocument → List Uuid
document_ids docs = map (λ d. d.document_id) docs

-- the loop over the documents
unfoldable pub in_scope : Scope → AcceptedDocument → Bool
in_scope scope d =
    same_scope d.scope scope
    && same_scope d.extraction.scope scope
    && same_scope d.digest.scope scope

abbrev pub agrees : PublicationManifest → RetrievalRecord → Option AcceptedDocument → Bool
agrees m r none = false
agrees m r (some d) =
    same_scope r.evidence.scope m.scope
    && r.profile == m.profile
    && r.document_version_id == d.document_version_id
    && r.extraction_id == d.extraction_id

-- the loop over the records
unfoldable pub has_provenance : PublicationManifest → RetrievalRecord → Bool
has_provenance m r = agrees m r (document_of m.documents r.document_id)

-- `PublicationManifest.valid`
unfoldable pub valid_manifest : Identities → PublicationManifest → Bool
valid_manifest i m =
    distinct (document_ids m.documents)
    && m.generation == i.manifest_identity m
    && distinct (map (λ (r : RetrievalRecord). r.record_id) m.records)
    && all (in_scope m.scope) m.documents
    && all (has_provenance m) m.records
    && same_set (document_ids m.documents) (map (λ (r : RetrievalRecord). r.document_id) m.records)
