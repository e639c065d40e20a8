-- ===== src/Jobs/Models.antt =====
-- documents/jobs/models.py and the scope and object references of documents/models.py.
-- UUIDs and SHA-256 digests are numbers, instants and durations are whole microseconds.
mod Validation
use estudio_polymind_llm_orc.Prelude.{
  ℕ, ◌-◌, ◌*◌, ◌/◌, ◌^◌, ◌+◌, min, String, Bool, true, false, ◌&&◌, Option, none, List, [], ◌∷◌,
  ◌==◌, str_eq,
}
unfoldable pub use Validation.{is_token}

abbrev pub Uuid : Type 0
Uuid = ℕ

abbrev pub Digest : Type 0
Digest = ℕ

abbrev pub Micros : Type 0
Micros = ℕ

-- `Scope`; two scopes have one `identity()` exactly when both fields agree.
pub record Scope : Type 0 where
  pub tenant : Uuid
  pub owner : Uuid

abbrev pub same_scope : Scope → Scope → Bool
same_scope a b = a.tenant == b.tenant && a.owner == b.owner

pub data Kind : Type 0 where
  source artifact : Kind

abbrev pub same_kind : Kind → Kind → Bool
same_kind source source = true
same_kind artifact artifact = true
same_kind _ _ = false

pub record ObjectRef : Type 0 where
  pub scope : Scope
  pub kind : Kind
  pub object_id : Uuid
  pub key : Uuid
  pub sha256 : Digest
  pub byte_size : ℕ

abbrev pub same_ref : ObjectRef → ObjectRef → Bool
same_ref a b =
    same_scope a.scope b.scope
    && same_kind a.kind b.kind
    && a.object_id == b.object_id
    && a.key == b.key
    && a.sha256 == b.sha256
    && a.byte_size == b.byte_size

abbrev pub same_refs : List ObjectRef → List ObjectRef → Bool
same_refs [] [] = true
same_refs (a ∷ as') (b ∷ bs) = same_ref a b && same_refs as' bs
same_refs _ _ = false

pub data JobState : Type 0 where
  queued extracting normalizing validating completed failed cancel_requested cancelled partial :
      JobState

-- `TERMINAL` of sqlite.py
abbrev pub is_terminal : JobState → Bool
is_terminal completed = true
is_terminal failed = true
is_terminal cancelled = true
is_terminal partial = true
is_terminal _ = false

pub data StepState : Type 0 where
  pending ready running retry_wait succeeded failed cancelled : StepState

pub data Stage : Type 0 where
  extracting normalizing validating : Stage

abbrev pub same_stage : Stage → Stage → Bool
same_stage Stage.extracting Stage.extracting = true
same_stage Stage.normalizing Stage.normalizing = true
same_stage Stage.validating Stage.validating = true
same_stage _ _ = false

-- the job state that a running step of a stage shows
abbrev pub stage_state : Stage → JobState
stage_state Stage.extracting = JobState.extracting
stage_state Stage.normalizing = JobState.normalizing
stage_state Stage.validating = JobState.validating

-- `RetryPolicy`: `jitter` is the fraction in millionths.
pub record RetryPolicy : Type 0 where
  pub max_attempts : ℕ
  pub base_micros : Micros
  pub max_micros : Micros
  pub budget_micros : Micros
  pub jitter : ℕ

pub record ProcessingProfile : Type 0 where
  pub version : String
  pub parser_version : String
  pub max_source_bytes : ℕ
  pub max_pages : ℕ
  pub max_characters : ℕ
  pub max_blocks : ℕ
  pub max_artifact_bytes : ℕ
  pub structure_required : Bool
  pub retry : RetryPolicy

pub record StepSpec : Type 0 where
  pub unit_id : String
  pub stage : Stage
  pub schema_version : String
  pub config_fingerprint : Digest
  pub depends_on : List String

abbrev pub same_strings : List String → List String → Bool
same_strings [] [] = true
same_strings (a ∷ as') (b ∷ bs) = str_eq a b && same_strings as' bs
same_strings _ _ = false

abbrev pub same_spec : StepSpec → StepSpec → Bool
same_spec a b =
    str_eq a.unit_id b.unit_id
    && same_stage a.stage b.stage
    && str_eq a.schema_version b.schema_version
    && a.config_fingerprint == b.config_fingerprint
    && same_strings a.depends_on b.depends_on

pub data Mime : Type 0 where
  text_plain application_pdf : Mime

pub record Admission : Type 0 where
  pub scope : Scope
  pub document_id : Uuid
  pub document_version_id : Uuid
  pub source : ObjectRef
  pub request_idempotency_key : String
  pub display_filename : String
  pub mime : Mime
  pub profile : ProcessingProfile
  pub steps : List StepSpec
  pub resume_from : Option Uuid

-- What the code hands to `fingerprint`, one constructor for each place: the canonical JSON of
-- values of different shapes is never the same text.
pub data Payload : Type 0 where
  jitter_of : Digest → ℕ → Payload
  profile_of : ProcessingProfile → Payload
  request_of :
      Scope
      → Uuid
      → Uuid
      → ObjectRef
      → String
      → Mime
      → ProcessingProfile
      → List StepSpec
      → Option Uuid
      → Payload
  compatibility_of : Scope → Uuid → Uuid → ObjectRef → String → Mime → Digest → Payload
  inputs_of : Digest → StepSpec → List (List ObjectRef) → Payload
  step_key_of : Scope → Uuid → Uuid → ℕ → Digest → Payload
  planned_of : Uuid → StepSpec → Payload

-- What the code hands to `stable_id`.
pub data IdParts : Type 0 where
  object_parts : Scope → Kind → Uuid → IdParts
  version_parts : Scope → Uuid → Digest → IdParts

-- The library functions behind `fingerprint` (SHA-256) and `stable_id` (UUID version 5).
pub record Hashing : Type 0 where
  pub fingerprint : Payload → Digest
  pub stable_id : IdParts → Uuid

module _ (h : Hashing) where
  -- `int(fingerprint([key, attempt])[:8], 16)`, the first 32 bits of the digest
  pub jitter_bits : Digest → ℕ → ℕ
  jitter_bits key attempt = h.fingerprint (jitter_of key attempt) / 2 ^ 224

  -- `RetryPolicy.delay`: the product of the two factors, rounded down to a microsecond
  unfoldable pub delay : RetryPolicy → Digest → ℕ → Micros
  unfolding jitter_bits
  delay p key attempt =
      min p.max_micros (p.base_micros * 2 ^ (attempt - 1))
      * (1000000 * 0xffffffff - p.jitter * jitter_bits key attempt)
      / (1000000 * 0xffffffff)

  pub profile_digest : ProcessingProfile → Digest
  profile_digest p = h.fingerprint (profile_of p)

  -- `Admission.digest`: all but the idempotency key
  unfoldable pub digest : Admission → Digest
  digest a = h.fingerprint (
      request_of a.scope a.document_id a.document_version_id a.source a.display_filename a.mime
        a.profile a.steps a.resume_from)

  -- `Admission.compatibility`: without the steps and the job resumed from, the profile by digest
  unfoldable pub compatibility : Admission → Digest
  unfolding profile_digest
  compatibility a = h.fingerprint (
      compatibility_of a.scope a.document_id a.document_version_id a.source a.display_filename
        a.mime (profile_digest a.profile))

  -- `ObjectRef.valid_key`
  unfoldable pub valid_key : ObjectRef → Bool
  valid_key r = r.key == h.stable_id (object_parts r.scope r.kind r.object_id)
