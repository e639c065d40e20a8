-- ===== src/Jobs/Tables.antt =====
-- The tables of documents/jobs/sqlite.py (`SCHEMA`). A table is a list of rows in rowid order. They
-- are the program's own SQL schema; SQLite itself is not modelled.
use estudio_polymind_llm_orc.Prelude.{ℕ, String, Bool, true, false, Option, List, []}
use estudio_polymind_llm_orc.Jobs.Models.{
  Uuid, Digest, Micros, Scope, ObjectRef, JobState, StepState, Stage, StepSpec, Admission, Hashing,
}
use estudio_polymind_llm_orc.Jobs.Errors.{Classification}

pub record Progress : Type 0 where
  pub total : ℕ
  pub completed : ℕ
  pub running : ℕ
  pub retrying : ℕ
  pub failed : ℕ
  pub cancelled : ℕ
  pub pending : ℕ
  pub current_stage : Option Stage

-- a row of `jobs`; the column `request` holds the admission itself
pub record JobRow : Type 0 where
  pub job_id : Uuid
  pub run_id : Uuid
  pub scope : Scope
  pub request_key : String
  pub fingerprint : Digest
  pub version_id : Uuid
  pub source_key : Uuid
  pub generation : ℕ
  pub request : Admission
  pub created_at : Micros
  pub updated_at : Micros
  pub document_created_at : Micros
  pub state : JobState
  pub cancel_requested : Bool
  pub progress : Progress
  pub terminal_category : Option String

-- a row of `job_steps`
pub record StepRow : Type 0 where
  pub step_id : Uuid
  pub job_id : Uuid
  pub spec : StepSpec
  pub step_key : Digest
  pub input_fingerprint : Digest
  pub execution_at : Micros
  pub state : StepState
  pub attempt_count : ℕ
  pub fence : ℕ
  pub lease_owner : Option String
  pub lease_expires_at : Option Micros
  pub not_before : Micros
  pub started_at : Option Micros
  pub finished_at : Option Micros
  pub failure_category : Option String
  pub reused_from : Option Uuid

pub data Outcome : Type 0 where
  running retry_wait succeeded failed cancelled : Outcome

-- a row of `step_attempts`
pub record AttemptRow : Type 0 where
  pub step_id : Uuid
  pub number : ℕ
  pub worker : String
  pub fence : ℕ
  pub started_at : Micros
  pub finished_at : Option Micros
  pub outcome : Outcome
  pub category : Option String
  pub classification : Option Classification
  pub not_before : Option Micros

-- a row of `artifact_manifests`
pub record ManifestRow : Type 0 where
  pub step_id : Uuid
  pub manifest : List ObjectRef
  pub committed_at : Micros
  pub fence : ℕ

-- a row of `outbox`
pub record OutboxRow : Type 0 where
  pub dispatch_id : ℕ
  pub step_id : Uuid
  pub created_at : Micros
  pub available_at : Micros
  pub delivered_at : Option Micros

-- a row of `dead_letters`
pub record DeadLetter : Type 0 where
  pub step_id : Uuid
  pub category : String
  pub classification : Classification
  pub created_at : Micros

-- a row of `object_intents`
pub record Intent : Type 0 where
  pub step_id : Uuid
  pub object_key : Uuid
  pub ref : ObjectRef
  pub created_at : Micros

pub record Db : Type 0 where
  pub jobs : List JobRow
  pub steps : List StepRow
  pub attempts : List AttemptRow
  pub manifests : List ManifestRow
  -- the rows (step_id, object_key) of `manifest_objects`
  pub objects : List (Uuid × Uuid)
  pub outbox : List OutboxRow
  pub dead_letters : List DeadLetter
  pub intents : List Intent
  -- the AUTOINCREMENT counter of `outbox`
  pub last_dispatch : ℕ

abbrev pub empty : Db
empty = record {
  jobs = [];
  steps = [];
  attempts = [];
  manifests = [];
  objects = [];
  outbox = [];
  dead_letters = [];
  intents = [];
  last_dispatch = 0;
}

-- `self.settings`, with the hash functions that the ledger calls
pub record Ledger : Type 0 where
  pub lease_micros : Micros
  pub redelivery_micros : Micros
  pub orphan_grace_micros : Micros
  pub hashing : Hashing

abbrev pub is_pending : StepState → Bool
is_pending StepState.pending = true
is_pending _ = false

abbrev pub is_running : StepState → Bool
is_running StepState.running = true
is_running _ = false

abbrev pub is_ready : StepState → Bool
is_ready StepState.ready = true
is_ready _ = false

abbrev pub is_retry_wait : StepState → Bool
is_retry_wait StepState.retry_wait = true
is_retry_wait _ = false

abbrev pub is_failed : StepState → Bool
is_failed StepState.failed = true
is_failed _ = false

abbrev pub is_cancelled : StepState → Bool
is_cancelled StepState.cancelled = true
is_cancelled _ = false

abbrev pub is_succeeded : StepState → Bool
is_succeeded StepState.succeeded = true
is_succeeded _ = false

-- state IN ('READY','RETRY_WAIT')
abbrev pub is_claimable : StepState → Bool
is_claimable StepState.ready = true
is_claimable StepState.retry_wait = true
is_claimable _ = false

-- state IN ('PENDING','READY','RETRY_WAIT')
abbrev pub is_waiting : StepState → Bool
is_waiting StepState.pending = true
is_waiting StepState.ready = true
is_waiting StepState.retry_wait = true
is_waiting _ = false

-- state IN ('PENDING','READY','RETRY_WAIT','RUNNING')
abbrev pub is_open : StepState → Bool
is_open StepState.running = true
is_open s = is_waiting s
