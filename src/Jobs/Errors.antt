-- ===== src/Jobs/Errors.antt =====
-- documents/jobs/errors.py and the categories of documents/errors.py.
use estudio_polymind_llm_orc.Prelude.{
  ℕ, String, Bool, true, false, ◌&&◌, ◌||◌, Option, none, List, [], ◌∷◌, str_eq, any, if◌then◌else◌,
}

-- `Category` of documents/errors.py
abbrev pub document_categories : List String
document_categories =
    "unsupported_format" ∷ "invalid_document" ∷ "encrypted_document" ∷ "source_too_large"
    ∷ "page_limit_exceeded" ∷ "extraction_limit_exceeded" ∷ "extraction_failed" ∷ "integrity_error"
    ∷ "storage_error" ∷ "object_conflict" ∷ "object_not_found" ∷ "scope_mismatch"
    ∷ "serialization_error" ∷ "invalid_reference" ∷ []

-- `CATEGORIES`
abbrev pub categories : List String
categories =
    "idempotency_conflict" ∷ "invalid_transition" ∷ "job_not_found" ∷ "step_not_found"
    ∷ "lease_conflict" ∷ "stale_fence" ∷ "lease_expired" ∷ "retry_exhausted" ∷ "cancelled"
    ∷ "ledger_error" ∷ "dispatch_error" ∷ "manifest_conflict" ∷ "invalid_configuration"
    ∷ "schema_mismatch" ∷ "worker_interrupted" ∷ "worker_failed" ∷ "profile_mismatch"
    ∷ "inference_rate_limited" ∷ "inference_timeout" ∷ "inference_unavailable"
    ∷ "inference_authentication" ∷ "inference_configuration" ∷ "inference_invalid_response"
    ∷ "inference_context_exceeded" ∷ "inference_output_limit" ∷ "inference_unknown"
    ∷ "governance_denied" ∷ "security_denied" ∷ document_categories

pub is_category : String → Bool
is_category c = any (str_eq c) categories

-- The exceptions that document code raises; `other` is any other exception.
pub data Exn : Type 0 where
  job_error document_error : String → Exn
  other : Exn

-- `JobError.__init__` keeps a known category only.
unfoldable pub raise_job_error : String → Exn
unfolding is_category
raise_job_error c = job_error (if is_category c then c else "ledger_error")

pub data Classification : Type 0 where
  retryable non_retryable cancelled : Classification

abbrev pub is_retryable : Classification → Bool
is_retryable retryable = true
is_retryable _ = false

abbrev pub is_cancellation : Classification → Bool
is_cancellation cancelled = true
is_cancellation _ = false

pub record Failure : Type 0 where
  pub category : String
  pub classification : Classification
  pub retry_after : Option ℕ

unfoldable pub sanitized : Failure → Failure
unfolding is_category
sanitized f = record f { category = if is_category f.category then f.category else "worker_failed" }

category_of : Exn → String
category_of (job_error c) = c
category_of (document_error c) = c
category_of other = "worker_failed"

-- `classify`
unfoldable pub classify : Bool → Exn → Failure
unfolding is_category category_of
classify transient_storage error =
    let raised = category_of error in
    let category = if is_category raised then raised else "worker_failed" in
    record {
      category = category;
      classification =
          if str_eq category "cancelled"
          then cancelled
          else if str_eq category "worker_interrupted"
              || (str_eq category "storage_error" && transient_storage)
          then retryable
          else non_retryable;
      retry_after = none;
    }
