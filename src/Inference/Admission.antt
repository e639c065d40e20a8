-- ===== src/Inference/Admission.antt =====
-- llm/admission.py: the policy, `acquire`, `finish` and `records` on the calls of one quota key.
-- Instants are microseconds.
use estudio_polymind_llm_orc.Prelude.{
  ℕ, ◌+◌, ◌-◌, String, Bool, true, false, not, ◌&&◌, ◌||◌, Option, none, some, List, [], ◌∷◌, ◌++◌,
  ◌==◌, str_eq, ltb, leb, length, any, find, select, count, sum_of, update, sort_by, if◌then◌else◌,
}
use estudio_polymind_llm_orc.Jobs.Models.{Uuid, Micros, Scope, same_scope}
use estudio_polymind_llm_orc.Governance.Models.{
  Workload, interactive, document_background, CallIdentity,
}

pub record AdmissionPolicy : Type 0 where
  pub rpm : ℕ
  pub tpm : ℕ
  pub concurrent : ℕ
  pub interactive_rpm : ℕ
  pub interactive_tpm : ℕ
  pub interactive_slots : ℕ
  pub per_job_concurrent : ℕ
  pub per_job_rpm : ℕ

-- `AdmissionPolicy.bounds`, with the bounds of the fields
unfoldable pub valid_policy : AdmissionPolicy → Bool
valid_policy p =
    leb 1 p.rpm
    && leb 1 p.tpm
    && leb 2 p.concurrent
    && leb 1 p.interactive_rpm
    && leb 1 p.interactive_tpm
    && leb 1 p.interactive_slots
    && leb 1 p.per_job_concurrent
    && leb 1 p.per_job_rpm
    && ltb p.interactive_rpm p.rpm
    && ltb p.interactive_tpm p.tpm
    && ltb p.interactive_slots p.concurrent
    && leb p.per_job_concurrent (p.concurrent - p.interactive_slots)
    && leb p.per_job_rpm (p.rpm - p.interactive_rpm)

-- a row of `inference_calls`; `usage` is the column's text
pub record CallRow : Type 0 where
  pub ticket : Uuid
  pub quota : String
  pub identity : CallIdentity
  pub workload : Workload
  pub started : Micros
  pub estimated_input : ℕ
  pub reserved_output : ℕ
  pub active : Bool
  pub outcome : String
  pub usage : Option String

pub data Error : Type 0 where
  configuration_error rate_limited : Error

pub data Result {ℓ} (A : Type ℓ) : Type ℓ where
  ok : A → Result A
  err : Error → Result A

abbrev pub is_background : Workload → Bool
is_background document_background = true
is_background interactive = false

abbrev pub is_document : CallRow → Bool
is_document r = is_background r.workload

-- started > now-60, for the minute behind `now`
abbrev pub is_recent : Micros → CallRow → Bool
is_recent now r = ltb now (r.started + 60000000)

-- `rows`: the calls of the quota that are recent or active
unfoldable pub quota_rows : String → Micros → List CallRow → List CallRow
quota_rows quota now = select (λ r. str_eq r.quota quota && (is_recent now r || r.active))

abbrev pub reserved : List CallRow → ℕ
reserved = sum_of (λ r. r.estimated_input + r.reserved_output)

abbrev pub same_job : CallIdentity → CallRow → Bool
same_job i r = r.identity.job == i.job && same_scope r.identity.scope i.scope

-- the tokens that one request may ask for
abbrev pub token_cap : AdmissionPolicy → Workload → ℕ
token_cap p document_background = p.tpm - p.interactive_tpm
token_cap p interactive = p.tpm

-- the tests that every call passes
unfoldable pub over_quota : AdmissionPolicy → ℕ → List CallRow → List CallRow → Bool
over_quota p tokens recent active =
    leb p.rpm (length recent)
    || ltb p.tpm (reserved recent + tokens)
    || leb p.concurrent (length active)

-- the tests that a document call passes as well
unfoldable pub over_documents :
    AdmissionPolicy → CallIdentity → ℕ → List CallRow → List CallRow → Bool
over_documents p i tokens docs doc_active =
    leb (p.rpm - p.interactive_rpm) (length docs)
    || ltb (p.tpm - p.interactive_tpm) (reserved docs + tokens)
    || leb (p.concurrent - p.interactive_slots) (length doc_active)
    || leb p.per_job_concurrent (count (same_job i) doc_active)
    || leb p.per_job_rpm (count (same_job i) docs)

-- `denied` of `acquire`
unfoldable pub denied : AdmissionPolicy → CallIdentity → ℕ → Workload → Micros → List CallRow → Bool
unfolding over_quota over_documents
denied p i tokens w now rows =
    let recent = select (is_recent now) rows in
    let active = select (λ r. r.active) rows in
    over_quota p tokens recent active
    || (is_background w
        && over_documents p i tokens (select is_document recent) (select is_document active))

-- UNIQUE(quota,scope,job,step,attempt)
abbrev pub same_attempt : String → CallIdentity → CallRow → Bool
same_attempt quota i r =
    str_eq r.quota quota
    && same_scope r.identity.scope i.scope
    && r.identity.job == i.job
    && r.identity.step == i.step
    && r.identity.attempt == i.attempt

-- the row that `acquire` inserts
abbrev pub new_call : String → CallIdentity → ℕ → ℕ → Workload → Uuid → Micros → CallRow
new_call quota i input output w ticket now = record {
  ticket = ticket;
  quota = quota;
  identity = i;
  workload = w;
  started = now;
  estimated_input = input;
  reserved_output = output;
  active = true;
  outcome = "unknown";
  usage = none;
}

-- `acquire`, with the random ticket of the call; a violated UNIQUE constraint is an error of SQLite
unfoldable pub acquire :
    AdmissionPolicy
    → String
    → CallIdentity
    → ℕ
    → ℕ
    → Workload
    → Uuid
    → Micros
    → List CallRow
    → Result Uuid × List CallRow
unfolding denied quota_rows
acquire p quota i input output w ticket now calls =
    if not (leb 1 output) || not (leb 1 i.attempt) || ltb (token_cap p w) (input + output)
    then (err configuration_error, calls)
    else if denied p i (input + output) w now (quota_rows quota now calls)
    then (err rate_limited, calls)
    else if any (λ r. same_attempt quota i r || r.ticket == ticket) calls
    then (err configuration_error, calls)
    else (ok ticket, calls ++ new_call quota i input output w ticket now ∷ [])

-- `allowed` of `finish`
abbrev pub outcomes : List String
outcomes =
    "success" ∷ "timeout" ∷ "overloaded" ∷ "provider_unreachable" ∷ "authentication_failure"
    ∷ "configuration_failure" ∷ "protocol_failure" ∷ "model_unavailable" ∷ "output_limit"
    ∷ "context_exceeded" ∷ "upstream_failure" ∷ "unknown" ∷ []

abbrev pub known_outcome : String → String
known_outcome o = if any (λ x. str_eq x o) outcomes then o else "unknown"

abbrev pub finished : String → Option String → CallRow → CallRow
finished outcome usage r = record r { active = false; outcome = outcome; usage = usage }

abbrev pub is_active : Option CallRow → Bool
is_active none = false
is_active (some r) = r.active

-- `finish`
unfoldable pub finish :
    String → Uuid → Option String → String → List CallRow → Result (Unit {0}) × List CallRow
finish quota ticket usage outcome calls =
    if is_active (find (λ r. r.ticket == ticket && str_eq r.quota quota) calls)
    then (ok tt, update (λ r. r.ticket == ticket) (finished (known_outcome outcome) usage) calls)
    else (err configuration_error, calls)

-- `records`
unfoldable pub records : String → Scope → Uuid → List CallRow → List CallRow
records quota scope job calls =
    sort_by (λ a b. ltb a.started b.started)
      (select
        (λ r. str_eq r.quota quota && same_scope r.identity.scope scope && r.identity.job == job)
        calls)
