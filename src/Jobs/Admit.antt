-- ===== src/Jobs/Admit.antt =====
-- `Admission.valid` of documents/jobs/models.py and `admit` of documents/jobs/sqlite.py.
use estudio_polymind_llm_orc.Prelude.{
  ℕ, ◌+◌, max, String, Bool, true, false, not, ◌&&◌, Option, none, some, List, [], ◌∷◌, ◌==◌,
  str_eq, leb, length, find, any, all, select, max_of, or_else, if◌then◌else◌,
}
use estudio_polymind_llm_orc.Jobs.Models.{
  Uuid, Micros, Scope, same_scope, Kind, JobState, is_terminal, StepSpec, Admission, Hashing,
  version_parts, digest, compatibility,
}
use estudio_polymind_llm_orc.Jobs.Tables.{Db, Ledger, JobRow, StepRow, is_succeeded}
use estudio_polymind_llm_orc.Jobs.Database.{
  Tx, ok, ◌>>=◌, ◌>>◌, pure, unless, get_job_row, steps_of, invalid_configuration,
  idempotency_conflict, invalid_transition,
}
use estudio_polymind_llm_orc.Jobs.Progression.{activate, refresh}
use estudio_polymind_llm_orc.Jobs.Planning.{mem, of_version, no_progress, insert_job, add_steps}

abbrev pub distinct : List String → Bool
distinct [] = true
distinct (u ∷ us) = not (mem u us) && distinct us

-- the loop of `Admission.valid`: each unit is new, and depends on earlier units only
unfoldable pub valid_plan : List String → List StepSpec → Bool
valid_plan seen [] = true
valid_plan seen (s ∷ rest) =
    not (mem s.unit_id seen)
    && all (λ u. mem u seen) s.depends_on
    && distinct s.depends_on
    && valid_plan (s.unit_id ∷ seen) rest

abbrev pub is_source : Kind → Bool
is_source Kind.source = true
is_source _ = false

module _ (h : Hashing) where
  -- `Admission.valid`
  unfoldable pub valid_admission : Admission → Bool
  unfolding valid_plan
  valid_admission a =
      let expected = h.stable_id (version_parts a.scope a.document_id a.source.sha256) in
      same_scope a.source.scope a.scope
      && is_source a.source.kind
      && a.document_version_id == expected
      && a.source.object_id == expected
      && leb a.source.byte_size a.profile.max_source_bytes
      && leb 1 (length a.steps)
      && leb (length a.steps) 1000
      && valid_plan [] a.steps

-- SELECT * FROM jobs WHERE scope=? AND request_key=?
abbrev pub job_by_key : Scope → String → Db → Option JobRow
job_by_key scope key db = find (λ j. same_scope j.scope scope && str_eq j.request_key key) db.jobs

-- COALESCE(MAX(generation),0)+1
unfoldable pub next_generation : Scope → Uuid → Db → ℕ
next_generation scope version db =
    or_else (max_of (λ j. j.generation) (select (of_version scope version) db.jobs)) 0 + 1

-- the join of `job_steps` and `jobs` for a document version
abbrev pub step_of_version : Scope → Uuid → Db → StepRow → Bool
step_of_version scope version db s =
    any (λ j. j.job_id == s.job_id && of_version scope version j) db.jobs

-- the execution instant: later than every earlier one of the version
unfoldable pub execution_time : Scope → Uuid → Micros → Db → Micros
execution_time scope version now db =
    elim (max_of (λ s. s.execution_at) (select (step_of_version scope version db) db.steps)) [
      | none ↦ now
      | some last ↦ max now (last + 1)
    ]

module _ (l : Ledger) where
  -- the succeeded steps of the job resumed from, if the requests are compatible
  unfoldable pub reusable_steps : JobRow → Admission → Db → List StepRow
  reusable_steps prior request db =
      if compatibility l.hashing prior.request == compatibility l.hashing request
      then select (λ r. is_succeeded r.state) (steps_of prior.job_id db)
      else []

  -- the job resumed from, and its succeeded steps if they may be reused
  unfoldable pub resume : Admission → Option Uuid → Tx (Option JobRow × List StepRow)
  resume request none = pure (none, [])
  resume request (some id) = do
    prior ← get_job_row request.scope id
    unless (is_terminal prior.state) invalid_transition
    unless
        (prior.request.document_id == request.document_id
          && prior.request.document_version_id == request.document_version_id)
        invalid_transition
    λ db. ok ((some prior, reusable_steps prior request db), db)

  -- the row of the new job
  unfoldable pub new_job_row : Admission → Uuid → Uuid → ℕ → Option JobRow → Micros → JobRow
  new_job_row request job_id run_id generation prior now = record {
    job_id = job_id;
    run_id = run_id;
    scope = request.scope;
    request_key = request.request_idempotency_key;
    fingerprint = digest l.hashing request;
    version_id = request.document_version_id;
    source_key = request.source.key;
    generation = generation;
    request = request;
    created_at = now;
    updated_at = now;
    document_created_at = elim prior [ none ↦ now | some p ↦ p.document_created_at ];
    state = JobState.queued;
    cancel_requested = false;
    progress = no_progress;
    terminal_category = none;
  }

  -- the part of `admit` that creates a job
  unfoldable pub create : Admission → (ℕ → Uuid) → Micros → Tx JobRow
  unfolding new_job_row
  create request uuid now = do
    (prior, reusable) ← resume request request.resume_from
    generation ← λ db. ok (next_generation request.scope request.document_version_id db, db)
    insert_job (new_job_row request (uuid 0) (uuid 1) generation prior now)
    execution ← λ db. ok (execution_time request.scope request.document_version_id now db, db)
    add_steps l.hashing
        (record {
          request = request;
          job_id = uuid 0;
          run_id = uuid 1;
          generation = generation;
          execution = execution;
          now = now;
          reusable = reusable;
        })
        uuid 2 [] request.steps
    job ← get_job_row request.scope (uuid 0)
    activate l job now
    refresh (uuid 0) now
    get_job_row request.scope (uuid 0)

  -- the answer to a request whose key is known
  unfoldable pub answer : Admission → (ℕ → Uuid) → Micros → Option JobRow → Tx JobRow
  answer request uuid now (some job) = do
    unless (job.fingerprint == digest l.hashing request) idempotency_conflict
    pure job
  answer request uuid now none = create request uuid now

  -- `admit`
  unfoldable pub admit : Admission → (ℕ → Uuid) → Micros → Tx JobRow
  unfolding answer
  admit request uuid now = do
    unless (valid_admission l.hashing request) invalid_configuration
    λ db. answer request uuid now (job_by_key request.scope request.request_idempotency_key db) db
