-- ===== src/Jobs/Failing.antt =====
-- `_cancel_step`, `_cancel_job`, `_terminal_failure` and `_failure` of documents/jobs/sqlite.py.
use estudio_polymind_llm_orc.Prelude.{
  ◌+◌, max, Bool, true, false, ◌&&◌, none, some, List, [], ◌∷◌, ◌++◌, ◌==◌, ltb, any, select,
  update, or_else, if◌then◌else◌, String,
}
use estudio_polymind_llm_orc.Jobs.Models.{Uuid, Micros, JobState, StepState, delay}
use estudio_polymind_llm_orc.Jobs.Errors.{Failure, Classification, is_retryable}
use estudio_polymind_llm_orc.Jobs.Tables.{
  Db, Ledger, JobRow, StepRow, AttemptRow, DeadLetter, Outcome, is_waiting, is_open,
}
use estudio_polymind_llm_orc.Jobs.Database.{
  Tx, raise, ledger_error, update_step, update_job, enqueue,
}
use estudio_polymind_llm_orc.Jobs.Progression.{refresh}

-- the columns that `_cancel_step` sets
abbrev pub cancelled_row : Micros → StepRow → StepRow
cancelled_row now r = record r {
  state = StepState.cancelled;
  finished_at = some now;
  failure_category = some "cancelled";
  lease_owner = none;
  lease_expires_at = none;
}

abbrev pub is_running_outcome : Outcome → Bool
is_running_outcome Outcome.running = true
is_running_outcome _ = false

-- the columns of the attempt that was running
abbrev pub cancelled_attempt : Micros → AttemptRow → AttemptRow
cancelled_attempt now a = record a {
  outcome = Outcome.cancelled;
  finished_at = some now;
  category = some "cancelled";
  classification = some Classification.cancelled;
}

-- `_cancel_step`
unfoldable pub cancel_step : Micros → Uuid → Db → Db
cancel_step now step_id db = record db {
  steps = update (λ r. r.step_id == step_id) (cancelled_row now) db.steps;
  attempts =
      update (λ a. a.step_id == step_id && is_running_outcome a.outcome) (cancelled_attempt now)
        db.attempts;
}

-- `for row in list(…): self._cancel_step(db, row, now)`
unfoldable pub cancel_steps : Micros → List StepRow → Db → Db
cancel_steps now [] db = db
cancel_steps now (r ∷ rs) db = cancel_steps now rs (cancel_step now r.step_id db)

-- the columns that `_cancel_job` sets on the job
abbrev pub cancelling_row : JobRow → JobRow
cancelling_row j = record j { cancel_requested = true; state = JobState.cancel_requested }

-- `_cancel_job`
unfoldable pub cancel_job : Uuid → Micros → Db → Db
cancel_job job_id now db =
    let db' = update_job job_id cancelling_row db in
    cancel_steps now (select (λ r. r.job_id == job_id && is_waiting r.state) db'.steps) db'

-- INSERT OR IGNORE INTO dead_letters
abbrev pub add_dead_letter : DeadLetter → List DeadLetter → List DeadLetter
add_dead_letter d ds = if any (λ e. e.step_id == d.step_id) ds then ds else ds ++ d ∷ []

-- the columns that `_terminal_failure` sets on the step
abbrev pub failed_row : String → Micros → StepRow → StepRow
failed_row category now r = record r {
  state = StepState.failed;
  finished_at = some now;
  failure_category = some category;
  lease_owner = none;
  lease_expires_at = none;
}

-- the UPDATE of the step and the dead letter of `_terminal_failure`
abbrev pub bury : StepRow → String → Classification → Micros → Db → Db
bury row category classification now db = record db {
  steps = update (λ r. r.step_id == row.step_id) (failed_row category now) db.steps;
  dead_letters =
      add_dead_letter
        (record {
          step_id = row.step_id;
          category = category;
          classification = classification;
          created_at = now;
        })
        db.dead_letters;
}

-- the columns that `_terminal_failure` sets on the job
abbrev pub failed_job_row : String → JobRow → JobRow
failed_job_row category j = record j { state = JobState.failed; terminal_category = some category }

abbrev pub fail_job : Uuid → String → Db → Db
fail_job job_id category = update_job job_id (failed_job_row category)

-- `_terminal_failure`: the step and its job fail, and every other open step of the job is cancelled
unfoldable pub terminal_failure : StepRow → String → Classification → Micros → Db → Db
terminal_failure row category classification now db =
    let db' = fail_job row.job_id category (bury row category classification now db) in
    cancel_steps now (select (λ r. r.job_id == row.job_id && is_open r.state) db'.steps) db'

-- the columns that a retry sets on the step
abbrev pub waiting_row : String → Micros → StepRow → StepRow
waiting_row category retry_at r = record r {
  state = StepState.retry_wait;
  not_before = retry_at;
  failure_category = some category;
  lease_owner = none;
  lease_expires_at = none;
}

-- the UPDATE of the attempt
unfoldable pub record_attempt : StepRow → Failure → Bool → Micros → Micros → Db → Db
record_attempt row failure retry later now db = record db {
  attempts =
      update (λ a. a.step_id == row.step_id && a.fence == row.fence)
        (λ a. record a {
          outcome = if retry then Outcome.retry_wait else Outcome.failed;
          finished_at = some now;
          category = some failure.category;
          classification = some failure.classification;
          not_before = if retry then some later else none;
        })
        db.attempts;
}

-- the category that the step keeps: a retryable failure past its limits is `retry_exhausted`
unfoldable pub kept_category : Failure → Bool → String
kept_category failure retry =
    if retry
    then failure.category
    else if is_retryable failure.classification
    then "retry_exhausted"
    else failure.category

unfoldable pub settle_failure : StepRow → Failure → Bool → Micros → Micros → Db → Db
settle_failure row failure retry later now db =
    if retry
    then enqueue row.step_id now later
        (update_step row.step_id (waiting_row (kept_category failure retry) later) db)
    else terminal_failure row (kept_category failure retry) failure.classification now db

module _ (l : Ledger) where
  -- the instant of the next attempt
  unfoldable pub retry_at : JobRow → StepRow → Failure → Micros → Micros
  retry_at job row failure now =
      now
      + max (delay l.hashing job.request.profile.retry row.step_key (max row.attempt_count 1))
          (or_else failure.retry_after 0)

  -- the test of `_failure`, for a step that started at `started`
  unfoldable pub may_retry : JobRow → StepRow → Failure → Micros → Micros → Bool
  unfolding retry_at
  may_retry job row failure started now =
      is_retryable failure.classification
      && ltb row.attempt_count job.request.profile.retry.max_attempts
      && ltb (retry_at job row failure now) (started + job.request.profile.retry.budget_micros)

  -- `_failure` for a step that started at `started`
  unfoldable pub fail_started : JobRow → StepRow → Failure → Micros → Micros → Tx (Unit {0})
  unfolding may_retry retry_at record_attempt settle_failure kept_category
  fail_started job row failure started now db =
      let retry = may_retry job row failure started now in
      let later = retry_at job row failure now in
      refresh row.job_id now
        (settle_failure row failure retry later now (record_attempt row failure retry later now db))

  -- `_failure`; the time of a NULL `started_at` is a TypeError
  unfoldable pub fail_step : JobRow → StepRow → Failure → Micros → Tx (Unit {0})
  unfolding fail_started
  fail_step job row failure now = elim row.started_at [
    | none ↦ raise ledger_error
    | some started ↦ fail_started job row failure started now
  ]
