-- ===== src/Jobs/Leases.antt =====
-- `_check_lease`, `claim` and `renew` of documents/jobs/sqlite.py: a lease names its step by a
-- fence, and each claim takes the next fence.
use estudio_polymind_llm_orc.Prelude.{
  ℕ, ◌+◌, String, Bool, false, not, ◌&&◌, ◌||◌, any, Option, none, some, [], ◌∷◌, ◌++◌, ◌==◌,
  str_eq, ltb, leb, or_else, if◌then◌else◌,
}
use estudio_polymind_llm_orc.Jobs.Models.{Uuid, Micros, Scope, is_terminal, StepState, is_token}
use estudio_polymind_llm_orc.Jobs.Errors.{Failure, retryable, non_retryable}
use estudio_polymind_llm_orc.Jobs.Tables.{
  Ledger, JobRow, StepRow, AttemptRow, Outcome, is_running, is_claimable,
}
use estudio_polymind_llm_orc.Jobs.Database.{
  Tx, ◌>>=◌, ◌>>◌, pure, raise, modify, unless, get_job_row, get_step_row, update_step,
  ledger_error, invalid_configuration, stale_fence, invalid_transition, cancelled, lease_expired,
}
use estudio_polymind_llm_orc.Jobs.Progression.{refresh}
use estudio_polymind_llm_orc.Jobs.Failing.{terminal_failure, fail_step}

-- `Lease`
pub record Lease : Type 0 where
  pub scope : Scope
  pub job_id : Uuid
  pub step_id : Uuid
  pub owner : String
  pub fence : ℕ

-- row['lease_owner'] == owner
abbrev pub owned_by : Option String → String → Bool
owned_by none owner = false
owned_by (some o) owner = str_eq o owner

-- row['lease_expires_at'] <= now; a comparison with NULL is a TypeError
abbrev pub expired : Option Micros → Micros → Tx Bool
expired none now = raise ledger_error
expired (some t) now = pure (leb t now)

-- the tests of `_check_lease` that a lease which settles a cancellation skips
unfoldable pub check_live : Micros → JobRow → StepRow → Tx (Unit {0})
check_live now job row = do
  unless (not job.cancel_requested) cancelled
  unless (not (is_terminal job.state)) invalid_transition
  late ← expired row.lease_expires_at now
  unless (not late) lease_expired

-- the tests of `_check_lease` on the two rows
unfoldable pub check_rows : Lease → Micros → Bool → JobRow → StepRow → Tx (Unit {0})
check_rows lease now settling job row = do
  unless (row.fence == lease.fence && owned_by row.lease_owner lease.owner) stale_fence
  unless (is_running row.state) invalid_transition
  if settling then pure tt else check_live now job row

-- `_check_lease`
unfoldable pub check_lease : Lease → Micros → Bool → Tx (JobRow × StepRow)
check_lease lease now settling = do
  job ← get_job_row lease.scope lease.job_id
  row ← get_step_row lease.job_id lease.step_id
  check_rows lease now settling job row
  pure (job, row)

-- the columns that a claim sets
abbrev pub claimed_row : String → Micros → Micros → StepRow → StepRow → StepRow
claimed_row owner expires now row r = record r {
  state = StepState.running;
  attempt_count = row.attempt_count + 1;
  fence = row.fence + 1;
  lease_owner = some owner;
  lease_expires_at = some expires;
  started_at = some (or_else r.started_at now);
  failure_category = none;
}

-- the column that a renewal sets
abbrev pub renewed_row : Micros → StepRow → StepRow
renewed_row expires r = record r { lease_expires_at = some expires }

abbrev pub interrupted : Failure
interrupted = record {
  category = "worker_interrupted";
  classification = retryable;
  retry_after = none;
}

-- `row['started_at'] and now >= started_at + budget`
abbrev pub budget_spent : Option Micros → Micros → Micros → Bool
budget_spent none budget now = false
budget_spent (some started) budget now = leb (started + budget) now

-- a row of `step_attempts` that an attempt meets in a PRIMARY KEY or UNIQUE constraint
abbrev pub attempt_clashes : AttemptRow → AttemptRow → Bool
attempt_clashes a b = b.step_id == a.step_id && (b.number == a.number || b.fence == a.fence)

-- INSERT INTO step_attempts under its constraints
unfoldable pub insert_attempt : AttemptRow → Tx (Unit {0})
insert_attempt a db =
    (unless (not (any (attempt_clashes a) db.attempts)) ledger_error
        >> modify (λ d. record d { attempts = d.attempts ++ a ∷ [] }))
      db

abbrev pub new_attempt : StepRow → String → Micros → AttemptRow
new_attempt row owner now = record {
  step_id = row.step_id;
  number = row.attempt_count + 1;
  worker = owner;
  fence = row.fence + 1;
  started_at = now;
  finished_at = none;
  outcome = Outcome.running;
  category = none;
  classification = none;
  not_before = none;
}

module _ (l : Ledger) where
  -- the writes of a claim that is granted
  unfoldable pub grant : Scope → JobRow → StepRow → String → Micros → Tx (Option Lease)
  grant scope job row owner now = do
    modify (update_step row.step_id (claimed_row owner (now + l.lease_micros) now row))
    insert_attempt (new_attempt row owner now)
    refresh job.job_id now
    pure (
        some (record {
          scope = scope;
          job_id = job.job_id;
          step_id = row.step_id;
          owner = owner;
          fence = row.fence + 1;
        }))

  -- the part of `claim` behind the expiry test, on the row read again
  unfoldable pub claim_row : Scope → JobRow → StepRow → String → Micros → Tx (Option Lease)
  claim_row scope job row owner now =
      if not (is_claimable row.state) || ltb now row.not_before
      then pure none
      else if budget_spent row.started_at job.request.profile.retry.budget_micros now
      then (do
        modify (terminal_failure row "retry_exhausted" non_retryable now)
        refresh job.job_id now
        pure none)
      else grant scope job row owner now

  -- a running step whose lease has expired fails before it may be claimed again
  unfoldable pub recover : JobRow → StepRow → Micros → Tx (Unit {0})
  recover job row now =
      if is_running row.state
      then (do
        late ← expired row.lease_expires_at now
        if late then fail_step l job row interrupted now else pure tt)
      else pure tt

  -- `claim`
  unfoldable pub claim : Scope → Uuid → Uuid → String → Micros → Tx (Option Lease)
  claim scope job_id step_id owner now = do
    unless (is_token owner) invalid_configuration
    job ← get_job_row scope job_id
    row ← get_step_row job_id step_id
    if job.cancel_requested || is_terminal job.state then pure none else do
      recover job row now
      row' ← get_step_row job_id step_id
      claim_row scope job row' owner now

  -- `renew`
  unfoldable pub renew : Lease → Micros → Tx (Unit {0})
  renew lease now = do
    check_lease lease now false
    modify (update_step lease.step_id (renewed_row (now + l.lease_micros)))
