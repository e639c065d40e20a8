-- ===== src/Scenarios/Retries.antt =====
-- A step that failed once, claimed again.
use estudio_polymind_llm_orc.Prelude.{◌+◌, ◌≡◌, refl, Bool, true, none, some, List, [], ◌∷◌, arith}
use estudio_polymind_llm_orc.Jobs.Models.{JobState, StepState}
use estudio_polymind_llm_orc.Jobs.Errors.{Failure, retryable}
use estudio_polymind_llm_orc.Jobs.Tables.{Db, JobRow, StepRow, empty}
use estudio_polymind_llm_orc.Jobs.Database.{ok}
use estudio_polymind_llm_orc.Jobs.Leases.{Lease}
use estudio_polymind_llm_orc.Jobs.History.{Call, admit_call, claim_call, fail_call}
use estudio_polymind_llm_orc.Jobs.Claiming.{EarlierAttempts}
use estudio_polymind_llm_orc.Jobs.Evolution.Attempts.{replay-EarlierAttempts, replay-claim}
use estudio_polymind_llm_orc.Scenarios.Jobs.{
  the_ledger, alice, request, the_job, the_step, the_progress,
}
use estudio_polymind_llm_orc.Jobs.Database.{
  transaction, job_of, get_job_row, step_of, get_step_row, manifest_of, check_manifest, enqueue,
}
use estudio_polymind_llm_orc.Jobs.Planning.{
  insert_job, insert_step, copy_manifest, reused, planned_row, reused_row, add_row, add_step,
  add_steps,
}
use estudio_polymind_llm_orc.Jobs.Admit.{
  valid_plan, valid_admission, next_generation, execution_time, reusable_steps, resume, new_job_row,
  create, answer, admit,
}
use estudio_polymind_llm_orc.Jobs.Progression.{
  progress_of, refreshed_state, refreshed, refresh, parents_succeeded, parent_manifests, make_ready,
  ready_inputs, ready_key, try_ready, activate_row, activate_rows, activate,
}
use estudio_polymind_llm_orc.Jobs.Leases.{
  check_live, check_rows, check_lease, insert_attempt, grant, claim_row, recover, claim, renew,
}
use estudio_polymind_llm_orc.Jobs.Failing.{
  cancel_step, cancel_steps, cancel_job, terminal_failure, record_attempt, kept_category,
  settle_failure, retry_at, may_retry, fail_started, fail_step,
}
use estudio_polymind_llm_orc.Jobs.Settling.{fail}
use estudio_polymind_llm_orc.Jobs.Errors.{raise_job_error, sanitized, classify}
use estudio_polymind_llm_orc.Jobs.Models.{is_token, delay, digest, compatibility, valid_key}
use estudio_polymind_llm_orc.Jobs.History.{body, call, replay}

abbrev first_lease : Lease
first_lease = record { scope = alice; job_id = 100; step_id = 102; owner = "worker-a"; fence = 1 }

abbrev failed_once : Failure
failed_once = record {
  category = "worker_interrupted";
  classification = retryable;
  retry_after = none;
}

-- a job is admitted, and the first attempt at its step fails
abbrev retried_calls : List (Bool × Bool × Call)
retried_calls =
    (true, true, admit_call request (λ n. 100 + n) 1000)
    ∷ (true, true, claim_call alice 100 102 "worker-a" 2000)
    ∷ (true, true, fail_call first_lease failed_once 3000)
    ∷ []

abbrev retried_step : StepRow
retried_step = record (the_step StepState.retry_wait 1 none) {
  not_before = 1003000;
  started_at = some 2000;
  failure_category = some "worker_interrupted";
}

abbrev retried_job : JobRow
retried_job = record (the_job JobState.queued) {
  updated_at = 3000;
  progress = record the_progress { completed = 0; retrying = 1 };
}

retried_step-found : step_of 100 102 (replay the_ledger retried_calls empty) ≡ some retried_step
unfolding transaction job_of get_job_row step_of get_step_row manifest_of check_manifest enqueue
    insert_job insert_step copy_manifest reused planned_row reused_row add_row add_step add_steps
    valid_plan valid_admission next_generation execution_time reusable_steps resume new_job_row
    create answer admit progress_of refreshed_state refreshed refresh parents_succeeded
    parent_manifests make_ready ready_inputs ready_key try_ready activate_row activate_rows activate
    check_live check_rows check_lease insert_attempt grant claim_row recover claim renew cancel_step
    cancel_steps cancel_job terminal_failure record_attempt kept_category settle_failure retry_at
    may_retry fail_started fail_step fail raise_job_error sanitized classify is_token delay digest
    compatibility valid_key body call replay
retried_step-found = refl

retried_job-found : job_of alice 100 (replay the_ledger retried_calls empty) ≡ some retried_job
unfolding transaction job_of get_job_row step_of get_step_row manifest_of check_manifest enqueue
    insert_job insert_step copy_manifest reused planned_row reused_row add_row add_step add_steps
    valid_plan valid_admission next_generation execution_time reusable_steps resume new_job_row
    create answer admit progress_of refreshed_state refreshed refresh parents_succeeded
    parent_manifests make_ready ready_inputs ready_key try_ready activate_row activate_rows activate
    check_live check_rows check_lease insert_attempt grant claim_row recover claim renew cancel_step
    cancel_steps cancel_job terminal_failure record_attempt kept_category settle_failure retry_at
    may_retry fail_started fail_step fail raise_job_error sanitized classify is_token delay digest
    compatibility valid_key body call replay
retried_job-found = refl

replay-EarlierAttempts_example :
    EarlierAttempts retried_step (replay the_ledger retried_calls empty).attempts
replay-EarlierAttempts_example =
    replay-EarlierAttempts the_ledger retried_calls 100 102 {row = retried_step} retried_step-found

replay-claim_example :
    (lease : Lease) × (db' : Db) × (claim the_ledger alice 100 102 "worker-c" 2000000
        (replay the_ledger retried_calls empty)
      ≡ ok (some lease, db'))
    × (lease.step_id ≡ 102)
    × (lease.fence ≡ 2)
unfolding is_token
replay-claim_example =
    replay-claim the_ledger retried_calls alice 100 102 "worker-c" 2000000 retried_job retried_step
      refl retried_job-found retried_step-found refl refl refl (omega arith) refl
