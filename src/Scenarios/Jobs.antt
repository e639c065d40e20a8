-- ===== src/Scenarios/Jobs.antt =====
-- A job with one step, before, during and after its work.
use estudio_polymind_llm_orc.Prelude.{
  inr, String, ℕ, ◌+◌, ◌≤◌, ◌≡◌, refl, Bool, true, false, Option, none, some, List, [], ◌∷◌, All,
  arith,
}
use estudio_polymind_llm_orc.Jobs.Models.{
  Scope, Kind, ObjectRef, JobState, StepState, Stage, StepSpec, RetryPolicy, ProcessingProfile,
  Mime, Admission, Hashing,
}
use estudio_polymind_llm_orc.Jobs.Tables.{
  Db, Ledger, JobRow, StepRow, Progress, empty, is_succeeded,
}
use estudio_polymind_llm_orc.Jobs.Database.{ok, ◌>>=◌, pure, step_of}
use estudio_polymind_llm_orc.Jobs.Leases.{Lease, check_lease}
use estudio_polymind_llm_orc.Jobs.Outbox.{job_by_id, Dispatch}
use estudio_polymind_llm_orc.Jobs.Progression.{progress_of, refreshed_state}
use estudio_polymind_llm_orc.Jobs.History.{
  Call, claim_call, cancel_call, reconcile_call, call, replay,
}
use estudio_polymind_llm_orc.Jobs.Evolution.{IsKeyed, Moves}
use estudio_polymind_llm_orc.Jobs.Evolution.Histories.{call-Moves}
use estudio_polymind_llm_orc.Jobs.Evolution.Durable.{
  replay-settled, replay-terminal, replay-fence, replay-stale_lease,
}
use estudio_polymind_llm_orc.Jobs.Progress.{progress_of-total, refreshed_state-completed}
use estudio_polymind_llm_orc.Jobs.Delay.{retry_at-within}
use estudio_polymind_llm_orc.Jobs.Errors.{Failure, retryable, non_retryable}
use estudio_polymind_llm_orc.Jobs.Failing.{retry_at}
use estudio_polymind_llm_orc.Jobs.Worker.{Surroundings, QueueAfter, once, once-QueueAfter}

abbrev hashes : Hashing
hashes = record { fingerprint = λ _. 7; stable_id = λ _. 50 }

abbrev pub the_ledger : Ledger
the_ledger = record {
  lease_micros = 60000000;
  redelivery_micros = 30000000;
  orphan_grace_micros = 1000000;
  hashing = hashes;
}

abbrev pub alice : Scope
alice = record { tenant = 1; owner = 2 }

abbrev retry : RetryPolicy
retry = record {
  max_attempts = 3;
  base_micros = 1000000;
  max_micros = 60000000;
  budget_micros = 3600000000;
  jitter = 100000;
}

abbrev profile : ProcessingProfile
profile = record {
  version = "profile/1";
  parser_version = "utf8-strict/1";
  max_source_bytes = 1000;
  max_pages = 10;
  max_characters = 1000;
  max_blocks = 10;
  max_artifact_bytes = 1000;
  structure_required = false;
  retry = retry;
}

abbrev source : ObjectRef
source = record {
  scope = alice;
  kind = Kind.source;
  object_id = 50;
  key = 50;
  sha256 = 60;
  byte_size = 10;
}

abbrev extract_text : StepSpec
extract_text = record {
  unit_id = "extract";
  stage = Stage.extracting;
  schema_version = "extraction/1";
  config_fingerprint = 7;
  depends_on = [];
}

abbrev pub request : Admission
request = record {
  scope = alice;
  document_id = 40;
  document_version_id = 50;
  source = source;
  request_idempotency_key = "request-1";
  display_filename = "notes.txt";
  mime = Mime.text_plain;
  profile = profile;
  steps = extract_text ∷ [];
  resume_from = none;
}

abbrev pub the_progress : Progress
the_progress = record {
  total = 1;
  completed = 1;
  running = 0;
  retrying = 0;
  failed = 0;
  cancelled = 0;
  pending = 0;
  current_stage = none;
}

abbrev pub the_job : JobState → JobRow
the_job state = record {
  job_id = 100;
  run_id = 101;
  scope = alice;
  request_key = "request-1";
  fingerprint = 7;
  version_id = 50;
  source_key = 50;
  generation = 1;
  request = request;
  created_at = 1000;
  updated_at = 1000;
  document_created_at = 1000;
  state = state;
  cancel_requested = false;
  progress = the_progress;
  terminal_category = none;
}

abbrev held_by : Option ℕ → Option String
held_by none = none
held_by (some t) = some "worker-b"

abbrev pub the_step : StepState → ℕ → Option ℕ → StepRow
the_step state fence expires = record {
  step_id = 102;
  job_id = 100;
  spec = extract_text;
  step_key = 7;
  input_fingerprint = 7;
  execution_at = 1000;
  state = state;
  attempt_count = fence;
  fence = fence;
  lease_owner = held_by expires;
  lease_expires_at = expires;
  not_before = 1000;
  started_at = some 1000;
  finished_at = none;
  failure_category = none;
  reused_from = none;
}

abbrev with_rows : JobRow → StepRow → Db
with_rows j r = record empty { jobs = j ∷ []; steps = r ∷ [] }

-- the job is done
abbrev done_db : Db
done_db = with_rows (the_job JobState.completed) (the_step StepState.succeeded 1 none)

-- a second worker holds the step
abbrev held_db : Db
held_db = with_rows (the_job JobState.extracting) (the_step StepState.running 2 (some 90000000))

with_rows-IsKeyed : (j : JobRow) (r : StepRow) → IsKeyed (with_rows j r)
with_rows-IsKeyed j r = record { steps = (tt, tt); jobs = (tt, tt) }

-- the calls that follow: a claim, a repair whose commit fails, and a cancellation
abbrev later_calls : List (Bool × Bool × Call)
later_calls =
    (true, true, claim_call alice 100 102 "worker-c" 2000)
    ∷ (true, false, reconcile_call 100 3000)
    ∷ (true, true, cancel_call alice 100 4000)
    ∷ []

call-Moves_example :
    Moves held_db (call the_ledger true true (cancel_call alice 100 4000) held_db).1
call-Moves_example =
    call-Moves the_ledger true true (cancel_call alice 100 4000) held_db (
      with_rows-IsKeyed (the_job JobState.extracting)
        (the_step StepState.running 2 (some 90000000)))

replay-settled_example :
    step_of 100 102 (replay the_ledger later_calls done_db)
    ≡ some (the_step StepState.succeeded 1 none)
unfolding step_of
replay-settled_example =
    replay-settled the_ledger later_calls done_db 100 102
      (with_rows-IsKeyed (the_job JobState.completed) (the_step StepState.succeeded 1 none)) refl
      refl

replay-terminal_example :
    (k : JobRow) × (job_by_id 100 (replay the_ledger later_calls done_db) ≡ some k)
    × (k.state ≡ JobState.completed)
    × (k.request ≡ request)
replay-terminal_example =
    replay-terminal the_ledger later_calls done_db 100 {j = the_job JobState.completed}
      (with_rows-IsKeyed (the_job JobState.completed) (the_step StepState.succeeded 1 none)) refl
      refl

replay-fence_example :
    (s : StepRow) × (step_of 100 102 (replay the_ledger later_calls held_db) ≡ some s)
    × (2 ≤ s.fence)
    × (s.spec ≡ extract_text)
unfolding step_of
replay-fence_example =
    replay-fence the_ledger later_calls held_db 100 102
      {r = the_step StepState.running 2 (some 90000000)}
      (with_rows-IsKeyed (the_job JobState.extracting)
        (the_step StepState.running 2 (some 90000000)))
      refl

-- the lease of the first worker
abbrev old_lease : Lease
old_lease = record { scope = alice; job_id = 100; step_id = 102; owner = "worker-a"; fence = 1 }

replay-stale_lease_example : ¬ (
    (check_lease old_lease 5000 false >>= λ _. pure tt) (replay the_ledger later_calls held_db)
    ≡ ok (tt, held_db))
unfolding step_of
replay-stale_lease_example =
    replay-stale_lease the_ledger later_calls held_db old_lease false 5000 (λ _. pure tt)
      {r = the_step StepState.running 2 (some 90000000)}
      (with_rows-IsKeyed (the_job JobState.extracting)
        (the_step StepState.running 2 (some 90000000)))
      refl (omega arith)

progress_of-total_example :
    (progress_of (done_db.steps)).completed
      + (progress_of (done_db.steps)).running
      + (progress_of (done_db.steps)).retrying
      + (progress_of (done_db.steps)).failed
      + (progress_of (done_db.steps)).cancelled
      + (progress_of (done_db.steps)).pending
    ≡ (progress_of (done_db.steps)).total
progress_of-total_example = progress_of-total done_db.steps

refreshed_state-completed_example :
    (◌≡◌ {A = Bool} false false) × All (λ (r : StepRow). is_succeeded r.state ≡ true) done_db.steps
unfolding refreshed_state
refreshed_state-completed_example =
    refreshed_state-completed JobState.queued false done_db.steps refl refl

-- a failure that asks for a pause of 90 seconds
abbrev overloaded : Failure
overloaded = record {
  category = "overloaded";
  classification = retryable;
  retry_after = some 90000000;
}

retry_at-within_example :
    (5000 + 90000000
      ≤ retry_at the_ledger
          (the_job JobState.extracting)
          (the_step StepState.running 2 (some 90000000))
          overloaded
          5000)
    × (retry_at the_ledger
          (the_job JobState.extracting)
          (the_step StepState.running 2 (some 90000000))
          overloaded
          5000
        ≤ 5000 + 90000000)
retry_at-within_example =
    retry_at-within the_ledger (the_job JobState.extracting)
      (the_step StepState.running 2 (some 90000000)) overloaded 5000

-- a worker whose handler writes nothing and returns no object
abbrev surroundings : Surroundings
surroundings = record {
  opened = λ _. true;
  committed = λ _. true;
  clock = λ n. 5000 + n;
  handler = λ job step lease db. (inr [], db);
  inspect = λ _ _. none;
  classifier = λ e. record {
    category = "worker_failed";
    classification = non_retryable;
    retry_after = none;
  };
}

abbrev a_message : Dispatch
a_message = record { dispatch_id = 1; scope = alice; job_id = 100; step_id = 102 }

once-QueueAfter_example :
    QueueAfter
      (once the_ledger surroundings "worker-c" held_db (a_message ∷ [])).0
      (a_message ∷ [])
      (once the_ledger surroundings "worker-c" held_db (a_message ∷ [])).2
once-QueueAfter_example =
    once-QueueAfter the_ledger surroundings "worker-c" held_db (a_message ∷ [])
