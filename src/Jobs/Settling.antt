-- ===== src/Jobs/Settling.antt =====
-- `fail`, `settle_cancel`, `cancel`, `register_object` and `commit` of documents/jobs/sqlite.py.
use estudio_polymind_llm_orc.Prelude.{
  Bool, true, false, not, ◌&&◌, Option, none, some, List, [], ◌∷◌, ◌++◌, ◌==◌, str_eq, leb, length,
  find, any, all, map, update, if◌then◌else◌,
}
use estudio_polymind_llm_orc.Jobs.Models.{
  Uuid, Micros, Scope, same_scope, Kind, ObjectRef, same_ref, same_refs, is_terminal, StepState,
  valid_key,
}
use estudio_polymind_llm_orc.Jobs.Errors.{Failure, sanitized, is_cancellation}
use estudio_polymind_llm_orc.Jobs.Tables.{
  Db, Ledger, JobRow, StepRow, Intent, Outcome, is_succeeded,
}
use estudio_polymind_llm_orc.Jobs.Database.{
  Tx, ok, err, ◌>>=◌, ◌>>◌, pure, modify, unless, get_job_row, get_step_row, ledger_error,
  check_manifest, stale_fence, invalid_transition, manifest_conflict, scope_mismatch,
}
use estudio_polymind_llm_orc.Jobs.Progression.{refresh, activate}
use estudio_polymind_llm_orc.Jobs.Failing.{cancel_step, cancel_job, fail_step}
use estudio_polymind_llm_orc.Jobs.Leases.{Lease, check_lease}

-- `settle_cancel`
unfoldable pub settle_cancel : Lease → Micros → Tx (Unit {0})
settle_cancel lease now = do
  (job, row) ← check_lease lease now true
  unless job.cancel_requested invalid_transition
  modify (cancel_step now row.step_id)
  refresh lease.job_id now

-- `cancel`, and the row of the job after it
unfoldable pub cancel : Scope → Uuid → Micros → Tx JobRow
cancel scope job_id now = do
  job ← get_job_row scope job_id
  if is_terminal job.state
      then pure job
      else do modify (cancel_job job.job_id now); refresh job_id now; get_job_row scope job_id

-- the intent of a step for an object
abbrev pub intent_of : Uuid → Uuid → Db → Option Intent
intent_of step_id key db = find (λ i. i.step_id == step_id && i.object_key == key) db.intents

-- a second intent for one object must name the same reference
abbrev pub agrees : Option Intent → ObjectRef → Bool
agrees none ref = true
agrees (some i) ref = same_ref i.ref ref

-- INSERT OR IGNORE INTO object_intents
unfoldable pub add_intent : Uuid → ObjectRef → Micros → Tx (Unit {0})
add_intent step_id ref now db =
    if agrees (intent_of step_id ref.key db) ref
    then ok (
      tt,
      (elim (intent_of step_id ref.key db) [
        | some i ↦ db
        | none ↦ record db {
          intents =
              db.intents
              ++ record { step_id = step_id; object_key = ref.key; ref = ref; created_at = now }
                ∷ [];
        }
      ]),
    )
    else err manifest_conflict

-- the test of one reference against its intent
abbrev pub is_registered : Uuid → Db → ObjectRef → Bool
is_registered step_id db ref = elim (intent_of step_id ref.key db) [
  | none ↦ false
  | some i ↦ same_ref i.ref ref
]

-- len({r.key for r in refs}) == len(refs)
abbrev pub distinct_keys : List ObjectRef → Bool
distinct_keys [] = true
distinct_keys (r ∷ rs) = not (any (λ s. s.key == r.key) rs) && distinct_keys rs

abbrev pub is_artifact : Kind → Bool
is_artifact Kind.artifact = true
is_artifact _ = false

-- `attempt[0] == lease.owner` for the attempt of the lease's fence
abbrev pub worked_by : Lease → Db → Bool
worked_by lease db =
    elim (find (λ a. a.step_id == lease.step_id && a.fence == lease.fence) db.attempts) [
      | none ↦ false
      | some a ↦ str_eq a.worker lease.owner
    ]

-- `commit` of a step that has succeeded already: only a repetition is accepted. The subscript of
-- a missing manifest row is a TypeError.
unfoldable pub commit_again : Lease → List ObjectRef → StepRow → Tx StepRow
commit_again lease refs row db = elim (find (λ m. m.step_id == lease.step_id) db.manifests) [
  | none ↦ err ledger_error
  | some prior ↦
      if prior.fence == lease.fence && worked_by lease db
      then if same_refs prior.manifest refs then ok (row, db) else err manifest_conflict
      else err stale_fence
]

-- the columns that a commit sets on the step
abbrev pub succeeded_row : Micros → StepRow → StepRow
succeeded_row now r = record r {
  state = StepState.succeeded;
  finished_at = some now;
  lease_owner = none;
  lease_expires_at = none;
}

-- the INSERTs and UPDATEs of a commit
unfoldable pub write_commit : Lease → List ObjectRef → Micros → Db → Db
write_commit lease refs now db = record db {
  manifests =
      db.manifests
      ++ record {
        step_id = lease.step_id;
        manifest = refs;
        committed_at = now;
        fence = lease.fence;
      }
        ∷ [];
  objects = db.objects ++ map (λ r. (lease.step_id, r.key)) refs;
  steps = update (λ r. r.step_id == lease.step_id) (succeeded_row now) db.steps;
  attempts =
      update (λ a. a.step_id == lease.step_id && a.fence == lease.fence)
        (λ a. record a { outcome = Outcome.succeeded; finished_at = some now }) db.attempts;
}

-- `intent` lookups of `commit`: every reference was registered under the step
unfoldable pub check_intents : Uuid → List ObjectRef → Tx (Unit {0})
check_intents step_id refs db = unless (all (is_registered step_id db) refs) manifest_conflict db

module _ (l : Ledger) where
  -- `fail`
  unfoldable pub fail : Lease → Failure → Micros → Tx (Unit {0})
  fail lease failure now = do
    (job, row) ← check_lease lease now false
    if is_cancellation failure.classification
        then (do
          modify (cancel_job job.job_id now)
          modify (cancel_step now row.step_id)
          refresh row.job_id now)
        else fail_step l job row (sanitized failure) now

  -- `register_object`
  unfoldable pub register_object : Lease → ObjectRef → Micros → Tx (Unit {0})
  register_object lease ref now = do
    unless (valid_key l.hashing ref) manifest_conflict
    unless (same_scope ref.scope lease.scope) scope_mismatch
    check_lease lease now false
    add_intent lease.step_id ref now

  -- the validation of a manifest before the transaction
  unfoldable pub valid_manifest : Lease → List ObjectRef → Bool
  valid_manifest lease refs =
      all (valid_key l.hashing) refs
      && leb 1 (length refs)
      && leb (length refs) 1000
      && distinct_keys refs
      && all (λ r. same_scope r.scope lease.scope && is_artifact r.kind) refs

  -- the first commit of a step
  unfoldable pub commit_first : Lease → List ObjectRef → JobRow → Micros → Tx StepRow
  commit_first lease refs job now = do
    check_lease lease now false
    check_intents lease.step_id refs
    check_manifest lease.step_id refs
    modify (write_commit lease refs now)
    activate l job now
    refresh lease.job_id now
    get_step_row lease.job_id lease.step_id

  -- `commit`, and the row of the step after it
  unfoldable pub commit : Lease → List ObjectRef → Micros → Tx StepRow
  commit lease refs now = do
    unless (valid_manifest lease refs) manifest_conflict
    job ← get_job_row lease.scope lease.job_id
    row ← get_step_row lease.job_id lease.step_id
    if is_succeeded row.state then commit_again lease refs row else commit_first lease refs job now
