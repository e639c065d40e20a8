-- ===== src/Jobs/Progression.antt =====
-- `_refresh` and `_activate` of documents/jobs/sqlite.py: the progress and state that a job shows,
-- and the steps that become ready once what they depend on has succeeded.
use estudio_polymind_llm_orc.Prelude.{
  any, not, ◌&&◌, ℕ, ◌+◌, String, Bool, true, false, Option, none, some, List, [], ◌∷◌, ◌==◌, ltb,
  str_eq, find, count, length, if◌then◌else◌,
}
use estudio_polymind_llm_orc.Jobs.Models.{
  Uuid, Digest, Micros, ObjectRef, JobState, is_terminal, StepState, Stage, stage_state,
  compatibility, inputs_of, step_key_of,
}
use estudio_polymind_llm_orc.Jobs.Tables.{
  Db, Ledger, JobRow, StepRow, Progress, is_pending, is_ready, is_running, is_retry_wait,
  is_succeeded, is_failed, is_cancelled,
}
use estudio_polymind_llm_orc.Jobs.Database.{
  Tx, ok, err, ◌>>=◌, ◌>>◌, pure, raise, ledger_error, uncaught, steps_of, update_step, update_job,
  manifest_of, enqueue,
}

abbrev pub in_state : (StepState → Bool) → List StepRow → ℕ
in_state test = count (λ r. test r.state)

-- the stage of the first running step
abbrev pub current_stage : List StepRow → Option Stage
current_stage rows = elim (find (λ r. is_running r.state) rows) [
  | none ↦ none
  | some r ↦ some r.spec.stage
]

unfoldable pub progress_of : List StepRow → Progress
progress_of rows = record {
  total = length rows;
  completed = in_state is_succeeded rows;
  running = in_state is_running rows;
  retrying = in_state is_retry_wait rows;
  failed = in_state is_failed rows;
  cancelled = in_state is_cancelled rows;
  pending = in_state is_pending rows + in_state is_ready rows;
  current_stage = current_stage rows;
}

-- the `if` chain of `_refresh`
unfoldable pub refreshed_state : JobState → Bool → List StepRow → JobState
refreshed_state state cancel_requested rows =
    if is_terminal state
    then state
    else if cancel_requested
    then if ltb 0 (in_state is_running rows) then JobState.cancel_requested else JobState.cancelled
    else if ltb 0 (in_state is_failed rows)
    then JobState.failed
    else if in_state is_succeeded rows == length rows
    then JobState.completed
    else elim (current_stage rows) [ none ↦ JobState.queued | some s ↦ stage_state s ]

-- the row that `_refresh` writes over the row that it read
unfoldable pub refreshed : JobRow → List StepRow → Micros → JobRow → JobRow
unfolding refreshed_state progress_of
refreshed job rows now r = record r {
  state = refreshed_state job.state job.cancel_requested rows;
  progress = progress_of rows;
  updated_at = now;
}

-- `_refresh`; the subscript of a missing row is a TypeError
unfoldable pub refresh : Uuid → Micros → Tx (Unit {0})
refresh job_id now db = elim (find (λ r. r.job_id == job_id) db.jobs) [
  | none ↦ err ledger_error
  | some job ↦ ok (tt, update_job job_id (refreshed job (steps_of job_id db) now) db)
]

-- `rows[parent]` of `_activate`
abbrev pub row_of : String → List StepRow → Option StepRow
row_of unit rows = find (λ r. str_eq r.spec.unit_id unit) rows

-- `all(rows[parent]['state'] == 'SUCCEEDED' …)`, which stops at the first that has not; the
-- KeyError of a missing unit is not caught
abbrev pub next_parent : Option StepRow → Tx Bool → Tx Bool
next_parent none rest = raise uncaught
next_parent (some r) rest = if is_succeeded r.state then rest else pure false

unfoldable pub parents_succeeded : List StepRow → List String → Tx Bool
parents_succeeded rows [] = pure true
parents_succeeded rows (unit ∷ units) =
    next_parent (row_of unit rows) (parents_succeeded rows units)

unfoldable pub parent_manifests : List StepRow → List String → Db → List (List ObjectRef)
unfolding manifest_of
parent_manifests rows [] db = []
parent_manifests rows (unit ∷ units) db =
    (elim (row_of unit rows) [ none ↦ [] | some r ↦ manifest_of r.step_id db ])
    ∷ parent_manifests rows units db

-- the columns that `_activate` sets
abbrev pub ready_row : Digest → Digest → StepRow → StepRow
ready_row key inputs r = record r {
  state = StepState.ready;
  step_key = key;
  input_fingerprint = inputs;
}

-- The UPDATE and the dispatch of one step whose parents have succeeded.
unfoldable pub make_ready : StepRow → Digest → Digest → Micros → Db → Db
unfolding enqueue
make_ready row key inputs now db =
    enqueue row.step_id now now (update_step row.step_id (ready_row key inputs) db)

module _ (l : Ledger) where
  -- the fingerprint of what a step reads, and the key of the step
  unfoldable pub ready_inputs : JobRow → List StepRow → StepRow → Db → Digest
  unfolding parent_manifests
  ready_inputs job rows row db = l.hashing.fingerprint (
      inputs_of (compatibility l.hashing job.request) row.spec
        (parent_manifests rows row.spec.depends_on db))

  unfoldable pub ready_key : JobRow → Digest → Digest
  ready_key job inputs = l.hashing.fingerprint (
      step_key_of job.request.scope job.request.document_version_id job.run_id job.generation
        inputs)

  -- the same under the UNIQUE constraint of `step_key`
  unfoldable pub try_ready : JobRow → List StepRow → StepRow → Micros → Tx (Unit {0})
  unfolding make_ready
  try_ready job rows row now db =
      let inputs = ready_inputs job rows row db in
      let key = ready_key job inputs in
      if any (λ r. r.step_key == key && not (r.step_id == row.step_id)) db.steps
      then err ledger_error
      else ok (tt, make_ready row key inputs now db)

  unfoldable pub activate_row : JobRow → List StepRow → StepRow → Micros → Tx (Unit {0})
  unfolding parents_succeeded try_ready
  activate_row job rows row now =
      if is_pending row.state
      then (do
        done ← parents_succeeded rows row.spec.depends_on
        if done then try_ready job rows row now else pure tt)
      else pure tt

  unfoldable pub activate_rows : JobRow → List StepRow → List StepRow → Micros → Tx (Unit {0})
  activate_rows job rows [] now = pure tt
  activate_rows job rows (row ∷ rest) now = do
    activate_row job rows row now
    activate_rows job rows rest now

  -- `_activate`
  unfoldable pub activate : JobRow → Micros → Tx (Unit {0})
  unfolding activate_rows activate_row
  activate job now db = activate_rows job (steps_of job.job_id db) (steps_of job.job_id db) now db
