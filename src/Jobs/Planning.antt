-- ===== src/Jobs/Planning.antt =====
-- The insertion of a job and its steps in documents/jobs/sqlite.py, under the UNIQUE constraints.
use estudio_polymind_llm_orc.Prelude.{
  not, ℕ, suc, String, Bool, ◌&&◌, ◌||◌, Option, none, some, List, [], ◌∷◌, ◌++◌, ◌==◌, str_eq,
  find, any, all, map, if◌then◌else◌,
}
use estudio_polymind_llm_orc.Jobs.Models.{
  Uuid, Micros, Scope, same_scope, StepState, StepSpec, same_spec, Admission, Hashing,
  compatibility, step_key_of, planned_of,
}
use estudio_polymind_llm_orc.Jobs.Tables.{JobRow, StepRow, Progress}
use estudio_polymind_llm_orc.Jobs.Database.{
  Tx, ok, err, ◌>>=◌, ◌>>◌, pure, unless, modify, ledger_error, manifest_clashes,
}
use estudio_polymind_llm_orc.Jobs.Progression.{row_of}

abbrev pub mem : String → List String → Bool
mem u = any (str_eq u)

-- the jobs of a document version
abbrev pub of_version : Scope → Uuid → JobRow → Bool
of_version scope version j = same_scope j.scope scope && j.version_id == version

-- two rows of `jobs` that its constraints exclude
abbrev pub job_clashes : JobRow → JobRow → Bool
job_clashes j k =
    k.job_id == j.job_id
    || k.run_id == j.run_id
    || (same_scope k.scope j.scope && str_eq k.request_key j.request_key)
    || (of_version j.scope j.version_id k && k.generation == j.generation)

-- INSERT INTO jobs under its PRIMARY KEY and UNIQUE constraints
unfoldable pub insert_job : JobRow → Tx (Unit {0})
insert_job j db =
    (unless (not (any (job_clashes j) db.jobs)) ledger_error
        >> modify (λ d. record d { jobs = d.jobs ++ j ∷ [] }))
      db

-- two rows of `job_steps` that its constraints exclude
abbrev pub step_clashes : StepRow → StepRow → Bool
step_clashes s r =
    r.step_id == s.step_id
    || r.step_key == s.step_key
    || (r.job_id == s.job_id && str_eq r.spec.unit_id s.spec.unit_id)

-- INSERT INTO job_steps under its PRIMARY KEY and UNIQUE constraints
unfoldable pub insert_step : StepRow → Tx (Unit {0})
insert_step s db =
    (unless (not (any (step_clashes s) db.steps)) ledger_error
        >> modify (λ d. record d { steps = d.steps ++ s ∷ [] }))
      db

-- the manifest of a reused step is copied under fence 0
unfoldable pub copy_manifest : Uuid → Uuid → Micros → Tx (Unit {0})
copy_manifest old_id step_id now db = elim (find (λ m. m.step_id == old_id) db.manifests) [
  | none ↦ err ledger_error
  | some m ↦
      if manifest_clashes step_id m.manifest db
      then err ledger_error
      else ok (
        tt,
        record db {
          manifests =
              db.manifests
              ++ record { step_id = step_id; manifest = m.manifest; committed_at = now; fence = 0 }
                ∷ [];
          objects = db.objects ++ map (λ r. (step_id, r.key)) m.manifest;
        },
      )
]

abbrev pub no_progress : Progress
no_progress = record {
  total = 0;
  completed = 0;
  running = 0;
  retrying = 0;
  failed = 0;
  cancelled = 0;
  pending = 0;
  current_stage = none;
}

-- What the loop of `admit` over the steps reads: the request, the new job and its instants.
pub record NewJob : Type 0 where
  pub request : Admission
  pub job_id : Uuid
  pub run_id : Uuid
  pub generation : ℕ
  pub execution : Micros
  pub now : Micros
  -- the succeeded steps of the job resumed from
  pub reusable : List StepRow

-- the old step that stands in for a spec
unfoldable pub reused : NewJob → List String → StepSpec → Option StepRow
reused n copied spec = elim (row_of spec.unit_id n.reusable) [
  | none ↦ none
  | some old ↦
      if same_spec old.spec spec && all (λ u. mem u copied) spec.depends_on then some old else none
]

module _ (h : Hashing) where
  -- the row of a step that is to run
  unfoldable pub planned_row : NewJob → StepSpec → Uuid → StepRow
  planned_row n spec step_id = record {
    step_id = step_id;
    job_id = n.job_id;
    spec = spec;
    step_key = h.fingerprint (planned_of n.run_id spec);
    input_fingerprint = compatibility h n.request;
    execution_at = n.execution;
    state = StepState.pending;
    attempt_count = 0;
    fence = 0;
    lease_owner = none;
    lease_expires_at = none;
    not_before = n.now;
    started_at = none;
    finished_at = none;
    failure_category = none;
    reused_from = none;
  }

  -- the row of a step whose result is reused
  unfoldable pub reused_row : NewJob → StepSpec → Uuid → StepRow → StepRow
  reused_row n spec step_id old = record {
    step_id = step_id;
    job_id = n.job_id;
    spec = spec;
    step_key = h.fingerprint (
        step_key_of n.request.scope n.request.document_version_id n.run_id n.generation
          old.input_fingerprint);
    input_fingerprint = old.input_fingerprint;
    execution_at = old.execution_at;
    state = StepState.succeeded;
    attempt_count = 0;
    fence = 0;
    lease_owner = none;
    lease_expires_at = none;
    not_before = n.now;
    started_at = none;
    finished_at = some n.now;
    failure_category = none;
    reused_from = some old.step_id;
  }

  -- the writes of one round of the loop: the units that have been copied so far come back
  unfoldable pub add_row :
      NewJob → List String → StepSpec → Uuid → Option StepRow → Tx (List String)
  unfolding planned_row reused_row
  add_row n copied spec step_id none = do insert_step (planned_row n spec step_id); pure copied
  add_row n copied spec step_id (some old) = do
    insert_step (reused_row n spec step_id old)
    copy_manifest old.step_id step_id n.now
    pure (spec.unit_id ∷ copied)

  unfoldable pub add_step : NewJob → List String → StepSpec → Uuid → Tx (List String)
  unfolding add_row
  add_step n copied spec step_id = add_row n copied spec step_id (reused n copied spec)

  -- the loop; `uuid` gives the identifiers that `uuid4` returns, in order
  unfoldable pub add_steps : NewJob → (ℕ → Uuid) → ℕ → List String → List StepSpec → Tx (Unit {0})
  add_steps n uuid i copied [] = pure tt
  add_steps n uuid i copied (spec ∷ rest) = do
    copied' ← add_step n copied spec (uuid i)
    add_steps n uuid (suc i) copied' rest
