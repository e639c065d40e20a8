-- ===== src/Jobs/Database.antt =====
-- The transaction of documents/jobs/sqlite.py and the statements that its operations share.
use estudio_polymind_llm_orc.Prelude.{
  ◌+◌, Bool, true, false, not, ◌&&◌, ◌||◌, any, Option, none, some, List, [], ◌∷◌, ◌++◌, ◌==◌, find,
  select, update, if◌then◌else◌,
}
use estudio_polymind_llm_orc.Jobs.Models.{Uuid, Micros, Scope, same_scope, ObjectRef}
use estudio_polymind_llm_orc.Jobs.Tables.{JobRow, StepRow, Db}

-- The categories of `JobError` that the ledger raises. `uncaught` is an exception that
-- `_transaction` passes on as it is.
pub data Error : Type 0 where
  idempotency_conflict invalid_transition job_not_found step_not_found stale_fence lease_expired
        cancelled ledger_error dispatch_error manifest_conflict invalid_configuration scope_mismatch
        uncaught :
      Error

pub data Result {ℓ} (A : Type ℓ) : Type ℓ where
  ok : A → Result A
  err : Error → Result A

-- The body of a `with self._transaction()` block.
abbrev pub Tx : Type 0 → Type 0
Tx A = Db → Result (A × Db)

abbrev pub continue : {A B : Type 0} → Result (A × Db) → (A → Tx B) → Result (B × Db)
continue (ok (a, db)) f = f a db
continue (err e) f = err e

infixl 5 ◌>>=◌ ◌>>◌
abbrev pub ◌>>=◌ : {A B : Type 0} → Tx A → (A → Tx B) → Tx B
◌>>=◌ m f db = continue (m db) f

abbrev pub ◌>>◌ : {A B : Type 0} → Tx A → Tx B → Tx B
m >> n = m >>= λ _. n

abbrev pub pure : {A : Type 0} → A → Tx A
pure a db = ok (a, db)

abbrev pub raise : {A : Type 0} → Error → Tx A
raise e db = err e

abbrev pub modify : (Db → Db) → Tx (Unit {0})
modify f db = ok (tt, f db)

abbrev pub unless : Bool → Error → Tx (Unit {0})
unless true e = pure tt
unless false e = raise e

abbrev pub found : {A : Type 0} → Option A → Error → Tx A
found (some a) e = pure a
found none e = raise e

-- `_transaction`: commit on a normal end, roll back on every exception. `opened` and
-- `committed` say whether SQLite opened the database and wrote the commit.
unfoldable pub transaction : {A : Type 0} → Bool → Bool → Tx A → Db → Result A × Db
transaction opened committed body db =
    if opened
    then (elim (body db) [
      | ok (a, db') ↦ if committed then (ok a, db') else (err ledger_error, db)
      | err e ↦ (err e, db)
    ])
    else (err ledger_error, db)

-- SELECT * FROM jobs WHERE job_id=? AND scope=?
unfoldable pub job_of : Scope → Uuid → Db → Option JobRow
job_of scope job_id db = find (λ r. r.job_id == job_id && same_scope r.scope scope) db.jobs

-- `_job`
unfoldable pub get_job_row : Scope → Uuid → Tx JobRow
unfolding job_of
get_job_row scope job_id db = found (job_of scope job_id db) job_not_found db

-- SELECT * FROM job_steps WHERE step_id=? AND job_id=?
unfoldable pub step_of : Uuid → Uuid → Db → Option StepRow
step_of job_id step_id db = find (λ r. r.step_id == step_id && r.job_id == job_id) db.steps

-- `_step`
unfoldable pub get_step_row : Uuid → Uuid → Tx StepRow
unfolding step_of
get_step_row job_id step_id db = found (step_of job_id step_id db) step_not_found db

-- SELECT * FROM job_steps WHERE job_id=? (in rowid order)
abbrev pub steps_of : Uuid → Db → List StepRow
steps_of job_id db = select (λ r. r.job_id == job_id) db.steps

-- UPDATE job_steps SET … WHERE step_id=?
abbrev pub update_step : Uuid → (StepRow → StepRow) → Db → Db
update_step step_id f db = record db { steps = update (λ r. r.step_id == step_id) f db.steps }

-- UPDATE jobs SET … WHERE job_id=?
abbrev pub update_job : Uuid → (JobRow → JobRow) → Db → Db
update_job job_id f db = record db { jobs = update (λ r. r.job_id == job_id) f db.jobs }

-- `_manifest`: the committed references of a step, none when there is no row
unfoldable pub manifest_of : Uuid → Db → List ObjectRef
manifest_of step_id db = elim (find (λ m. m.step_id == step_id) db.manifests) [
  | none ↦ []
  | some m ↦ m.manifest
]

-- the rows of a manifest meet the PRIMARY KEYs of `artifact_manifests` and `manifest_objects`
abbrev pub manifest_clashes : Uuid → List ObjectRef → Db → Bool
manifest_clashes step_id refs db =
    any (λ m. m.step_id == step_id) db.manifests
    || any (λ (id, key). id == step_id && any (λ r. r.key == key) refs) db.objects

-- these INSERTs fail on a row that is there
unfoldable pub check_manifest : Uuid → List ObjectRef → Tx (Unit {0})
check_manifest step_id refs db = unless (not (manifest_clashes step_id refs db)) ledger_error db

-- `_enqueue`
unfoldable pub enqueue : Uuid → Micros → Micros → Db → Db
enqueue step_id now available db = record db {
  outbox =
      db.outbox
      ++ record {
        dispatch_id = db.last_dispatch + 1;
        step_id = step_id;
        created_at = now;
        available_at = available;
        delivered_at = none;
      }
        ∷ [];
  last_dispatch = db.last_dispatch + 1;
}
