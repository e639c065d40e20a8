-- ===== src/Jobs/Blocks.antt =====
-- What is known of a transaction block that returned: each of its steps returned. Each lemma hands
-- the parts on to the rest of a proof.
use estudio_polymind_llm_orc.Prelude.{
  ◌≡◌, refl, Bool, true, false, Option, none, some, arith, if◌then◌else◌,
}
use estudio_polymind_llm_orc.Jobs.Models.{Uuid, Scope}
use estudio_polymind_llm_orc.Jobs.Tables.{Db, JobRow, StepRow}
use estudio_polymind_llm_orc.Jobs.Database.{
  Tx, Result, Error, ok, err, found, continue, ◌>>=◌, ◌>>◌, unless, get_job_row, get_step_row,
  job_of, step_of,
}

module _ {ℓ} {A B : Type 0} {C : Type ℓ} where
  continue_inv :
      (r : Result (A × Db)) (f : A → Tx B) {x : B × Db}
      → continue r f ≡ ok x
      → ((a : A) (db : Db) → r ≡ ok (a, db) → f a db ≡ ok x → C)
      → C
  continue_inv (ok (a, db)) f h k = k a db refl h
  continue_inv (err e) f h k = cc

  pub bind_inv :
      (m : Tx A) (f : A → Tx B) (db : Db) {x : B × Db}
      → (m >>= f) db ≡ ok x
      → ((a : A) (db' : Db) → m db ≡ ok (a, db') → f a db' ≡ ok x → C)
      → C
  bind_inv m f db h k = continue_inv (m db) f h k

module _ {ℓ} {B : Type 0} {C : Type ℓ} where
  pub unless_inv :
      (b : Bool) (e : Error) (n : Tx B) (db : Db) {x : B × Db}
      → (unless b e >> n) db ≡ ok x
      → (b ≡ true → n db ≡ ok x → C)
      → C
  unless_inv true e n db h k = k refl h
  unless_inv false e n db h k = cc

  found_inv :
      {A : Type 0} (o : Option A) (e : Error) (f : A → Tx B) (db : Db) {x : B × Db}
      → (found o e >>= f) db ≡ ok x
      → ((a : A) → o ≡ some a → f a db ≡ ok x → C)
      → C
  found_inv (some a) e f db h k = k a refl h
  found_inv none e f db h k = cc

  pub get_job_row_inv :
      (scope : Scope) (id : Uuid) (f : JobRow → Tx B) (db : Db) {x : B × Db}
      → (get_job_row scope id >>= f) db ≡ ok x
      → ((job : JobRow) → job_of scope id db ≡ some job → f job db ≡ ok x → C)
      → C
  unfolding get_job_row
  get_job_row_inv scope id f db h k = found_inv (job_of scope id db) _ f db h k

  pub get_step_row_inv :
      (job_id step_id : Uuid) (f : StepRow → Tx B) (db : Db) {x : B × Db}
      → (get_step_row job_id step_id >>= f) db ≡ ok x
      → ((row : StepRow) → step_of job_id step_id db ≡ some row → f row db ≡ ok x → C)
      → C
  unfolding get_step_row
  get_step_row_inv job_id step_id f db h k = found_inv (step_of job_id step_id db) _ f db h k

  -- A test that chooses between two blocks.
  pub branch_inv :
      (b : Bool) (m n : Tx B) (db : Db) {x : B × Db}
      → (if b then m else n) db ≡ ok x
      → (b ≡ true → m db ≡ ok x → C)
      → (b ≡ false → n db ≡ ok x → C)
      → C
  branch_inv true m n db h k l = k refl h
  branch_inv false m n db h k l = l refl h

module _ {ℓ} {C : Type ℓ} where
  -- A row that is read at the end of a block leaves the tables alone.
  pub get_job_row_last :
      (scope : Scope) (id : Uuid) (db : Db) {job : JobRow} {db' : Db}
      → get_job_row scope id db ≡ ok (job, db')
      → (db' ≡ db → C)
      → C
  unfolding get_job_row
  get_job_row_last scope id db h k = k (ground arith)

  pub get_step_row_last :
      (job_id step_id : Uuid) (db : Db) {row : StepRow} {db' : Db}
      → get_step_row job_id step_id db ≡ ok (row, db')
      → (db' ≡ db → C)
      → C
  unfolding get_step_row
  get_step_row_last job_id step_id db h k = k (ground arith)
