-- ===== src/Jobs/Evolution/Leases.antt =====
-- `claim` and `renew` move rows.
use estudio_polymind_llm_orc.Prelude.{
  find-weaker, All-find, find, true, ap, map, ◌+◌, ◌≡◌, refl, sym, subst, false, ◌==◌, ==→≡,
  ==_refl, some, find-eq-some, All-map, At, find-At, &&-eq-true, String, arith,
}
use estudio_polymind_llm_orc.Jobs.Models.{Uuid, Micros, Scope, same_scope, is_terminal}
use estudio_polymind_llm_orc.Jobs.Tables.{
  Db, Ledger, StepRow, JobRow, is_open, is_running, is_claimable,
}
use estudio_polymind_llm_orc.Jobs.Database.{ok, job_of, step_of}
use estudio_polymind_llm_orc.Jobs.Leases.{Lease, claimed_row, renewed_row, renew}
use estudio_polymind_llm_orc.Jobs.Checks.{check_lease_inv}
use estudio_polymind_llm_orc.Jobs.Evolution.{
  attempt_key, StepMoves, IsKeyed, Moves, step_key, job_key, update_steps-Moves,
}
use estudio_polymind_llm_orc.Jobs.Evolution.Failing.{OpenStep, LiveJob}

-- The step that `_step` found is the only row of its key.
pub step_of-At :
    (job_id step_id : Uuid) (db : Db) {row : StepRow}
    → IsKeyed db
    → step_of job_id step_id db ≡ some row
    → At step_key step_id (λ r. r ≡ row) db.steps × (row.step_id ≡ step_id) × (row.job_id ≡ job_id)
unfolding step_of
step_of-At job_id step_id db {row} u f =
    let (a, b) =
      &&-eq-true (row.step_id == step_id) (row.job_id == job_id) (find-eq-some _ db.steps f) in
    let same : row.step_id ≡ step_id = ==→≡ _ _ a in
    (
      subst (λ k. At step_key k (λ r. r ≡ row) db.steps) same
          (find-At step_key _ db.steps u.steps f),
      same,
      ==→≡ _ _ b,
    )

-- the step that is found with its job is found by its id alone
pub find-step_of :
    (job_id step_id : Uuid) (db : Db) {row : StepRow}
    → IsKeyed db
    → step_of job_id step_id db ≡ some row
    → find (λ r. r.step_id == step_id) db.steps ≡ some row
unfolding step_of
find-step_of job_id step_id db {row} u f =
    let (y, e) =
      find-weaker (λ r. r.step_id == step_id) (λ r. r.job_id == job_id) db.steps {x = row} f in
    let (only, _, _) = step_of-At job_id step_id db {row = row} u f in
    let same : y ≡ row =
      All-find (λ r. (r.step_id == step_id) ≡ true → r ≡ row) (λ r. r.step_id == step_id) db.steps
        {x = y} only e (find-eq-some (λ r. r.step_id == step_id) db.steps e) in
    subst (λ z. find (λ r. r.step_id == step_id) db.steps ≡ some z) same e

-- The step that `_step` found has what every row of its key has.
pub At-step_of :
    (P : StepRow → Type 0) (k job_id step_id : Uuid) (db : Db) {row : StepRow}
    → At step_key k P db.steps
    → step_of job_id step_id db ≡ some row
    → row.step_id ≡ k
    → P row
unfolding step_of
At-step_of P k job_id step_id db {row} h f e =
    All-find (λ r. (r.step_id == k) ≡ true → P r) _ db.steps h f (rw e (==_refl k))

-- The job that `_job` found is the only row of its key.
pub job_of-At :
    (scope : Scope) (id : Uuid) (db : Db) {job : JobRow}
    → IsKeyed db
    → job_of scope id db ≡ some job
    → At job_key id (λ j. j ≡ job) db.jobs × (job.job_id ≡ id)
unfolding job_of
job_of-At scope id db {job} u f =
    let (a, b) =
      &&-eq-true (job.job_id == id) (same_scope job.scope scope) (find-eq-some _ db.jobs f) in
    let same : job.job_id ≡ id = ==→≡ _ _ a in
    (
      subst (λ k. At job_key k (λ j. j ≡ job) db.jobs) same (find-At job_key _ db.jobs u.jobs f),
      same,
    )

pub OpenStep-of :
    (id : Uuid) (db : Db) (row : StepRow)
    → At step_key id (λ r. r ≡ row) db.steps
    → is_open row.state ≡ true
    → OpenStep id db
OpenStep-of id db row only h =
    All-map _ _ (λ r is m. subst (λ (x : StepRow). is_open x.state ≡ true) (sym (is m)) h) db.steps
      only

pub LiveJob-of :
    (id : Uuid) (db : Db) (job : JobRow)
    → At job_key id (λ j. j ≡ job) db.jobs
    → is_terminal job.state ≡ false
    → LiveJob id db
LiveJob-of id db job only h =
    All-map _ _ (λ j is m. subst (λ (x : JobRow). is_terminal x.state ≡ false) (sym (is m)) h)
      db.jobs only

pub is_running→is_open : (r : StepRow) → is_running r.state ≡ true → is_open r.state ≡ true
is_running→is_open r h = ground arith

renewed-StepMoves :
    (expires : Micros) (r : StepRow)
    → is_running r.state ≡ true
    → StepMoves r (renewed_row expires r)
renewed-StepMoves expires r h = ground arith

pub claimed-StepMoves :
    (owner : String) (expires now : Micros) (row r : StepRow)
    → r ≡ row
    → is_claimable row.state ≡ true
    → StepMoves r (claimed_row owner expires now row r)
claimed-StepMoves owner expires now row r e h = ground arith

module _ (l : Ledger) where
  pub renew-Moves :
      (lease : Lease) (now : Micros) (db : Db) {db' : Db}
      → IsKeyed db
      → renew l lease now db ≡ ok (tt, db')
      → Moves db db'
  unfolding renew
  renew-Moves lease now db {db'} u h = check_lease_inv lease now false _ db h λ job row c e.
      let (only, _, _) = step_of-At lease.job_id lease.step_id db u c.row_found in
      update_steps-Moves db db' (λ r. r.step_id == lease.step_id)
        (renewed_row (now + l.lease_micros)) u (ground arith) (ground arith)
        (ap (map attempt_key) (ground arith)) (λ r. refl)
        (All-map _ _
          (λ r is m.
            renewed-StepMoves _ r
              (subst (λ (x : StepRow). is_running x.state ≡ true) (sym (is m)) c.running))
          db.steps only)
