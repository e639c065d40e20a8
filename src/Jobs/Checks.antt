-- ===== src/Jobs/Checks.antt =====
-- What `_check_lease` of documents/jobs/sqlite.py has established when it returns.
use estudio_polymind_llm_orc.Prelude.{
  ◌<◌, ◌≡◌, refl, ◌∙◌, Bool, true, false, not, ◌&&◌, ◌==◌, ==→≡, some, none, Option, &&-eq-true,
  arith, if◌then◌else◌,
}
use estudio_polymind_llm_orc.Jobs.Models.{Micros, is_terminal}
use estudio_polymind_llm_orc.Jobs.Tables.{Db, StepRow, JobRow, is_running}
use estudio_polymind_llm_orc.Jobs.Database.{Tx, ok, job_of, step_of, ◌>>=◌, pure, Error, unless}
use estudio_polymind_llm_orc.Jobs.Blocks.{bind_inv, unless_inv, get_job_row_inv, get_step_row_inv}
use estudio_polymind_llm_orc.Jobs.Leases.{
  Lease, expired, owned_by, check_live, check_rows, check_lease,
}

-- What a lease that is not settling a cancellation has shown.
pub record IsLive (now : Micros) (job : JobRow) (row : StepRow) : Type 0 where
  pub wanted : job.cancel_requested ≡ false
  pub live : is_terminal job.state ≡ false
  pub in_time : (t : Micros) → row.lease_expires_at ≡ some t → now < t

-- What a lease check that returns has established.
pub record Checked (lease : Lease) (settling : Bool) (now : Micros) (job : JobRow) (row : StepRow)
    (db : Db) : Type 0 where
  pub job_found : job_of lease.scope lease.job_id db ≡ some job
  pub row_found : step_of lease.job_id lease.step_id db ≡ some row
  pub fence : row.fence ≡ lease.fence
  pub owned : owned_by row.lease_owner lease.owner ≡ true
  pub running : is_running row.state ≡ true
  pub live : settling ≡ false → IsLive now job row

in_time_of :
    (now : Micros) (expiry : Option Micros) (db : Db) {late : Bool} {db' : Db}
    → expired expiry now db ≡ ok (late, db')
    → late ≡ false
    → (t : Micros) → expiry ≡ some t
    → now < t
in_time_of now none db e l t s = cc
in_time_of now (some u) db e l t s = ground arith

pub same_db_of :
    (now : Micros) (expiry : Option Micros) (db : Db) {late : Bool} {db' : Db}
    → expired expiry now db ≡ ok (late, db')
    → db' ≡ db
same_db_of now none db e = cc
same_db_of now (some u) db e = cc

last_guard :
    (b : Bool) (e : Error) (db : Db) {x : Unit {0} × Db}
    → unless b e db ≡ ok x
    → (b ≡ true) × (x.1 ≡ db)
last_guard true e db h = (refl, ground arith)
last_guard false e db h = cc

not-eq-true : (b : Bool) → not b ≡ true → b ≡ false
not-eq-true b h = ground arith

check_live_inv :
    (now : Micros) (job : JobRow) (row : StepRow) (db : Db) {x : Unit {0} × Db}
    → check_live now job row db ≡ ok x
    → IsLive now job row × (x.1 ≡ db)
unfolding check_live
check_live_inv now job row db h = unless_inv (not job.cancel_requested) _ _ db h λ w h1.
    unless_inv (not (is_terminal job.state)) _ _ db h1 λ l h2.
      bind_inv (expired row.lease_expires_at now) _ db h2 λ late d e h3.
        let (g, same) = last_guard (not late) _ d h3 in
        (
          record {
            wanted = not-eq-true _ w;
            live = not-eq-true _ l;
            in_time = in_time_of now row.lease_expires_at db e (not-eq-true late g);
          },
          same ∙ same_db_of now row.lease_expires_at db e,
        )

settling_inv :
    (settling : Bool) (now : Micros) (job : JobRow) (row : StepRow) (db : Db) {x : Unit {0} × Db}
    → (if settling then pure tt else check_live now job row) db ≡ ok x
    → (settling ≡ false → IsLive now job row) × (x.1 ≡ db)
settling_inv true now job row db h = (λ e. cc, ground arith)
settling_inv false now job row db h =
    let (l, same) = check_live_inv now job row db h in (λ _. l, same)

module _ {ℓ} {B : Type 0} {C : Type ℓ} where
  -- A lease check at the head of a block passes on what it has established.
  pub check_lease_inv :
      (lease : Lease) (now : Micros) (settling : Bool) (f : JobRow × StepRow → Tx B) (db : Db)
      {x : B × Db}
      → (check_lease lease now settling >>= f) db ≡ ok x
      → ((job : JobRow) (row : StepRow)
          → Checked lease settling now job row db
          → f (job, row) db ≡ ok x
          → C)
      → C
  unfolding check_lease check_rows
  check_lease_inv lease now settling f db {x} h k =
      bind_inv (check_lease lease now settling) f db h λ a db' e n.
        get_job_row_inv lease.scope lease.job_id _ db e λ job jf e1.
          get_step_row_inv lease.job_id lease.step_id _ db e1 λ row rf e2.
            bind_inv (check_rows lease now settling job row) _ db e2 λ _ d e3 e4.
              unless_inv (row.fence == lease.fence && owned_by row.lease_owner lease.owner) _ _ db
                e3
                λ g1 e5. unless_inv (is_running row.state) _ _ db e5 λ g2 e6.
                  let (live, same) = settling_inv settling now job row db e6 in
                  let (fence, owned) = &&-eq-true (row.fence == lease.fence) _ g1 in
                  k job row
                    (record {
                      job_found = jf;
                      row_found = rf;
                      fence = ==→≡ _ _ fence;
                      owned = owned;
                      running = g2;
                      live = live;
                    })
                    (cc)
