-- ===== src/Jobs/Evolution/Admissions.antt =====
-- `admit` adds a job and its steps, and moves no row of another job.
use estudio_polymind_llm_orc.Prelude.{
  refl, ap, map, ℕ, suc, ◌≡◌, sym, subst, false, not, ◌&&◌, List, [], ◌∷◌, ◌++◌, some, none, Option,
  ◌==◌, any, any-eq-false, All, All-map, Related-refl, Related-append, Unique-append, arith, String,
}
use estudio_polymind_llm_orc.Jobs.Models.{
  Uuid, Micros, StepSpec, Admission, Hashing, digest, is_terminal,
}
use estudio_polymind_llm_orc.Jobs.Tables.{Db, Ledger, StepRow, JobRow}
use estudio_polymind_llm_orc.Jobs.Database.{ok}
use estudio_polymind_llm_orc.Jobs.Blocks.{bind_inv, unless_inv, get_job_row_inv, get_job_row_last}
use estudio_polymind_llm_orc.Jobs.Progression.{refresh, activate}
use estudio_polymind_llm_orc.Jobs.Planning.{
  NewJob, insert_job, insert_step, copy_manifest, reused, job_clashes, step_clashes, planned_row,
  reused_row, add_row, add_step, add_steps,
}
use estudio_polymind_llm_orc.Jobs.Admit.{valid_admission, resume, answer, create, admit, job_by_key}
use estudio_polymind_llm_orc.Jobs.Evolution.{
  StepMoves-refl, JobMoves-refl, IsKeyed, Moves, step_key, job_key, Moves-refl, Moves-trans,
  same_tables-Moves, AttemptsCounted-moved, attempt_key,
}
use estudio_polymind_llm_orc.Jobs.Evolution.Failing.{refresh-Moves}
use estudio_polymind_llm_orc.Jobs.Evolution.Commits.{activate-Moves}

pub added_job-Moves :
    (j : JobRow) (db : Db)
    → IsKeyed db
    → All (λ k. (k.job_id == j.job_id) ≡ false) db.jobs
    → Moves db (record db { jobs = db.jobs ++ j ∷ [] })
added_job-Moves j db u h = record {
  steps = Related-refl _ StepMoves-refl db.steps;
  jobs = Related-append _ JobMoves-refl db.jobs (j ∷ []);
  keyed = record { steps = u.steps; jobs = Unique-append job_key db.jobs j u.jobs h };
  attempts = λ c. c;
}

pub added_step-Moves :
    (r : StepRow) (db : Db)
    → IsKeyed db
    → All (λ x. (x.step_id == r.step_id) ≡ false) db.steps
    → Moves db (record db { steps = db.steps ++ r ∷ [] })
added_step-Moves r db u h = record {
  steps = Related-append _ StepMoves-refl db.steps (r ∷ []);
  jobs = Related-refl _ JobMoves-refl db.jobs;
  keyed = record { steps = Unique-append step_key db.steps r u.steps h; jobs = u.jobs };
  attempts =
      AttemptsCounted-moved db (record db { steps = db.steps ++ r ∷ [] })
        (Related-append _ StepMoves-refl db.steps (r ∷ [])) refl;
}

other_job : (j k : JobRow) → job_clashes j k ≡ false → (k.job_id == j.job_id) ≡ false
other_job j k h = ground arith

other_step : (s r : StepRow) → step_clashes s r ≡ false → (r.step_id == s.step_id) ≡ false
other_step s r h = ground arith

insert_job-Moves :
    (j : JobRow) (db : Db) {db' : Db} → IsKeyed db → insert_job j db ≡ ok (tt, db') → Moves db db'
unfolding insert_job
insert_job-Moves j db {db'} u h = unless_inv (not (any (job_clashes j) db.jobs)) _ _ db h λ free h1.
    subst (Moves db) (cc) (
      added_job-Moves j db u (
        All-map _ _ (λ k d. other_job j k d) db.jobs
          (any-eq-false (job_clashes j) db.jobs (ground arith))))

insert_step-Moves :
    (r : StepRow) (db : Db) {db' : Db} → IsKeyed db → insert_step r db ≡ ok (tt, db') → Moves db db'
unfolding insert_step
insert_step-Moves r db {db'} u h =
    unless_inv (not (any (step_clashes r) db.steps)) _ _ db h λ free h1. subst (Moves db) (cc) (
      added_step-Moves r db u (
        All-map _ _ (λ x d. other_step r x d) db.steps
          (any-eq-false (step_clashes r) db.steps (ground arith))))

copy_manifest-Moves :
    (old step : Uuid) (now : Micros) (db : Db) {db' : Db}
    → IsKeyed db
    → copy_manifest old step now db ≡ ok (tt, db')
    → Moves db db'
unfolding copy_manifest
copy_manifest-Moves old step now db {db'} u h =
    same_tables-Moves db db' u (ground arith) (ground arith) (ap (map attempt_key) (ground arith))

module _ (g : Hashing) where
  add_row-Moves :
      (n : NewJob) (copied : List String) (spec : StepSpec) (id : Uuid) (o : Option StepRow)
      (db : Db) {copied' : List String} {db' : Db}
      → IsKeyed db
      → add_row g n copied spec id o db ≡ ok (copied', db')
      → Moves db db'
  unfolding add_row
  add_row-Moves n copied spec id none db {copied'} {db'} u h =
      bind_inv (insert_step (planned_row g n spec id)) _ db h
        λ _ d e h1. subst (Moves db) (cc) (insert_step-Moves (planned_row g n spec id) db u e)
  add_row-Moves n copied spec id (some old) db {copied'} {db'} u h =
      bind_inv (insert_step (reused_row g n spec id old)) _ db h λ _ d e h1.
        bind_inv (copy_manifest old.step_id id n.now) _ d h1 λ _ d' e' h2.
          let m = insert_step-Moves (reused_row g n spec id old) db u e in
          subst (Moves db) (cc)
            (Moves-trans db d d' m (copy_manifest-Moves old.step_id id n.now d m.keyed e'))

  add_steps-Moves :
      (n : NewJob) (uuid : ℕ → Uuid) (i : ℕ) (copied : List String) (specs : List StepSpec)
      (db : Db) {db' : Db}
      → IsKeyed db
      → add_steps g n uuid i copied specs db ≡ ok (tt, db')
      → Moves db db'
  unfolding add_steps add_step
  add_steps-Moves n uuid i copied [] db {db'} u h = subst (Moves db) (cc) (Moves-refl db u)
  add_steps-Moves n uuid i copied (spec ∷ rest) db {db'} u h =
      bind_inv (add_step g n copied spec (uuid i)) _ db h λ copied' d e h1.
        let m = add_row-Moves n copied spec (uuid i) (reused n copied spec) db u e in
        Moves-trans db d db' m (add_steps-Moves n uuid (suc i) copied' rest d m.keyed h1)

module _ (l : Ledger) where
  -- what a new job resumes is read, not written
  resume-same :
      (request : Admission) (o : Option Uuid) (db : Db) {x : (Option JobRow × List StepRow) × Db}
      → resume l request o db ≡ ok x
      → x.1 ≡ db
  unfolding resume
  resume-same request none db h = cc
  resume-same request (some id) db h = get_job_row_inv request.scope id _ db h λ prior _ h1.
      unless_inv (is_terminal prior.state) _ _ db h1 λ _ h2.
        unless_inv
          (prior.request.document_id == request.document_id
            && prior.request.document_version_id == request.document_version_id)
          _ _ db h2 λ _ h3. cc

  create-Moves :
      (request : Admission) (uuid : ℕ → Uuid) (now : Micros) (db : Db) {job : JobRow} {db' : Db}
      → IsKeyed db
      → create l request uuid now db ≡ ok (job, db')
      → Moves db db'
  unfolding create
  create-Moves request uuid now db {job} {db'} u h =
      bind_inv (resume l request request.resume_from) _ db h λ _ d e h1.
        bind_inv (insert_job _) _ d h1 λ _ d1 e1 h2.
          bind_inv (add_steps l.hashing _ uuid 2 [] request.steps) _ d1 h2 λ _ d2 e2 h3.
            get_job_row_inv request.scope (uuid 0) _ d2 h3 λ j _ h4.
              bind_inv (activate l j now) _ d2 h4 λ _ d3 e3 h5.
                bind_inv (refresh (uuid 0) now) _ d3 h5 λ _ d4 e4 h6.
                  get_job_row_last request.scope (uuid 0) d4 h6 λ same.
                    let m0 =
                      subst (Moves db) (sym (resume-same request request.resume_from db e))
                        (Moves-refl db u) in
                    let m1 = insert_job-Moves _ d m0.keyed e1 in
                    let m2 = add_steps-Moves l.hashing _ uuid 2 [] request.steps d1 m1.keyed e2 in
                    let m3 = activate-Moves l j now d2 m2.keyed e3 in
                    let m4 = refresh-Moves (uuid 0) now d3 m3.keyed e4 in
                    subst (Moves db) (sym same) (
                      Moves-trans db d d4 m0 (
                        Moves-trans d d1 d4 m1
                          (Moves-trans d1 d2 d4 m2 (Moves-trans d2 d3 d4 m3 m4))))

  answer-Moves :
      (request : Admission) (uuid : ℕ → Uuid) (now : Micros) (o : Option JobRow) (db : Db)
      {job : JobRow} {db' : Db}
      → IsKeyed db
      → answer l request uuid now o db ≡ ok (job, db')
      → Moves db db'
  unfolding answer
  answer-Moves request uuid now none db u h = create-Moves request uuid now db u h
  answer-Moves request uuid now (some job) db {db' = e} u h =
      unless_inv (job.fingerprint == digest l.hashing request) _ _ db h
        λ _ h1. subst (Moves db) (cc) (Moves-refl db u)

  pub admit-Moves :
      (request : Admission) (uuid : ℕ → Uuid) (now : Micros) (db : Db) {job : JobRow} {db' : Db}
      → IsKeyed db
      → admit l request uuid now db ≡ ok (job, db')
      → Moves db db'
  unfolding admit
  admit-Moves request uuid now db u h =
      unless_inv (valid_admission l.hashing request) _ _ db h λ _ h1.
        answer-Moves request uuid now (job_by_key request.scope request.request_idempotency_key db)
          db u h1
