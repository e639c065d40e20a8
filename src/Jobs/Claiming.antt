-- ===== src/Jobs/Claiming.antt =====
-- A claim of documents/jobs/sqlite.py that is answered with a lease.
use estudio_polymind_llm_orc.Prelude.{
  find-weaker, ◌+◌, ◌≤◌, ◌≡◌, ◌≢◌, ◌⊎◌, ◌++◌, ◌==◌, any, All, refl, sym, subst, ◌∙◌, ap, String,
  true, false, ◌&&◌, Bool-cases, inl, inr, Option, some, List, [], ◌∷◌, ==→≡, find, find-eq-some,
  arith, ltb, &&-eq-true, not, ◌||◌,
}
use estudio_polymind_llm_orc.Jobs.Models.{Uuid, Micros, Scope, same_scope, is_terminal, is_token}
use estudio_polymind_llm_orc.Jobs.Tables.{
  Db, Ledger, JobRow, StepRow, AttemptRow, is_running, is_claimable,
}
use estudio_polymind_llm_orc.Jobs.Database.{
  Result, Tx, continue, steps_of, update_job, ok, ◌>>=◌, job_of, get_job_row, step_of, get_step_row,
}
use estudio_polymind_llm_orc.Jobs.Progression.{refresh, refreshed}
use estudio_polymind_llm_orc.Jobs.Leases.{
  Lease, attempt_clashes, insert_attempt, new_attempt, budget_spent, grant, claim_row, recover,
  claim,
}

claimable-running : (s : _) → is_claimable s ≡ true → is_running s ≡ false
claimable-running s h = ground arith

bind-ok :
    {A B : Type 0} (m : Tx A) (f : A → Tx B) (db : Db) {a : A} {d : Db}
    → m db ≡ ok (a, d)
    → (m >>= f) db ≡ f a d
bind-ok m f db h = ap (λ r. continue r f) h

-- the row of the job, whatever else the tables hold
abbrev At : Scope → Uuid → List JobRow → JobRow → Type 0
At scope job_id jobs job =
    find (λ r. r.job_id == job_id && same_scope r.scope scope) jobs ≡ some job

refresh-returns :
    (scope : Scope) (job_id : Uuid) (now : Micros) (db : Db) (job : JobRow)
    → At scope job_id db.jobs job
    → (db' : Db) × (refresh job_id now db ≡ ok (tt, db'))
unfolding refresh
refresh-returns scope job_id now db job h =
    let (y, e) =
      find-weaker (λ r. r.job_id == job_id) (λ r. same_scope r.scope scope) db.jobs {x = job} h in
    (update_job job_id (refreshed y (steps_of job_id db) now) db, rw (refresh, e) refl)

job_of-At :
    (scope : Scope) (job_id : Uuid) (db : Db) (job : JobRow)
    → job_of scope job_id db ≡ some job
    → At scope job.job_id db.jobs job
unfolding job_of
job_of-At scope job_id db job h =
    let (m, _) = &&-eq-true (job.job_id == job_id) _ (find-eq-some _ db.jobs h) in
    subst (λ k. At scope k db.jobs job) (sym (==→≡ job.job_id job_id m)) h

step_of-id :
    (job_id step_id : Uuid) (db : Db) (row : StepRow)
    → step_of job_id step_id db ≡ some row
    → row.step_id ≡ step_id
unfolding step_of
step_of-id job_id step_id db row h =
    let (m, _) = &&-eq-true (row.step_id == step_id) _ (find-eq-some _ db.steps h) in
    ==→≡ row.step_id step_id m

-- every attempt of the step that is recorded comes before its next one
abbrev pub EarlierAttempts : StepRow → List AttemptRow → Type 0
EarlierAttempts row =
    All (λ a. (a.step_id ≢ row.step_id) ⊎ ((a.number ≤ row.attempt_count) × (a.fence ≤ row.fence)))

EarlierAttempts-fresh :
    (row : StepRow) (owner : String) (now : Micros) (rs : List AttemptRow)
    → EarlierAttempts row rs
    → any (attempt_clashes (new_attempt row owner now)) rs ≡ false
EarlierAttempts-fresh row owner now [] h = refl
EarlierAttempts-fresh row owner now (a ∷ rs) (inl other, h) =
    elim (Bool-cases (a.step_id == row.step_id)) [
      | inl e ↦ absurd (other (==→≡ a.step_id row.step_id e))
      | inr e ↦ ground (arith, e, EarlierAttempts-fresh row owner now rs h)
    ]
EarlierAttempts-fresh row owner now (a ∷ rs) (inr (n, f), h) =
    ground (arith, n, f, EarlierAttempts-fresh row owner now rs h)

insert_attempt-returns :
    (a : AttemptRow) (db : Db)
    → any (attempt_clashes a) db.attempts ≡ false
    → insert_attempt a db ≡ ok (tt, record db { attempts = db.attempts ++ a ∷ [] })
unfolding insert_attempt
insert_attempt-returns a db h = rw h refl

module _ (l : Ledger) where
  grant-returns :
      (scope : Scope) (job : JobRow) (row : StepRow) (owner : String) (now : Micros) (db : Db)
      → At scope job.job_id db.jobs job
      → EarlierAttempts row db.attempts
      → (lease : Lease) × (db' : Db) × (grant l scope job row owner now db ≡ ok (some lease, db'))
        × (lease.step_id ≡ row.step_id)
        × (lease.fence ≡ row.fence + 1)
  unfolding grant
  grant-returns scope job row owner now db h past =
      let (db', e) = refresh-returns scope job.job_id now _ job h in
      (
        _,
        db',
        bind-ok (insert_attempt (new_attempt row owner now)) _ _ (
              insert_attempt-returns (new_attempt row owner now) _
                (EarlierAttempts-fresh row owner now db.attempts past))
            ∙ bind-ok (refresh job.job_id now) _ _ e,
        refl,
        refl,
      )

  claim_row-returns :
      (scope : Scope) (job : JobRow) (row : StepRow) (owner : String) (now : Micros) (db : Db)
      → At scope job.job_id db.jobs job
      → EarlierAttempts row db.attempts
      → is_claimable row.state ≡ true
      → row.not_before ≤ now
      → budget_spent row.started_at job.request.profile.retry.budget_micros now ≡ false
      → (lease : Lease) × (db' : Db) × (claim_row l scope job row owner now db
          ≡ ok (some lease, db'))
        × (lease.step_id ≡ row.step_id)
        × (lease.fence ≡ row.fence + 1)
  unfolding claim_row
  claim_row-returns scope job row owner now db h past c m b =
      let (lease, db', e, i, f) = grant-returns scope job row owner now db h past in
      let early : (not (is_claimable row.state) || ltb now row.not_before) ≡ false = ground arith in
      (lease, db', rw (early, b) e, i, f)

  recover-waiting :
      (job : JobRow) (row : StepRow) (now : Micros) (db : Db)
      → is_running row.state ≡ false
      → recover l job row now db ≡ ok (tt, db)
  unfolding recover
  recover-waiting job row now db h = rw h refl

  -- a claim of a waiting step of a live job is the claim of its row
  claim-claim_row :
      (scope : Scope) (job_id step_id : Uuid) (owner : String) (now : Micros) (db : Db)
      (job : JobRow) (row : StepRow) (w : Result (Option Lease × Db))
      → is_token owner ≡ true
      → job_of scope job_id db ≡ some job
      → step_of job_id step_id db ≡ some row
      → (job.cancel_requested || is_terminal job.state) ≡ false
      → is_running row.state ≡ false
      → claim_row l scope job row owner now db ≡ w
      → claim l scope job_id step_id owner now db ≡ w
  unfolding claim get_job_row get_step_row
  claim-claim_row scope job_id step_id owner now db job row w t j r live still e =
      rw (t, j, r, live, recover-waiting job row now db still, r) e

-- A step that is due is leased: the claim of a step that is READY or waits for its retry, whose time has
-- come, whose budget is not spent and whose recorded attempts have numbers and fences up to its own, of
-- a job that is neither cancelled nor over, by an owner with a valid name, answers with a lease of
-- that step under the next fence.
pub claim-leases :
    (l : Ledger) (scope : Scope) (job_id step_id : Uuid) (owner : String) (now : Micros) (db : Db)
    (job : JobRow) (row : StepRow)
    → is_token owner ≡ true
    → job_of scope job_id db ≡ some job
    → step_of job_id step_id db ≡ some row
    → job.cancel_requested ≡ false
    → is_terminal job.state ≡ false
    → is_claimable row.state ≡ true
    → row.not_before ≤ now
    → budget_spent row.started_at job.request.profile.retry.budget_micros now ≡ false
    → EarlierAttempts row db.attempts
    → (lease : Lease) × (db' : Db) × (claim l scope job_id step_id owner now db
        ≡ ok (some lease, db'))
      × (lease.step_id ≡ step_id)
      × (lease.fence ≡ row.fence + 1)
claim-leases l scope job_id step_id owner now db job row t j r x y c m b past =
    let at : At scope job.job_id db.jobs job = job_of-At scope job_id db job j in
    let (lease, db', e, i, f) = claim_row-returns l scope job row owner now db at past c m b in
    let live : (job.cancel_requested || is_terminal job.state) ≡ false = ground arith in
    let still = claimable-running row.state c in
    (
      lease,
      db',
      claim-claim_row l scope job_id step_id owner now db job row _ t j r live still e,
      i ∙ step_of-id job_id step_id db row r,
      f,
    )
