-- ===== src/Jobs/Evolution/Failing.antt =====
-- `_cancel_step`, `_cancel_job`, `_terminal_failure`, `_refresh` and `_failure` move rows.
use estudio_polymind_llm_orc.Prelude.{
  ◌≡◌, refl, sym, subst, ap, ◌∙◌, Bool, true, false, ◌&&◌, List, [], ◌∷◌, ◌==◌, some, map, any,
  select, update, update-update, update-none, find, All-map, At-update, At, ◌⊎◌, select-At,
  find_by_key-At, &&-eq-true, Option-cases, inl, inr, String, arith,
}
use estudio_polymind_llm_orc.Jobs.Models.{Uuid, Micros, is_terminal}
use estudio_polymind_llm_orc.Jobs.Errors.{Failure, Classification}
use estudio_polymind_llm_orc.Jobs.Tables.{Db, Ledger, StepRow, JobRow, is_open, is_waiting}
use estudio_polymind_llm_orc.Jobs.Database.{ok, enqueue, steps_of, update_job}
use estudio_polymind_llm_orc.Jobs.Progression.{refresh, refreshed}
use estudio_polymind_llm_orc.Jobs.Failing.{
  is_running_outcome, cancelled_attempt, cancelled_row, failed_row, waiting_row, cancel_step,
  cancel_steps, cancel_job, failed_job_row, bury, fail_job, terminal_failure, cancelling_row,
  fail_started, may_retry, retry_at, record_attempt, settle_failure, kept_category, fail_step,
}
use estudio_polymind_llm_orc.Jobs.Evolution.{
  attempt_key, keys-update, StepMoves, JobMoves, IsKeyed, Moves, step_key, job_key, StepMoves-refl,
  Moves-trans, update_steps-Moves, update_jobs-Moves, same_tables-Moves,
}

-- every row of the step is open
abbrev pub OpenStep : Uuid → Db → Type 0
OpenStep id db = At step_key id (λ r. is_open r.state ≡ true) db.steps

-- no row of the job is terminal
abbrev pub LiveJob : Uuid → Db → Type 0
LiveJob id db = At job_key id (λ j. is_terminal j.state ≡ false) db.jobs

cancelled_row-StepMoves :
    (now : Micros) (r : StepRow) → is_open r.state ≡ true → StepMoves r (cancelled_row now r)
cancelled_row-StepMoves now r h = ground arith

failed_row-StepMoves :
    (c : String) (now : Micros) (r : StepRow)
    → is_open r.state ≡ true
    → StepMoves r (failed_row c now r)
failed_row-StepMoves c now r h = ground arith

waiting_row-StepMoves :
    (c : String) (later : Micros) (r : StepRow)
    → is_open r.state ≡ true
    → StepMoves r (waiting_row c later r)
waiting_row-StepMoves c later r h = ground arith

-- a cancellation now is allowed: the row is open, or this cancellation has been written already
abbrev pub Cancellable : Micros → Uuid → Db → Type 0
Cancellable now id db =
    At step_key id (λ r. (is_open r.state ≡ true) ⊎ (cancelled_row now r ≡ r)) db.steps

pub Cancellable-OpenStep :
    (now : Micros) (id : Uuid) (db : Db) → OpenStep id db → Cancellable now id db
Cancellable-OpenStep now id db o = All-map _ _ (λ r is m. inl (is m)) db.steps o

cancellable-StepMoves :
    (now : Micros) (r : StepRow)
    → (is_open r.state ≡ true) ⊎ (cancelled_row now r ≡ r)
    → StepMoves r (cancelled_row now r)
cancellable-StepMoves now r (inl h) = cancelled_row-StepMoves now r h
cancellable-StepMoves now r (inr e) = subst (StepMoves r) (sym e) (StepMoves-refl r)

pub cancel_step-Moves :
    (now : Micros) (id : Uuid) (db : Db)
    → IsKeyed db
    → Cancellable now id db
    → Moves db (cancel_step now id db)
unfolding cancel_step
cancel_step-Moves now id db u h =
    update_steps-Moves db _ (λ r. r.step_id == id) (cancelled_row now) u refl refl
      (keys-update (λ a. a.step_id == id && is_running_outcome a.outcome) (cancelled_attempt now)
        db.attempts (λ a. refl))
      (λ r. refl) (All-map _ _ (λ r is m. cancellable-StepMoves now r (is m)) db.steps h)

-- Other cancellations at the same instant leave a cancellation allowed.
pub Cancellable-cancel_step :
    (now : Micros) (id k : Uuid) (db : Db)
    → Cancellable now id db
    → Cancellable now id (cancel_step now k db)
unfolding cancel_step
Cancellable-cancel_step now id k db h =
    At-update step_key _ id (λ r. r.step_id == k) (cancelled_row now) db.steps (λ r. refl)
      (λ r _. inr refl) h

-- the loop over a list of rows is one UPDATE of the rows with their keys
pub steps-cancel_steps :
    (now : Micros) (rs : List StepRow) (db : Db)
    → (cancel_steps now rs db).steps
      ≡ update (λ r. any (λ x. r.step_id == x.step_id) rs) (cancelled_row now) db.steps
unfolding cancel_steps cancel_step
steps-cancel_steps now [] db = sym (update-none (cancelled_row now) db.steps)
steps-cancel_steps now (x ∷ rs) db =
    steps-cancel_steps now rs (cancel_step now x.step_id db)
    ∙ update-update (λ r. any (λ y. r.step_id == y.step_id) rs) (λ r. r.step_id == x.step_id)
        (cancelled_row now) (λ r. refl) (λ r. refl) db.steps

pub jobs-cancel_steps :
    (now : Micros) (rs : List StepRow) (db : Db) → (cancel_steps now rs db).jobs ≡ db.jobs
unfolding cancel_steps cancel_step
jobs-cancel_steps now [] db = refl
jobs-cancel_steps now (x ∷ rs) db = jobs-cancel_steps now rs (cancel_step now x.step_id db)

keys-cancel_steps :
    (now : Micros) (rs : List StepRow) (db : Db)
    → map attempt_key (cancel_steps now rs db).attempts ≡ map attempt_key db.attempts
unfolding cancel_steps cancel_step
keys-cancel_steps now [] db = refl
keys-cancel_steps now (x ∷ rs) db =
    keys-cancel_steps now rs (cancel_step now x.step_id db)
    ∙ keys-update (λ a. a.step_id == x.step_id && is_running_outcome a.outcome)
        (cancelled_attempt now) db.attempts (λ a. refl)

pub Cancellable-cancel_steps :
    (now : Micros) (id : Uuid) (rs : List StepRow) (db : Db)
    → Cancellable now id db
    → Cancellable now id (cancel_steps now rs db)
unfolding cancel_steps
Cancellable-cancel_steps now id [] db h = h
Cancellable-cancel_steps now id (r ∷ rs) db h =
    Cancellable-cancel_steps now id rs (cancel_step now r.step_id db)
      (Cancellable-cancel_step now id r.step_id db h)

-- Cancelling open rows that a SELECT returned moves them.
pub cancel_steps-Moves :
    (now : Micros) (p : StepRow → Bool) (rs : List StepRow) (db : Db)
    → IsKeyed db
    → ((r : StepRow) → p r ≡ true → is_open r.state ≡ true)
    → ((k : Uuid)
        → any (λ x. k == x.step_id) rs ≡ true
        → any (λ x. k == x.step_id) (select p db.steps) ≡ true)
    → Moves db (cancel_steps now rs db)
cancel_steps-Moves now p rs db u only_open sub =
    update_steps-Moves db _ (λ r. any (λ x. r.step_id == x.step_id) rs) (cancelled_row now) u
      (steps-cancel_steps now rs db) (jobs-cancel_steps now rs db) (keys-cancel_steps now rs db)
      (λ r. refl)
      (All-map _ _ (λ r h m. cancelled_row-StepMoves now r (only_open r (h (sub r.step_id m))))
        db.steps (select-At step_key p db.steps u.steps))

-- What `_refresh` writes when it returns.
pub refresh-eq-ok :
    (id : Uuid) (now : Micros) (db : Db) {db' : Db}
    → refresh id now db ≡ ok (tt, db')
    → (job : JobRow) × (find (λ (r : JobRow). r.job_id == id) db.jobs ≡ some job)
      × (db' ≡ update_job id (refreshed job (steps_of id db) now) db)
unfolding refresh
refresh-eq-ok id now db e = elim (Option-cases (find (λ (r : JobRow). r.job_id == id) db.jobs)) [
  | inl missing ↦ ground arith
  | inr (job, f) ↦ (job, f, ground arith)
]

refreshed-JobMoves :
    (job : JobRow) (rows : List StepRow) (now : Micros) → JobMoves job (refreshed job rows now job)
unfolding refreshed
refreshed-JobMoves job rows now = ground arith

pub refresh-Moves :
    (id : Uuid) (now : Micros) (db : Db) {db' : Db}
    → IsKeyed db
    → refresh id now db ≡ ok (tt, db')
    → Moves db db'
refresh-Moves id now db {db'} u e =
    let (job, f, w) = refresh-eq-ok id now db e in
    update_jobs-Moves db db' (λ r. r.job_id == id) (refreshed job (steps_of id db) now) u
      (ap (λ (d : Db). d.steps) w) (ap (λ (d : Db). d.jobs) w)
      (ap (λ (d : Db). map attempt_key d.attempts) w) (λ j. unfold refreshed in refl)
      (All-map _ _
        (λ j is m.
          subst (λ x. JobMoves x (refreshed job (steps_of id db) now x)) (sym (is m))
            (refreshed-JobMoves job (steps_of id db) now))
        db.jobs (find_by_key-At job_key id db.jobs u.jobs f))

failed_job-JobMoves :
    (c : String) (j : JobRow) → is_terminal j.state ≡ false → JobMoves j (failed_job_row c j)
failed_job-JobMoves c j h = ground arith

pub terminal_failure-Moves :
    (row : StepRow) (c : String) (k : Classification) (now : Micros) (db : Db)
    → IsKeyed db
    → OpenStep row.step_id db
    → LiveJob row.job_id db
    → Moves db (terminal_failure row c k now db)
unfolding terminal_failure
terminal_failure-Moves row c k now db u o l = Moves-trans db (bury row c k now db) _ buried (
    Moves-trans _ (fail_job row.job_id c (bury row c k now db)) _ in_job (
      cancel_steps-Moves now (λ r. r.job_id == row.job_id && is_open r.state) _ _ in_job.keyed
        (λ r h. (&&-eq-true (r.job_id == row.job_id) (is_open r.state) h).1) (λ _ h. h)))
  where
    buried : Moves db (bury row c k now db)
    buried =
        update_steps-Moves db _ (λ r. r.step_id == row.step_id) (failed_row c now) u refl refl refl
          (λ r. refl) (All-map _ _ (λ r is m. failed_row-StepMoves c now r (is m)) db.steps o)

    in_job : Moves (bury row c k now db) (fail_job row.job_id c (bury row c k now db))
    in_job =
        update_jobs-Moves _ _ (λ j. j.job_id == row.job_id) (failed_job_row c) buried.keyed refl
          refl refl (λ j. refl) (All-map _ _ (λ j is m. failed_job-JobMoves c j (is m)) db.jobs l)

cancelling-JobMoves : (j : JobRow) → is_terminal j.state ≡ false → JobMoves j (cancelling_row j)
cancelling-JobMoves j h = ground arith

is_waiting→is_open : (r : StepRow) → is_waiting r.state ≡ true → is_open r.state ≡ true
is_waiting→is_open r h = ground arith

pub cancel_job-Moves :
    (id : Uuid) (now : Micros) (db : Db)
    → IsKeyed db
    → LiveJob id db
    → Moves db (cancel_job id now db)
unfolding cancel_job
cancel_job-Moves id now db u l = Moves-trans db (update_job id cancelling_row db) _ asked (
    cancel_steps-Moves now (λ r. r.job_id == id && is_waiting r.state) _ _ asked.keyed
      (λ r h. is_waiting→is_open r (&&-eq-true (r.job_id == id) (is_waiting r.state) h).1)
      (λ _ h. h))
  where
    asked : Moves db (update_job id cancelling_row db)
    asked =
        update_jobs-Moves _ _ (λ j. j.job_id == id) cancelling_row u refl refl refl (λ j. refl)
          (All-map _ _ (λ j is m. cancelling-JobMoves j (is m)) db.jobs l)

pub Cancellable-cancel_job :
    (now : Micros) (id job_id : Uuid) (db : Db)
    → Cancellable now id db
    → Cancellable now id (cancel_job job_id now db)
unfolding cancel_job
Cancellable-cancel_job now id job_id db h =
    Cancellable-cancel_steps now id _ (update_job job_id cancelling_row db) h

settle_failure-Moves :
    (row : StepRow) (f : Failure) (retry : Bool) (later now : Micros) (db : Db)
    → IsKeyed db
    → OpenStep row.step_id db
    → LiveJob row.job_id db
    → Moves db (settle_failure row f retry later now db)
unfolding settle_failure enqueue
settle_failure-Moves row f false later now db u o l =
    terminal_failure-Moves row (kept_category f false) f.classification now db u o l
settle_failure-Moves row f true later now db u o l =
    update_steps-Moves db _ (λ r. r.step_id == row.step_id)
      (waiting_row (kept_category f true) later) u refl refl refl (λ r. refl)
      (All-map _ _ (λ r is m. waiting_row-StepMoves (kept_category f true) later r (is m)) db.steps
        o)

record_attempt-Moves :
    (row : StepRow) (f : Failure) (retry : Bool) (later now : Micros) (db : Db)
    → IsKeyed db
    → Moves db (record_attempt row f retry later now db)
unfolding record_attempt
record_attempt-Moves row f retry later now db u =
    same_tables-Moves _ _ u refl refl (
      keys-update (λ a. a.step_id == row.step_id && a.fence == row.fence) _ db.attempts (λ a. refl))

module _ (l : Ledger) where
  pub fail_started-Moves :
      (job : JobRow) (row : StepRow) (f : Failure) (started now : Micros) (db : Db) {db' : Db}
      → IsKeyed db
      → OpenStep row.step_id db
      → LiveJob row.job_id db
      → fail_started l job row f started now db ≡ ok (tt, db')
      → Moves db db'
  unfolding fail_started
  fail_started-Moves job row f started now db {db'} u o live e = Moves-trans _ noted _ noted-Moves (
      Moves-trans _ settled _ settled-Moves
        (refresh-Moves row.job_id now settled settled-Moves.keyed e))
    where
      retry : Bool
      retry = may_retry l job row f started now

      later : Micros
      later = retry_at l job row f now

      noted : Db
      noted = record_attempt row f retry later now db

      noted-Moves : Moves db noted
      noted-Moves = record_attempt-Moves row f retry later now db u

      settled : Db
      settled = settle_failure row f retry later now noted

      settled-Moves : Moves noted settled
      settled-Moves =
          settle_failure-Moves row f retry later now noted noted-Moves.keyed
            (unfold record_attempt in o) (unfold record_attempt in live)

  -- What `_failure` writes when it returns: the step has started.
  pub fail_step-eq-ok :
      (job : JobRow) (row : StepRow) (f : Failure) (now : Micros) (db : Db) {db' : Db}
      → fail_step l job row f now db ≡ ok (tt, db')
      → (started : Micros) × (row.started_at ≡ some started)
        × (fail_started l job row f started now db ≡ ok (tt, db'))
  unfolding fail_step
  fail_step-eq-ok job row f now db e = elim (Option-cases row.started_at) [
    | inl missing ↦ ground arith
    | inr (started, s) ↦ (started, s, ground arith)
  ]

  pub fail_step-Moves :
      (job : JobRow) (row : StepRow) (f : Failure) (now : Micros) (db : Db) {db' : Db}
      → IsKeyed db
      → OpenStep row.step_id db
      → LiveJob row.job_id db
      → fail_step l job row f now db ≡ ok (tt, db')
      → Moves db db'
  fail_step-Moves job row f now db u o live e =
      let (started, _, w) = fail_step-eq-ok job row f now db e in
      fail_started-Moves job row f started now db u o live w
