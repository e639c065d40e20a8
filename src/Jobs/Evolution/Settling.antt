-- ===== src/Jobs/Evolution/Settling.antt =====
-- `settle_cancel`, `cancel`, `fail` and `register_object` move rows.
use estudio_polymind_llm_orc.Prelude.{ap, map, ◌≡◌, refl, sym, subst, Bool, true, false, At, arith}
use estudio_polymind_llm_orc.Jobs.Models.{
  Uuid, Micros, Scope, ObjectRef, is_terminal, same_scope, valid_key,
}
use estudio_polymind_llm_orc.Jobs.Errors.{Failure, is_cancellation, sanitized}
use estudio_polymind_llm_orc.Jobs.Tables.{Db, Ledger, StepRow, JobRow}
use estudio_polymind_llm_orc.Jobs.Database.{ok}
use estudio_polymind_llm_orc.Jobs.Blocks.{
  bind_inv, unless_inv, get_job_row_inv, get_job_row_last, branch_inv,
}
use estudio_polymind_llm_orc.Jobs.Checks.{Checked, check_lease_inv}
use estudio_polymind_llm_orc.Jobs.Progression.{refresh}
use estudio_polymind_llm_orc.Jobs.Leases.{Lease}
use estudio_polymind_llm_orc.Jobs.Settling.{
  settle_cancel, cancel, fail, register_object, add_intent,
}
use estudio_polymind_llm_orc.Jobs.Evolution.{
  attempt_key, IsKeyed, Moves, step_key, Moves-refl, Moves-trans, same_tables-Moves,
}
use estudio_polymind_llm_orc.Jobs.Evolution.Failing.{
  OpenStep, LiveJob, Cancellable-OpenStep, Cancellable-cancel_job, cancel_step-Moves,
  cancel_job-Moves, refresh-Moves, fail_step-Moves,
}
use estudio_polymind_llm_orc.Jobs.Evolution.Leases.{
  step_of-At, job_of-At, OpenStep-of, LiveJob-of, is_running→is_open,
}

-- The step of a checked lease is open.
pub Checked-OpenStep :
    (lease : Lease) {settling : Bool} {now : Micros} {job : JobRow} {row : StepRow} (db : Db)
    → IsKeyed db
    → Checked lease settling now job row db
    → OpenStep row.step_id db
Checked-OpenStep lease {row = r} db u c =
    let (only, sid, _) = step_of-At lease.job_id lease.step_id db u c.row_found in
    OpenStep-of r.step_id db r (subst (λ k. At step_key k (λ x. x ≡ r) db.steps) (sym sid) only)
      (is_running→is_open r c.running)

-- The job of a checked lease that settles nothing is live, by its key and by that of its step.
pub Checked-LiveJob :
    (lease : Lease) {now : Micros} {job : JobRow} {row : StepRow} (db : Db)
    → IsKeyed db
    → Checked lease false now job row db
    → LiveJob job.job_id db × LiveJob row.job_id db
Checked-LiveJob lease {job = j} db u c =
    let (only, jid) = job_of-At lease.scope lease.job_id db u c.job_found in
    let (_, _, same) = step_of-At lease.job_id lease.step_id db u c.row_found in
    let live = LiveJob-of lease.job_id db j only (c.live refl).live in
    (subst (λ k. LiveJob k db) (sym jid) live, subst (λ k. LiveJob k db) (sym same) live)

pub settle_cancel-Moves :
    (lease : Lease) (now : Micros) (db : Db) {db' : Db}
    → IsKeyed db
    → settle_cancel lease now db ≡ ok (tt, db')
    → Moves db db'
unfolding settle_cancel
settle_cancel-Moves lease now db u h = check_lease_inv lease now true _ db h λ job row c h1.
    unless_inv job.cancel_requested _ _ db h1 λ _ h2.
      let m =
        cancel_step-Moves now row.step_id db u
          (Cancellable-OpenStep now row.step_id db (Checked-OpenStep lease db u c)) in
      Moves-trans db _ _ m (refresh-Moves lease.job_id now _ m.keyed h2)

pub cancel-Moves :
    (scope : Scope) (job_id : Uuid) (now : Micros) (db : Db) {job : JobRow} {db' : Db}
    → IsKeyed db
    → cancel scope job_id now db ≡ ok (job, db')
    → Moves db db'
unfolding cancel
cancel-Moves scope job_id now db {job} {db'} u h = get_job_row_inv scope job_id _ db h λ j jf h1.
    branch_inv (is_terminal j.state) _ _ db h1 (λ _ h2. subst (Moves db) (cc) (Moves-refl db u))
      (λ live h2. bind_inv (refresh job_id now) _ _ h2 λ _ d e h3.
        get_job_row_last scope job_id d h3 λ same.
          let (only, jid) = job_of-At scope job_id db u jf in
          let m =
            cancel_job-Moves j.job_id now db u
              (subst (λ k. LiveJob k db) (sym jid) (LiveJob-of job_id db j only live)) in
          subst (Moves db) (sym same) (Moves-trans db _ d m (refresh-Moves job_id now _ m.keyed e)))

tables-add_intent :
    (step_id : Uuid) (ref : ObjectRef) (now : Micros) (db : Db) {db' : Db}
    → add_intent step_id ref now db ≡ ok (tt, db')
    → (db'.steps ≡ db.steps) × (db'.jobs ≡ db.jobs) × (db'.attempts ≡ db.attempts)
unfolding add_intent
tables-add_intent step_id ref now db h = (ground arith, ground arith, ground arith)

module _ (l : Ledger) where
  pub fail-Moves :
      (lease : Lease) (failure : Failure) (now : Micros) (db : Db) {db' : Db}
      → IsKeyed db
      → fail l lease failure now db ≡ ok (tt, db')
      → Moves db db'
  unfolding fail
  fail-Moves lease failure now db u h = check_lease_inv lease now false _ db h λ job row c h1.
      let (live, live') = Checked-LiveJob lease db u c in
      let opened = Checked-OpenStep lease db u c in
      branch_inv (is_cancellation failure.classification) _ _ db h1
        (λ _ h2.
          let m = cancel_job-Moves job.job_id now db u live in
          let n = cancel_step-Moves now row.step_id _ m.keyed (
            Cancellable-cancel_job now row.step_id job.job_id db
              (Cancellable-OpenStep now row.step_id db opened)) in
          Moves-trans db _ _ m (Moves-trans _ _ _ n (refresh-Moves row.job_id now _ n.keyed h2)))
        (λ _ h2. fail_step-Moves l job row (sanitized failure) now db u opened live' h2)

  pub register_object-Moves :
      (lease : Lease) (ref : ObjectRef) (now : Micros) (db : Db) {db' : Db}
      → IsKeyed db
      → register_object l lease ref now db ≡ ok (tt, db')
      → Moves db db'
  unfolding register_object
  register_object-Moves lease ref now db {db'} u h =
      unless_inv (valid_key l.hashing ref) _ _ db h λ _ h1.
        unless_inv (same_scope ref.scope lease.scope) _ _ db h1 λ _ h2.
          check_lease_inv lease now false _ db h2 λ _ _ _ h3.
            let (es, ej, ea) = tables-add_intent lease.step_id ref now db h3 in
            same_tables-Moves db db' u es ej (ap (map attempt_key) ea)
