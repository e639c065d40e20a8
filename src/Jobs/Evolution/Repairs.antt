-- ===== src/Jobs/Evolution/Repairs.antt =====
-- `reconcile` and `mark_delivered` move rows.
use estudio_polymind_llm_orc.Prelude.{
  map, ℕ, ◌≡◌, refl, sym, subst, ap, true, not, ◌&&◌, ◌||◌, List, [], ◌∷◌, some, none, Option, leb,
  All, All-map, All-take, All-select-true, At, find_by_key-At, Unique-self, &&-eq-true, ◌⊎◌, arith,
}
use estudio_polymind_llm_orc.Jobs.Models.{Uuid, Micros, is_terminal}
use estudio_polymind_llm_orc.Jobs.Tables.{Db, Ledger, StepRow, JobRow, is_open, is_running}
use estudio_polymind_llm_orc.Jobs.Database.{ok, enqueue}
use estudio_polymind_llm_orc.Jobs.Blocks.{
  bind_inv, unless_inv, get_job_row_inv, get_step_row_inv, branch_inv,
}
use estudio_polymind_llm_orc.Jobs.Progression.{refresh}
use estudio_polymind_llm_orc.Jobs.Failing.{cancelled_row, fail_step}
use estudio_polymind_llm_orc.Jobs.Leases.{interrupted}
use estudio_polymind_llm_orc.Jobs.Outbox.{Dispatch, mark_delivered, job_by_id}
use estudio_polymind_llm_orc.Jobs.Reconcile.{
  Reconciliation, reconcile, expire_running, expire_step, expire_steps, close_steps, expired_steps,
  leftover_steps, silent_steps, redispatch, expire_leases, close_leftovers, redispatch_silent,
  job_over,
}
use estudio_polymind_llm_orc.Jobs.Evolution.{
  attempt_key, IsKeyed, Moves, step_key, job_key, Moves-refl, Moves-trans, same_tables-Moves,
}
use estudio_polymind_llm_orc.Jobs.Evolution.Failing.{
  OpenStep, Cancellable, Cancellable-OpenStep, Cancellable-cancel_step, cancel_step-Moves,
  refresh-Moves, refresh-eq-ok, fail_step-Moves,
}
use estudio_polymind_llm_orc.Jobs.Evolution.Leases.{
  step_of-At, OpenStep-of, LiveJob-of, is_running→is_open,
}

-- `_refresh` leaves the steps alone.
Cancellable-refresh :
    (now : Micros) (id job_id : Uuid) (db : Db) {db' : Db}
    → refresh job_id now db ≡ ok (tt, db')
    → Cancellable now id db
    → Cancellable now id db'
Cancellable-refresh now id job_id db e h =
    let (_, _, w) = refresh-eq-ok job_id now db e in
    subst (At step_key id (λ r. (is_open r.state ≡ true) ⊎ (cancelled_row now r ≡ r)))
      (sym (ap (λ (d : Db). d.steps) w)) h

close_steps-Moves :
    (now : Micros) (rs : List StepRow) (db : Db) {db' : Db}
    → IsKeyed db
    → All (λ r. Cancellable now r.step_id db) rs
    → close_steps now rs db ≡ ok (tt, db')
    → Moves db db'
unfolding close_steps
close_steps-Moves now [] db {db'} u c h = subst (Moves db) (cc) (Moves-refl db u)
close_steps-Moves now (r ∷ rs) db {db'} u c h = bind_inv (refresh r.job_id now) _ _ h λ _ d e h1.
    let m = cancel_step-Moves now r.step_id db u c.0 in
    let n = refresh-Moves r.job_id now _ m.keyed e in
    Moves-trans db _ db' m (
      Moves-trans _ d db' n (
        close_steps-Moves now rs d n.keyed
          (All-map _ _
            (λ x k.
              Cancellable-refresh now x.step_id r.job_id _ e
                (Cancellable-cancel_step now x.step_id r.step_id db k))
            rs c.1)
          h1))

leftover-Cancellable :
    (limit : ℕ) (now : Micros) (db : Db)
    → IsKeyed db
    → All (λ r. Cancellable now r.step_id db) (leftover_steps limit db)
unfolding leftover_steps
leftover-Cancellable limit now db u = All-take _ limit _ (
    All-select-true _ (λ r. is_open r.state && job_over db r) db.steps
      (All-map _ _
        (λ r only p.
          Cancellable-OpenStep now r.step_id db
            (OpenStep-of r.step_id db r only (&&-eq-true (is_open r.state) (job_over db r) p).0))
        db.steps (Unique-self step_key db.steps u.steps)))

module _ (l : Ledger) where
  expire_running-Moves :
      (now : Micros) (row : StepRow) (o : Option JobRow) (db : Db) {n : ℕ} {db' : Db}
      → IsKeyed db
      → job_by_id row.job_id db ≡ o
      → OpenStep row.step_id db
      → expire_running l now row o db ≡ ok (n, db')
      → Moves db db'
  unfolding expire_running
  expire_running-Moves now row none db u f p h = cc
  expire_running-Moves now row (some job) db {n} {db'} u f p h =
      branch_inv (job.cancel_requested || is_terminal job.state) _ _ db h
        (λ _ h1. bind_inv (refresh row.job_id now) _ _ h1 λ _ d e h2.
          let m =
            cancel_step-Moves now row.step_id db u (Cancellable-OpenStep now row.step_id db p) in
          subst (Moves db) (cc) (Moves-trans db _ d m (refresh-Moves row.job_id now _ m.keyed e)))
        (λ live h1. bind_inv (fail_step l job row interrupted now) _ db h1 λ _ d e h2.
          subst (Moves db) (cc) (
            fail_step-Moves l job row interrupted now db u p
              (LiveJob-of row.job_id db job (find_by_key-At job_key row.job_id db.jobs u.jobs f)
                (ground arith))
              e))

  expire_step-Moves :
      (now : Micros) (stale : StepRow) (db : Db) {n : ℕ} {db' : Db}
      → IsKeyed db
      → expire_step l now stale db ≡ ok (n, db')
      → Moves db db'
  unfolding expire_step
  expire_step-Moves now stale db {n} {db'} u h =
      get_step_row_inv stale.job_id stale.step_id _ db h λ row rf h1.
        let (only, sid, _) = step_of-At stale.job_id stale.step_id db u rf in
        branch_inv (not (is_running row.state)) _ _ db h1
          (λ _ h2. subst (Moves db) (cc) (Moves-refl db u))
          (λ running h2.
            expire_running-Moves now row (job_by_id row.job_id db) db u refl
              (OpenStep-of row.step_id db row
                (subst (λ k. At step_key k (λ x. x ≡ row) db.steps) (sym sid) only)
                (is_running→is_open row (ground arith)))
              h2)

  expire_steps-Moves :
      (now : Micros) (rs : List StepRow) (db : Db) {n : ℕ} {db' : Db}
      → IsKeyed db
      → expire_steps l now rs db ≡ ok (n, db')
      → Moves db db'
  unfolding expire_steps
  expire_steps-Moves now [] db u h = subst (Moves db) (cc) (Moves-refl db u)
  expire_steps-Moves now (r ∷ rs) db {n} {db'} u h =
      bind_inv (expire_step l now r) _ db h λ _ d e h1.
        bind_inv (expire_steps l now rs) _ d h1 λ _ d' e' h2.
          let m = expire_step-Moves now r db u e in
          subst (Moves db) (cc) (Moves-trans db d d' m (expire_steps-Moves now rs d m.keyed e'))

redispatch-Moves :
    (now : Micros) (rs : List StepRow) (db : Db) → IsKeyed db → Moves db (redispatch now rs db)
unfolding redispatch enqueue
redispatch-Moves now [] db u = Moves-refl db u
redispatch-Moves now (r ∷ rs) db u =
    let m = same_tables-Moves db (enqueue r.step_id now now db) u refl refl refl in
    Moves-trans db _ _ m (redispatch-Moves now rs _ m.keyed)

close_leftovers-Moves :
    (limit : ℕ) (now : Micros) (db : Db) {n : ℕ} {db' : Db}
    → IsKeyed db
    → close_leftovers limit now db ≡ ok (n, db')
    → Moves db db'
unfolding close_leftovers
close_leftovers-Moves limit now db {n} {db'} u h =
    bind_inv (close_steps now (leftover_steps limit db)) _ db h λ _ d e h1.
      subst (Moves db) (cc) (
        close_steps-Moves now (leftover_steps limit db) db u (leftover-Cancellable limit now db u)
          e)

module _ (l : Ledger) where
  redispatch_silent-Moves :
      (limit : ℕ) (now : Micros) (db : Db) {n : ℕ} {db' : Db}
      → IsKeyed db
      → redispatch_silent l limit now db ≡ ok (n, db')
      → Moves db db'
  unfolding redispatch_silent
  redispatch_silent-Moves limit now db {n} {db'} u h =
      subst (Moves db) (cc) (redispatch-Moves now (silent_steps l limit now db) db u)

  pub reconcile-Moves :
      (limit : ℕ) (now : Micros) (db : Db) {report : Reconciliation} {db' : Db}
      → IsKeyed db
      → reconcile l limit now db ≡ ok (report, db')
      → Moves db db'
  unfolding reconcile
  reconcile-Moves limit now db {report} {db'} u h =
      unless_inv (leb 1 limit && leb limit 1000) _ _ db h λ _ h1.
        bind_inv (expire_leases l limit now) _ db h1 λ _ d e h2.
          bind_inv (close_leftovers limit now) _ d h2 λ _ d' e' h3.
            bind_inv (redispatch_silent l limit now) _ d' h3 λ _ d'' e'' h4.
              let m = expire_steps-Moves l now (expired_steps limit now db) db u e in
              let n = close_leftovers-Moves limit now d m.keyed e' in
              let o = redispatch_silent-Moves limit now d' n.keyed e'' in
              subst (Moves db) (cc) (Moves-trans db d d'' m (Moves-trans d d' d'' n o))

pub mark_delivered-Moves :
    (x : Dispatch) (now : Micros) (db : Db) {db' : Db}
    → IsKeyed db
    → mark_delivered x now db ≡ ok (tt, db')
    → Moves db db'
unfolding mark_delivered
mark_delivered-Moves x now db {db'} u h = get_job_row_inv x.scope x.job_id _ db h λ _ _ h1.
    get_step_row_inv x.job_id x.step_id _ db h1 λ _ _ h2.
      same_tables-Moves db db' u (ground arith) (ground arith) (ap (map attempt_key) (ground arith))
