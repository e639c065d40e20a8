-- ===== src/Jobs/Evolution/Histories.antt =====
-- Every history of calls of documents/jobs/sqlite.py, from the empty database on.
use estudio_polymind_llm_orc.Prelude.{
  ◌≡◌, refl, subst, Bool, true, false, if◌then◌else◌, List, [], ◌∷◌,
}
use estudio_polymind_llm_orc.Jobs.Tables.{Db, Ledger}
use estudio_polymind_llm_orc.Jobs.Database.{Tx, Result, ok, err, ledger_error, transaction}
use estudio_polymind_llm_orc.Jobs.Leases.{claim, renew}
use estudio_polymind_llm_orc.Jobs.Settling.{settle_cancel, cancel, fail, register_object, commit}
use estudio_polymind_llm_orc.Jobs.Outbox.{mark_delivered}
use estudio_polymind_llm_orc.Jobs.Reconcile.{reconcile}
use estudio_polymind_llm_orc.Jobs.Admit.{admit}
use estudio_polymind_llm_orc.Jobs.History.{
  done, job, step, lease, repaired, Call, Reply, body, call, replay, reply_of, admit_call,
  claim_call, renew_call, commit_call, fail_call, cancel_call, settle_call, register_call,
  delivered_call, reconcile_call,
}
use estudio_polymind_llm_orc.Jobs.Evolution.{IsKeyed, Moves, Moves-refl, Moves-trans}
use estudio_polymind_llm_orc.Jobs.Evolution.Leases.{renew-Moves}
use estudio_polymind_llm_orc.Jobs.Evolution.Claims.{claim-Moves}
use estudio_polymind_llm_orc.Jobs.Evolution.Settling.{
  settle_cancel-Moves, cancel-Moves, fail-Moves, register_object-Moves,
}
use estudio_polymind_llm_orc.Jobs.Evolution.Commits.{commit-Moves}
use estudio_polymind_llm_orc.Jobs.Evolution.Repairs.{reconcile-Moves, mark_delivered-Moves}
use estudio_polymind_llm_orc.Jobs.Evolution.Admissions.{admit-Moves}

reply_of-Moves :
    {A : Type 0} (f : A → Reply) (m : Tx A) (db : Db) {r : Reply} {db' : Db}
    → ((a : A) (d : Db) → m db ≡ ok (a, d) → Moves db d)
    → reply_of f m db ≡ ok (r, db')
    → Moves db db'
reply_of-Moves {A} f m db {r} {db'} h e = settle (m db) h e
  where
    settle :
        (x : Result (A × Db))
        → ((a : A) (d : Db) → x ≡ ok (a, d) → Moves db d)
        → (elim x as (λ _. Result (Reply × Db)) [ ok (a, d) ↦ ok (f a, d) | err w ↦ err w ])
          ≡ ok (r, db')
        → Moves db db'
    settle (ok (a, d)) k n = subst (Moves db) (cc) (k a d refl)
    settle (err w) k n = cc

module _ (l : Ledger) where
  body-Moves :
      (c : Call) (db : Db) {r : Reply} {db' : Db}
      → IsKeyed db
      → body l c db ≡ ok (r, db')
      → Moves db db'
  unfolding body
  body-Moves (admit_call request uuid now) db u =
      reply_of-Moves job (admit l request uuid now) db (λ a d. admit-Moves l request uuid now db u)
  body-Moves (claim_call scope job_id step_id owner now) db u =
      reply_of-Moves lease (claim l scope job_id step_id owner now) db
        (λ a d. claim-Moves l scope job_id step_id owner now db u)
  body-Moves (renew_call le now) db u =
      reply_of-Moves (λ _. done) (renew l le now) db (λ a d. renew-Moves l le now db u)
  body-Moves (commit_call le refs now) db u =
      reply_of-Moves step (commit l le refs now) db (λ a d. commit-Moves l le refs now db u)
  body-Moves (fail_call le failure now) db u =
      reply_of-Moves (λ _. done) (fail l le failure now) db
        (λ a d. fail-Moves l le failure now db u)
  body-Moves (cancel_call scope job_id now) db u =
      reply_of-Moves job (cancel scope job_id now) db (λ a d. cancel-Moves scope job_id now db u)
  body-Moves (settle_call le now) db u =
      reply_of-Moves (λ _. done) (settle_cancel le now) db (λ a d. settle_cancel-Moves le now db u)
  body-Moves (register_call le ref now) db u =
      reply_of-Moves (λ _. done) (register_object l le ref now) db
        (λ a d. register_object-Moves l le ref now db u)
  body-Moves (delivered_call x now) db u =
      reply_of-Moves (λ _. done) (mark_delivered x now) db (λ a d. mark_delivered-Moves x now db u)
  body-Moves (reconcile_call limit now) db u =
      reply_of-Moves repaired (reconcile l limit now) db (λ a d. reconcile-Moves l limit now db u)

  -- Every call of the ledger, whether its transaction commits or fails at any point, leaves every job
  -- and step that the database held in its place and moves it only as `JobMoves` and `StepMoves`
  -- allow, keeps the primary keys, which the database before has, and keeps each recorded attempt
  -- within the count and the fence of its step, if they were.
  pub call-Moves :
      (opened committed : Bool) (c : Call) (db : Db)
      → IsKeyed db
      → Moves db (call l opened committed c db).1
  unfolding call transaction
  call-Moves false committed c db u = Moves-refl db u
  call-Moves true committed c db u = settle committed (body l c db) (λ r d. body-Moves c db u)
    where
      settle :
          (committed : Bool) (x : Result (Reply × Db))
          → ((r : Reply) (d : Db) → x ≡ ok (r, d) → Moves db d)
          → Moves db
              (elim x as (λ _. Result Reply × Db) [
                | ok (a, db') ↦ if committed then (ok a, db') else (err ledger_error, db)
                | err e ↦ (err e, db)
              ]).1
      settle true (ok (r, d)) h = h r d refl
      settle false (ok (r, d)) h = Moves-refl db u
      settle committed (err e) h = Moves-refl db u

  pub replay-Moves :
      (cs : List (Bool × Bool × Call)) (db : Db) → IsKeyed db → Moves db (replay l cs db)
  unfolding replay
  replay-Moves [] db u = Moves-refl db u
  replay-Moves ((opened, committed, c) ∷ cs) db u =
      let m = call-Moves opened committed c db u in Moves-trans db _ _ m (replay-Moves cs _ m.keyed)
