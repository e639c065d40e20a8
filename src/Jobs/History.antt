-- ===== src/Jobs/History.antt =====
-- The public operations of `SQLiteJobLedger` (documents/jobs/sqlite.py) as one step relation: each
-- call is one transaction, and a history is a list of calls on one database.
use estudio_polymind_llm_orc.Prelude.{ℕ, Bool, String, Option, List, [], ◌∷◌}
use estudio_polymind_llm_orc.Jobs.Models.{Uuid, Micros, Scope, ObjectRef, Admission}
use estudio_polymind_llm_orc.Jobs.Errors.{Failure}
use estudio_polymind_llm_orc.Jobs.Tables.{Db, Ledger, JobRow, StepRow}
use estudio_polymind_llm_orc.Jobs.Database.{Tx, ok, err, Result, transaction}
use estudio_polymind_llm_orc.Jobs.Leases.{Lease, claim, renew}
use estudio_polymind_llm_orc.Jobs.Settling.{settle_cancel, cancel, fail, register_object, commit}
use estudio_polymind_llm_orc.Jobs.Outbox.{Dispatch, mark_delivered}
use estudio_polymind_llm_orc.Jobs.Reconcile.{Reconciliation, reconcile}
use estudio_polymind_llm_orc.Jobs.Admit.{admit}

pub data Reply : Type 0 where
  done : Reply
  job : JobRow → Reply
  step : StepRow → Reply
  lease : Option Lease → Reply
  repaired : Reconciliation → Reply

-- A call of the ledger, with the instant that its clock shows.
pub data Call : Type 0 where
  admit_call : Admission → (ℕ → Uuid) → Micros → Call
  claim_call : Scope → Uuid → Uuid → String → Micros → Call
  renew_call : Lease → Micros → Call
  commit_call : Lease → List ObjectRef → Micros → Call
  fail_call : Lease → Failure → Micros → Call
  cancel_call : Scope → Uuid → Micros → Call
  settle_call : Lease → Micros → Call
  register_call : Lease → ObjectRef → Micros → Call
  delivered_call : Dispatch → Micros → Call
  reconcile_call : ℕ → Micros → Call

-- the result of a body, as a reply
abbrev pub reply_of : {A : Type 0} → (A → Reply) → Tx A → Tx Reply
reply_of f m db = elim (m db) [ ok (a, db') ↦ ok (f a, db') | err e ↦ err e ]

module _ (l : Ledger) where
  -- the body of the transaction of a call
  unfoldable pub body : Call → Tx Reply
  body (admit_call request uuid now) = reply_of job (admit l request uuid now)
  body (claim_call scope job_id step_id owner now) =
      reply_of lease (claim l scope job_id step_id owner now)
  body (renew_call le now) = reply_of (λ _. done) (renew l le now)
  body (commit_call le refs now) = reply_of step (commit l le refs now)
  body (fail_call le failure now) = reply_of (λ _. done) (fail l le failure now)
  body (cancel_call scope job_id now) = reply_of job (cancel scope job_id now)
  body (settle_call le now) = reply_of (λ _. done) (settle_cancel le now)
  body (register_call le ref now) = reply_of (λ _. done) (register_object l le ref now)
  body (delivered_call x now) = reply_of (λ _. done) (mark_delivered x now)
  body (reconcile_call limit now) = reply_of repaired (reconcile l limit now)

  -- a call whose transaction may fail to open or to commit
  unfoldable pub call : Bool → Bool → Call → Db → Result Reply × Db
  call opened committed c = transaction opened committed (body c)

  -- a history: the calls of any number of workers, in the order in which SQLite serialises them
  unfoldable pub replay : List (Bool × Bool × Call) → Db → Db
  replay [] db = db
  replay ((opened, committed, c) ∷ cs) db = replay cs (call opened committed c db).1
