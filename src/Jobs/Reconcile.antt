-- ===== src/Jobs/Reconcile.antt =====
-- `reconcile` of documents/jobs/sqlite.py: expired leases, open steps of jobs that are over, and
-- steps that no dispatch announces.
use estudio_polymind_llm_orc.Prelude.{
  Option, ℕ, ◌+◌, Bool, true, false, not, ◌&&◌, ◌||◌, none, some, List, [], ◌∷◌, ◌==◌, ltb, leb,
  length, any, select, take, count, sort_by, is_some, or_else, if◌then◌else◌,
}
use estudio_polymind_llm_orc.Jobs.Models.{Micros, is_terminal}
use estudio_polymind_llm_orc.Jobs.Tables.{Db, Ledger, JobRow, StepRow, is_running, is_open}
use estudio_polymind_llm_orc.Jobs.Database.{
  Tx, raise, ok, ◌>>=◌, ◌>>◌, pure, modify, get_step_row, enqueue, ledger_error,
}
use estudio_polymind_llm_orc.Jobs.Progression.{refresh}
use estudio_polymind_llm_orc.Jobs.Failing.{cancel_step, fail_step}
use estudio_polymind_llm_orc.Jobs.Leases.{interrupted}
use estudio_polymind_llm_orc.Jobs.Outbox.{bounded, step_by_id, job_by_id, is_wanted, orphans}

-- `Reconciliation`
pub record Reconciliation : Type 0 where
  pub expired : ℕ
  pub dispatch_repairs : ℕ
  pub terminal_repairs : ℕ
  pub pending_outbox : ℕ
  pub orphan_candidates : ℕ

-- lease_expires_at <= now
abbrev pub lease_over : Micros → StepRow → Bool
lease_over now r = elim r.lease_expires_at [ none ↦ false | some t ↦ leb t now ]

-- ORDER BY lease_expires_at
abbrev pub expires_before : StepRow → StepRow → Bool
expires_before a b = ltb (or_else a.lease_expires_at 0) (or_else b.lease_expires_at 0)

-- the job of a step is over
abbrev pub job_over : Db → StepRow → Bool
job_over db s = elim (job_by_id s.job_id db) [ none ↦ false | some j ↦ is_terminal j.state ]

-- the number of undelivered dispatches of wanted steps
unfoldable pub pending_outbox : Db → ℕ
pending_outbox db =
    count
      (λ o. not (is_some o.delivered_at) && (elim (step_by_id o.step_id db) [
        | none ↦ false
        | some s ↦ elim (job_by_id s.job_id db) [ none ↦ false | some j ↦ is_wanted s j ]
      ]))
      db.outbox

-- the steps that the three loops of `reconcile` select
unfoldable pub expired_steps : ℕ → Micros → Db → List StepRow
unfolding sort_by
expired_steps limit now db =
    take limit
      (sort_by expires_before (select (λ r. is_running r.state && lease_over now r) db.steps))

unfoldable pub leftover_steps : ℕ → Db → List StepRow
leftover_steps limit db = take limit (select (λ r. is_open r.state && job_over db r) db.steps)

-- the second loop: open steps of jobs that are over
unfoldable pub close_steps : Micros → List StepRow → Tx (Unit {0})
close_steps now [] = pure tt
close_steps now (r ∷ rs) = do
  modify (cancel_step now r.step_id)
  refresh r.job_id now
  close_steps now rs

-- the second loop over what its SELECT returned, and its count
unfoldable pub close_leftovers : ℕ → Micros → Tx ℕ
unfolding leftover_steps
close_leftovers limit now db =
    let rows = leftover_steps limit db in (close_steps now rows >> pure (length rows)) db

-- the third loop
unfoldable pub redispatch : Micros → List StepRow → Db → Db
unfolding enqueue
redispatch now [] db = db
redispatch now (r ∷ rs) db = redispatch now rs (enqueue r.step_id now now db)

module _ (l : Ledger) where
  -- the body of the first loop of `reconcile` for a step that still runs; the subscript of a
  -- missing job is a TypeError
  unfoldable pub expire_running : Micros → StepRow → Option JobRow → Tx ℕ
  expire_running now row none = raise ledger_error
  expire_running now row (some job) =
      if job.cancel_requested || is_terminal job.state
      then (do modify (cancel_step now row.step_id); refresh row.job_id now; pure 1)
      else (do fail_step l job row interrupted now; pure 1)

  -- one round of that loop; the row is read again, since the failure of an earlier row may have
  -- settled it. The result counts the expired lease.
  unfoldable pub expire_step : Micros → StepRow → Tx ℕ
  expire_step now stale = do
    row ← get_step_row stale.job_id stale.step_id
    if not (is_running row.state) then pure 0 else λ db.
        expire_running now row (job_by_id row.job_id db) db

  unfoldable pub expire_steps : Micros → List StepRow → Tx ℕ
  expire_steps now [] = pure 0
  expire_steps now (r ∷ rs) = do n ← expire_step now r; m ← expire_steps now rs; pure (n + m)

  -- no dispatch of the step is still to be delivered, or was delivered lately
  unfoldable pub needs_dispatch : Micros → Db → StepRow → Bool
  needs_dispatch now db s =
      leb s.not_before now
      && (elim (job_by_id s.job_id db) [ none ↦ false | some j ↦ is_wanted s j ])
      && not (
          any
            (λ o.
              o.step_id == s.step_id
              && (elim o.delivered_at [ none ↦ true | some t ↦ ltb now (t + l.redelivery_micros) ]))
            db.outbox)

  -- the first loop over what its SELECT returned
  unfoldable pub expire_leases : ℕ → Micros → Tx ℕ
  unfolding expired_steps
  expire_leases limit now db = expire_steps now (expired_steps limit now db) db

  unfoldable pub silent_steps : ℕ → Micros → Db → List StepRow
  unfolding needs_dispatch
  silent_steps limit now db = take limit (select (needs_dispatch now db) db.steps)

  -- the third loop over what its SELECT returned, and its count
  unfoldable pub redispatch_silent : ℕ → Micros → Tx ℕ
  unfolding silent_steps redispatch
  redispatch_silent limit now db =
      let rows = silent_steps limit now db in ok (length rows, redispatch now rows db)

  -- `reconcile`
  unfoldable pub reconcile : ℕ → Micros → Tx Reconciliation
  unfolding expire_leases close_leftovers pending_outbox orphans
  reconcile limit now = do
    bounded limit
    expired ← expire_leases limit now
    closed ← close_leftovers limit now
    repaired ← redispatch_silent limit now
    λ db. ok (
      record {
        expired = expired;
        dispatch_repairs = repaired;
        terminal_repairs = closed;
        pending_outbox = pending_outbox db;
        orphan_candidates = length (orphans l now limit db);
      },
      db,
    )
