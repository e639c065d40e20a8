-- ===== src/Jobs/Evolution/Claims.antt =====
-- `claim` moves rows. A step whose expired lease was turned into a retry is still within its
-- budget, so the claim that follows cannot end its job.
use estudio_polymind_llm_orc.Prelude.{
  find, find-update, ◌++◌, ℕ, ◌+◌, ◌≤◌, ◌<◌, ◌≡◌, refl, sym, subst, ap, ◌∙◌, Bool, true, false, not,
  ◌&&◌, ◌||◌, ◌⊎◌, List, [], ◌∷◌, ◌==◌, some, Option, All-map, At, At-update, At-update_self, inl,
  inr, String, arith, select, ltb,
}
use estudio_polymind_llm_orc.Jobs.Models.{Uuid, Micros, Scope, is_terminal, is_token}
use estudio_polymind_llm_orc.Jobs.Errors.{Failure, Classification, non_retryable}
use estudio_polymind_llm_orc.Jobs.Tables.{
  Db, Ledger, StepRow, JobRow, AttemptRow, is_open, is_running, is_claimable,
}
use estudio_polymind_llm_orc.Jobs.Database.{ok, enqueue, update_step}
use native.Mathlib.Nat.{le_refl}
use estudio_polymind_llm_orc.Jobs.Blocks.{
  bind_inv, unless_inv, get_job_row_inv, get_step_row_inv, branch_inv,
}
use estudio_polymind_llm_orc.Jobs.Checks.{same_db_of}
use estudio_polymind_llm_orc.Jobs.Progression.{refresh}
use estudio_polymind_llm_orc.Jobs.Failing.{
  may_retry, retry_at, record_attempt, settle_failure, terminal_failure, fail_started, fail_step,
  cancelled_row, failed_row, waiting_row, bury, fail_job, kept_category,
}
use estudio_polymind_llm_orc.Jobs.Leases.{
  Lease, insert_attempt, new_attempt, expired, claimed_row, grant, claim_row, recover, claim,
  budget_spent, interrupted,
}
use estudio_polymind_llm_orc.Jobs.Evolution.{
  IsKeyed, Moves, step_key, Moves-refl, Moves-trans, update_steps-Moves, added_attempt-Moves,
}
use estudio_polymind_llm_orc.Jobs.Evolution.Failing.{
  LiveJob, refresh-Moves, refresh-eq-ok, fail_step-Moves, fail_step-eq-ok, terminal_failure-Moves,
  steps-cancel_steps,
}
use estudio_polymind_llm_orc.Jobs.Evolution.Leases.{
  At-step_of, step_of-At, find-step_of, job_of-At, OpenStep-of, LiveJob-of, is_running→is_open,
  claimed-StepMoves,
}

-- a step that may be claimed now is within its retry budget
abbrev InBudget : ℕ → Micros → StepRow → Type 0
InBudget budget now r =
    is_claimable r.state ≡ true
    → ltb now r.not_before ≡ false
    → budget_spent r.started_at budget now ≡ false

steps-refresh :
    (id : Uuid) (now : Micros) (db : Db) {db' : Db}
    → refresh id now db ≡ ok (tt, db')
    → db'.steps ≡ db.steps
steps-refresh id now db e = let (_, _, w) = refresh-eq-ok id now db e in ap (λ (d : Db). d.steps) w

terminal_failure-At :
    (row : StepRow) (c : String) (k : Classification) (now : Micros) (db : Db)
    → At step_key row.step_id
        (λ r. is_claimable r.state ≡ false)
        (terminal_failure row c k now db).steps
unfolding terminal_failure
terminal_failure-At row c k now db =
    subst (At step_key row.step_id (λ r. is_claimable r.state ≡ false))
      (sym (
        steps-cancel_steps now
          (select (λ r. r.job_id == row.job_id && is_open r.state) buried.steps) buried))
      (At-update step_key _ row.step_id _ (cancelled_row now) buried.steps (λ r. refl) (λ r h. refl)
        (At-update_self step_key _ row.step_id (failed_row c now) db.steps (λ r. refl)
          (all_failed db.steps)))
  where
    buried : Db
    buried = fail_job row.job_id c (bury row c k now db)

    all_failed :
        (rs : List StepRow)
        → At step_key row.step_id (λ r. is_claimable (failed_row c now r).state ≡ false) rs
    all_failed [] = tt
    all_failed (r ∷ rs) = ((λ _. refl), all_failed rs)

module _ (l : Ledger) where
  retry_in_budget :
      (job : JobRow) (row : StepRow) (f : Failure) (started now : Micros)
      → may_retry l job row f started now ≡ true
      → (now ≤ retry_at l job row f now)
        × (retry_at l job row f now < started + job.request.profile.retry.budget_micros)
  unfolding may_retry retry_at
  retry_in_budget job row f started now h = ground arith

  waiting-InBudget :
      (job : JobRow) (row : StepRow) (f : Failure) (c : String) (started now : Micros) (r : StepRow)
      → may_retry l job row f started now ≡ true
      → r.started_at ≡ some started
      → InBudget job.request.profile.retry.budget_micros now
          (waiting_row c (retry_at l job row f now) r)
  waiting-InBudget job row f c started now r m s _ due =
      ground (arith, retry_in_budget job row f started now m)

  settled-At :
      (job : JobRow) (row : StepRow) (f : Failure) (started now : Micros) (db : Db)
      → row.started_at ≡ some started
      → At step_key row.step_id (λ r. r ≡ row) db.steps
      → (retry : Bool) → may_retry l job row f started now ≡ retry
      → At step_key row.step_id
          (InBudget job.request.profile.retry.budget_micros now)
          (settle_failure row f retry (retry_at l job row f now) now db).steps
  unfolding settle_failure enqueue
  settled-At job row f started now db s only true m =
      At-update_self step_key (InBudget job.request.profile.retry.budget_micros now) row.step_id
        (waiting_row (kept_category f true) (retry_at l job row f now)) db.steps (λ r. refl)
        (All-map _ _
          (λ r is i.
            waiting-InBudget job row f (kept_category f true) started now r m
              (subst (λ (x : StepRow). x.started_at ≡ some started) (sym (is i)) s))
          db.steps only)
  settled-At job row f started now db s only false m =
      All-map _ _ (λ r no i c _. cc (no i)) _
        (terminal_failure-At row (kept_category f false) f.classification now db)

  fail_step-At :
      (job : JobRow) (row : StepRow) (f : Failure) (now : Micros) (db : Db) {db' : Db}
      → At step_key row.step_id (λ r. r ≡ row) db.steps
      → fail_step l job row f now db ≡ ok (tt, db')
      → At step_key row.step_id (InBudget job.request.profile.retry.budget_micros now) db'.steps
  unfolding fail_started record_attempt
  fail_step-At job row f now db only h =
      let (started, s, w) = fail_step-eq-ok l job row f now db h in
      subst (At step_key row.step_id (InBudget job.request.profile.retry.budget_micros now))
        (sym (steps-refresh row.job_id now _ w))
        (settled-At job row f started now _ s only (may_retry l job row f started now) refl)

  -- What `claim` knows of the tables when it reads the step again.
  record Recovered (job : JobRow) (row : StepRow) (now : Micros) (a b : Db) : Type 0 where
    moves : Moves a b
    safe :
        LiveJob job.job_id b
        ⊎ At step_key row.step_id (InBudget job.request.profile.retry.budget_micros now) b.steps

  unchanged-Recovered :
      (job : JobRow) (row : StepRow) (now : Micros) (db db' : Db)
      → IsKeyed db
      → LiveJob job.job_id db
      → db' ≡ db
      → Recovered job row now db db'
  unchanged-Recovered job row now db db' u live e =
      subst (Recovered job row now db) (sym e) (record { moves = Moves-refl db u; safe = inl live })

  recover-Recovered :
      (job : JobRow) (row : StepRow) (now : Micros) (db : Db) {db' : Db}
      → IsKeyed db
      → At step_key row.step_id (λ r. r ≡ row) db.steps
      → row.job_id ≡ job.job_id
      → LiveJob job.job_id db
      → recover l job row now db ≡ ok (tt, db')
      → Recovered job row now db db'
  unfolding recover
  recover-Recovered job row now db {db'} u only same live h =
      branch_inv (is_running row.state) _ _ db h
        (λ running h1. bind_inv (expired row.lease_expires_at now) _ db h1 λ late d e h2.
          let back : d ≡ db = same_db_of now row.lease_expires_at db e in
          branch_inv late _ _ d h2
            (λ _ h3.
              let h4 : fail_step l job row interrupted now db ≡ ok (tt, db') = cc in
              record {
                moves =
                    fail_step-Moves l job row interrupted now db u
                      (OpenStep-of row.step_id db row only (is_running→is_open row running))
                      (subst (λ k. LiveJob k db) (sym same) live) h4;
                safe = inr (fail_step-At job row interrupted now db only h4);
              })
            (λ _ h3. unchanged-Recovered job row now db db' u live (cc)))
        (λ _ h1. unchanged-Recovered job row now db db' u live (cc))

  -- a new attempt changes neither the jobs nor the steps
  insert_attempt-same :
      (a : AttemptRow) (db : Db) {d : Db}
      → insert_attempt a db ≡ ok (tt, d)
      → (d.steps ≡ db.steps) × (d.jobs ≡ db.jobs) × (d.attempts ≡ db.attempts ++ a ∷ [])
  unfolding insert_attempt
  insert_attempt-same a db h = (ground arith, ground arith, ground arith)

  grant-Moves :
      (scope : Scope) (job : JobRow) (row : StepRow) (owner : String) (now : Micros) (db : Db)
      {lease : Option Lease} {db' : Db}
      → IsKeyed db
      → At step_key row.step_id (λ r. r ≡ row) db.steps
      → find (λ r. r.step_id == row.step_id) db.steps ≡ some row
      → is_claimable row.state ≡ true
      → grant l scope job row owner now db ≡ ok (lease, db')
      → Moves db db'
  unfolding grant
  grant-Moves scope job row owner now db {lease} {db'} u only found c h =
      bind_inv (insert_attempt (new_attempt row owner now)) _ _ h λ _ d0 e0 h0.
        bind_inv (refresh job.job_id now) _ d0 h0 λ _ d e h1.
          let (steps, jobs, rows) = insert_attempt-same (new_attempt row owner now) _ e0 in
          let claimed =
            update_step row.step_id (claimed_row owner (now + l.lease_micros) now row) db in
          let first =
            update_steps-Moves db claimed (λ r. r.step_id == row.step_id)
              (claimed_row owner (now + l.lease_micros) now row) u refl refl refl (λ r. refl)
              (All-map _ _ (λ r is m. claimed-StepMoves owner _ now row r (is m) c) db.steps
                only) in
          let counted =
            find-update (λ r. r.step_id == row.step_id) (λ r. r.step_id == row.step_id)
              (claimed_row owner (now + l.lease_micros) now row) db.steps (λ r. refl) (λ r m. m)
              found in
          let added =
            added_attempt-Moves claimed d0 (new_attempt row owner now) first.keyed steps jobs rows (
              claimed_row owner (now + l.lease_micros) now row row,
              counted,
              le_refl _,
              le_refl _,
            ) in
          subst (Moves db) (cc) (
            Moves-trans db claimed d first
              (Moves-trans claimed d0 d added (refresh-Moves job.job_id now d0 added.keyed e)))

  claim_row-Moves :
      (scope : Scope) (job : JobRow) (row : StepRow) (owner : String) (now : Micros) (db : Db)
      {lease : Option Lease} {db' : Db}
      → IsKeyed db
      → At step_key row.step_id (λ r. r ≡ row) db.steps
      → find (λ r. r.step_id == row.step_id) db.steps ≡ some row
      → row.job_id ≡ job.job_id
      → LiveJob job.job_id db ⊎ InBudget job.request.profile.retry.budget_micros now row
      → claim_row l scope job row owner now db ≡ ok (lease, db')
      → Moves db db'
  unfolding claim_row
  claim_row-Moves scope job row owner now db {lease} {db'} u only found same safe h =
      branch_inv (not (is_claimable row.state) || ltb now row.not_before) _ _ db h
        (λ _ h1. subst (Moves db) (cc) (Moves-refl db u))
        (λ due h1.
          branch_inv (budget_spent row.started_at job.request.profile.retry.budget_micros now) _ _
            db h1
            (λ spent h2. elim safe [
              | inl live ↦
                  let failed =
                    terminal_failure-Moves row "retry_exhausted" non_retryable now db u
                      (OpenStep-of row.step_id db row only (ground arith))
                      (subst (λ k. LiveJob k db) (sym same) live) in
                  bind_inv (refresh job.job_id now) _ _ h2 λ _ d e h3.
                    subst (Moves db) (cc)
                      (Moves-trans db _ d failed (refresh-Moves job.job_id now _ failed.keyed e))
              | inr within ↦ let in_budget = within (ground arith) (ground arith) in cc
            ])
            (λ _ h2. grant-Moves scope job row owner now db u only found (ground arith) h2))

  pub claim-Moves :
      (scope : Scope) (job_id step_id : Uuid) (owner : String) (now : Micros) (db : Db)
      {lease : Option Lease} {db' : Db}
      → IsKeyed db
      → claim l scope job_id step_id owner now db ≡ ok (lease, db')
      → Moves db db'
  unfolding claim
  claim-Moves scope job_id step_id owner now db {lease} {db'} u h =
      unless_inv (is_token owner) _ _ db h λ _ h1. get_job_row_inv scope job_id _ db h1 λ job jf h2.
        get_step_row_inv job_id step_id _ db h2 λ row rf h3.
          branch_inv (job.cancel_requested || is_terminal job.state) _ _ db h3
            (λ _ h4. subst (Moves db) (cc) (Moves-refl db u))
            (λ on h4. bind_inv (recover l job row now) _ db h4 λ _ d e h5.
              get_step_row_inv job_id step_id _ d h5 λ row' rf' h6.
                let (only_job, jid) = job_of-At scope job_id db u jf in
                let (only, sid, same) = step_of-At job_id step_id db u rf in
                let r =
                  recover-Recovered job row now db u
                    (subst (λ k. At step_key k (λ r. r ≡ row) db.steps) (sym sid) only)
                    (same ∙ sym jid)
                    (subst (λ k. LiveJob k db) (sym jid)
                      (LiveJob-of job_id db job only_job (ground arith)))
                    e in
                let (only', sid', same') = step_of-At job_id step_id d r.moves.keyed rf' in
                Moves-trans db d db' r.moves (
                  claim_row-Moves scope job row' owner now d r.moves.keyed
                    (subst (λ k. At step_key k (λ r. r ≡ row') d.steps) (sym sid') only')
                    (subst (λ k. find (λ r. r.step_id == k) d.steps ≡ some row') (sym sid')
                      (find-step_of job_id step_id d r.moves.keyed rf'))
                    (same' ∙ sym jid)
                    (elim r.safe [
                      | inl live ↦ inl live
                      | inr within ↦
                          inr
                            (At-step_of _ row.step_id job_id step_id d within rf' (sid' ∙ sym sid))
                    ])
                    h6))
