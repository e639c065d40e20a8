-- ===== src/Jobs/Evolution/Attempts.antt =====
-- The recorded attempts of a step, over histories of calls of documents/jobs/sqlite.py, and the claims
-- that they let through.
use estudio_polymind_llm_orc.Prelude.{
  ◌+◌, ◌≤◌, ◌≡◌, ◌≢◌, ◌⊎◌, inl, inr, subst, true, false, Bool, Bool-cases, some, List, [], ◌∷◌,
  ◌==◌, ==→≡, ==_refl, sym, All, map, String, find, arith,
}
use estudio_polymind_llm_orc.Jobs.Models.{Uuid, Micros, Scope, is_terminal, is_token}
use estudio_polymind_llm_orc.Jobs.Tables.{
  Db, Ledger, JobRow, StepRow, AttemptRow, empty, is_claimable,
}
use estudio_polymind_llm_orc.Jobs.Database.{ok, job_of, step_of}
use estudio_polymind_llm_orc.Jobs.Leases.{Lease, budget_spent, claim}
use estudio_polymind_llm_orc.Jobs.Claiming.{EarlierAttempts, claim-leases}
use estudio_polymind_llm_orc.Jobs.History.{Call, replay}
use estudio_polymind_llm_orc.Jobs.Evolution.{Counted, attempt_key}
use estudio_polymind_llm_orc.Jobs.Evolution.Leases.{step_of-At, find-step_of}
use estudio_polymind_llm_orc.Jobs.Evolution.Histories.{replay-Moves}

-- the attempts that their steps have counted come before the next attempt of a step
Counted-EarlierAttempts :
    (steps : List StepRow) (row : StepRow) (rs : List AttemptRow)
    → find (λ r. r.step_id == row.step_id) steps ≡ some row
    → All (Counted steps) (map attempt_key rs)
    → EarlierAttempts row rs
Counted-EarlierAttempts steps row [] f c = tt
Counted-EarlierAttempts steps row (a ∷ rs) f ((r, g, n, h), c) =
    (own (Bool-cases (a.step_id == row.step_id)), Counted-EarlierAttempts steps row rs f c)
  where
    own :
        ((a.step_id == row.step_id) ≡ true) ⊎ ((a.step_id == row.step_id) ≡ false)
        → (a.step_id ≢ row.step_id) ⊎ ((a.number ≤ row.attempt_count) × (a.fence ≤ row.fence))
    own (inl e) =
        let g' =
          subst (λ k. find (λ x. x.step_id == k) steps ≡ some r) (==→≡ a.step_id row.step_id e) g in
        let same : r ≡ row = cc in
        inr (
          subst (λ (x : StepRow). a.number ≤ x.attempt_count) same n,
          subst (λ (x : StepRow). a.fence ≤ x.fence) same h,
        )
    own (inr e) = inl (λ s. absurd (ground (arith, e, ==_refl row.step_id, s)))

module _ (l : Ledger) (cs : List (Bool × Bool × Call)) where
  -- After any history of calls on the empty database, the attempts that are recorded of a step have
  -- numbers up to its count of attempts and fences up to its fence, so that the keys of its next
  -- attempt are free.
  pub replay-EarlierAttempts :
      (job_id step_id : Uuid) {row : StepRow}
      → step_of job_id step_id (replay l cs empty) ≡ some row
      → EarlierAttempts row (replay l cs empty).attempts
  replay-EarlierAttempts job_id step_id {row} f =
      let m = replay-Moves l cs empty (record { steps = tt; jobs = tt }) in
      let (_, same, _) = step_of-At job_id step_id (replay l cs empty) {row = row} m.keyed f in
      Counted-EarlierAttempts (replay l cs empty).steps row (replay l cs empty).attempts
        (subst (λ k. find (λ r. r.step_id == k) (replay l cs empty).steps ≡ some row) (sym same)
          (find-step_of job_id step_id (replay l cs empty) {row = row} m.keyed f))
        (m.attempts tt)

  -- A step that is due is leased: on the database of any history of calls from the empty one, the claim
  -- of a step that is READY or waits for its retry, whose time has come and whose budget is not spent,
  -- of a job that is neither cancelled nor over, by an owner with a valid name, answers with a lease
  -- of that step under the next fence.
  pub replay-claim :
      (scope : Scope) (job_id step_id : Uuid) (owner : String) (now : Micros) (job : JobRow)
      (row : StepRow)
      → is_token owner ≡ true
      → job_of scope job_id (replay l cs empty) ≡ some job
      → step_of job_id step_id (replay l cs empty) ≡ some row
      → job.cancel_requested ≡ false
      → is_terminal job.state ≡ false
      → is_claimable row.state ≡ true
      → row.not_before ≤ now
      → budget_spent row.started_at job.request.profile.retry.budget_micros now ≡ false
      → (lease : Lease) × (db' : Db) × (claim l scope job_id step_id owner now (replay l cs empty)
          ≡ ok (some lease, db'))
        × (lease.step_id ≡ step_id)
        × (lease.fence ≡ row.fence + 1)
  replay-claim scope job_id step_id owner now job row t j r x y c m b =
      claim-leases l scope job_id step_id owner now (replay l cs empty) job row t j r x y c m b
        (replay-EarlierAttempts job_id step_id {row = row} r)
