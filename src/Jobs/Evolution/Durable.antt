-- ===== src/Jobs/Evolution/Durable.antt =====
-- What any history of calls of documents/jobs/sqlite.py keeps of a step and of a job.
use estudio_polymind_llm_orc.Prelude.{
  ◌≡◌, ◌≤◌, ◌<◌, refl, Bool, true, false, ◌&&◌, ◌==◌, some, List, find-Related, arith,
}
use estudio_polymind_llm_orc.Jobs.Models.{Uuid, Micros, is_terminal}
use estudio_polymind_llm_orc.Jobs.Tables.{Db, Ledger, JobRow, StepRow, is_open}
use estudio_polymind_llm_orc.Jobs.Database.{Tx, ok, ◌>>=◌, step_of}
use estudio_polymind_llm_orc.Jobs.Leases.{Lease, check_lease}
use estudio_polymind_llm_orc.Jobs.Outbox.{job_by_id}
use estudio_polymind_llm_orc.Jobs.Checks.{check_lease_inv}
use estudio_polymind_llm_orc.Jobs.History.{Call, replay}
use estudio_polymind_llm_orc.Jobs.Evolution.{IsKeyed, StepMoves, JobMoves}
use estudio_polymind_llm_orc.Jobs.Evolution.Histories.{replay-Moves}

-- A step that the database holds is still there after a history, moved.
step_of-replay :
    (l : Ledger) (cs : List (Bool × Bool × Call)) (db : Db) (job_id step_id : Uuid) {r : StepRow}
    → IsKeyed db
    → step_of job_id step_id db ≡ some r
    → (s : StepRow) × (step_of job_id step_id (replay l cs db) ≡ some s) × StepMoves r s
unfolding step_of
step_of-replay l cs db job_id step_id u e =
    find-Related StepMoves (λ r. r.step_id == step_id && r.job_id == job_id)
      (λ x y m. rw m.step_id (rw m.job_id refl)) db.steps _ (replay-Moves l cs db u).steps e

-- A step that has settled (succeeded, failed or cancelled) stands in every later database as it
-- is, whatever calls follow, provided the keys of the tables are unique.
pub replay-settled :
    (l : Ledger) (cs : List (Bool × Bool × Call)) (db : Db) (job_id step_id : Uuid) {r : StepRow}
    → IsKeyed db
    → step_of job_id step_id db ≡ some r
    → is_open r.state ≡ false
    → step_of job_id step_id (replay l cs db) ≡ some r
replay-settled l cs db job_id step_id u e h =
    let (s, f, m) = step_of-replay l cs db job_id step_id u e in rw f (rw (m.settled h) refl)

-- A job in a terminal state stays in that state, with its request unchanged, whatever calls
-- follow, provided the keys of the tables are unique.
pub replay-terminal :
    (l : Ledger) (cs : List (Bool × Bool × Call)) (db : Db) (job_id : Uuid) {j : JobRow}
    → IsKeyed db
    → job_by_id job_id db ≡ some j
    → is_terminal j.state ≡ true
    → (k : JobRow) × (job_by_id job_id (replay l cs db) ≡ some k)
      × (k.state ≡ j.state)
      × (k.request ≡ j.request)
replay-terminal l cs db job_id u e h =
    let (k, f, m) =
      find-Related JobMoves (λ j. j.job_id == job_id) (λ x y m. rw m.job_id refl) db.jobs _
        (replay-Moves l cs db u).jobs e in
    (k, f, m.terminal h, m.request)

-- The fence of a step never decreases, and its plan never changes, whatever calls follow, provided
-- the keys of the tables are unique.
pub replay-fence :
    (l : Ledger) (cs : List (Bool × Bool × Call)) (db : Db) (job_id step_id : Uuid) {r : StepRow}
    → IsKeyed db
    → step_of job_id step_id db ≡ some r
    → (s : StepRow) × (step_of job_id step_id (replay l cs db) ≡ some s)
      × (r.fence ≤ s.fence)
      × (s.spec ≡ r.spec)
replay-fence l cs db job_id step_id u e =
    let (s, f, m) = step_of-replay l cs db job_id step_id u e in (s, f, m.fence, m.spec)

-- A lease whose fence a step has passed is refused for ever: no transaction that starts with the
-- lease check, whatever it does next, returns on the database of any later history, at any
-- instant, also when it only settles a cancellation; the keys of the tables are unique.
pub replay-stale_lease :
    {B : Type 0} (l : Ledger) (cs : List (Bool × Bool × Call)) (db : Db) (lease : Lease)
    (settling : Bool) (now : Micros) (f : JobRow × StepRow → Tx B) {r : StepRow} {x : B × Db}
    → IsKeyed db
    → step_of lease.job_id lease.step_id db ≡ some r
    → lease.fence < r.fence
    → ¬ ((check_lease lease now settling >>= f) (replay l cs db) ≡ ok x)
replay-stale_lease l cs db lease settling now f {r} u e h c =
    let (s, found, m) = step_of-replay l cs db lease.job_id lease.step_id u e in
    check_lease_inv lease now settling f _ c
      λ job row k _. let same : row ≡ s = cc in stale row s k.fence same m.fence
  where
    stale : (row s : StepRow) → row.fence ≡ lease.fence → row ≡ s → r.fence ≤ s.fence → ⊥
    stale row s a b d = ground arith
