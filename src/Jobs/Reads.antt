-- ===== src/Jobs/Reads.antt =====
-- The plain reads of documents/jobs/sqlite.py: `get_job`, `attempts` and `dead_letters`.
use estudio_polymind_llm_orc.Prelude.{List, ◌==◌, any, select, ltb, sort_by, ◌&&◌}
use estudio_polymind_llm_orc.Jobs.Models.{Uuid, Scope}
use estudio_polymind_llm_orc.Jobs.Tables.{JobRow, AttemptRow, DeadLetter}
use estudio_polymind_llm_orc.Jobs.Database.{Tx, ok, ◌>>=◌, get_job_row, get_step_row}

-- `get_job`
abbrev pub get_job : Scope → Uuid → Tx JobRow
get_job = get_job_row

-- `dead_letters`: those of the steps of the job
unfoldable pub dead_letters : Scope → Uuid → Tx (List DeadLetter)
dead_letters scope job_id = get_job_row scope job_id >>= λ job db. ok (
  select (λ d. any (λ s. s.step_id == d.step_id && s.job_id == job_id) db.steps) db.dead_letters,
  db,
)

-- `attempts`, in the order of their numbers
unfoldable pub attempts : Scope → Uuid → Uuid → Tx (List AttemptRow)
attempts scope job_id step_id = get_job_row scope job_id >>= λ job.
    get_step_row job_id step_id >>= λ row db.
    ok (sort_by (λ a b. ltb a.number b.number) (select (λ a. a.step_id == step_id) db.attempts), db)
