-- ===== src/Jobs/Progress.antt =====
-- What `_refresh` of documents/jobs/sqlite.py shows of the steps of a job.
use estudio_polymind_llm_orc.Prelude.{
  ◌+◌, ◌≤◌, ◌≡◌, refl, Bool, true, false, Option, none, some, List, [], ◌∷◌, ◌==◌, length, All,
  arith, if◌then◌else◌, Bool-cases, inl, inr, ==→≡,
}
use estudio_polymind_llm_orc.Jobs.Models.{JobState, StepState, is_terminal, stage_state, Stage}
use estudio_polymind_llm_orc.Jobs.Tables.{
  StepRow, is_succeeded, is_failed, is_pending, is_ready, is_running, is_retry_wait, is_cancelled,
}
use estudio_polymind_llm_orc.Jobs.Progression.{
  progress_of, refreshed_state, in_state, current_stage,
}

one_state :
    (s : StepState)
    → (if is_succeeded s then 1 else 0)
        + (if is_running s then 1 else 0)
        + (if is_retry_wait s then 1 else 0)
        + (if is_failed s then 1 else 0)
        + (if is_cancelled s then 1 else 0)
        + ((if is_pending s then 1 else 0) + (if is_ready s then 1 else 0))
      ≡ 1
one_state StepState.pending = refl
one_state StepState.ready = refl
one_state StepState.running = refl
one_state StepState.retry_wait = refl
one_state StepState.succeeded = refl
one_state StepState.failed = refl
one_state StepState.cancelled = refl

-- The counts of a job's progress add up to its total: every step is counted once.
pub progress_of-total :
    (rows : List StepRow)
    → (progress_of rows).completed
        + (progress_of rows).running
        + (progress_of rows).retrying
        + (progress_of rows).failed
        + (progress_of rows).cancelled
        + (progress_of rows).pending
      ≡ (progress_of rows).total
unfolding progress_of
progress_of-total [] = omega arith
progress_of-total (r ∷ rows) = omega (arith, one_state r.state, progress_of-total rows)

count-length-All :
    (rows : List StepRow)
    → (in_state is_succeeded rows ≤ length rows)
      × (in_state is_succeeded rows ≡ length rows
          → All (λ (r : StepRow). is_succeeded r.state ≡ true) rows)
count-length-All [] = (omega arith, λ _. tt)
count-length-All (r ∷ rows) =
    let (le, rest) = count-length-All rows in
    elim (Bool-cases (is_succeeded r.state)) [
      | inl c ↦ rw c (omega (arith, le), λ h. (refl, rest (omega (arith, h))))
      | inr c ↦ rw c (omega (arith, le), λ h. absurd (omega (arith, le, h)))
    ]

not_stage : (s : Stage) → ¬ (stage_state s ≡ JobState.completed)
not_stage Stage.extracting h = cc
not_stage Stage.normalizing h = cc
not_stage Stage.validating h = cc

not_shown :
    (o : Option Stage)
    → ¬ ((elim o [ none ↦ JobState.queued | some s ↦ stage_state s ]) ≡ JobState.completed)
not_shown none h = cc
not_shown (some s) h = not_stage s h

-- A job that was open and shows as completed after `_refresh` has steps that have all succeeded,
-- and nobody has asked to cancel it.
pub refreshed_state-completed :
    (state : JobState) (cancel_requested : Bool) (rows : List StepRow)
    → is_terminal state ≡ false
    → refreshed_state state cancel_requested rows ≡ JobState.completed
    → (cancel_requested ≡ false) × All (λ (r : StepRow). is_succeeded r.state ≡ true) rows
unfolding refreshed_state
refreshed_state-completed state true rows t e = absurd (ground arith)
refreshed_state-completed state false rows t e =
    elim (Bool-cases (in_state is_succeeded rows == length rows)) [
      | inl c ↦
          (refl, (count-length-All rows).1 (==→≡ (in_state is_succeeded rows) (length rows) c))
      | inr c ↦ absurd (ground (arith, not_shown (current_stage rows)))
    ]
