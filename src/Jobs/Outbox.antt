-- ===== src/Jobs/Outbox.antt =====
-- `pending_dispatch`, `mark_delivered`, `orphan_candidates` and `_orphans` of
-- documents/jobs/sqlite.py.
use estudio_polymind_llm_orc.Prelude.{
  ℕ, ◌+◌, Bool, false, not, ◌&&◌, ◌||◌, Option, none, some, List, [], ◌∷◌, ◌==◌, ltb, leb, find,
  any, select, update, take, sort_by, is_some, or_else, if◌then◌else◌,
}
use estudio_polymind_llm_orc.Jobs.Models.{Uuid, Micros, Scope, ObjectRef, same_ref, is_terminal}
use estudio_polymind_llm_orc.Jobs.Tables.{
  Db, Ledger, JobRow, StepRow, OutboxRow, Intent, is_claimable, is_open,
}
use estudio_polymind_llm_orc.Jobs.Database.{
  Tx, ok, err, ◌>>◌, unless, get_job_row, get_step_row, invalid_configuration, dispatch_error,
}

-- `bounded`
abbrev pub bounded : ℕ → Tx (Unit {0})
bounded limit = unless (leb 1 limit && leb limit 1000) invalid_configuration

-- `Dispatch`
pub record Dispatch : Type 0 where
  pub dispatch_id : ℕ
  pub scope : Scope
  pub job_id : Uuid
  pub step_id : Uuid

-- the joins of `job_steps` and `jobs` on their keys
abbrev pub step_by_id : Uuid → Db → Option StepRow
step_by_id step_id db = find (λ r. r.step_id == step_id) db.steps

abbrev pub job_by_id : Uuid → Db → Option JobRow
job_by_id job_id db = find (λ j. j.job_id == job_id) db.jobs

-- the step can be claimed and its job wants it
abbrev pub is_wanted : StepRow → JobRow → Bool
is_wanted s j = is_claimable s.state && not j.cancel_requested && not (is_terminal j.state)

-- the job of an outbox row if the WHERE clause of `pending_dispatch` holds
unfoldable pub deliverable : Micros → Db → OutboxRow → Option JobRow
deliverable now db o = elim (step_by_id o.step_id db) [
  | none ↦ none
  | some s ↦ elim (job_by_id s.job_id db) [
    | none ↦ none
    | some j ↦
        if not (is_some o.delivered_at)
          && leb o.available_at now
          && leb s.not_before now
          && is_wanted s j
        then some j
        else none
  ]
]

unfoldable pub dispatches : Micros → Db → List OutboxRow → List Dispatch
unfolding deliverable
dispatches now db [] = []
dispatches now db (o ∷ os) =
    let rest = dispatches now db os in
    elim (deliverable now db o) [
      | none ↦ rest
      | some j ↦
          record {
            dispatch_id = o.dispatch_id;
            scope = j.request.scope;
            job_id = j.job_id;
            step_id = o.step_id;
          }
          ∷ rest
    ]

-- `pending_dispatch`; the outbox is in the order of its AUTOINCREMENT key
unfoldable pub pending_dispatch : ℕ → Micros → Tx (List Dispatch)
unfolding dispatches
pending_dispatch limit now = do
  bounded limit
  λ db. ok (take limit (dispatches now db db.outbox), db)

-- COALESCE(delivered_at, now)
abbrev pub delivered : Micros → OutboxRow → OutboxRow
delivered now o = record o { delivered_at = some (or_else o.delivered_at now) }

-- `mark_delivered`
unfoldable pub mark_delivered : Dispatch → Micros → Tx (Unit {0})
mark_delivered d now = do
  get_job_row d.scope d.job_id
  get_step_row d.job_id d.step_id
  λ db.
      let names = λ (o : OutboxRow). o.dispatch_id == d.dispatch_id && o.step_id == d.step_id in
      if any names db.outbox
      then ok (tt, record db { outbox = update names (delivered now) db.outbox })
      else err dispatch_error

-- the three NOT EXISTS of `_orphans`, and its tests on the intent and its step
unfoldable pub is_orphan : Micros → Micros → Db → Intent → Bool
is_orphan grace now db i =
    leb (i.created_at + grace) now
    && (elim (step_by_id i.step_id db) [ none ↦ false | some s ↦ not (is_open s.state) ])
    && not (any (λ j. j.source_key == i.object_key) db.jobs)
    && not (any (λ (m : Uuid × Uuid). m.1 == i.object_key) db.objects)
    && not (
        any
          (λ other.
            other.object_key == i.object_key
            && (elim (step_by_id other.step_id db) [ none ↦ false | some s ↦ is_open s.state ]))
          db.intents)

-- ORDER BY created_at, step_id, object_key; the order of UUID texts is that of their numbers
abbrev pub older : Intent → Intent → Bool
older a b =
    ltb a.created_at b.created_at
    || (a.created_at == b.created_at
        && (ltb a.step_id b.step_id || (a.step_id == b.step_id && ltb a.object_key b.object_key)))

-- DISTINCT, each reference at its first row
abbrev pub distinct_refs : List Intent → List ObjectRef
distinct_refs [] = []
distinct_refs (i ∷ is) = i.ref ∷ select (λ r. not (same_ref i.ref r)) (distinct_refs is)

module _ (l : Ledger) where
  -- `_orphans`
  unfoldable pub orphans : Micros → ℕ → Db → List ObjectRef
  unfolding is_orphan sort_by
  orphans now limit db =
      take limit
        (distinct_refs (sort_by older (select (is_orphan l.orphan_grace_micros now db) db.intents)))

  -- `orphan_candidates`
  unfoldable pub orphan_candidates : ℕ → Micros → Tx (List ObjectRef)
  unfolding orphans
  orphan_candidates limit now = do bounded limit; λ db. ok (orphans now limit db, db)
