-- ===== src/Jobs/Service.antt =====
-- documents/jobs/service.py: what `DocumentJobs.admit` verifies before the ledger admits. The object
-- store is a parameter: the reference that its `inspect` returns, or none when it raises.
use estudio_polymind_llm_orc.Prelude.{
  String, Bool, true, false, ◌&&◌, Option, none, some, List, [], ◌∷◌, ◌==◌, find, all, str_eq,
  if◌then◌else◌,
}
use estudio_polymind_llm_orc.Jobs.Models.{
  Uuid, Admission, compatibility, ObjectRef, same_ref, StepSpec, same_spec,
}
use estudio_polymind_llm_orc.Jobs.Tables.{Db, Ledger, StepRow, is_succeeded}
use estudio_polymind_llm_orc.Jobs.Database.{
  Tx, ◌>>=◌, ◌>>◌, pure, unless, uncaught, invalid_configuration, get_job_row, steps_of,
  manifest_of,
}
use estudio_polymind_llm_orc.Jobs.Admit.{valid_admission}
use estudio_polymind_llm_orc.Jobs.Planning.{mem}

module _ (inspect : ObjectRef → Option ObjectRef) where
  -- `self.store.inspect(…) == ref`
  abbrev pub verified : ObjectRef → Bool
  verified ref = elim (inspect ref) [ none ↦ false | some found ↦ same_ref found ref ]

  -- the step may be reused, by the tests of the loop
  abbrev pub may_reuse : List StepRow → List String → StepSpec → Option StepRow
  may_reuse old reusable spec = elim (find (λ r. str_eq r.spec.unit_id spec.unit_id) old) [
    | none ↦ none
    | some r ↦
        if is_succeeded r.state
          && same_spec r.spec spec
          && all (λ u. mem u reusable) spec.depends_on
        then some r
        else none
  ]

  -- the loop over the steps of the request: every object of a reused step is inspected
  unfoldable pub verify_steps : Db → List StepRow → List String → List StepSpec → Bool
  unfolding manifest_of
  verify_steps db old reusable [] = true
  verify_steps db old reusable (spec ∷ specs) =
      let with_unit = verify_steps db old (spec.unit_id ∷ reusable) specs in
      let without = verify_steps db old reusable specs in
      elim (may_reuse old reusable spec) [
        | none ↦ without
        | some r ↦ all verified (manifest_of r.step_id db) && with_unit
      ]

  -- what the job resumed from has to offer
  abbrev pub verify_resumed : Ledger → Admission → Option Uuid → Tx (Unit {0})
  verify_resumed l request none = pure tt
  verify_resumed l request (some id) = do
    prior ← get_job_row request.scope id
    if compatibility l.hashing prior.request == compatibility l.hashing request
        then (λ db.
            unless (verify_steps db (steps_of prior.job_id db) [] request.steps) uncaught db)
        else pure tt

  -- `DocumentJobs.admit` up to the ledger; `uncaught` is the DocumentError of the object store
  unfoldable pub verify_request : Ledger → Admission → Tx (Unit {0})
  verify_request l request = do
    unless (valid_admission l.hashing request) invalid_configuration
    unless (verified request.source) uncaught
    verify_resumed l request request.resume_from
