-- ===== src/Jobs/Worker.antt =====
-- documents/jobs/worker.py: the local dispatcher, `relay`, and one turn of a worker. The handler, the
-- store behind `inspect` and the classifier are injected, and are parameters here; a call of the
-- ledger is one transaction at an instant of its own.
use estudio_polymind_llm_orc.Prelude.{
  ℕ, ◌+◌, ◌≡◌, refl, sym, ap, true, ==_refl, String, Bool, ◌&&◌, ◌⊎◌, inl, inr, Option, none, some,
  List, [], ◌∷◌, ◌++◌, ◌==◌, find, if◌then◌else◌,
}
use estudio_polymind_llm_orc.Jobs.Models.{Micros, Scope, same_scope, ObjectRef}
use estudio_polymind_llm_orc.Jobs.Errors.{Exn, Failure}
use estudio_polymind_llm_orc.Jobs.Tables.{Db, Ledger, JobRow, StepRow}
use estudio_polymind_llm_orc.Jobs.Database.{
  Tx, ◌>>=◌, Result, ok, err, Error, transaction, get_job_row, steps_of, cancelled, stale_fence,
  lease_expired, invalid_transition, uncaught,
}
use estudio_polymind_llm_orc.Jobs.Leases.{Lease, claim}
use estudio_polymind_llm_orc.Jobs.Settling.{fail, commit, settle_cancel}
use estudio_polymind_llm_orc.Jobs.Outbox.{Dispatch, pending_dispatch, mark_delivered}

abbrev pub same_dispatch : Dispatch → Dispatch → Bool
same_dispatch a b =
    a.dispatch_id == b.dispatch_id
    && same_scope a.scope b.scope
    && a.job_id == b.job_id
    && a.step_id == b.step_id

-- `LocalDispatcher.send`
abbrev pub send : Dispatch → List Dispatch → List Dispatch
send m q = q ++ m ∷ []

-- `LocalDispatcher.receive`
abbrev pub receive : List Dispatch → Option Dispatch
receive [] = none
receive (m ∷ q) = some m

-- `LocalDispatcher.acknowledge`
unfoldable pub acknowledge : Dispatch → List Dispatch → List Dispatch
acknowledge m [] = []
acknowledge m (n ∷ q) = if same_dispatch n m then q else n ∷ q

-- What surrounds a worker: whether SQLite opens and commits the n-th transaction, the instant of
-- it, and the injected parts. A handler registers objects, so it may write to the database.
pub record Surroundings : Type 0 where
  pub opened : ℕ → Bool
  pub committed : ℕ → Bool
  pub clock : ℕ → Micros
  pub handler : JobRow → StepRow → Lease → Db → (Exn ⊎ List ObjectRef) × Db
  pub inspect : Scope → ObjectRef → Option Exn
  pub classifier : Exn → Failure

-- how a turn of the worker ends
pub data Turn : Type 0 where
  idle handled_message : Turn
  raised : Error → Turn

abbrev pub acknowledged : Dispatch → Option Error × Db → List Dispatch → Turn × Db × List Dispatch
acknowledged m (none, db) q = (handled_message, db, acknowledge m q)
acknowledged m (some e, db) q = (raised e, db, q)

module _ (l : Ledger) (w : Surroundings) where
  -- the n-th transaction
  abbrev pub ledger_call : {A : Type 0} → ℕ → (Micros → Tx A) → Db → Result A × Db
  ledger_call n body db = transaction (w.opened n) (w.committed n) (body (w.clock n)) db

  -- the loop of `relay`, from the n-th transaction on; the answer is the count
  abbrev pub marked :
      {A : Type 0}
      → Result A × Db
      → List Dispatch
      → (Db → Result ℕ × Db × List Dispatch)
      → Result ℕ × Db × List Dispatch
  marked (ok a, db) q rest = rest db
  marked (err e, db) q rest = (err e, db, q)

  unfoldable pub relay_all :
      ℕ → ℕ → List Dispatch → Db → List Dispatch → Result ℕ × Db × List Dispatch
  relay_all n count [] db q = (ok count, db, q)
  relay_all n count (m ∷ ms) db q =
      marked (ledger_call n (mark_delivered m) db) (send m q)
        (λ db'. relay_all (n + 1) (count + 1) ms db' (send m q))

  abbrev pub pending : Result (List Dispatch) × Db → List Dispatch → Result ℕ × Db × List Dispatch
  pending (ok ms, db) q = relay_all 1 0 ms db q
  pending (err e, db) q = (err e, db, q)

  -- `relay`
  unfoldable pub relay : ℕ → Db → List Dispatch → Result ℕ × Db × List Dispatch
  unfolding relay_all
  relay limit db q = pending (ledger_call 0 (pending_dispatch limit) db) q

  -- the categories that a settlement passes over
  abbrev pub settled : Error → Option Error
  settled stale_fence = none
  settled invalid_transition = none
  settled e = some e

  abbrev pub after_settling : {A : Type 0} → Result A × Db → Option Error × Db
  after_settling (ok a, db) = (none, db)
  after_settling (err e, db) = (settled e, db)

  -- `_settle_or_raise`: the error that is raised again, if one is
  unfoldable pub settle_or_raise : ℕ → Lease → Error → Db → Option Error × Db
  settle_or_raise n lease cancelled db = after_settling (ledger_call n (settle_cancel lease) db)
  settle_or_raise n lease stale_fence db = (none, db)
  settle_or_raise n lease lease_expired db = (none, db)
  settle_or_raise n lease invalid_transition db = (none, db)
  settle_or_raise n lease e db = (some e, db)

  -- the end of a `fail` or a `commit`
  abbrev pub ended : {A : Type 0} → ℕ → Lease → Result A × Db → Option Error × Db
  ended n lease (ok a, db) = (none, db)
  ended n lease (err e, db) = settle_or_raise n lease e db

  -- `tracked.inspect` of each reference; a lease has the scope of its message
  abbrev pub inspected : Scope → List ObjectRef → Option Exn
  inspected scope [] = none
  inspected scope (r ∷ rs) = elim (w.inspect scope r) [
    | none ↦ inspected scope rs
    | some e ↦ some e
  ]

  -- the manifest is committed if every object can be inspected
  abbrev pub report : Lease → Option Exn → List ObjectRef → Db → Option Error × Db
  report lease none refs db = ended 4 lease (ledger_call 3 (commit l lease refs) db)
  report lease (some e) refs db = ended 4 lease (ledger_call 3 (fail l lease (w.classifier e)) db)

  abbrev pub handled : Dispatch → Lease → (Exn ⊎ List ObjectRef) × Db → Option Error × Db
  handled m lease (inl e, db) = ended 4 lease (ledger_call 3 (fail l lease (w.classifier e)) db)
  handled m lease (inr refs, db) = report lease (inspected m.scope refs) refs db

  -- the step of the lease; `next` of no step is a StopIteration
  abbrev pub work : Dispatch → Lease → JobRow → Option StepRow → Db → Option Error × Db
  work m lease job none db = (some uncaught, db)
  work m lease job (some step) db = handled m lease (w.handler job step lease db)

  -- `steps` of the ledger
  abbrev pub steps : Dispatch → Tx (List StepRow)
  steps m = get_job_row m.scope m.job_id >>= λ job db. ok (steps_of m.job_id db, db)

  abbrev pub with_steps : Dispatch → Lease → JobRow → Result (List StepRow) × Db → Option Error × Db
  with_steps m lease job (err e, db) = (some e, db)
  with_steps m lease job (ok rows, db) =
      work m lease job (find (λ s. s.step_id == m.step_id) rows) db

  abbrev pub with_job : Dispatch → Lease → Result JobRow × Db → Option Error × Db
  with_job m lease (err e, db) = (some e, db)
  with_job m lease (ok job, db) = with_steps m lease job (ledger_call 2 (λ now. steps m) db)

  -- the part of `once` behind a claim
  abbrev pub claimed : Dispatch → Result (Option Lease) × Db → Option Error × Db
  claimed m (err e, db) = (some e, db)
  claimed m (ok none, db) = (none, db)
  claimed m (ok (some lease), db) =
      with_job m lease (ledger_call 1 (λ now. get_job_row m.scope m.job_id) db)

  abbrev pub received : String → Option Dispatch → Db → List Dispatch → Turn × Db × List Dispatch
  received owner none db q = (idle, db, q)
  received owner (some m) db q =
      acknowledged m (claimed m (ledger_call 0 (claim l m.scope m.job_id m.step_id owner) db)) q

  -- `Worker.once`
  unfoldable pub once : String → Db → List Dispatch → Turn × Db × List Dispatch
  once owner db q = received owner (receive q) db q

same_dispatch_refl : (m : Dispatch) → same_dispatch m m ≡ true
same_dispatch_refl m =
    rw
      (
        ==_refl m.dispatch_id,
        ==_refl m.scope.tenant,
        ==_refl m.scope.owner,
        ==_refl m.job_id,
        ==_refl m.step_id,
      )
      refl

acknowledge-first : (m : Dispatch) (q : List Dispatch) → acknowledge m (m ∷ q) ≡ q
unfolding acknowledge
acknowledge-first m q = rw (same_dispatch_refl m) refl

-- what a turn leaves of the messages
abbrev pub QueueAfter : Turn → List Dispatch → List Dispatch → Type 0
QueueAfter idle q q' = (q ≡ []) × (q' ≡ [])
QueueAfter handled_message q q' = (m : Dispatch) × (q ≡ m ∷ q')
QueueAfter (raised e) q q' = q' ≡ q

acknowledged-QueueAfter :
    (m : Dispatch) (x : Option Error × Db) (q : List Dispatch)
    → QueueAfter (acknowledged m x (m ∷ q)).0 (m ∷ q) (acknowledged m x (m ∷ q)).2
acknowledged-QueueAfter m (none, db) q = (m, ap (λ r. m ∷ r) (sym (acknowledge-first m q)))
acknowledged-QueueAfter m (some e, db) q = refl

-- A turn of a worker takes a message from the queue only when it has handled it: an idle turn found
-- the queue empty and leaves it so, a turn that handled a message leaves the queue without its first
-- message and with all the others, and a turn that raises an error leaves the queue as it was.
pub once-QueueAfter :
    (l : Ledger) (w : Surroundings) (owner : String) (db : Db) (q : List Dispatch)
    → QueueAfter (once l w owner db q).0 q (once l w owner db q).2
unfolding once
once-QueueAfter l w owner db [] = (refl, refl)
once-QueueAfter l w owner db (m ∷ q) =
    acknowledged-QueueAfter m
      (claimed l w m (ledger_call l w 0 (claim l m.scope m.job_id m.step_id owner) db)) q
