-- ===== src/Jobs/Evolution/Commits.antt =====
-- `_activate` and `commit` move rows.
use estudio_polymind_llm_orc.Prelude.{
  ◌&&◌, not, ◌≡◌, refl, sym, subst, Bool, true, false, List, [], ◌∷◌, some, none, Option, ◌==◌, All,
  All-map, All-select, At, At-update_other, All-both, Unique-select, Unique-self, all, arith,
  Unique, String,
}
use estudio_polymind_llm_orc.Jobs.Models.{Uuid, Digest, Micros, ObjectRef}
use estudio_polymind_llm_orc.Jobs.Tables.{
  Db, Ledger, StepRow, JobRow, is_pending, is_running, is_succeeded,
}
use estudio_polymind_llm_orc.Jobs.Database.{
  Tx, ok, steps_of, enqueue, check_manifest, manifest_clashes,
}
use estudio_polymind_llm_orc.Jobs.Blocks.{
  bind_inv, unless_inv, get_job_row_inv, get_step_row_inv, get_step_row_last, branch_inv,
}
use estudio_polymind_llm_orc.Jobs.Checks.{check_lease_inv}
use estudio_polymind_llm_orc.Jobs.Progression.{
  refresh, row_of, next_parent, ready_row, make_ready, try_ready, ready_inputs, ready_key,
  parents_succeeded, activate_row, activate_rows, activate,
}
use estudio_polymind_llm_orc.Jobs.Leases.{Lease}
use estudio_polymind_llm_orc.Jobs.Settling.{
  commit, commit_again, commit_first, write_commit, check_intents, is_registered, valid_manifest,
  succeeded_row,
}
use estudio_polymind_llm_orc.Jobs.Evolution.{
  keys-update, StepMoves, IsKeyed, Moves, step_key, Moves-refl, Moves-trans, update_steps-Moves,
}
use estudio_polymind_llm_orc.Jobs.Evolution.Failing.{refresh-Moves}
use estudio_polymind_llm_orc.Jobs.Evolution.Leases.{step_of-At}

-- every row of the step is pending
abbrev PendingStep : Uuid → Db → Type 0
PendingStep id db = At step_key id (λ r. is_pending r.state ≡ true) db.steps

ready-StepMoves :
    (key inputs : Digest) (r : StepRow)
    → is_pending r.state ≡ true
    → StepMoves r (ready_row key inputs r)
ready-StepMoves key inputs r h = ground arith

succeeded-StepMoves :
    (now : Micros) (r : StepRow) → is_running r.state ≡ true → StepMoves r (succeeded_row now r)
succeeded-StepMoves now r h = ground arith

make_ready-Moves :
    (row : StepRow) (key inputs : Digest) (now : Micros) (db : Db)
    → IsKeyed db
    → PendingStep row.step_id db
    → Moves db (make_ready row key inputs now db)
unfolding make_ready enqueue
make_ready-Moves row key inputs now db u h =
    update_steps-Moves db _ (λ r. r.step_id == row.step_id) (ready_row key inputs) u refl refl refl
      (λ r. refl) (All-map _ _ (λ r is m. ready-StepMoves key inputs r (is m)) db.steps h)

-- Another step stays pending.
PendingStep-make_ready :
    (row : StepRow) (key inputs : Digest) (now : Micros) (id : Uuid) (db : Db)
    → (id == row.step_id) ≡ false
    → PendingStep id db
    → PendingStep id (make_ready row key inputs now db)
unfolding make_ready enqueue
PendingStep-make_ready row key inputs now id db d h =
    At-update_other step_key _ id row.step_id (ready_row key inputs) db.steps (λ r. refl) d h

same_db-next_parent :
    (o : Option StepRow) (rest : Tx Bool) (db : Db) {done : Bool} {db' : Db}
    → ((b : Bool) → rest db ≡ ok (b, db') → db' ≡ db)
    → next_parent o rest db ≡ ok (done, db')
    → db' ≡ db
same_db-next_parent none rest db k h = cc
same_db-next_parent (some r) rest db {done} k h =
    branch_inv (is_succeeded r.state) _ _ db h (λ _ h1. k done h1) (λ _ h1. cc)

same_db-parents_succeeded :
    (rows : List StepRow) (units : List String) (db : Db) (done : Bool) {db' : Db}
    → parents_succeeded rows units db ≡ ok (done, db')
    → db' ≡ db
unfolding parents_succeeded
same_db-parents_succeeded rows [] db done h = cc
same_db-parents_succeeded rows (unit ∷ units) db done h =
    same_db-next_parent (row_of unit rows) (parents_succeeded rows units) db
      (λ b e. same_db-parents_succeeded rows units db b e) h

module _ (l : Ledger) where
  -- What a round of `_activate` keeps for the rows that follow.
  record Activated (row : StepRow) (a b : Db) : Type 0 where
    moves : Moves a b
    others : (id : Uuid) → (id == row.step_id) ≡ false → PendingStep id a → PendingStep id b

  unchanged-Activated : (row : StepRow) (a b : Db) → IsKeyed a → b ≡ a → Activated row a b
  unchanged-Activated row a b u e =
      subst (Activated row a) (sym e) (record { moves = Moves-refl a u; others = λ id d h. h })

  try_ready-eq-ok :
      (job : JobRow) (rows : List StepRow) (row : StepRow) (now : Micros) (db : Db) {db' : Db}
      → try_ready l job rows row now db ≡ ok (tt, db')
      → db'
        ≡ make_ready row
            (ready_key l job (ready_inputs l job rows row db))
            (ready_inputs l job rows row db)
            now
            db
  unfolding try_ready
  try_ready-eq-ok job rows row now db h = ground arith

  activate_row-Activated :
      (job : JobRow) (rows : List StepRow) (row : StepRow) (now : Micros) (db : Db) {db' : Db}
      → IsKeyed db
      → (is_pending row.state ≡ true → PendingStep row.step_id db)
      → activate_row l job rows row now db ≡ ok (tt, db')
      → Activated row db db'
  unfolding activate_row
  activate_row-Activated job rows row now db {db'} u p h =
      branch_inv (is_pending row.state) _ _ db h
        (λ pend h1. bind_inv (parents_succeeded rows row.spec.depends_on) _ db h1 λ done d e h2.
          let back = same_db-parents_succeeded rows row.spec.depends_on db done e in
          branch_inv done _ _ d h2
            (λ _ h3.
              let h4 : try_ready l job rows row now db ≡ ok (tt, db') = cc in
              subst (Activated row db) (sym (try_ready-eq-ok job rows row now db h4)) (record {
                moves = make_ready-Moves row _ _ now db u (p pend);
                others = λ id d' q. PendingStep-make_ready row _ _ now id db d' q;
              }))
            (λ _ h3. unchanged-Activated row db db' u (cc)))
        (λ _ h1. unchanged-Activated row db db' u (cc))

  activate_rows-Moves :
      (job : JobRow) (rows todo : List StepRow) (now : Micros) (db : Db) {db' : Db}
      → IsKeyed db
      → Unique step_key todo
      → All (λ row. is_pending row.state ≡ true → PendingStep row.step_id db) todo
      → activate_rows l job rows todo now db ≡ ok (tt, db')
      → Moves db db'
  unfolding activate_rows
  activate_rows-Moves job rows [] now db {db'} u un p h = subst (Moves db) (cc) (Moves-refl db u)
  activate_rows-Moves job rows (row ∷ todo) now db {db'} u un p h =
      bind_inv (activate_row l job rows row now) _ db h λ _ d e h1.
        let a = activate_row-Activated job rows row now db u p.0 e in
        Moves-trans db d db' a.moves (
          activate_rows-Moves job rows todo now d a.moves.keyed un.1
            (All-map _ _ (λ r is pend. a.others r.step_id is.0 (is.1 pend)) todo
              (All-both _ _ todo un.0 p.1))
            h1)

  pub activate-Moves :
      (job : JobRow) (now : Micros) (db : Db) {db' : Db}
      → IsKeyed db
      → activate l job now db ≡ ok (tt, db')
      → Moves db db'
  unfolding activate
  activate-Moves job now db u h =
      activate_rows-Moves job (steps_of job.job_id db) (steps_of job.job_id db) now db u
        (Unique-select step_key (λ r. r.job_id == job.job_id) db.steps u.steps)
        (All-select _ (λ r. r.job_id == job.job_id) db.steps
          (All-map _ _
            (λ row only pend.
              All-map _ _
                (λ r is m. subst (λ (x : StepRow). is_pending x.state ≡ true) (sym (is m)) pend)
                db.steps only)
            db.steps (Unique-self step_key db.steps u.steps)))
        h

  commit_first-Moves :
      (lease : Lease) (refs : List ObjectRef) (job : JobRow) (now : Micros) (db : Db)
      {row : StepRow} {db' : Db}
      → IsKeyed db
      → commit_first l lease refs job now db ≡ ok (row, db')
      → Moves db db'
  unfolding commit_first check_intents check_manifest write_commit
  commit_first-Moves lease refs job now db u h =
      check_lease_inv lease now false _ db h λ _ row c h1.
        unless_inv (all (is_registered lease.step_id db) refs) _ _ db h1 λ _ h1'.
          unless_inv (not (manifest_clashes lease.step_id refs db)) _ _ db h1' λ _ h2.
            bind_inv (activate l job now) _ _ h2 λ _ d e h3.
              bind_inv (refresh lease.job_id now) _ d h3 λ _ d' e' h4.
                get_step_row_last lease.job_id lease.step_id d' h4 λ same.
                  let (only, _, _) = step_of-At lease.job_id lease.step_id db u c.row_found in
                  let m =
                    update_steps-Moves db _ (λ r. r.step_id == lease.step_id) (succeeded_row now) u
                      refl refl
                      (keys-update (λ a. a.step_id == lease.step_id && a.fence == lease.fence) _
                        db.attempts (λ a. refl))
                      (λ r. refl)
                      (All-map _ _
                        (λ r is m. succeeded-StepMoves now r (
                          subst (λ (x : StepRow). is_running x.state ≡ true) (sym (is m))
                            c.running))
                        db.steps only) in
                  let n = activate-Moves job now _ m.keyed e in
                  subst (Moves db) (sym same) (
                    Moves-trans db _ d' m
                      (Moves-trans _ d d' n (refresh-Moves lease.job_id now d n.keyed e')))

  -- a repeated commit writes nothing
  commit_again-same :
      (lease : Lease) (refs : List ObjectRef) (row : StepRow) (db : Db) {row' : StepRow} {db' : Db}
      → commit_again lease refs row db ≡ ok (row', db')
      → db' ≡ db
  unfolding commit_again
  commit_again-same lease refs row db h = ground arith

  pub commit-Moves :
      (lease : Lease) (refs : List ObjectRef) (now : Micros) (db : Db) {row : StepRow} {db' : Db}
      → IsKeyed db
      → commit l lease refs now db ≡ ok (row, db')
      → Moves db db'
  unfolding commit
  commit-Moves lease refs now db {row} {db'} u h =
      unless_inv (valid_manifest l lease refs) _ _ db h λ _ h1.
        get_job_row_inv lease.scope lease.job_id _ db h1 λ job _ h2.
          get_step_row_inv lease.job_id lease.step_id _ db h2 λ r _ h3.
            branch_inv (is_succeeded r.state) _ _ db h3
              (λ _ h4.
                subst (Moves db) (sym (commit_again-same lease refs r db h4)) (Moves-refl db u))
              (λ _ h4. commit_first-Moves lease refs job now db u h4)
