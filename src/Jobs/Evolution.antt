-- ===== src/Jobs/Evolution.antt =====
-- How the rows of documents/jobs/sqlite.py change: what each operation may do to a step and to a
-- job, whatever it returns. The modules below prove it operation by operation.
pub mod Failing
pub mod Leases
pub mod Claims
pub mod Settling
pub mod Commits
pub mod Repairs
pub mod Admissions
pub mod Histories
pub mod Durable
pub mod Attempts
use estudio_polymind_llm_orc.Prelude.{
  ℕ, ◌≤◌, ◌≡◌, refl, sym, subst, ◌∙◌, Bool, true, false, update, All, is_some, Related, some, List,
  [], ◌∷◌, ◌++◌, map, find, find-Related, All-map, Bool-cases, inl, inr, ◌==◌, Related-refl,
  Related-trans, Related-update, Unique, Unique-update, arith,
}
use native.Mathlib.Nat.{le_refl, le_trans}
use estudio_polymind_llm_orc.Jobs.Models.{Uuid, is_terminal}
use estudio_polymind_llm_orc.Jobs.Tables.{Db, StepRow, JobRow, AttemptRow, is_running, is_open}

-- The CHECK constraint of `job_steps` (a lease exactly while the step runs), and what the code
-- relies on beside it: a running step has started, and the fence counts the attempts.
pub record RowShape (r : StepRow) : Type 0 where
  pub owner : is_some r.lease_owner ≡ is_running r.state
  pub expiry : is_some r.lease_expires_at ≡ is_running r.state
  pub started : is_running r.state ≡ true → is_some r.started_at ≡ true
  pub counted : r.attempt_count ≡ r.fence

-- One step, before and after.
pub record StepMoves (r s : StepRow) : Type 0 where
  pub step_id : s.step_id ≡ r.step_id
  pub job_id : s.job_id ≡ r.job_id
  pub spec : s.spec ≡ r.spec
  -- a settled step is never written again
  pub settled : is_open r.state ≡ false → s ≡ r
  pub fence : r.fence ≤ s.fence
  pub counts : r.attempt_count ≤ s.attempt_count
  pub shape : RowShape r → RowShape s

-- One job, before and after.
pub record JobMoves (j k : JobRow) : Type 0 where
  pub job_id : k.job_id ≡ j.job_id
  pub request : k.request ≡ j.request
  pub fingerprint : k.fingerprint ≡ j.fingerprint
  -- a terminal state is never left
  pub terminal : is_terminal j.state ≡ true → k.state ≡ j.state
  -- a request to cancel is never withdrawn
  pub cancelling : j.cancel_requested ≡ true → k.cancel_requested ≡ true

abbrev pub step_key : StepRow → ℕ
step_key r = r.step_id

abbrev pub job_key : JobRow → ℕ
job_key j = j.job_id

-- the PRIMARY KEY constraints of `jobs` and `job_steps`
pub record IsKeyed (db : Db) : Type 0 where
  pub steps : Unique step_key db.steps
  pub jobs : Unique job_key db.jobs

-- what the constraints of `step_attempts` compare: the step, the number and the fence
abbrev pub AttemptKey : Type 0
AttemptKey = Uuid × ℕ × ℕ

abbrev pub attempt_key : AttemptRow → AttemptKey
attempt_key a = (a.step_id, a.number, a.fence)

-- a recorded attempt is one that its step has counted
abbrev pub Counted : List StepRow → AttemptKey → Type 0
Counted steps (id, number, fence) =
    (r : StepRow) × (find (λ x. x.step_id == id) steps ≡ some r)
    × (number ≤ r.attempt_count)
    × (fence ≤ r.fence)

abbrev pub AttemptsCounted : Db → Type 0
AttemptsCounted db = All (Counted db.steps) (map attempt_key db.attempts)

-- The tables, before and after.
pub record Moves (a b : Db) : Type 0 where
  pub steps : Related StepMoves a.steps b.steps
  pub jobs : Related JobMoves a.jobs b.jobs
  pub keyed : IsKeyed b
  pub attempts : AttemptsCounted a → AttemptsCounted b

pub StepMoves-refl : (r : StepRow) → StepMoves r r
StepMoves-refl r = record {
  step_id = refl;
  job_id = refl;
  spec = refl;
  settled = λ _. refl;
  fence = le_refl r.fence;
  counts = le_refl r.attempt_count;
  shape = λ h. h;
}

pub StepMoves-trans : (r s t : StepRow) → StepMoves r s → StepMoves s t → StepMoves r t
StepMoves-trans r s t m n = record {
  step_id = n.step_id ∙ m.step_id;
  job_id = n.job_id ∙ m.job_id;
  spec = n.spec ∙ m.spec;
  settled = λ h.
      let e = m.settled h in
      n.settled (subst (λ (x : StepRow). is_open x.state ≡ false) (sym e) h) ∙ e;
  fence = le_trans m.fence n.fence;
  counts = le_trans m.counts n.counts;
  shape = λ h. n.shape (m.shape h);
}

pub JobMoves-refl : (j : JobRow) → JobMoves j j
JobMoves-refl j = ground arith

pub JobMoves-trans : (i j k : JobRow) → JobMoves i j → JobMoves j k → JobMoves i k
JobMoves-trans i j k m n = ground arith

pub Moves-refl : (db : Db) → IsKeyed db → Moves db db
Moves-refl db u = record {
  steps = Related-refl _ StepMoves-refl db.steps;
  jobs = Related-refl _ JobMoves-refl db.jobs;
  keyed = u;
  attempts = λ c. c;
}

pub Moves-trans : (a b c : Db) → Moves a b → Moves b c → Moves a c
Moves-trans a b c m n = record {
  steps = Related-trans _ StepMoves-trans a.steps b.steps c.steps m.steps n.steps;
  jobs = Related-trans _ JobMoves-trans a.jobs b.jobs c.jobs m.jobs n.jobs;
  keyed = n.keyed;
  attempts = λ c. n.attempts (m.attempts c);
}

-- Attempts stay counted when the steps move and the keys of the attempts stay.
pub AttemptsCounted-moved :
    (a b : Db)
    → Related StepMoves a.steps b.steps
    → map attempt_key b.attempts ≡ map attempt_key a.attempts
    → AttemptsCounted a
    → AttemptsCounted b
AttemptsCounted-moved a b m e c = subst (All (Counted b.steps)) (sym e) (
    All-map (Counted a.steps) (Counted b.steps)
      (λ (id, number, fence) (r, f, n, h).
        let (s, g, move) =
          find-Related StepMoves (λ x. x.step_id == id) (λ x y k. rw k.step_id refl) a.steps b.steps
            {x = r} m f in
        (s, g, le_trans n move.counts, le_trans h move.fence))
      (map attempt_key a.attempts) c)

-- an UPDATE of attempts that writes none of the keys
pub keys-update :
    (p : AttemptRow → Bool) (f : AttemptRow → AttemptRow) (xs : List AttemptRow)
    → ((a : AttemptRow) → attempt_key (f a) ≡ attempt_key a)
    → map attempt_key (update p f xs) ≡ map attempt_key xs
keys-update p f [] h = refl
keys-update p f (x ∷ xs) h = elim (Bool-cases (p x)) [
  | inl e ↦ rw (e, h x, keys-update p f xs h) refl
  | inr e ↦ rw (e, keys-update p f xs h) refl
]

-- An UPDATE of steps that moves each row that it names, with writes to other tables.
pub update_steps-Moves :
    (a b : Db) (p : StepRow → Bool) (f : StepRow → StepRow)
    → IsKeyed a
    → b.steps ≡ update p f a.steps
    → b.jobs ≡ a.jobs
    → map attempt_key b.attempts ≡ map attempt_key a.attempts
    → ((r : StepRow) → (f r).step_id ≡ r.step_id)
    → All (λ r. p r ≡ true → StepMoves r (f r)) a.steps
    → Moves a b
update_steps-Moves a b p f u es ej ea same h = record {
  steps = moved;
  jobs = subst (Related JobMoves a.jobs) (sym ej) (Related-refl _ JobMoves-refl a.jobs);
  keyed = record {
    steps = subst (Unique step_key) (sym es) (Unique-update step_key p f a.steps same u.steps);
    jobs = subst (Unique job_key) (sym ej) u.jobs;
  };
  attempts = AttemptsCounted-moved a b moved ea;
}
  where
    moved : Related StepMoves a.steps b.steps
    moved =
        subst (Related StepMoves a.steps) (sym es) (Related-update _ p f a.steps StepMoves-refl h)

-- An UPDATE of jobs that moves each row that it names, with writes to other tables.
pub update_jobs-Moves :
    (a b : Db) (p : JobRow → Bool) (f : JobRow → JobRow)
    → IsKeyed a
    → b.steps ≡ a.steps
    → b.jobs ≡ update p f a.jobs
    → map attempt_key b.attempts ≡ map attempt_key a.attempts
    → ((j : JobRow) → (f j).job_id ≡ j.job_id)
    → All (λ j. p j ≡ true → JobMoves j (f j)) a.jobs
    → Moves a b
update_jobs-Moves a b p f u es ej ea same h = record {
  steps = subst (Related StepMoves a.steps) (sym es) (Related-refl _ StepMoves-refl a.steps);
  jobs = subst (Related JobMoves a.jobs) (sym ej) (Related-update _ p f a.jobs JobMoves-refl h);
  keyed = record {
    steps = subst (Unique step_key) (sym es) u.steps;
    jobs = subst (Unique job_key) (sym ej) (Unique-update job_key p f a.jobs same u.jobs);
  };
  attempts =
      AttemptsCounted-moved a b
        (subst (Related StepMoves a.steps) (sym es) (Related-refl _ StepMoves-refl a.steps)) ea;
}

-- Writes to the other tables leave both alone.
pub same_tables-Moves :
    (a b : Db)
    → IsKeyed a
    → b.steps ≡ a.steps
    → b.jobs ≡ a.jobs
    → map attempt_key b.attempts ≡ map attempt_key a.attempts
    → Moves a b
same_tables-Moves a b u es ej ea = record {
  steps = subst (Related StepMoves a.steps) (sym es) (Related-refl _ StepMoves-refl a.steps);
  jobs = subst (Related JobMoves a.jobs) (sym ej) (Related-refl _ JobMoves-refl a.jobs);
  keyed = record {
    steps = subst (Unique step_key) (sym es) u.steps;
    jobs = subst (Unique job_key) (sym ej) u.jobs;
  };
  attempts =
      AttemptsCounted-moved a b
        (subst (Related StepMoves a.steps) (sym es) (Related-refl _ StepMoves-refl a.steps)) ea;
}

AttemptsCounted-append :
    (steps : List StepRow) (x : AttemptRow) (xs : List AttemptRow)
    → All (Counted steps) (map attempt_key xs)
    → Counted steps (attempt_key x)
    → All (Counted steps) (map attempt_key (xs ++ x ∷ []))
AttemptsCounted-append steps x [] c n = (n, tt)
AttemptsCounted-append steps x (y ∷ xs) (h, c) n = (h, AttemptsCounted-append steps x xs c n)

-- An INSERT of an attempt that its step has counted.
pub added_attempt-Moves :
    (a b : Db) (x : AttemptRow)
    → IsKeyed a
    → b.steps ≡ a.steps
    → b.jobs ≡ a.jobs
    → b.attempts ≡ a.attempts ++ x ∷ []
    → Counted a.steps (attempt_key x)
    → Moves a b
added_attempt-Moves a b x u es ej ea n =
    let m = same_tables-Moves a (record b { attempts = a.attempts }) u es ej refl in
    record {
      steps = m.steps;
      jobs = m.jobs;
      keyed = record { steps = m.keyed.steps; jobs = m.keyed.jobs };
      attempts = λ c.
          subst (λ s. All (Counted s) (map attempt_key b.attempts)) (sym es)
            (subst (λ xs. All (Counted a.steps) (map attempt_key xs)) (sym ea)
              (AttemptsCounted-append a.steps x a.attempts c n));
    }
