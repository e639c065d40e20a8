-- ===== src/Jobs/Intents.antt =====
-- `IntentStore` of documents/jobs/worker.py. A stream is the list of the chunks that its reads return;
-- SHA-256 and the object store are parameters (none where the store raises).
use estudio_polymind_llm_orc.Prelude.{
  ℕ, ◌+◌, Bool, true, Option, none, some, List, [], ◌∷◌, ◌++◌, ◌==◌, ltb, length, if◌then◌else◌,
}
use estudio_polymind_llm_orc.Jobs.Models.{
  Uuid, Digest, Micros, Scope, same_scope, Kind, ObjectRef, same_ref, object_parts,
}
use estudio_polymind_llm_orc.Jobs.Tables.{Db, Ledger}
use estudio_polymind_llm_orc.Jobs.Database.{Result, ok, err, Error, scope_mismatch, transaction}
use estudio_polymind_llm_orc.Jobs.Leases.{Lease}
use estudio_polymind_llm_orc.Jobs.Settling.{register_object}

pub data Written : Type 0 where
  stored : ObjectRef → Written
  job_failed : Error → Written
  source_too_large integrity_error store_failed : Written

-- the loop over the reads, with what the reads before have returned
unfoldable pub read_all : ℕ → List ℕ → List (List ℕ) → Option (List ℕ)
read_all max_bytes before [] = some before
read_all max_bytes before (chunk ∷ chunks) =
    let rest = read_all max_bytes (before ++ chunk) chunks in
    if ltb max_bytes (length before + length chunk) then none else rest

abbrev pub same_digest : Option Digest → Digest → Bool
same_digest none d = true
same_digest (some e) d = e == d

module _ (l : Ledger) (sha256 : List ℕ → Digest)
    (store_put : ObjectRef → List ℕ → Option ObjectRef) where
  -- the reference of the bytes
  abbrev pub ref_of : Scope → Kind → Uuid → List ℕ → ObjectRef
  ref_of scope kind id bytes = record {
    scope = scope;
    kind = kind;
    object_id = id;
    key = l.hashing.stable_id (object_parts scope kind id);
    sha256 = sha256 bytes;
    byte_size = length bytes;
  }

  abbrev pub checked : ObjectRef → Option ObjectRef → Written
  checked ref none = store_failed
  checked ref (some written) = if same_ref written ref then stored written else integrity_error

  -- the write, behind the intent
  abbrev pub write : ObjectRef → List ℕ → Result (Unit {0}) × Db → Written × Db
  write ref bytes (err e, db) = (job_failed e, db)
  write ref bytes (ok u, db) = (checked ref (store_put ref bytes), db)

  abbrev pub put_bytes :
      Bool
      → Bool
      → Lease
      → Scope
      → Kind
      → Uuid
      → Option Digest
      → Micros
      → Option (List ℕ)
      → Db
      → Written × Db
  put_bytes opened committed lease scope kind id expected now none db = (source_too_large, db)
  put_bytes opened committed lease scope kind id expected now (some bytes) db =
      if same_digest expected (sha256 bytes)
      then write (ref_of scope kind id bytes) bytes (
          transaction opened committed (register_object l lease (ref_of scope kind id bytes) now)
            db)
      else (integrity_error, db)

  -- `IntentStore.put`
  unfoldable pub put :
      Bool
      → Bool
      → Lease
      → Scope
      → Kind
      → Uuid
      → Option Digest
      → Micros
      → ℕ
      → List (List ℕ)
      → Db
      → Written × Db
  unfolding read_all
  put opened committed lease scope kind id expected now max_bytes stream db =
      if same_scope scope lease.scope
      then put_bytes opened committed lease scope kind id expected now
          (read_all max_bytes [] stream) db
      else (job_failed scope_mismatch, db)

-- `IntentStore.read` and `IntentStore.inspect`: the scope first
unfoldable pub in_scope_only : {A : Type 0} → Lease → Scope → Option A → Result (Option A)
in_scope_only lease scope answer =
    if same_scope scope lease.scope then ok answer else err scope_mismatch
