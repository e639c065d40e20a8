-- ===== src/Lib.antt =====
-- The durable core of the PolyMind orchestration: the document job ledger and its worker, the
-- validation of extractions, the digestion and publication of documents, the security authority, the
-- governance ledger and the shared admission of inference calls.
--
-- Workers claim the steps of a document job from the job ledger, work under a fenced lease and
-- commit their artifacts; the ledger decides on retries, cancellations and repairs. The authority
-- decides who may act on a document, the governance ledger reserves tokens and money, and the
-- admission keeps the calls of all workers within the quota of a provider.
--
-- Prelude: tables as lists of rows in rowid order, with SELECT, UPDATE and COUNT by a Boolean test.
-- Jobs: documents/jobs/models.py, errors.py and sqlite.py. `Tables` has the rows of `SCHEMA`,
-- `Database` the transaction, and the operations keep their names: `admit` in Admit and Planning,
-- `claim` and `renew` in Leases, `commit`, `fail`, `cancel`, `settle_cancel` and `register_object`
-- in Settling, `pending_dispatch` and `mark_delivered` in Outbox, `reconcile` in Reconcile;
-- `_activate` and `_refresh` are in Progression, `_failure` and the cancellations in Failing.
-- `History` has a call as one transaction and a history as a list of calls, and Evolution what the
-- calls keep. `Worker` has documents/jobs/worker.py: the local dispatcher, `relay` and `once`.
-- `Intents` has its `IntentStore`, `Service` the checks of documents/jobs/service.py, and `Reads` the
-- plain reads of the ledger.
-- Documents: documents/models.py, the validators of an extraction.
-- Digestion: documents/digestion. `Models` has the records of models.py and `Structure` its validators,
-- `Sizes` sizing.py and `check_request`, `Reduction` the function `reduce_group` of planning.py, and
-- `Evidence`, `Results`, `Validation`, `Summary`, `Graph`, `Digest`, `Making` and `Artifacts` the
-- functions of validation.py: `EvidenceIndex`, `validate_result`, `inherited_summary`, `make_digest`.
-- Publication: documents/publication/models.py, and `records` and `plan_publication` of planning.py.
-- Security: security/models.py and security/authority.py. Governance: governance/ledger.py.
-- Retrieval: rag/hybrid_retriever.py, fuse_rankings and in Hybrid hybrid_retrieve.
-- Inference: llm/admission.py. Memory: the file store of memory/memory_store.py, and in Refinement its
-- contract, a bounded log for each session.
--
-- UUIDs and SHA-256 digests are numbers, instants and durations whole microseconds. SQLite, the hash
-- functions, uuid4, the calendar, the classes of characters and a worker's handler are parameters: a
-- transaction takes whether the database opened and whether the commit was written, a call takes the
-- random ids that it may use. A SELECT without
-- ORDER BY returns rowid order. An amount of money is a whole number of 10⁻²¹ units, so `Price.cost`
-- is exact; the delay of a retry is scaled to whole numbers and rounded down. The clock shows one
-- instant during a call. Loops run over lists, but for three, which take
-- fuel and are proved to end: the walk of `StructuralMap.tree` (one round more than there are units),
-- `while True` of `reduce_group` (as many rounds as children), and the walk of `make_digest` over the
-- claims (as many rounds as roots and links). The lengths of JSON texts and the ids of a digest, which
-- hash them, are functions of a record `Codec`; the minimum of the coverage is in millionths, and
-- compared with the exact ratio.
--
-- Not modelled: file paths and permissions, schema creation and migration, pydantic's validation of
-- rows that are read back (a row holds the value), foreign keys (rows are inserted with existing
-- references only), values of a wrong type, and SQLite failing inside the tables of the authority,
-- of the governance ledger and of the admission; the object store, the extraction itself, the
-- structure and the chunks of a digest's plan, the decoding of a model's response, and the
-- Redis store of conversations.
mod Prelude
pub mod Jobs
pub mod Security
pub mod Governance
pub mod Inference
pub mod Documents
pub mod Memory
pub mod Publication
pub mod Retrieval
pub mod Digestion
mod Scenarios
