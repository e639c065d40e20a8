-- ===== src/Jobs.antt =====
-- documents/jobs: durable document jobs. Models and the SQL tables first, then one module for each
-- group of ledger operations, then the proofs.
pub mod Models
pub mod Errors
pub mod Tables
pub mod Database
pub mod Blocks
pub mod Progression
pub mod Leases
pub mod Failing
pub mod Settling
pub mod Outbox
pub mod Reconcile
pub mod Planning
pub mod Admit
pub mod Checks
pub mod History
pub mod Worker
pub mod Reads
pub mod Service
pub mod Intents
pub mod Evolution
pub mod Progress
pub mod Delay
pub mod Claiming
