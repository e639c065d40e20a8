-- ===== src/Scenarios.antt =====
-- Concrete runs: the theorems applied to databases with a few rows.
mod Jobs
mod Retries
mod Quotas
mod Access
mod Texts
mod Talks
mod Trees
mod Digests
mod Complete
mod Releases
mod Rankings
