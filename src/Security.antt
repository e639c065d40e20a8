-- ===== src/Security.antt =====
-- security/: who may act, on which documents, and what the audit keeps.
pub mod Models
pub mod Tables
pub mod Checks
pub mod Authority
pub mod Sharing
pub mod Removal
pub mod Revocation
pub mod Audit
pub mod Isolation
