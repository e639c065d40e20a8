-- ===== src/Publication.antt =====
-- documents/publication: the records that a publication makes of complete digests, and its manifest.
pub mod Models
pub mod Planning
pub mod Provenance
