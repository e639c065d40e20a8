-- ===== src/Documents.antt =====
-- documents/models.py: documents, blocks of text and the validation of an extraction.
pub mod Models
pub mod Artifact
pub mod Coverage
