-- ===== src/Inference.antt =====
-- llm/: the shared quota of inference calls.
pub mod Admission
pub mod Quota
