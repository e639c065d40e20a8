-- ===== src/Digestion.antt =====
-- documents/digestion/: the plan of a digest, the stages that work on it, and the checks of what they
-- return.
pub mod Models
pub mod Sets
pub mod Attempt
pub mod Sizes
pub mod Structure
pub mod Tree
pub mod Reduction
pub mod Rounds
pub mod Below
pub mod Limits
pub mod Evidence
pub mod Results
pub mod Validation
pub mod Grounded
pub mod Quoted
pub mod Summary
pub mod Inherited
pub mod Graph
pub mod Closed
pub mod Digest
pub mod Notices
pub mod Making
pub mod Artifacts
pub mod Complete
pub mod Accepted
