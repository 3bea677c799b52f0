-- ===== src/Engine.antt =====
-- The engine (internal/engine): candidates, scoring, the undo plan and certification.
pub mod Candidate
pub mod Remedy
pub mod Score
pub mod Undo
pub mod Interfaces
pub mod Outcome
pub mod Digest
pub mod Collect
pub mod Broken
pub mod Certify
