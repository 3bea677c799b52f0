-- ===== src/Examples.antt =====
-- Concrete findings, changesets and policies, and runs of the theorems on them.
pub mod Samples
mod Scores
mod Policies
mod Runs
mod Gates
mod Digests
mod Files
mod Migrations
mod Snapshots
