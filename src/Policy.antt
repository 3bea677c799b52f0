-- ===== src/Policy.antt =====
-- The policy (internal/policy): glob matching, ignore lists, applying overrides and waivers,
-- and resolving a policy file.
pub mod Match
pub mod Ignore
pub mod Date
pub mod Apply
pub mod Load
