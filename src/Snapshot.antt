-- ===== src/Snapshot.antt =====
-- Production snapshots (internal/snapshot): what they make of findings. Collecting and loading
-- them is not modelled.
pub mod Float
pub mod Estimate
pub mod Lookup
pub mod Enrich
pub mod Apply
pub mod Ratchet
pub mod Sole
pub mod Canonical
pub mod Load
pub mod Files
