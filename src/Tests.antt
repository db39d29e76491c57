-- ===== src/Tests.antt =====
-- The theorems at concrete inputs.
pub mod Links
pub mod Targets
pub mod Runs
pub mod Readers
pub mod Hosts
pub mod Parts
