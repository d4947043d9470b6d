-- ===== src/Patching.antt =====
-- code_agent/patching: diffs, hunks, the policy on proposals, preflight and application.
pub mod Hunks
pub mod Diff
pub mod Policy
pub mod Applier
pub mod Hashes
pub mod Preflight
