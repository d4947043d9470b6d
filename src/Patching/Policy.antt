-- ===== src/Patching/Policy.antt =====
-- code_agent/patching/validator.py and test_integrity.py: which proposals may be applied.
pub mod Paths
pub mod Proposal
pub mod Integrity
pub mod Validate
