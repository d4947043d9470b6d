-- ===== src/Runtime.antt =====
-- code_agent/runtime/: the container that runs pytest on a copy of the working copy.
pub mod Config
pub mod Names
pub mod Output
pub mod Cleanup
pub mod Docker
pub mod Pytest
