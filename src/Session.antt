-- ===== src/Session.antt =====
-- code_agent/state.py, workflow.py, controller.py and tools/: the session and its control.
pub mod Status
pub mod Usage
pub mod State
pub mod Reads
pub mod Analyze
pub mod Run
pub mod Replies
