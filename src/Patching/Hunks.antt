-- ===== src/Patching/Hunks.antt =====
-- code_agent/patching/hunk_engine.py: the hunks of a unified diff and their exact application.
-- Lines are numbered from 1, as in the hunk headers; line 0 stands for Python's index -1.
mod Parse
mod Match
mod Apply
pub mod Spec
pub mod Sound
pub mod Complete
pub mod Unique
pub mod Insert
unfoldable pub use Parse.*
unfoldable pub use Match.*
unfoldable pub use Apply.*
