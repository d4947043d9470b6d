-- ===== src/Patching/Diff.antt =====
-- How a unified diff is cut into files, and the headers that the policy reads in it.
mod Split
pub mod Added
pub mod Agreement
unfoldable pub use Split.*
