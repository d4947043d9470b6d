-- ===== src/Workspace.antt =====
-- The session's working copy and what the program asks of the platform below it.
pub mod Tree
pub mod Platform
pub mod Disk
pub mod Directories
