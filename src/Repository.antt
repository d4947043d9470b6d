-- ===== src/Repository.antt =====
-- code_agent/repository/: the import of a repository into a session, the search for a text and the
-- diff of two trees.
pub mod Import
pub mod Search
