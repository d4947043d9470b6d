-- ===== src/Model.antt =====
-- code_agent/llm.py, patching/proposal.py and patching/structured_edit.py: what the program makes of
-- the texts that the language model returns.
pub mod Json
pub mod ToolCall
pub mod Proposals
pub mod Edits
