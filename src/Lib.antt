-- ===== src/Lib.antt =====
-- SafePatch: an agent that repairs a Python repository by small patches which it checks, shows to
-- the user and applies to a working copy.
--
-- The program. A session (code_agent/controller.py) lets a language model read the working copy
-- and propose a patch: a unified diff with the files that it touches. The proposal goes through
-- the policy (code_agent/patching/validator.py and test_integrity.py: which paths, how many files
-- and lines, no weaker tests), then through the preflight (preflight.py: does every hunk match?),
-- then to the user, and is applied at last (applier.py), with a rollback if any step fails. Policy,
-- preflight and applier read the diff by the same engine (hunk_engine.py), which matches a hunk
-- exactly at the line of its header, or moves it to the only block that equals its old lines.
--
-- The files.
--   Base      Boolean tests, lists and results over the native numbers; no code of the program.
--   Text      Python's str as a list of code points, and its methods that the program calls.
--   Workspace the working copy as a function from resolved paths to nodes; what the operating
--             system and the library of Python do (Platform: path resolution, SHA-256, lower case,
--             the listing of a directory), how writes may fail (Disk), and the directories that are made
--             for a file and removed behind it (Directories).
--   Patching/Hunks      hunk_engine.py: parse_hunks (Parse), the exact matching (Match) and
--             apply_hunks_to_text (Apply); Spec says what a patched file is.
--   Patching/Diff       split_file_diffs, is_new_file, content_from_new_file_diff, and
--             _parse_diff_files of validator.py; Added says what lines a new file has.
--   Patching/Policy     validator.py (Validate) and test_integrity.py (Integrity), their tests of
--             paths (Paths), and PatchProposal of code_agent/state.py (Proposal).
--   Patching/Hashes, Preflight, Applier: the files of these names.
--   Model     the JSON of the model's replies (Json); parse_tool_call of code_agent/llm.py
--             (ToolCall); proposal.py with from_dict and to_dict of state.py (Proposals), and
--             structured_edit.py (Edits), the last two of code_agent/patching/.
--   Session   code_agent/state.py, workflow.py and controller.py: the enumerations and policies
--             (Status), the usage counters (Usage), TaskSession (State); the budgets of
--             code_agent/tools/ (Reads); _analyze_phase with its handlers (Analyze); run from the
--             baseline on (Run); and what a text of the model is to the analysis (Replies).
--   Runtime   code_agent/runtime/: the command line of the container (Config), its name (Names), the
--             output of pytest (Output), the removal of the test copy (Cleanup), what is asked of docker
--             (Docker) and DockerPytestRunner (Pytest).
--   Evaluation  code_agent/eval/hidden.py and status.py.
--   Repository  code_agent/repository/: import_repository of workspace.py (Import) and search_text
--             of search.py (Search).
--   Tracing   _redact of code_agent/tracing/recorder.py.
--   EnvFile   load_dotenv of code_agent/envfile.py, on the text of the file.
--   Tests     runs and instances at a small working copy.
--
-- The state. A function that changes files takes the tree and returns it; the variables of the
-- applier's loop (backups, created files, relocations) are the record Progress, and a round of the
-- loop ends normally or by an exception, with the state at that point. A line number is that of
-- the hunk header, from 1; the code's index is one less, and line 0 stands for its index -1. The
-- regular expressions and ast.parse of the test policy are the functions of a Scanner.
--
-- The session. A phase of the analysis reads the model's replies (Reply) one by one; a step ends in
-- a Next: the loop goes on, stops, lets an exception pass, or has a patch bound to the hashes of the
-- diff and the working copy. A round of run ends in a Turn. The model, the approval callback, the
-- changes of the working copy while the callback runs and the test runs are an Environment, any
-- functions of the round.
--
-- Bounds. Numbers are unbounded, as in Python; a line number of a tool call that is below 1 is 0.
-- The limits of the policy are five files and 300 changed lines. The loops run over lines, hunks,
-- files or analysis steps. The loop of run takes fuel: a round either spends a repair attempt or a
-- regeneration of the patch, and the regenerations start anew with an attempt, so that rounds_left
-- (11 in a session with the defaults) bounds the rounds.
--
-- The run of the tests. What docker, the disk and the clock do in one run of pytest is a Machine: the
-- way each command ends, and a Cleaner, which maps the directories that exist to those that exist
-- after a step. A result is an Option, `none` where an exception leaves run_pytest.
--
-- Not modelled: the repository map, the search for symbols and the listing of directories (ast, and
-- read only), the diff of two directories, the language model's client but for the parsing of its
-- replies, the files of traces and logs, the command line, and in the evaluation the copies and
-- metrics. json.loads, str of a value that is no text and difflib are parameters. In the
-- applier, the text of messages is left out, and so is the root of the working copy itself, which the
-- rollback removes when it is left empty. The working copy holds no symbolic links.
pub mod Base
pub mod Text
pub mod Workspace
pub mod Patching
pub mod Model
pub mod Runtime
pub mod Session
pub mod Evaluation
pub mod Repository
pub mod Tracing
pub mod EnvFile
pub mod Tests
