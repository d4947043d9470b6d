-- ===== src/Patching/Policy/Proposal.antt =====
-- PatchProposal of code_agent/state.py. The dict of revisions is a list of its items.
use safepatch.Base.{List, Option, none, some, [], ◌∷◌, if◌then◌else◌}
use safepatch.Text.{Text, text_eq}

pub record PatchProposal : Type 0 where
  pub diagnosis : Text
  pub affected_files : List Text
  pub unified_diff : Text
  pub expected_behavior : Text
  pub risk_notes : Text
  pub tests_to_run : List Text
  pub base_revisions : List (Text × Text)

-- d.get(key)
unfoldable pub get : List (Text × Text) → Text → Option Text
get [] k = none
get ((j, v) ∷ d) k = if text_eq j k then some v else get d k
