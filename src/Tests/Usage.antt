-- ===== src/Tests/Usage.antt =====
-- The usage counters after two provider calls, one of which reports its tokens.
use safepatch.Base.{none, some}
use safepatch.Session.Usage.{TokenUsage, provider}

abbrev reported : TokenUsage
reported = record {
  prompt_tokens = some 7;
  completion_tokens = some 2;
  total_tokens = some 9;
  cached_tokens = none;
  source = provider;
}
