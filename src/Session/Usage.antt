-- ===== src/Session/Usage.antt =====
-- TokenUsage and the usage counters of SessionObservability, code_agent/state.py. The fields that
-- only wall clocks and names fill are left out.
use safepatch.Base.{
  ℕ, suc, ◌+◌, ◌<◌, ◌≡◌, Bool, true, false, not, ◌&&◌, ◌||◌, Option, none, some, List, [], ◌∷◌, ltb,
  ◌==◌, if◌then◌else◌,
}

pub data Source : Type 0 where
  unavailable provider provider_partial : Source

pub record TokenUsage : Type 0 where
  pub prompt_tokens : Option ℕ
  pub completion_tokens : Option ℕ
  pub total_tokens : Option ℕ
  pub cached_tokens : Option ℕ
  pub source : Source

unfoldable pub is_some {ℓ} : {A : Type ℓ} → Option A → Bool
is_some none = false
is_some (some a) = true

-- TokenUsage.available
unfoldable pub available : TokenUsage → Bool
unfolding is_some
available u =
    is_some u.prompt_tokens
    || (is_some u.completion_tokens || (is_some u.total_tokens || is_some u.cached_tokens))

-- _sum: (a or 0) + (b or 0), or None
unfoldable pub sum : Option ℕ → Option ℕ → Option ℕ
sum none none = none
sum none (some b) = some (0 + b)
sum (some a) none = some (a + 0)
sum (some a) (some b) = some (a + b)

-- TokenUsage.add
unfoldable pub add : TokenUsage → TokenUsage → TokenUsage
unfolding available sum
add u other = if not (available other) then u else if not (available u) then other else record {
  prompt_tokens = sum u.prompt_tokens other.prompt_tokens;
  completion_tokens = sum u.completion_tokens other.completion_tokens;
  total_tokens = sum u.total_tokens other.total_tokens;
  cached_tokens = sum u.cached_tokens other.cached_tokens;
  source = provider;
}

pub record Observability : Type 0 where
  pub model_calls : ℕ
  pub calls_with_usage : ℕ
  pub calls_without_usage : ℕ
  pub token_usage : TokenUsage

unfoldable pub no_usage : TokenUsage
no_usage = record {
  prompt_tokens = none;
  completion_tokens = none;
  total_tokens = none;
  cached_tokens = none;
  source = unavailable;
}

unfoldable pub fresh : Observability
unfolding no_usage
fresh = record {
  model_calls = 0;
  calls_with_usage = 0;
  calls_without_usage = 0;
  token_usage = no_usage;
}

-- note_provider_invocation
unfoldable pub note_provider_invocation : Observability → Observability
note_provider_invocation o = record o { model_calls = suc o.model_calls }

-- _refresh_usage_meta
unfoldable pub refresh_usage_meta : Observability → Observability
refresh_usage_meta o =
    let source =
      if o.calls_with_usage == 0
      then unavailable
      else if ltb 0 o.calls_without_usage
      then provider_partial
      else provider in
    let usage = o.token_usage in record o { token_usage = record usage { source = source } }

unfoldable pub count_usage : Option TokenUsage → Observability → Observability
unfolding add available
count_usage none o = record o { calls_without_usage = suc o.calls_without_usage }
count_usage (some usage) o =
    if available usage
    then record o {
      calls_with_usage = suc o.calls_with_usage;
      token_usage = add o.token_usage usage;
    }
    else record o { calls_without_usage = suc o.calls_without_usage }

-- record_call_usage
unfoldable pub record_call_usage : Option TokenUsage → Observability → Observability
unfolding count_usage refresh_usage_meta
record_call_usage usage o = refresh_usage_meta (count_usage usage o)

-- usage_complete
unfoldable pub usage_complete : Observability → Bool
usage_complete o =
    ltb 0 o.model_calls && ((o.calls_with_usage == o.model_calls) && (o.calls_without_usage == 0))

-- A provider call whose outcome is recorded.
unfoldable pub record_calls : List (Option TokenUsage) → Observability → Observability
unfolding record_call_usage note_provider_invocation
record_calls [] o = o
record_calls (u ∷ us) o = record_calls us (record_call_usage u (note_provider_invocation o))

-- The invariant of the counters: each call is counted once, with or without usage, and the source
-- of the total says which of the two kinds there were.
pub record IsCounted (o : Observability) : Type 0 where
  pub calls : o.model_calls ≡ o.calls_with_usage + o.calls_without_usage
  pub none_reported : o.calls_with_usage ≡ 0 → o.token_usage.source ≡ unavailable
  pub some_reported :
      0 < o.calls_with_usage → 0 < o.calls_without_usage → o.token_usage.source ≡ provider_partial
  pub all_reported :
      0 < o.calls_with_usage → o.calls_without_usage ≡ 0 → o.token_usage.source ≡ provider
