-- ===== src/Tracing.antt =====
-- _redact of code_agent/tracing/recorder.py: what a trace may hold of a JSON value. The substitution
-- of secrets inside a text, a regular expression, and lower case are parameters.
pub mod Secrets
use safepatch.Base.{Bool, true, false, List, [], ◌∷◌, if◌then◌else◌}
use safepatch.Text.{Text, codes, elem}
use safepatch.Model.Json.{
  Json, null, boolean, number, negative, float, text, array, object, Items, no_items, item, Members,
  no_members, member,
}

-- REDACT_KEYS
abbrev pub redact_keys : List Text
redact_keys =
    codes "api_key"
    ∷ codes "api-key"
    ∷ codes "authorization"
    ∷ codes "openai_api_key"
    ∷ codes "code_agent_api_key"
    ∷ codes "token"
    ∷ codes "password"
    ∷ codes "secret"
    ∷ []

abbrev pub redacted : Text
redacted = codes "***REDACTED***"

module _ (lower scrub : Text → Text) where
  -- str(k).lower() in REDACT_KEYS
  unfoldable pub is_secret_key : Text → Bool
  unfolding elem
  is_secret_key k = elem (lower k) redact_keys

  unfoldable mutual
    unfolding is_secret_key

    pub redact : Json → Json
    redact null = null
    redact (boolean b) = boolean b
    redact (number n) = number n
    redact (negative n) = negative n
    redact (float s) = float s
    redact (text s) = text (scrub s)
    redact (array js) = array (redact_items js)
    redact (object d) = object (redact_members d)

    pub redact_items : Items → Items
    redact_items no_items = no_items
    redact_items (item j js) = item (redact j) (redact_items js)

    pub redact_members : Members → Members
    redact_members no_members = no_members
    redact_members (member k v d) =
        member k (if is_secret_key k then text redacted else redact v) (redact_members d)
