-- ===== src/Tracing/Secrets.antt =====
-- No value of a secret key is left in a trace.
use safepatch.Base.{Bool, true, false, ◌&&◌, ◌≡◌, refl, inl, inr, if◌then◌else◌, Bool-cases}
use safepatch.Text.{Text, text_eq}
use safepatch.Text.Laws.{text_eq_refl}
use safepatch.Model.Json.{
  Json, null, boolean, number, negative, float, text, array, object, Items, no_items, item, Members,
  no_members, member,
}
use safepatch.Tracing.{redacted, is_secret_key, redact, redact_items, redact_members}

-- The placeholder.
abbrev is_placeholder : Json → Bool
is_placeholder (text s) = text_eq s redacted
is_placeholder _ = false

module _ (lower scrub : Text → Text) where
  -- Every value of a secret key, at any depth, is the placeholder.
  abbrev mutual
    pub keeps_secrets : Json → Bool
    keeps_secrets null = true
    keeps_secrets (boolean b) = true
    keeps_secrets (number n) = true
    keeps_secrets (negative n) = true
    keeps_secrets (float s) = true
    keeps_secrets (text s) = true
    keeps_secrets (array js) = keeps_items js
    keeps_secrets (object d) = keeps_members d

    pub keeps_items : Items → Bool
    keeps_items no_items = true
    keeps_items (item j js) = keeps_secrets j && keeps_items js

    pub keeps_members : Members → Bool
    keeps_members no_members = true
    keeps_members (member k v d) =
        (if is_secret_key lower scrub k then is_placeholder v else keeps_secrets v)
        && keeps_members d

  mutual
    unfolding redact

    redact-keeps_secrets : (j : Json) → keeps_secrets (redact lower scrub j) ≡ true
    redact-keeps_secrets null = refl
    redact-keeps_secrets (boolean b) = refl
    redact-keeps_secrets (number n) = refl
    redact-keeps_secrets (negative n) = refl
    redact-keeps_secrets (float s) = refl
    redact-keeps_secrets (text s) = refl
    redact-keeps_secrets (array js) = redact_items-keeps_items js
    redact-keeps_secrets (object d) = redact_members-keeps_members d

    redact_items-keeps_items : (js : Items) → keeps_items (redact_items lower scrub js) ≡ true
    redact_items-keeps_items no_items = refl
    redact_items-keeps_items (item j js) = rw (redact-keeps_secrets j) (redact_items-keeps_items js)

    redact_members-keeps_members :
        (d : Members) → keeps_members (redact_members lower scrub d) ≡ true
    redact_members-keeps_members no_members = refl
    redact_members-keeps_members (member k v d) = elim (Bool-cases (is_secret_key lower scrub k)) [
      | inl secret ↦ rw (secret, text_eq_refl redacted) (redact_members-keeps_members d)
      | inr other ↦ rw (other, redact-keeps_secrets v) (redact_members-keeps_members d)
    ]

  -- In a value that goes into a trace, every value of a secret key, at any depth, is the placeholder.
  pub redact_secrets : (j : Json) → keeps_secrets (redact lower scrub j) ≡ true
  redact_secrets j = redact-keeps_secrets j
