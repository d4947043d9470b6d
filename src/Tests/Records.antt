-- ===== src/Tests/Records.antt =====
-- A trace with a key, and an environment file.
use safepatch.Base.{◌≡◌, refl, true, false, [], ◌∷◌}
use safepatch.Text.{Text, codes}
use safepatch.Patching.Policy.Proposal.{get}
use safepatch.Model.Json.{Json, text, object, no_members, member}
use safepatch.Tracing.{redact}
use safepatch.Tracing.Secrets.{keeps_secrets, redact_secrets}
use safepatch.EnvFile.{Variables, load_dotenv}
use safepatch.EnvFile.Keeps.{load_dotenv-get}

abbrev payload : Json
payload = object (
    member (codes "model") (text (codes "m")) (
      member (codes "client") (object (member (codes "api_key") (text (codes "k")) no_members))
        no_members))

redact_secrets_example : keeps_secrets (λ t. t) (λ t. t) (redact (λ t. t) (λ t. t) payload) ≡ true
redact_secrets_example = redact_secrets (λ t. t) (λ t. t) payload

abbrev content : Text
content = codes "# keys\nexport A = 'x'\nB=2\n"

abbrev variables : Variables
variables = (codes "A", codes "kept") ∷ (codes "B", []) ∷ []

-- An empty variable is replaced.
loads_file :
    load_dotenv false content variables ≡ (codes "A", codes "kept") ∷ (codes "B", codes "2") ∷ []
unfolding load_dotenv
loads_file = refl

load_dotenv-get_example :
    get (load_dotenv false content variables) (codes "A") ≡ get variables (codes "A")
unfolding get safepatch.EnvFile.is_filled safepatch.Text.text_eq
load_dotenv-get_example = load_dotenv-get (codes "A") content variables refl
