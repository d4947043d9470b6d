-- ===== src/Runtime/Docker.antt =====
-- What code_agent/runtime/docker_pytest.py asks of docker: the preflight, the choice of the image and
-- the docker command. What docker and the disk do is a `Machine`, any functions.
use safepatch.Base.{
  Bool, true, false, not, ◌||◌, Option, none, some, List, [], ◌∷◌, ◌++◌, if◌then◌else◌,
}
use safepatch.Text.{Text, codes, text_eq}
use safepatch.Session.Status.{TestResult}
use safepatch.Runtime.Config.{DockerRunConfig}
use safepatch.Runtime.Cleanup.{
  ExitCode, minus, is_zero, Command, ran, expired, raises, Disposable, Cleaner, first_line,
}

-- error_kind
pub data TestErrorKind : Type 0 where
  environment timeout : TestErrorKind

-- TestResult, with all its texts
pub record PytestResult : Type 0 where
  pub exit_code : ExitCode
  pub stdout : Text
  pub stderr : Text
  pub failed_tests : List Text
  pub traceback_summary : Text
  pub environment_error : Option Text
  pub error_kind : Option TestErrorKind

-- Truth of an optional text.
unfoldable pub is_set : Option Text → Bool
is_set none = false
is_set (some []) = false
is_set (some (c ∷ s)) = true

unfoldable pub is_timeout : Option TestErrorKind → Bool
is_timeout (some timeout) = true
is_timeout _ = false

unfoldable pub is_given : Option Text → Bool
is_given none = false
is_given (some s) = true

-- What the controller reads of a result.
unfoldable pub verdict : PytestResult → TestResult
unfolding is_zero is_given is_timeout
verdict r = record {
  exit_ok = is_zero r.exit_code;
  environment_failure = is_given r.environment_error;
  timed_out = is_timeout r.error_kind;
}

-- How proc.communicate ends: stdout, stderr and the return code; TimeoutExpired, with its output if
-- that is a text; or another exception.
pub data Communicated : Type 0 where
  completed : Text → Text → ExitCode → Communicated
  late : Option Text → Communicated
  broke : Text → Communicated

-- How _run_docker_cmd ends.
pub data CliOutcome : Type 0 where
  finished : Text → Text → ExitCode → CliOutcome
  ran_out : Text → CliOutcome
  cli_error : Text → CliOutcome

pub record Machine : Type 0 where
  -- shutil.which("docker") is not None
  pub has_docker : Bool
  pub docker_info : Command
  -- docker image inspect, in the preflight (true) and behind it (false)
  pub inspect : Bool → Text → Command
  -- tempfile.mkdtemp; `none` where it raises
  pub make_directory : Option Text
  -- copytree and the chmod of the copy; the text of the exception if one raises
  pub copy : Text → Option Text
  -- subprocess.Popen; the text of the exception if it raises
  pub start : List Text → Option Text
  pub communicate : List Text → Communicated
  -- stdout behind the kill, if proc.communicate returns then
  pub communicate_killed : Option Text
  -- docker rm -f; whether it returns
  pub force_remove : Text → Bool
  -- the directories after the run
  pub left : Disposable
  pub cleaner : Cleaner
  pub container_uuid : Text
  pub cleanup_uuid : Text

-- The state of a DockerPytestRunner.
pub record Runner : Type 0 where
  pub image : Text
  pub last_run_config : Option DockerRunConfig
  pub last_test_copy_parent : Option Text
  pub last_cleanup_error : Option Text

abbrev pub docker_image : Text
docker_image = codes "python:3.12-slim"

abbrev pub local_pytest_image : Text
local_pytest_image = codes "safepatch-pytest:local"

-- a or b, for texts
unfoldable pub or_text : Option Text → Text → Text
or_text none b = b
or_text (some []) b = b
or_text (some (c ∷ s)) b = c ∷ s

unfoldable pub text_of : Option Text → Text
text_of none = []
text_of (some s) = s

-- A result for a failure of the environment.
unfoldable pub failed_run : TestErrorKind → Text → Text → Text → PytestResult
failed_run kind stdout stderr message = record {
  exit_code = minus 1;
  stdout = stdout;
  stderr = stderr;
  failed_tests = [];
  traceback_summary = [];
  environment_error = some message;
  error_kind = some kind;
}

-- The command succeeds; `none` where it raises.
unfoldable pub succeeds : Command → Option Bool
unfolding is_zero
succeeds (ran code stdout stderr) = some (is_zero code)
succeeds expired = none
succeeds (raises why) = none

-- candidates of _resolve_image
unfoldable pub candidates : Text → List Text
candidates image =
    if text_eq image docker_image || text_eq image local_pytest_image
    then local_pytest_image ∷ []
    else local_pytest_image ∷ image ∷ []

-- The outer option is `none` where subprocess.run raises.
unfoldable pub first_image : (Text → Command) → List Text → Option (Option Text)
unfolding succeeds
first_image inspect [] = some none
first_image inspect (candidate ∷ rest) = elim (succeeds (inspect candidate)) [
  | none ↦ none
  | some true ↦ some (some candidate)
  | some false ↦ first_image inspect rest
]

unfoldable pub resolve_image : (Text → Command) → Text → Option (Option Text)
unfolding candidates first_image
resolve_image inspect image = first_image inspect (candidates image)

-- preflight: the reason if it fails; `none` where it raises
unfoldable pub image_reason : Option (Option Text) → Option (Option Text)
image_reason none = none
image_reason (some none) = some (some (codes "pytest image missing; run: safepatch --build-image"))
image_reason (some (some image)) = some none

unfoldable pub info_reason : Command → Option Text
unfolding is_zero first_line
info_reason (ran code stdout stderr) =
    if is_zero code
    then none
    else some (first_line stdout stderr (codes "docker daemon unavailable"))
info_reason expired = some (codes "docker info timed out; is Docker Desktop starting?")
info_reason (raises why) = some (codes "docker info failed: " ++ why)

unfoldable pub preflight : Machine → Text → Option (Option Text)
unfolding image_reason info_reason resolve_image
preflight machine image =
    if not machine.has_docker
    then some (some (codes "docker executable not found on PATH"))
    else elim (info_reason machine.docker_info) [
      | some why ↦ some (some why)
      | none ↦ image_reason (resolve_image (machine.inspect true) image)
    ]

-- _run_docker_cmd
unfoldable pub outcome_of : Machine → Communicated → CliOutcome
unfolding or_text text_of
outcome_of machine (completed stdout stderr code) = finished stdout stderr code
outcome_of machine (late output) = ran_out (or_text machine.communicate_killed (text_of output))
outcome_of machine (broke why) = cli_error why

unfoldable pub run_docker_cmd : Machine → List Text → CliOutcome
unfolding outcome_of
run_docker_cmd machine cmd = elim (machine.start cmd) [
  | some why ↦ cli_error why
  | none ↦ outcome_of machine (machine.communicate cmd)
]
