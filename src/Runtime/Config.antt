-- ===== src/Runtime/Config.antt =====
-- code_agent/runtime/docker_config.py: the command line of the container.
pub mod Sandbox
use safepatch.Base.{ℕ, Bool, true, Option, none, some, List, [], ◌∷◌, ◌++◌, if◌then◌else◌}
use safepatch.Text.{Text, codes, str_nat}

-- DEFAULT_PYTEST_ARGV and HIDDEN_PYTEST_ARGV
abbrev pub default_pytest_argv : List Text
default_pytest_argv =
    codes "python"
    ∷ codes "-m"
    ∷ codes "pytest"
    ∷ codes "-q"
    ∷ codes "-p"
    ∷ codes "no:cacheprovider"
    ∷ []

abbrev pub hidden_pytest_argv : List Text
hidden_pytest_argv =
    codes "python"
    ∷ codes "-m"
    ∷ codes "pytest"
    ∷ codes "-q"
    ∷ codes "-p"
    ∷ codes "no:cacheprovider"
    ∷ codes "tests_hidden"
    ∷ []

pub record DockerRunConfig : Type 0 where
  pub image : Text
  pub network_mode : Text
  pub memory : Text
  pub cpus : ℕ
  pub pids_limit : ℕ
  pub user : Text
  pub timeout_seconds : ℕ
  pub remove_container : Bool
  pub container_name : Option Text
  pub cap_drop : Text
  pub no_new_privileges : Bool
  pub read_only : Bool
  pub tmpfs : Text
  pub pytest_argv : List Text

-- DockerRunConfig(image=image), and make_run_config of the runner
unfoldable pub make_run_config : Text → DockerRunConfig
make_run_config image = record {
  image = image;
  network_mode = codes "none";
  memory = codes "512m";
  cpus = 1;
  pids_limit = 128;
  user = codes "1000:1000";
  timeout_seconds = 120;
  remove_container = true;
  container_name = none;
  cap_drop = codes "ALL";
  no_new_privileges = true;
  read_only = true;
  tmpfs = codes "/tmp:rw,nosuid,nodev,noexec,size=64m";
  pytest_argv = default_pytest_argv;
}

unfoldable pub with_pytest_argv : DockerRunConfig → List Text → DockerRunConfig
with_pytest_argv c argv = record c { pytest_argv = argv }

unfoldable pub for_hidden_tests : DockerRunConfig → DockerRunConfig
unfolding with_pytest_argv
for_hidden_tests c = with_pytest_argv c hidden_pytest_argv

-- `if self.container_name:`
unfoldable pub name_options : Option Text → List Text
name_options none = []
name_options (some []) = []
name_options (some (c ∷ s)) = codes "--name" ∷ (c ∷ s) ∷ []

-- The options that do not depend on the first two `if`s, up to the image.
unfoldable pub sandbox_options : DockerRunConfig → Text → List Text
unfolding str_nat
sandbox_options c host_workspace =
    codes "--network"
    ∷ c.network_mode
    ∷ codes "--cap-drop"
    ∷ c.cap_drop
    ∷ codes "--security-opt"
    ∷ codes "no-new-privileges"
    ∷ codes "--read-only"
    ∷ codes "--tmpfs"
    ∷ c.tmpfs
    ∷ codes "--memory"
    ∷ c.memory
    ∷ codes "--cpus"
    ∷ str_nat c.cpus
    ∷ codes "--pids-limit"
    ∷ str_nat c.pids_limit
    ∷ codes "--user"
    ∷ c.user
    ∷ codes "--env"
    ∷ codes "HOME=/tmp"
    ∷ codes "-v"
    ∷ (host_workspace ++ codes ":/work:rw")
    ∷ codes "-w"
    ∷ codes "/work"
    ∷ []

unfoldable pub build_docker_cmd : DockerRunConfig → Text → List Text
unfolding name_options sandbox_options
build_docker_cmd c host_workspace =
    codes "docker"
    ∷ codes "run"
    ∷ ((if c.remove_container then codes "--rm" ∷ [] else [])
        ++ (name_options c.container_name
            ++ (sandbox_options c host_workspace ++ (c.image ∷ c.pytest_argv))))
