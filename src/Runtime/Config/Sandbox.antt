-- ===== src/Runtime/Config/Sandbox.antt =====
-- The options of the container, as a reader of its command line finds them.
use safepatch.Base.{
  Bool, true, false, List, [], ◌∷◌, ◌++◌, ◌≡◌, refl, append_assoc, if◌then◌else◌, ◌||◌, ◌&&◌,
}
use safepatch.Text.{Text, codes, text_eq, starts_with, elem}
use safepatch.Runtime.Config.{
  str_nat, DockerRunConfig, build_docker_cmd, name_options, sandbox_options, for_hidden_tests,
  with_pytest_argv, hidden_pytest_argv,
}

-- An option that takes no value.
abbrev is_switch : Text → Bool
is_switch o = text_eq o (codes "--rm") || text_eq o (codes "--read-only")

-- The values of an option of docker run, up to the first word that is no option, the image.
abbrev pub values_of : Text → List Text → List Text
values_of key [] = []
values_of key (o ∷ []) = []
values_of key (o ∷ v ∷ rest) = elim (is_switch o) [
  | true ↦ values_of key (v ∷ rest)
  | false ↦ elim (starts_with o (codes "-")) [
    | true ↦ elim (text_eq o key) [ true ↦ v ∷ values_of key rest | false ↦ values_of key rest ]
    | false ↦ []
  ]
]

-- Whether the switch is among the options.
abbrev pub has_switch : Text → List Text → Bool
has_switch key [] = false
has_switch key (o ∷ []) = false
has_switch key (o ∷ v ∷ rest) = elim (is_switch o) [
  | true ↦ elim (text_eq o key) [ true ↦ true | false ↦ has_switch key (v ∷ rest) ]
  | false ↦ elim (starts_with o (codes "-")) [ true ↦ has_switch key rest | false ↦ false ]
]

-- The options that a container is started with.
abbrev pub expected_options : List Text
expected_options =
    codes "--rm"
    ∷ codes "--name"
    ∷ codes "--network"
    ∷ codes "--cap-drop"
    ∷ codes "--security-opt"
    ∷ codes "--read-only"
    ∷ codes "--tmpfs"
    ∷ codes "--memory"
    ∷ codes "--cpus"
    ∷ codes "--pids-limit"
    ∷ codes "--user"
    ∷ codes "--env"
    ∷ codes "-v"
    ∷ codes "-w"
    ∷ []

-- Whether every option in front of the image is expected.
abbrev pub has_only_expected : List Text → Bool
has_only_expected [] = true
has_only_expected (o ∷ []) = true
has_only_expected (o ∷ v ∷ rest) = elim (is_switch o) [
  | true ↦ elem o expected_options && has_only_expected (v ∷ rest)
  | false ↦ elim (starts_with o (codes "-")) [
    | true ↦ elem o expected_options && has_only_expected rest
    | false ↦ true
  ]
]

-- The arguments of docker run.
abbrev pub arguments : List Text → List Text
arguments (docker ∷ verb ∷ rest) = rest
arguments _ = []

-- What a container may do: these options, each once, and no other one.
pub record IsSandboxed (c : DockerRunConfig) (host_workspace : Text) (args : List Text)
    : Type 0 where
  pub network : values_of (codes "--network") args ≡ c.network_mode ∷ []
  pub capabilities : values_of (codes "--cap-drop") args ≡ c.cap_drop ∷ []
  pub privileges : values_of (codes "--security-opt") args ≡ codes "no-new-privileges" ∷ []
  pub root_file_system : has_switch (codes "--read-only") args ≡ true
  pub temporary : values_of (codes "--tmpfs") args ≡ c.tmpfs ∷ []
  pub memory_limit : values_of (codes "--memory") args ≡ c.memory ∷ []
  pub processors : values_of (codes "--cpus") args ≡ str_nat c.cpus ∷ []
  pub processes : values_of (codes "--pids-limit") args ≡ str_nat c.pids_limit ∷ []
  pub user_id : values_of (codes "--user") args ≡ c.user ∷ []
  pub volumes : values_of (codes "-v") args ≡ (host_workspace ++ codes ":/work:rw") ∷ []
  pub working_directory : values_of (codes "-w") args ≡ codes "/work" ∷ []
  pub nothing_else : has_only_expected args ≡ true
  pub variables : values_of (codes "--env") args ≡ codes "HOME=/tmp" ∷ []

apart :
    (xs ys zs argv : List Text)
    → ◌≡◌ {A = List Text}
        (codes "docker" ∷ codes "run" ∷ (xs ++ (ys ++ (zs ++ argv))))
        ((codes "docker" ∷ codes "run" ∷ (xs ++ (ys ++ zs))) ++ argv)
apart xs ys zs argv = rw (append_assoc xs (ys ++ zs) argv, append_assoc ys zs argv) refl

-- The run of the hidden tests has the command line of the public run up to the arguments of pytest.
pub for_hidden_tests-build_docker_cmd :
    (c : DockerRunConfig) (host_workspace : Text)
    → (options : List Text) × (build_docker_cmd c host_workspace ≡ options ++ c.pytest_argv)
      × (build_docker_cmd (for_hidden_tests c) host_workspace ≡ options ++ hidden_pytest_argv)
unfolding build_docker_cmd sandbox_options for_hidden_tests with_pytest_argv
for_hidden_tests-build_docker_cmd c host_workspace =
    let last = sandbox_options c host_workspace ++ (c.image ∷ []) in
    let first = (if c.remove_container then codes "--rm" ∷ [] else []) in
    (
      codes "docker" ∷ codes "run" ∷ (first ++ (name_options c.container_name ++ last)),
      apart first (name_options c.container_name) last c.pytest_argv,
      apart first (name_options c.container_name) last hidden_pytest_argv,
    )
