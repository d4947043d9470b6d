-- ===== src/Runtime/Cleanup.antt =====
-- _remove_disposable_test_copy and _docker_wipe_as_uid_1000 of code_agent/runtime/docker_pytest.py.
-- What the disk and docker do is a `Cleaner`, any functions; the redaction of paths is one of them.
pub mod Gone
use safepatch.Base.{
  ℕ, Bool, true, false, not, Option, none, some, List, [], ◌∷◌, ◌++◌, ◌==◌, if◌then◌else◌,
}
use safepatch.Text.{Text, codes, text_eq, strip, splitlines, str_nat}

-- An exit code, where `minus n` is -n.
pub data ExitCode : Type 0 where
  exited minus : ℕ → ExitCode

unfoldable pub is_zero : ExitCode → Bool
is_zero (exited n) = n == 0
is_zero (minus n) = n == 0

-- How subprocess.run with captured output ends: with an exit code, stdout and stderr; by
-- TimeoutExpired; or by another exception, of which the text is kept.
pub data Command : Type 0 where
  ran : ExitCode → Text → Text → Command
  expired : Command
  raises : Text → Command

-- Which of the two directories exist, the parent and its working_copy.
pub record Disposable : Type 0 where
  pub parent_there : Bool
  pub copy_there : Bool

-- The type and the errno of an OSError.
pub record OsError : Type 0 where
  pub type_name : Text
  pub errno : Option ℕ

pub record Cleaner : Type 0 where
  -- shutil.rmtree(parent); whether it returns
  pub remove_parent : Disposable → Disposable × Bool
  -- docker run with the wipe program
  pub wipe : List Text → Disposable → Disposable × Command
  -- docker rm -f; the text of the exception if it raises
  pub remove_container : Text → Option Text
  -- shutil.rmtree(test_copy) and parent.rmdir()
  pub remove_copy : Disposable → Disposable × Option OsError
  pub remove_directory : Disposable → Disposable × Option OsError
  -- _redact_disposable_paths
  pub redact_paths : Text → Text

-- (stderr or stdout or default).strip(), and its first line
unfoldable pub first_line : Text → Text → Text → Text
unfolding strip splitlines
first_line stdout stderr default =
    let chosen =
      (if text_eq stderr [] then (if text_eq stdout [] then default else stdout) else stderr) in
    elim (splitlines (strip chosen)) [ [] ↦ default | l ∷ ls ↦ l ]

-- _format_cleanup_oserror
unfoldable pub errno_part : Option ℕ → Text
unfolding str_nat
errno_part none = []
errno_part (some n) = codes " [Errno " ++ (str_nat n ++ codes "]")

unfoldable pub format_cleanup_oserror : OsError → Text → Text
unfolding errno_part
format_cleanup_oserror e stage =
    e.type_name ++ (codes " during " ++ (stage ++ (codes ":" ++ errno_part e.errno)))

-- The detail, with that of the wipe.
unfoldable pub with_wipe : Text → Option Text → Text
with_wipe detail none = detail
with_wipe detail (some []) = detail
with_wipe detail (some (c ∷ s)) = detail ++ (codes "; docker wipe: " ++ (c ∷ s))

-- cmd of _docker_wipe_as_uid_1000
unfoldable pub wipe_cmd : Text → Text → Text → Text → List Text
wipe_cmd container host image program =
    codes "docker"
    ∷ codes "run"
    ∷ codes "--rm"
    ∷ codes "--name"
    ∷ container
    ∷ codes "--network"
    ∷ codes "none"
    ∷ codes "--cap-drop"
    ∷ codes "ALL"
    ∷ codes "--security-opt"
    ∷ codes "no-new-privileges"
    ∷ codes "--read-only"
    ∷ codes "--tmpfs"
    ∷ codes "/tmp:rw,nosuid,nodev,noexec,size=16m"
    ∷ codes "--user"
    ∷ codes "1000:1000"
    ∷ codes "-v"
    ∷ (host ++ codes ":/cleanup:rw")
    ∷ codes "-w"
    ∷ codes "/cleanup"
    ∷ image
    ∷ codes "python"
    ∷ codes "-c"
    ∷ program
    ∷ []

-- _DOCKER_WIPE_PY
abbrev pub docker_wipe_py : Text
docker_wipe_py =
    codes "import pathlib, shutil\nroot = pathlib.Path('/cleanup')\n"
    ++ (codes "for child in list(root.iterdir()):\n"
        ++ (codes "    if child.is_dir() and not child.is_symlink():\n"
            ++ (codes "        shutil.rmtree(child)\n    else:\n"
                ++ codes "        child.unlink(missing_ok=True)\n")))

-- The variables of a cleanup: the directory, the image and the text of a new UUID.
pub record Site : Type 0 where
  pub parent : Text
  pub image : Text
  pub uuid : Text

unfoldable pub working_copy : Site → Text
working_copy site = site.parent ++ codes "/working_copy"

module _ (cleaner : Cleaner) (site : Site) where
  -- The text of the exception that the end of the wipe raises, if it does.
  unfoldable pub wipe_failure : Command → Option Text
  unfolding is_zero first_line
  wipe_failure (ran code stdout stderr) =
      if is_zero code
      then none
      else some (cleaner.redact_paths (first_line stdout stderr (codes "docker wipe failed")))
  wipe_failure expired = elim (cleaner.remove_container (codes "safepatch-cleanup-" ++ site.uuid)) [
    | none ↦ some (codes "cleanup container timed out")
    | some why ↦ some why
  ]
  wipe_failure (raises why) = some why

  -- _docker_wipe_as_uid_1000
  unfoldable pub docker_wipe_as_uid_1000 : Disposable → Disposable × Option Text
  unfolding wipe_cmd wipe_failure working_copy
  docker_wipe_as_uid_1000 d =
      if not d.copy_there
      then (d, none)
      else let (d', c) =
          cleaner.wipe
            (wipe_cmd (codes "safepatch-cleanup-" ++ site.uuid) (working_copy site) site.image
              docker_wipe_py)
            d in
        (d', wipe_failure c)

  -- wipe_error
  unfoldable pub wipe_step : Disposable → Disposable × Option Text
  unfolding docker_wipe_as_uid_1000
  wipe_step d =
      if not d.copy_there
      then (d, none)
      else let (d', e) = docker_wipe_as_uid_1000 d in
        (d', elim e [ none ↦ none | some why ↦ some (cleaner.redact_paths why) ])

  -- if test_copy.exists(): shutil.rmtree(test_copy), and the same for the parent
  unfoldable pub remove_copy_step : Disposable → Disposable × Option OsError
  remove_copy_step d = if d.copy_there then cleaner.remove_copy d else (d, none)

  unfoldable pub remove_directory_step : Disposable → Disposable × Option OsError
  remove_directory_step d = if d.parent_there then cleaner.remove_directory d else (d, none)

  unfoldable pub remove_step : Disposable → Disposable × Option OsError
  unfolding remove_copy_step remove_directory_step
  remove_step d =
      let (d', e) = remove_copy_step d in
      elim e [ none ↦ remove_directory_step d' | some why ↦ (d', some why) ]

  -- What is returned at the end.
  unfoldable pub report : Option Text → Disposable × Option OsError → Disposable × Option Text
  unfolding format_cleanup_oserror with_wipe
  report wipe_error (d, e) = if not d.parent_there then (d, none) else elim e [
    | some why ↦ (
      d,
      some (
          with_wipe (format_cleanup_oserror why (codes "disposable test-copy removal")) wipe_error),
    )
    | none ↦ (
      d,
      some (with_wipe (codes "path still exists after cleanup: <disposable-test-copy>") wipe_error),
    )
  ]

  unfoldable pub fall_back : Disposable → Disposable × Option Text
  unfolding wipe_step remove_step report
  fall_back d = let (d', wipe_error) = wipe_step d in report wipe_error (remove_step d')

  -- Behind the first rmtree, which has returned or not.
  unfoldable pub after_removal : Disposable × Bool → Disposable × Option Text
  unfolding fall_back
  after_removal (d, false) = fall_back d
  after_removal (d, true) = if not d.parent_there then (d, none) else fall_back d

  -- _remove_disposable_test_copy
  unfoldable pub remove_disposable_test_copy : Disposable → Disposable × Option Text
  unfolding after_removal
  remove_disposable_test_copy d =
      if not d.parent_there then (d, none) else after_removal (cleaner.remove_parent d)
