-- ===== src/Launcher/Fallback.antt =====
-- When the launcher falls back to the real shell.
use livesh.Prelude.{◌≡◌, ◌≢◌, Bool, true, false, ◌⊎◌, inr, some, arith}
use livesh.Launcher.{
  Failure, Surroundings, real_shell, failed, after_creation, connect_and_create, run_managed_shell,
}

module _ {S : Type 0} where
  after_creation-real :
      (w : Surroundings S) (json_fd : Bool) (s : S) → after_creation w json_fd false s ≢ real_shell
  unfolding after_creation
  after_creation-real w json_fd s h = ground arith

  -- `livesh upgrade` never ends in the real shell, whatever fails.
  pub run_managed_shell-no_fallback :
      (w : Surroundings S) (has_cwd json_fd : Bool)
      → run_managed_shell w has_cwd json_fd false ≢ real_shell
  unfolding run_managed_shell connect_and_create
  run_managed_shell-no_fallback w has_cwd json_fd h = ground (arith, after_creation-real w json_fd)

  after_creation-failed :
      (w : Surroundings S) (json_fd : Bool) (f : Failure) (s : S)
      → after_creation w json_fd true s ≡ failed f
      → (w.json_written ≡ some f)
        ⊎ (w.current_exe ≡ some f)
        ⊎ (w.exec_real_shell ≡ some f)
        ⊎ (w.bridge ≡ inr f)
  unfolding after_creation
  after_creation-failed w json_fd f s h = ground arith

  -- With the fallback allowed, `run_managed_shell` fails only with an error of the
  -- configuration, of the search for a shell, of the directory, of the state's file, of the search
  -- for its own program, of the bridge, or of the real shell that it falls back to: the errors of a
  -- daemon that cannot be reached or does not create the shell, and of an `exec` of itself that fails,
  -- are never the launcher's.
  pub run_managed_shell-eq-failed :
      (w : Surroundings S) (has_cwd json_fd : Bool) {f : Failure}
      → run_managed_shell w has_cwd json_fd true ≡ failed f
      → (w.config ≡ some f)
        ⊎ (w.shell_path ≡ some f)
        ⊎ (w.cwd ≡ some f)
        ⊎ (w.json_written ≡ some f)
        ⊎ (w.current_exe ≡ some f)
        ⊎ (w.exec_real_shell ≡ some f)
        ⊎ (w.bridge ≡ inr f)
  unfolding run_managed_shell connect_and_create
  run_managed_shell-eq-failed w has_cwd json_fd {f} h =
      ground (arith, after_creation-failed w json_fd f)
