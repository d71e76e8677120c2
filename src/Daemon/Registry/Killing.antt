-- ===== src/Daemon/Registry/Killing.antt =====
-- `kill_shell`: what is left behind it.
use livesh.Prelude.{
  ℕ, ◌≡◌, refl, ap, ◌∙◌, Bool, Option, none, some, [], ◌∷◌, ◌++◌, arith, eq_bytes, eq_bytes_refl,
  if◌then◌else◌,
}
use livesh.Prelude.Dict.{lookup}
use livesh.Prelude.Result.{ok, err}
use livesh.Protocol.{ShellId}
use livesh.Terminal.{Vt100}
use livesh.Daemon.Os.{Os}
use livesh.Daemon.Shell.{ShellState}
use livesh.Daemon.Registry.{
  Registry, Daemon, shell_not_found, cleanup_shell, terminate, kill_shell, open_shell,
}
use livesh.Daemon.Upkeep.Idle.{lookup-cleanup_shell}

module _ {P : Type 0} where
  pub states-terminate : (pid : Option ℕ) (d : Daemon P) → (terminate pid d).states ≡ d.states
  states-terminate none d = refl
  states-terminate (some pid) d = refl

  pub lookup-kill_shell :
      (reg : Registry) (d : Daemon P) (id : ShellId) {s : ShellState P} (j : ShellId)
      → lookup id d.states ≡ some s
      → lookup j (kill_shell reg d id).1.states
        ≡ (if eq_bytes id j then none else lookup j d.states)
  unfolding kill_shell
  lookup-kill_shell reg d id {s} j found =
      rw (kill_shell, found)
        (lookup-cleanup_shell reg (terminate s.pid d) id j none
          ∙ ap (λ m. if eq_bytes id j then none else lookup j m) (states-terminate s.pid d))

  signals-cleanup_shell :
      (reg : Registry) (d : Daemon P) (id : ShellId)
      → (cleanup_shell reg d id none).signals ≡ d.signals
  unfolding cleanup_shell
  signals-cleanup_shell reg d id = ground arith

  open_shell_absent :
      (vt : Vt100 P) (reg : Registry) (os : Os) (d : Daemon P) (id : ShellId) (cols rows : ℕ)
      → (steal : Bool) (tx : ℕ) → lookup id d.states ≡ none
      → open_shell vt reg os d id cols rows steal tx ≡ (err (shell_not_found id), d)
  unfolding open_shell
  open_shell_absent vt reg os d id cols rows steal tx h = rw (open_shell, h) refl

  -- To kill a shell that is there succeeds: its process gets the only new SIGTERM, every other shell
  -- is as it was, and whoever opens the id then is told that it was not found.
  pub open_shell-kill_shell :
      (vt : Vt100 P) (reg : Registry) (os : Os) (d : Daemon P) (id : ShellId) (s : ShellState P)
      → (pid : ℕ) → lookup id d.states ≡ some s
      → s.pid ≡ some pid
      → (j : ShellId) (cols rows : ℕ) (steal : Bool) (tx : ℕ)
      → let killed = kill_shell reg d id in
        (killed.0 ≡ ok tt)
        × (killed.1.signals ≡ d.signals ++ (pid ∷ []))
        × (lookup j killed.1.states ≡ (if eq_bytes id j then none else lookup j d.states))
        × (open_shell vt reg os killed.1 id cols rows steal tx
            ≡ (err (shell_not_found id), killed.1))
  unfolding kill_shell
  open_shell-kill_shell vt reg os d id s pid found its_pid j cols rows steal tx =
      let killed = kill_shell reg d id in
      let gone : lookup id killed.1.states ≡ none =
        lookup-kill_shell reg d id {s = s} id found ∙ rw (eq_bytes_refl id) refl in
      (
        rw (kill_shell, found) refl,
        rw (kill_shell, found) (signals-cleanup_shell reg (terminate s.pid d) id ∙ rw its_pid refl),
        lookup-kill_shell reg d id {s = s} j found,
        open_shell_absent vt reg os killed.1 id cols rows steal tx gone,
      )
