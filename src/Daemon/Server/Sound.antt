-- ===== src/Daemon/Server/Sound.antt =====
-- Each message and each event of a thread keeps the registry's invariant.
use livesh.Prelude.{
  ℕ, ◌≤◌, ◌≡◌, refl, Option, some, List, [], ◌∷◌, arith, Bytes, Option-cases, inl, inr,
}
use livesh.Prelude.Dict.{Dict, lookup, insert}
use livesh.Prelude.Result.{Result, ok, err}
use livesh.Protocol.{
  ShellId, AttachId, ClientMsg, ping, create_shell, open_shell, input, resize, detach, list_shells,
  rename_shell, kill_shell, run_gc, kill_idle_detached, upgrade_daemon,
}
use livesh.Limits.{Limits}
use livesh.Terminal.{Vt100}
use livesh.Daemon.Os.{Os}
use livesh.Daemon.Shell
use livesh.Daemon.Shell.{ShellState}
use livesh.Daemon.Shell.Live.{
  IsLive, record_chunk-IsLive, send_chunk-IsLive, record_output-IsLive, poll_cwd-IsLive,
}
use livesh.Daemon.Env.{CommandBuilder}
use livesh.Daemon.Registry
use livesh.Daemon.Registry.{Registry, Daemon}
use livesh.Daemon.Registry.Sound.{
  IsSound, replace-IsSound, IsLive-lookup, kill_shell-IsSound, detach-IsSound, rename-IsSound,
  write_input-IsSound, open_shell-IsSound, resize-IsSound,
}
use livesh.Daemon.Registry.Creating.{create_shell-IsSound}
use livesh.Daemon.Upkeep.Sound.{kill_idle_detached-IsSound, run_gc-IsSound}
use livesh.Daemon.Server.{
  recorded_of, sent_of, handle_msg, detach_all, output_of, cwd_of, answer, answer_error,
  answer_open, answer_created, answer_internal,
}

module _ {P : Type 0} where
  answer_error_states :
      (tx : ℕ) (r : Result (Unit {0}) × Daemon P) → (answer_error tx r).states ≡ r.1.states
  answer_error_states tx (ok u, d) = refl
  answer_error_states tx (err e, d) = refl

  answer_states : (tx : ℕ) (r : Result (Unit {0}) × Daemon P) → (answer tx r).states ≡ r.1.states
  answer_states tx (ok u, d) = refl
  answer_states tx (err e, d) = refl

  answer_internal_states :
      (tx : ℕ) (r : Result (Unit {0}) × Daemon P) → (answer_internal tx r).states ≡ r.1.states
  answer_internal_states tx (ok u, d) = refl
  answer_internal_states tx (err e, d) = refl

  pub answer_created_states :
      (tx : ℕ) (r : Result (ShellId × Bytes × List Bytes) × Daemon P)
      → (answer_created tx r).states ≡ r.1.states
  answer_created_states tx (ok (id, name, argv), d) = refl
  answer_created_states tx (err e, d) = refl

  answer_open_states :
      (tx : ℕ) (r : Result AttachId × Daemon P) → (answer_open tx r).1.states ≡ r.1.states
  answer_open_states tx (ok attach_id, d) = refl
  answer_open_states tx (err e, d) = refl

  pub detach_all-IsSound :
      {limits : Limits} {n : ℕ} (ids : List AttachId) (d : Daemon P)
      → IsSound limits n d.states
      → IsSound limits n (detach_all ids d).states
  unfolding detach_all
  detach_all-IsSound [] d v = v
  detach_all-IsSound (id ∷ ids) d v = detach_all-IsSound ids _ (detach-IsSound d id v)

module _ {P C : Type 0} (vt : Vt100 P) (cb : CommandBuilder C) (reg : Registry) (os : Os) where
  abbrev pub SoundAt : ℕ → Dict (ShellState P) → Type 0
  SoundAt n m = IsSound reg.config.limits n m

  pub handle_msg-IsSound :
      {n : ℕ} (d : Daemon P) (tx : ℕ) (msg : ClientMsg)
      → reg.config.limits.max_shells ≤ n
      → SoundAt n d.states
      → SoundAt n (handle_msg vt cb reg os d tx msg).1.states
  unfolding handle_msg Registry.request_upgrade
  handle_msg-IsSound d tx ping l v = v
  handle_msg-IsSound d tx (create_shell name cwd shell_path env cols rows) l v =
      rw (answer_created_states tx _)
        (create_shell-IsSound vt reg os cb d name cwd shell_path env cols rows l v)
  handle_msg-IsSound d tx (open_shell id cols rows steal) l v =
      rw (answer_open_states tx _) (open_shell-IsSound vt reg os d id cols rows steal tx v)
  handle_msg-IsSound d tx (input attach_id bytes) l v =
      rw (answer_error_states tx _) (write_input-IsSound os d attach_id bytes v)
  handle_msg-IsSound d tx (resize attach_id cols rows) l v =
      rw (answer_error_states tx _) (resize-IsSound vt reg os d attach_id cols rows v)
  handle_msg-IsSound d tx (detach attach_id) l v = detach-IsSound d attach_id v
  handle_msg-IsSound d tx list_shells l v = v
  handle_msg-IsSound d tx (rename_shell id name) l v =
      rw (answer_states tx _) (rename-IsSound reg os d id name v)
  handle_msg-IsSound d tx (kill_shell id) l v =
      rw (answer_states tx _) (kill_shell-IsSound reg d id v)
  handle_msg-IsSound d tx run_gc l v = run_gc-IsSound vt reg os d v
  handle_msg-IsSound d tx (kill_idle_detached older_than_ms) l v =
      kill_idle_detached-IsSound reg os d.states d older_than_ms v
  handle_msg-IsSound d tx (upgrade_daemon binary) l v =
      rw (answer_internal_states tx _) (ground (arith, v))

  -- A shell of the map is replaced by one that is live.
  put_IsSound :
      {n : ℕ} (id : ShellId) (s' : ShellState P) {s : ShellState P} (m : Dict (ShellState P))
      → lookup id m ≡ some s
      → (IsLive reg.config.limits id s → IsLive reg.config.limits id s')
      → SoundAt n m
      → SoundAt n (insert id s' m)
  put_IsSound id s' {s} m e keeps v =
      replace-IsSound id s' {s = s} m e (keeps (IsLive-lookup id {s = s} m v e)) v

  pub output_of-IsSound :
      {n : ℕ} (id : ShellId) (bytes : Bytes) (d : Daemon P)
      → SoundAt n d.states
      → SoundAt n (output_of vt cb reg os (lookup id d.states) id bytes d).states
  unfolding output_of
  output_of-IsSound id bytes d v = elim (Option-cases (lookup id d.states)) [
    | inl e ↦ rw e v
    | inr (s, e) ↦ rw e (
        put_IsSound id (Shell.record_output vt os s bytes).0 d.states e
          (record_output-IsLive vt os reg.config.limits bytes) v)
  ]

  pub recorded_of-IsSound :
      {n : ℕ} (id : ShellId) (bytes : Bytes) (d : Daemon P)
      → SoundAt n d.states
      → SoundAt n (recorded_of vt cb reg os (lookup id d.states) id bytes d).states
  unfolding recorded_of
  recorded_of-IsSound id bytes d v = elim (Option-cases (lookup id d.states)) [
    | inl e ↦ rw e v
    | inr (s, e) ↦ rw e (
        put_IsSound id (Shell.record_chunk vt os s bytes) d.states e
          (record_chunk-IsLive vt os reg.config.limits bytes) v)
  ]

  pub sent_of-IsSound :
      {n : ℕ} (id : ShellId) (seq : ℕ) (bytes : Bytes) (d : Daemon P)
      → SoundAt n d.states
      → SoundAt n (sent_of vt cb reg os (lookup id d.states) id seq bytes d).states
  unfolding sent_of
  sent_of-IsSound id seq bytes d v = elim (Option-cases (lookup id d.states)) [
    | inl e ↦ rw e v
    | inr (s, e) ↦ rw e (
        put_IsSound id (Shell.send_chunk vt os s seq bytes).0 d.states e
          (send_chunk-IsLive vt os reg.config.limits seq bytes) v)
  ]

  pub cwd_of-IsSound :
      {n : ℕ} (id : ShellId) (found : Option Bytes) (d : Daemon P)
      → SoundAt n d.states
      → SoundAt n (cwd_of vt cb reg os (lookup id d.states) id found d).states
  unfolding cwd_of
  cwd_of-IsSound id found d v = elim (Option-cases (lookup id d.states)) [
    | inl e ↦ rw e v
    | inr (s, e) ↦
        rw e (put_IsSound id (Shell.poll_cwd s found).0 d.states e (poll_cwd-IsLive found) v)
  ]
