-- ===== src/Launcher.antt =====
-- src/bin/livesh.rs, `run_managed_shell`, `open_or_recreate` and `create_shell_with_fd_recovery`, and
-- src/lib.rs, `exit_code_for_error`. In the recovery, what the
-- daemon and the user answer depends on all that was asked before, so both are functions of the
-- history of requests, the latest first.
pub mod Consent
pub mod Fallback
use livesh.Prelude.{
  ℕ, ◌+◌, ◌-◌, ◌*◌, Bool, true, false, not, ◌||◌, ◌&&◌, ◌⊎◌, inl, inr, Option, none, some, List, [],
  ◌∷◌, ◌++◌, if◌then◌else◌, leb, ltb, ◌==◌, Bytes, codes, eq_bytes, map, trim, to_ascii_lowercase,
}
use livesh.Protocol.{
  ErrorCode, usage, not_found, daemon_unavailable, runtime_dir, temporary_failure, fd_limit,
}

-- An error: the daemon's, with its code, or another.
pub data Failure : Type 0 where
  server : ErrorCode → Bytes → Failure
  other : Bytes → Failure

-- `exit_code_for_error`
abbrev exit_code : ErrorCode → ℕ
exit_code usage = 64
exit_code not_found = 66
exit_code daemon_unavailable = 69
exit_code runtime_dir = 73
exit_code temporary_failure = 75
exit_code _ = 70

unfoldable pub exit_code_for_error : Failure → ℕ
exit_code_for_error (server c message) = exit_code c
exit_code_for_error (other message) = 70

abbrev pub is_fd_limit : Failure → Bool
is_fd_limit (server fd_limit message) = true
is_fd_limit _ = false

pub data Request : Type 0 where
  create : Request
  -- The least idle time that is shown, or none for all detached shells.
  prompt : (shown : Option ℕ) → Request
  kill_idle : (older_than_ms : ℕ) → Request

-- The answers, each to a request with the history before it.
pub record Answers (S : Type 0) : Type 0 where
  pub created : List Request → S ⊎ Failure
  -- A line of the standard input, or the error of reading it.
  pub line : List Request → Bytes ⊎ Bytes
  pub killed : List Request → Option Failure

-- What `prompt_yes_no` takes for a yes.
unfoldable pub is_yes : Bytes → Bool
unfolding trim eq_bytes
is_yes line =
    let answer = map to_ascii_lowercase (trim line) in
    eq_bytes answer (codes "y") || eq_bytes answer (codes "yes")

abbrev pub declined : Failure
declined = other (codes "fd limit reached and user declined to kill detached sessions")

-- `FD_LIMIT_TIERS_MS`
abbrev pub fd_limit_tiers_ms : List ℕ
fd_limit_tiers_ms = 3 * 24 * 60 * 60 * 1000 ∷ 24 * 60 * 60 * 1000 ∷ []

module _ {S : Type 0} (ans : Answers S) where
  -- A prompt, and the kill if the user agrees: the failure, and the requests so far.
  pub ask_and_kill : Option ℕ → ℕ → List Request → Option Failure × List Request
  ask_and_kill shown older_than_ms h = elim (ans.line h) [
    | inr e ↦ (some (other e), prompt shown ∷ h)
    | inl line ↦
        if not (is_yes line)
        then (some declined, prompt shown ∷ h)
        else (ans.killed (prompt shown ∷ h), kill_idle older_than_ms ∷ prompt shown ∷ h)
  ]

  -- The tiers that are left, and behind them all detached shells.
  pub recover : List ℕ → List Request → (S ⊎ Failure) × List Request
  unfolding ask_and_kill
  recover [] h =
      let (failed, h') = ask_and_kill none 0 h in
      elim failed [ some f ↦ (inr f, h') | none ↦ (ans.created h', create ∷ h') ]
  recover (t ∷ ts) h =
      let (failed, h') = ask_and_kill (some t) t h in
      let rest = recover ts (create ∷ h') in
      elim failed [
        | some f ↦ (inr f, h')
        | none ↦ elim (ans.created h') [
          | inl s ↦ (inl s, create ∷ h')
          | inr f ↦ if is_fd_limit f then rest else (inr f, create ∷ h')
        ]
      ]

  pub create_shell_with_fd_recovery : (S ⊎ Failure) × List Request
  unfolding recover
  create_shell_with_fd_recovery = elim (ans.created []) [
    | inl s ↦ (inl s, create ∷ [])
    | inr f ↦
        if is_fd_limit f then recover fd_limit_tiers_ms (create ∷ []) else (inr f, create ∷ [])
  ]

-- What the system answers to `run_managed_shell`, a call that it gets to after another.
pub record Surroundings (S : Type 0) : Type 0 where
  pub force_live : Bool
  pub is_tty : Bool
  pub connected : Option Failure
  pub config : Option Failure
  pub shell_path : Option Failure
  pub cwd : Option Failure
  pub created : S ⊎ Failure
  pub json_written : Option Failure
  pub is_reexec : Bool
  pub current_exe : Option Failure
  -- `exec` only comes back with an error.
  pub reexec : Option Failure
  pub bridge : ℕ ⊎ Failure
  -- `exec_real_shell`, if it comes back: no shell is found, or its `exec` fails.
  pub exec_real_shell : Option Failure

-- How the launcher ends: in the real shell, as a new process of itself that opens the shell, with the
-- exit code of the bridge, or with an error.
pub data Ending (S : Type 0) : Type 0 where
  real_shell : Ending S
  reexecuted : S → Ending S
  bridged : S → ℕ → Ending S
  failed : Failure → Ending S

abbrev first_failure : Option Failure → Option Failure → Option Failure
first_failure (some f) rest = some f
first_failure none rest = rest

abbrev is_missing : Failure → Bool
is_missing (server not_found message) = true
is_missing _ = false

module _ {S : Type 0} where
  abbrev pub in_real_shell : Surroundings S → Ending S
  in_real_shell w = elim w.exec_real_shell [ some f ↦ failed f | none ↦ real_shell ]

  abbrev pub fail_or_fallback : Surroundings S → Bool → Failure → Ending S
  fail_or_fallback w allow_fallback f = if not allow_fallback then failed f else in_real_shell w

  bridge_ending : S → ℕ ⊎ Failure → Ending S
  bridge_ending s (inl code) = bridged s code
  bridge_ending s (inr f) = failed f

  -- The part behind the creation; `json_fd` tells whether `--state-json-fd` was given.
  pub after_creation : Surroundings S → Bool → Bool → S → Ending S
  unfolding bridge_ending
  after_creation w json_fd allow_fallback s = elim (if json_fd then w.json_written else none) [
    | some f ↦ failed f
    | none ↦
        if not w.is_reexec
        then elim w.current_exe [
          | some f ↦ failed f
          | none ↦ elim w.reexec [
            | some f ↦ fail_or_fallback w allow_fallback f
            | none ↦ reexecuted s
          ]
        ]
        else bridge_ending s w.bridge
  ]

  pub connect_and_create : Surroundings S → (has_cwd json_fd allow_fallback : Bool) → Ending S
  unfolding after_creation
  connect_and_create w has_cwd json_fd allow_fallback = elim w.connected [
    | some f ↦ fail_or_fallback w allow_fallback f
    | none ↦
        elim (first_failure w.config
          (first_failure w.shell_path (if has_cwd then none else w.cwd))) [
            | some f ↦ failed f
            | none ↦ elim w.created [
              | inr f ↦ fail_or_fallback w allow_fallback f
              | inl s ↦ after_creation w json_fd allow_fallback s
            ]
          ]
  ]

  unfoldable pub run_managed_shell :
      Surroundings S → (has_cwd json_fd allow_fallback : Bool) → Ending S
  unfolding connect_and_create
  run_managed_shell w has_cwd json_fd allow_fallback =
      if allow_fallback && not w.force_live && not w.is_tty
      then in_real_shell w
      else connect_and_create w has_cwd json_fd allow_fallback

  -- `open_or_recreate`: the first answers are those to the connection, the opening and the bridge of
  -- the shell; the others are used if it is gone.
  pub open_or_recreate :
      (connected : Option Failure) (opened : S ⊎ Failure) (bridge : ℕ ⊎ Failure)
      → Surroundings S
      → Ending S
  unfolding bridge_ending run_managed_shell
  open_or_recreate (some f) opened bridge w = failed f
  open_or_recreate none (inl s) bridge w = bridge_ending s bridge
  open_or_recreate none (inr f) bridge w =
      if is_missing f then run_managed_shell w false false true else failed f
