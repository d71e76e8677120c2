-- ===== src/Daemon/Registry.antt =====
-- src/daemon.rs, `ShellRegistry`: the shells by their ids, and what the daemon does with them. The
-- state is the registry's map, the files, and logs of what left the process.
pub mod Opening
pub mod Creating
pub mod Sound
pub mod Listed
pub mod Killing
use livesh.Prelude.{
  ℕ, suc, ◌+◌, ◌-◌, Bool, true, false, not, Option, none, some, List, [], ◌∷◌, ◌++◌, map, length,
  leb, if◌then◌else◌, Bytes, codes,
}
use livesh.Prelude.Dict.{Dict, lookup, insert, remove, values, keys}
use livesh.Prelude.Result.{Result, ok, err}
use livesh.Protocol.{ShellId, AttachId, ShellInfo, ExitCode}
use livesh.Protocol.Ids.{fresh_shell_id}
use livesh.Protocol.Frame.{Codec}
use livesh.Paths.{RuntimePaths}
use livesh.Config.{Config}
use livesh.Terminal.{Vt100}
use livesh.Daemon.Os.{Os, Spawned, failed, started}
use livesh.Daemon.Shell
use livesh.Daemon.Shell.{ShellState, Sent, Attach}
use livesh.Daemon.Files.{
  Files, StateMetadata, persist_metadata, persist_replay_files, remove_shell_files, pid_hint_path,
}
use livesh.Daemon.Listing.{sort_by_created}
use livesh.Daemon.Env.{CommandBuilder, child_command}

-- What does not change while the daemon runs.
pub record Registry : Type 0 where
  pub paths : RuntimePaths
  pub config : Config
  pub daemon_id : Bytes
  pub strip_prefix_env : List Bytes
  pub json : Codec StateMetadata

-- What changes: the map `states`, the files, and in logs, the latest last, the messages sent, the
-- processes that got SIGTERM, the bytes written to a terminal, the upgrades asked for and the
-- terminals closed.
pub record Daemon (P : Type 0) : Type 0 where
  pub states : Dict (ShellState P)
  pub files : Files
  pub sent : List Sent
  pub signals : List ℕ
  pub written : List (ℕ × Bytes)
  pub upgrades : List (Option Bytes)
  pub closed : List ℕ

abbrev pub too_many : Bytes
too_many = codes "too many live shells; use liveshctl list and liveshctl kill"

abbrev pub shell_not_found : ShellId → Bytes
shell_not_found id = codes "shell state not found: " ++ id

abbrev pub attach_not_found : AttachId → Bytes
attach_not_found id = codes "attach not found: " ++ id

-- A write to the terminal of a shell, for the log.
abbrev pub addressed : Option ℕ → Bytes → List (ℕ × Bytes)
addressed none bytes = []
addressed (some fd) bytes = (fd, bytes) ∷ []

abbrev pub to_list : Option ℕ → List ℕ
to_list none = []
to_list (some fd) = fd ∷ []

module _ {P : Type 0} where
  abbrev pub send_all : List Sent → Daemon P → Daemon P
  send_all msgs d = record d { sent = d.sent ++ msgs }

  abbrev pub put_shell : ShellId → ShellState P → Daemon P → Daemon P
  put_shell id s d = record d { states = insert id s d.states }

  abbrev pub find_attach : AttachId → Dict (ShellState P) → Option (ShellId × ShellState P)
  find_attach attach_id [] = none
  find_attach attach_id ((id, s) ∷ m) =
      let rest = find_attach attach_id m in
      if Shell.has_attach s attach_id then some (id, s) else rest

  -- `state_for_attach`, with the key beside the shell.
  unfoldable pub state_for_attach : Daemon P → AttachId → Option (ShellId × ShellState P)
  state_for_attach d attach_id = find_attach attach_id d.states

  detach_found : Option (ShellId × ShellState P) → AttachId → Daemon P → Daemon P
  detach_found none attach_id d = d
  detach_found (some (id, s)) attach_id d = put_shell id (Shell.detach s attach_id) d

  unfoldable pub detach : Daemon P → AttachId → Daemon P
  unfolding detach_found
  detach d attach_id = detach_found (state_for_attach d attach_id) attach_id d

  cleanup_found : Registry → Option (ShellState P) → ShellId → Option ExitCode → Daemon P → Daemon P
  cleanup_found reg none id exit_code d = d
  cleanup_found reg (some s) id exit_code d =
      let (s', msgs) = Shell.mark_exited s exit_code in
      record d {
        states = remove id d.states;
        files = remove (pid_hint_path reg.paths id) (remove_shell_files reg.paths id d.files);
        sent = d.sent ++ msgs;
        closed = d.closed ++ to_list s'.master;
      }

  -- The shell leaves the map; `close_handles` closes its terminal, which the log `closed` records.
  unfoldable pub cleanup_shell : Registry → Daemon P → ShellId → Option ExitCode → Daemon P
  unfolding cleanup_found
  cleanup_shell reg d id exit_code = cleanup_found reg (lookup id d.states) id exit_code d

  -- `kill(pid, SIGTERM)`, if the shell has a process.
  abbrev pub terminate : Option ℕ → Daemon P → Daemon P
  terminate none d = d
  terminate (some pid) d = record d { signals = d.signals ++ (pid ∷ []) }

  kill_found : Registry → Option (ShellState P) → ShellId → Daemon P → Result (Unit {0}) × Daemon P
  unfolding cleanup_shell
  kill_found reg none id d = (err (shell_not_found id), d)
  kill_found reg (some s) id d = (ok tt, cleanup_shell reg (terminate s.pid d) id none)

  unfoldable pub kill_shell : Registry → Daemon P → ShellId → Result (Unit {0}) × Daemon P
  unfolding kill_found
  kill_shell reg d id = kill_found reg (lookup id d.states) id d

  rename_found :
      Registry
      → Os
      → Option (ShellState P)
      → ShellId
      → Bytes
      → Daemon P
      → Result (Unit {0}) × Daemon P
  rename_found reg os none id name d = (err (shell_not_found id), d)
  rename_found reg os (some s) id name d =
      let s' = record s { name = name } in
      let (r, files) = persist_metadata os reg.json reg.paths reg.daemon_id s' d.files in
      (r, record d { states = insert id s' d.states; files = files })

  unfoldable pub rename : Registry → Os → Daemon P → ShellId → Bytes → Result (Unit {0}) × Daemon P
  unfolding rename_found
  rename reg os d id name = rename_found reg os (lookup id d.states) id name d

  write_found :
      Os
      → Option (ShellId × ShellState P)
      → AttachId
      → Bytes
      → Daemon P
      → Result (Unit {0}) × Daemon P
  write_found os none attach_id bytes d = (err (attach_not_found attach_id), d)
  write_found os (some (id, s)) attach_id bytes d = elim (Shell.write_input os s bytes) [
    | err e ↦ (err e, d)
    | ok u ↦ (ok tt, record d { written = d.written ++ addressed s.master bytes })
  ]

  unfoldable pub write_input : Os → Daemon P → AttachId → Bytes → Result (Unit {0}) × Daemon P
  unfolding write_found
  write_input os d attach_id bytes = write_found os (state_for_attach d attach_id) attach_id bytes d

  unfoldable pub list : Daemon P → List ShellInfo
  list d = sort_by_created (map Shell.info (values d.states))

  unfoldable pub request_upgrade : Os → Daemon P → Option Bytes → Result (Unit {0}) × Daemon P
  request_upgrade os d binary =
      if os.upgrade_is_open
      then (ok tt, record d { upgrades = d.upgrades ++ (binary ∷ []) })
      else (err (codes "upgrade channel closed"), d)

module _ {P : Type 0} (vt : Vt100 P) (reg : Registry) (os : Os) where
  open_found :
      Option (ShellState P)
      → ShellId
      → (cols rows : ℕ) (steal : Bool) (tx : ℕ) → Daemon P
      → Result AttachId × Daemon P
  open_found none id cols rows steal tx d = (err (shell_not_found id), d)
  open_found (some s) id cols rows steal tx d =
      let (r, s', msgs) = Shell.attach vt os s cols rows steal tx in
      (r, send_all msgs (put_shell id s' d))

  unfoldable pub open_shell :
      Daemon P → ShellId → (cols rows : ℕ) (steal : Bool) (tx : ℕ) → Result AttachId × Daemon P
  unfolding open_found
  open_shell d id cols rows steal tx = open_found (lookup id d.states) id cols rows steal tx d

  resize_found :
      Option (ShellId × ShellState P)
      → AttachId
      → (cols rows : ℕ) → Daemon P
      → Result (Unit {0}) × Daemon P
  resize_found none attach_id cols rows d = (err (attach_not_found attach_id), d)
  resize_found (some (id, s)) attach_id cols rows d =
      let (r, s') = Shell.resize vt os s cols rows in (r, put_shell id s' d)

  unfoldable pub resize : Daemon P → AttachId → (cols rows : ℕ) → Result (Unit {0}) × Daemon P
  unfolding resize_found
  resize d attach_id cols rows = resize_found (state_for_attach d attach_id) attach_id cols rows d

  abbrev pub restore_argv : ShellId → List Bytes
  restore_argv id = codes "livesh" ∷ codes "--open" ∷ id ∷ []

  abbrev pub named : Option Bytes → Bytes
  named none = reg.config.default_name
  named (some name) = name

  -- The shell is in the map before its metadata is written: a failure of the write comes back as an
  -- error, with the shell left in the map.
  register : ShellState P → Daemon P → Result (ShellId × Bytes × List Bytes) × Daemon P
  register s d =
      let (r, files) = persist_metadata os reg.json reg.paths reg.daemon_id s d.files in
      let d' = record d { states = insert s.id s d.states; files = files } in
      elim r [ err e ↦ (err e, d') | ok u ↦ (ok (s.id, s.name, restore_argv s.id), d') ]

  with_child :
      Spawned
      → ShellId
      → (name cwd shell_path : Bytes) (cols rows : ℕ) → Daemon P
      → Result (ShellId × Bytes × List Bytes) × Daemon P
  unfolding register
  with_child (failed message) id name cwd shell_path cols rows d = (err message, d)
  with_child (started fd pid) id name cwd shell_path cols rows d =
      register (Shell.new vt os id name cwd shell_path fd pid cols rows reg.config.limits) d

  -- `create_shell` behind its test; the lock of the map is free in between.
  unfoldable pub make_shell :
      {C : Type 0}
      → CommandBuilder C
      → Daemon P
      → (name : Option Bytes) (cwd shell_path : Bytes)
      → (env : List (Bytes × Bytes)) (cols rows : ℕ)
      → Result (ShellId × Bytes × List Bytes) × Daemon P
  unfolding with_child
  make_shell cb d name cwd shell_path env cols rows =
      let id = fresh_shell_id os.uuid in
      let cmd = child_command cb reg.strip_prefix_env shell_path cwd env id in
      with_child (os.spawn shell_path cwd (cb.full_env cmd) rows cols) id (named name) cwd
        shell_path cols rows d

  -- As many shells as are allowed.
  abbrev pub is_full : Daemon P → Bool
  is_full d = leb reg.config.limits.max_shells (length d.states)

  -- `create_shell`, with nothing between the test and the rest.
  unfoldable pub create_shell :
      {C : Type 0}
      → CommandBuilder C
      → Daemon P
      → (name : Option Bytes) (cwd shell_path : Bytes)
      → (env : List (Bytes × Bytes)) (cols rows : ℕ)
      → Result (ShellId × Bytes × List Bytes) × Daemon P
  unfolding make_shell
  create_shell cb d name cwd shell_path env cols rows =
      if is_full d then (err too_many, d) else make_shell cb d name cwd shell_path env cols rows
