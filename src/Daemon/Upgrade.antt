-- ===== src/Daemon/Upgrade.antt =====
-- src/daemon.rs, the hot upgrade: `perform_upgrade` up to the `execv`, and `adopt_shells` in the new
-- process, with `ShellState::adopt`; src/takeover.rs, the manifest between them, which travels as JSON
-- in the environment. The new process finds the files and the open terminals of the old one.
pub mod Adopted
pub mod Saved
pub mod Handed
pub mod Taken
pub mod AllBack
use livesh.Prelude.{
  ℕ, ◌+◌, Bool, true, false, Option, none, some, List, [], ◌∷◌, ◌++◌, ◌==◌, if◌then◌else◌, Bytes,
  codes, trim, parse_bounded,
}
use livesh.Prelude.Dict.{lookup, insert}
use livesh.Prelude.Result.{Result, ok, err}
use livesh.Protocol.{ShellId}
use livesh.Protocol.Frame.{Codec}
use livesh.Limits.{Limits}
use livesh.Limits.BoundedBytes
use livesh.Limits.BoundedBytes.{BoundedBytes}
use livesh.Limits.EventRing
use livesh.Limits.EventRing.{EventRing}
use livesh.Paths
use livesh.Paths.{RuntimePaths}
use livesh.Terminal
use livesh.Terminal.{Vt100, TerminalModel}
use livesh.Daemon.Os.{Os}
use livesh.Daemon.Shell.{ShellState}
use livesh.Daemon.Files.{
  Files, StateMetadata, pid_hint_path, persist_metadata, persist_replay_files, remove_shell_files,
}
use livesh.Daemon.Registry.{Registry, Daemon}

pub record ShellHandoff : Type 0 where
  pub id : ShellId
  pub master_fd : ℕ

pub record Manifest : Type 0 where
  pub schema : ℕ
  pub listener_fd : ℕ
  pub runtime_dir : Bytes
  pub daemon_id : Bytes
  pub shells : List ShellHandoff

-- Dimensions of 0 are those of metadata that is older than they are.
abbrev pub or_default : ℕ → ℕ → ℕ
or_default n default = if n == 0 then default else n

module _ {P : Type 0} (vt : Vt100 P) where
  -- A file that cannot be read leaves its part empty.
  fed : TerminalModel P → Option Bytes → TerminalModel P
  fed t none = t
  fed t (some bytes) = Terminal.process vt t bytes

  read_scrollback : BoundedBytes → Option Bytes → BoundedBytes
  read_scrollback b none = b
  read_scrollback b (some bytes) = BoundedBytes.append b bytes

  read_events : EventRing → Option Bytes → EventRing
  read_events r none = r
  read_events r (some bytes) = EventRing.append r 0 bytes

  -- `ShellState::adopt`, with the contents of the three files.
  unfoldable pub adopt :
      (id : ShellId)
      → StateMetadata
      → (master : ℕ) (pid : Option ℕ) → (snapshot scrollback events : Option Bytes) → Limits
      → ShellState P
  unfolding fed read_scrollback read_events
  adopt id m master pid snapshot scrollback events limits =
      let rows = or_default m.rows 24 in
      let cols = or_default m.cols 80 in
      record {
        id = id;
        name = m.name;
        status = m.status;
        shell_path = m.shell_path;
        cwd = m.cwd;
        created_at_ms = m.created_at_ms;
        last_active_at_ms = m.last_active_at_ms;
        master = some master;
        pid = pid;
        terminal = fed (Terminal.new vt rows cols) snapshot;
        size = (rows, cols);
        scrollback =
            read_scrollback (BoundedBytes.new limits.scrollback_bytes_per_shell) scrollback;
        events = read_events (EventRing.new limits.event_ring_bytes_per_shell) events;
        attach = none;
        seq = 0;
      }

-- `read_pid_hint`, on what `write_pid_hint` writes: decimal digits, no sign.
unfoldable pub read_pid_hint : RuntimePaths → ShellId → Files → Option ℕ
unfolding pid_hint_path lookup trim
read_pid_hint paths id files = elim (lookup (pid_hint_path paths id) files) [
  | none ↦ none
  | some raw ↦ parse_bounded 2147483647 (trim raw)
]

-- `read_metadata`
unfoldable pub read_metadata :
    Codec StateMetadata → RuntimePaths → ShellId → Files → Option StateMetadata
unfolding lookup
read_metadata json paths id files = elim (lookup (Paths.metadata paths id) files) [
  | none ↦ none
  | some bytes ↦ json.deserialize bytes
]

module _ {P : Type 0} (vt : Vt100 P) (reg : Registry) (os : Os) where
  -- The part of `adopt_one` behind the duplication of the terminal for its reader; a failure to write
  -- the metadata again is ignored.
  adopt_read : StateMetadata → ShellHandoff → Daemon P → Daemon P
  unfolding adopt lookup persist_metadata read_pid_hint
  adopt_read m h d =
      let pid = (if m.created_at_ms == 0 then none else read_pid_hint reg.paths h.id d.files) in
      let s =
        adopt vt h.id m h.master_fd pid (lookup (Paths.snapshot reg.paths h.id) d.files)
          (lookup (Paths.scrollback reg.paths h.id) d.files)
          (lookup (Paths.events reg.paths h.id) d.files) reg.config.limits in
      record d {
        states = insert h.id s d.states;
        files = (persist_metadata os reg.json reg.paths reg.daemon_id s d.files).1;
      }

  close_fd : ℕ → Daemon P → Daemon P
  close_fd fd d = record d { closed = d.closed ++ (fd ∷ []) }

  -- The first argument is the answer to the duplication of a terminal; where that fails the terminal,
  -- which `adopt_one` owns by then, is closed.
  unfoldable pub adopt_one :
      (ℕ → Option Bytes) → ShellHandoff → Daemon P → Result (Unit {0}) × Daemon P
  unfolding read_metadata adopt_read close_fd
  adopt_one dup h d = elim (read_metadata reg.json reg.paths h.id d.files) [
    | none ↦ (err (codes "read metadata for " ++ h.id), d)
    | some m ↦ elim (dup h.master_fd) [
      | some e ↦ (err (codes "dup adopted master"), close_fd h.master_fd d)
      | none ↦ (ok tt, adopt_read m h d)
    ]
  ]

  -- A shell that is not adopted is dropped: its terminal is closed and its files are removed.
  or_dropped : Result (Unit {0}) × Daemon P → ShellHandoff → Daemon P
  unfolding remove_shell_files close_fd
  or_dropped (ok u, d) h = d
  or_dropped (err e, d) h =
      close_fd h.master_fd (record d { files = remove_shell_files reg.paths h.id d.files })

  unfoldable pub adopt_shells : (ℕ → Option Bytes) → List ShellHandoff → Daemon P → Daemon P
  unfolding adopt_one or_dropped
  adopt_shells dup [] d = d
  adopt_shells dup (h ∷ hs) d = adopt_shells dup hs (or_dropped (adopt_one dup h d) h)

  -- The first step of `perform_upgrade`: the files of every shell, whatever fails.
  unfoldable pub flush_all : List (ShellState P) → Files → Files
  unfolding persist_metadata persist_replay_files
  flush_all [] files = files
  flush_all (s ∷ ss) files =
      flush_all ss
        (persist_replay_files vt os reg.paths s
          (persist_metadata os reg.json reg.paths reg.daemon_id s files).1).1

  -- `write_pid_hint`, whose failure is ignored; the decimal text of a number is a parameter.
  unfoldable pub write_pid_hint : (ℕ → Bytes) → ShellId → Option ℕ → Files → Files
  unfolding pid_hint_path
  write_pid_hint to_string id none files = files
  write_pid_hint to_string id (some pid) files = elim (os.write_file (pid_hint_path reg.paths id)) [
    | some e ↦ files
    | none ↦ insert (pid_hint_path reg.paths id) (to_string pid) files
  ]

  -- The terminals that are handed over: those that are open and stay open over the `execv`. The
  -- second argument is the answer to clearing the flag of a terminal.
  unfoldable pub handoffs :
      (ℕ → Bytes) → (ℕ → Option Bytes) → List (ShellState P) → Files → List ShellHandoff × Files
  unfolding write_pid_hint
  handoffs to_string clear_cloexec [] files = ([], files)
  handoffs to_string clear_cloexec (s ∷ ss) files = elim s.master [
    | none ↦ handoffs to_string clear_cloexec ss files
    | some fd ↦ elim (clear_cloexec fd) [
      | some e ↦ handoffs to_string clear_cloexec ss files
      | none ↦
          let rest =
            handoffs to_string clear_cloexec ss (write_pid_hint to_string s.id s.pid files) in
          (record { id = s.id; master_fd = fd } ∷ rest.0, rest.1)
    ]
  ]
