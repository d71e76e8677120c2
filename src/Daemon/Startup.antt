-- ===== src/Daemon/Startup.antt =====
-- src/daemon.rs, the start of `run` up to its loop: `run`, `write_daemon_json`, `adopt_listener` and
-- `ShellRegistry::new`; `read_env` of src/takeover.rs. What the system answers, and whether the JSON of
-- the manifest is read, are arguments.
pub mod Fresh
pub mod Upgraded
use livesh.Prelude.{
  ℕ, max, Bool, true, false, not, ◌&&◌, Option, none, some, List, [], ◌∷◌, ◌++◌, leb, if◌then◌else◌,
  Bytes, codes, starts_with,
}
use livesh.Prelude.Dict.{remove}
use livesh.Prelude.Result.{Result, ok, err}
use livesh.Protocol.Frame.{Codec}
use livesh.Paths.{RuntimePaths}
use livesh.Paths.PrivateDir.{Stat, Outcome, ensure_runtime_dirs}
use livesh.Config
use livesh.Config.{Config}
use livesh.Terminal.{Vt100}
use livesh.Daemon.Os.{Os}
use livesh.Daemon.Descriptors.{Rlimit, raise_nofile_limit, nofile_target}
use livesh.Daemon.Gc.{Directory, startup_gc}
use livesh.Daemon.Files.{Files, StateMetadata, write_private_file}
use livesh.Daemon.Registry.{Registry, Daemon}
use livesh.Daemon.Upgrade.{Manifest, adopt_shells}

-- The JSON that `write_daemon_json` writes.
pub record DaemonJson : Type 0 where
  pub schema : ℕ
  pub daemon_id : Bytes
  pub pid : ℕ
  pub started_at_ms : ℕ

unfoldable pub write_daemon_json :
    Os
    → (to_string_pretty : DaemonJson → Bytes) → (pid : ℕ) → RuntimePaths
    → Bytes
    → Files
    → Result (Unit {0}) × Files
unfolding write_private_file
write_daemon_json os to_string_pretty pid paths daemon_id files =
    let json : DaemonJson = record {
      schema = 1;
      daemon_id = daemon_id;
      pid = pid;
      started_at_ms = os.now_ms;
    } in
    write_private_file os paths.daemon_json (to_string_pretty json ++ (b'\n' ∷ [])) files

-- What the process finds and what the system answers while it starts; the text of an error is the
-- outermost one.
pub record Answers : Type 0 where
  pub os : Os
  pub pid : ℕ
  pub limit : Rlimit
  pub is_limit_readable : Bool
  pub accepts_limit : Rlimit → Bool
  pub stat : Bytes → Stat
  pub lock : Option Bytes
  -- The variable `LIVESH_TAKEOVER`.
  pub takeover : Option Bytes
  pub config : Result (Option Bytes)
  pub look : Bytes → Directory
  pub stuck : Bytes → Bool
  pub adopts_listener : (fd : ℕ) → Option Bytes
  pub bind : Option Bytes
  pub dup : (fd : ℕ) → Option Bytes
  pub to_string_pretty : DaemonJson → Bytes
  pub manifests : Codec Manifest
  pub json : Codec StateMetadata

pub data Listener : Type 0 where
  adopted : (fd : ℕ) → Listener
  bound : (path : Bytes) → Listener

-- A start that fails: a directory that is refused, with its path, or an error with a text.
pub data Failure : Type 0 where
  refused : Bytes → Outcome → Failure
  failed : (message : Bytes) → Failure

-- What the loop of `run` is entered with.
pub record Started (P : Type 0) : Type 0 where
  pub registry : Registry
  pub listener : Listener
  pub limit : Rlimit
  pub daemon : Daemon P

-- A start's answer, with the files that it leaves.
pub data Start (P : Type 0) : Type 0 where
  stopped : Failure → Files → Start P
  started : Started P → Start P

-- `read_env`; a manifest that is malformed is ignored by `run`.
unfoldable pub read_env : Answers → Option Manifest
read_env a = elim a.takeover [ none ↦ none | some value ↦ a.manifests.deserialize value ]

-- `ShellRegistry::new`: no shell.
abbrev pub new_daemon : {P : Type 0} → Files → Daemon P
new_daemon files = record {
  states = [];
  files = files;
  sent = [];
  signals = [];
  written = [];
  upgrades = [];
  closed = [];
}

-- The listener: that of the old process, or one that is bound anew at the socket's path.
unfoldable pub listen : Answers → Option Manifest → RuntimePaths → Files → Result Listener × Files
unfolding remove
listen a (some m) paths files = elim (a.adopts_listener m.listener_fd) [
  | some e ↦ (err e, files)
  | none ↦ (ok (adopted m.listener_fd), files)
]
listen a none paths files =
    let files' = remove paths.socket files in
    elim a.bind [
      | some e ↦ (err (codes "bind " ++ paths.socket), files')
      | none ↦ (ok (bound paths.socket), files')
    ]

-- The daemon's id: that of the old process, or a new one.
abbrev pub daemon_id : Answers → Option Manifest → Bytes
daemon_id a (some m) = m.daemon_id
daemon_id a none = codes "daemon_" ++ a.os.uuid

module _ {P : Type 0} (vt : Vt100 P) (a : Answers) (paths : RuntimePaths)
    (prefixes : List Bytes) where
  adopt_if_any : Option Manifest → Registry → Daemon P → Daemon P
  adopt_if_any none reg d = d
  adopt_if_any (some m) reg d = adopt_shells vt reg a.os a.dup m.shells d

  -- `run` behind the sweep.
  unfoldable pub start_registry : Option Manifest → Config → Files → Start P
  unfolding adopt_if_any listen write_daemon_json
  start_registry manifest config files =
      let id = daemon_id a manifest in
      let files' = (write_daemon_json a.os a.to_string_pretty a.pid paths id files).1 in
      let reg : Registry = record {
        paths = paths;
        config = config;
        daemon_id = id;
        strip_prefix_env = prefixes;
        json = a.json;
      } in
      let (r, files'') = listen a manifest paths files' in
      elim r [
        | err e ↦ stopped (failed e) files''
        | ok l ↦ started (record {
          registry = reg;
          listener = l;
          limit = raise_nofile_limit a.accepts_limit a.is_limit_readable nofile_target a.limit;
          daemon = adopt_if_any manifest reg (new_daemon files'');
        })
      ]

  -- The sweep, which an upgraded daemon leaves out.
  unfoldable pub sweep : Option Manifest → Config → Files → Result (Unit {0}) × Files
  unfolding startup_gc
  sweep (some m) config files = (ok tt, files)
  sweep none config files =
      if config.cleanup_lost_on_startup
      then startup_gc a.look a.stuck paths files
      else (ok tt, files)

  unfoldable pub start_configured : Option Manifest → Config → Files → Start P
  unfolding sweep start_registry
  start_configured manifest config files =
      let (r, files') = sweep manifest config files in
      elim r [ err e ↦ stopped (failed e) files' | ok u ↦ start_registry manifest config files' ]

  -- `run` up to its loop.
  unfoldable pub start : Files → Start P
  unfolding ensure_runtime_dirs read_env Config.load start_configured
  start files = elim (ensure_runtime_dirs a.stat paths) [
    | some (d, o) ↦ stopped (refused d o) files
    | none ↦ elim a.lock [
      | some e ↦ stopped (failed e) files
      | none ↦ elim (Config.load a.config) [
        | err e ↦ stopped (failed e) files
        | ok config ↦ start_configured (read_env a) config files
      ]
    ]
  ]
