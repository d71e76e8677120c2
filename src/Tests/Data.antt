-- ===== src/Tests/Data.antt =====
-- The parameters and the states that the examples use.
use livesh.Prelude.{ℕ, true, false, none, some, List, [], ◌∷◌, ◌++◌, refl, sym, Bytes, codes}
use livesh.Prelude.Dict.{insert, remove, lookup-insert, lookup-remove}
use livesh.Protocol.{
  ClientHello, livesh_client, running, open_shell, input, kill_idle_detached, list_shells,
}
use livesh.Protocol.Frame.{Codec, RoundTrips}
use livesh.Limits.{Limits}
use livesh.Paths.{RuntimePaths}
use livesh.Config.{Config}
use livesh.Terminal.{Vt100}
use livesh.Daemon.Os.{Os, started}
use livesh.Daemon.Shell.{ShellState, Attach}
use livesh.Daemon.Files.{StateMetadata}
use livesh.Daemon.Env.{CommandBuilder}
use livesh.Daemon.Env.Stripped.{IsLawful}
use livesh.Daemon.Registry.{Registry, Daemon}
use livesh.Daemon.Server.{
  Creation, begin_create, end_create, Server, Event, connect, message, disconnect, read_output,
  child_exited, periodic_gc,
}
use livesh.Bridge.InputFilter.{BridgeInputFilter}
use livesh.Bridge.OutputLoop.{Screen}

-- An emulator that keeps the bytes that it was fed.
abbrev pub test_vt : Vt100 Bytes
test_vt = record {
  new_parser = λ rows cols scrollback. [];
  feed = λ p bytes. p ++ bytes;
  resize_screen = λ p rows cols. p;
  size = λ p. (24, 80);
  contents_formatted = λ p. p;
  input_mode_formatted = λ p. [];
  alternate_screen = λ p. false;
}

-- A command that is its environment.
abbrev pub test_cb : CommandBuilder (List (Bytes × Bytes))
test_cb = record {
  new = λ path. (codes "PATH", codes "/bin") ∷ (codes "CMUX_TAG", codes "x") ∷ [];
  cwd = λ c dir. c;
  env = λ c key value. insert key value c;
  env_remove = λ c key. remove key c;
  full_env = λ c. c;
}

abbrev pub test_cb_laws : IsLawful test_cb
test_cb_laws = record {
  env = λ c key value j. lookup-insert key j value c;
  env_remove = λ c key j. lookup-remove key j c;
  cwd = λ c dir. refl;
}

-- A serialiser of byte strings, as they are.
abbrev pub test_codec : Codec Bytes
test_codec = record { serialize = λ v. some v; deserialize = λ p. some p }

pub test_codec-RoundTrips : RoundTrips test_codec
test_codec-RoundTrips v p h = sym h

abbrev pub test_json : Codec StateMetadata
test_json = record { serialize = λ m. some m.name; deserialize = λ p. none }

abbrev pub test_limits : Limits
test_limits = record {
  max_shells = 2;
  scrollback_lines_per_shell = 10;
  scrollback_bytes_per_shell = 8;
  event_ring_bytes_per_shell = 4;
  snapshot_bytes_per_shell = 100;
  global_runtime_bytes = 1000;
}

abbrev pub test_paths : RuntimePaths
test_paths = record {
  base = codes "/r";
  socket = codes "/r/liveshd.sock";
  lock = codes "/r/liveshd.lock";
  daemon_json = codes "/r/daemon.json";
  states = codes "/r/states";
  snapshots = codes "/r/snapshots";
  scrollback = codes "/r/scrollback";
  events = codes "/r/events";
  tmp = codes "/r/tmp";
  log = codes "/r/liveshd.log";
}

abbrev pub test_config : Config
test_config = record {
  default_name = codes "shell";
  real_shell = [];
  limits = test_limits;
  cleanup_lost_on_startup = true;
  detached_idle_ttl_secs = 0;
  single_attached_client = true;
  open_steals_existing_attach = true;
}

abbrev pub test_reg : Registry
test_reg = record {
  paths = test_paths;
  config = test_config;
  daemon_id = codes "d";
  strip_prefix_env = codes "CMUX_" ∷ [];
  json = test_json;
}

-- A system where every call succeeds.
abbrev pub test_os : Os
test_os = record {
  now_ms = 1000;
  uuid = codes "u2";
  spawn = λ shell_path cwd env rows cols. started 6 (some 42);
  resize_pty = λ fd cols rows. none;
  write_pty = λ fd bytes. none;
  write_file = λ path. none;
  is_alive = λ pid. true;
  is_open = λ tx. true;
  upgrade_is_open = true;
  runtime_size = 0;
  is_listed = λ dir. true;
  is_stuck = λ path. false;
}

abbrev pub test_attach : Attach
test_attach = record { id = codes "att_1"; tx = 7 }

-- A shell with a client.
abbrev pub test_shell : ShellState Bytes
test_shell = record {
  id = codes "sh_1";
  name = codes "api";
  status = running;
  shell_path = codes "/bin/sh";
  cwd = codes "/";
  created_at_ms = 5;
  last_active_at_ms = 5;
  master = some 5;
  pid = some 41;
  terminal = record { parser = [] };
  size = (24, 80);
  scrollback = record { max_bytes = 8; bytes = [] };
  events = record { max_bytes = 4; total_bytes = 0; events = [] };
  attach = some test_attach;
  seq = 0;
}

-- A daemon with that shell.
abbrev pub test_daemon : Daemon Bytes
test_daemon = record {
  states = (codes "sh_1", test_shell) ∷ [];
  files = [];
  sent = [];
  signals = [];
  written = [];
  upgrades = [];
  closed = [];
}

-- A daemon before any client.
abbrev pub test_server : Server Bytes
test_server = record {
  daemon = record {
    states = [];
    files = [];
    sent = [];
    signals = [];
    written = [];
    upgrades = [];
    closed = [];
  };
  clients = [];
  creating = [];
}

abbrev test_hello : ClientHello
test_hello = record { protocol = 3; client_kind = livesh_client }

abbrev test_creation : ℕ → Creation
test_creation tx = record {
  tx = tx;
  name = none;
  cwd = codes "/";
  shell_path = codes "/bin/sh";
  env = [];
  cols = 80;
  rows = 24;
}

-- Two clients create, at the same time, open and steal shells, which write, are swept and end.
abbrev pub test_events : List (Os × Event Bytes)
test_events =
    (test_os, connect 1 test_hello)
    ∷ (test_os, begin_create (test_creation 1))
    ∷ (test_os, begin_create (test_creation 2))
    ∷ (test_os, end_create 0)
    ∷ (record test_os { uuid = codes "u3" }, end_create 0)
    ∷ (test_os, message 1 (open_shell (codes "sh_u2") 80 24 false))
    ∷ (test_os, read_output (codes "sh_u2") (codes "hello"))
    ∷ (test_os, connect 2 test_hello)
    ∷ (test_os, message 2 (open_shell (codes "sh_u2") 80 24 true))
    ∷ (test_os, message 1 (input (codes "att_u2") (codes "ls")))
    ∷ (test_os, message 2 (kill_idle_detached 0))
    ∷ (test_os, disconnect 2)
    ∷ (test_os, periodic_gc)
    ∷ (test_os, message 1 list_shells)
    ∷ (test_os, child_exited (codes "sh_u2") none)
    ∷ []

-- Two chunks of output.
abbrev pub test_output : List (Os × Bytes)
test_output = (test_os, codes "hel") ∷ (test_os, codes "lo") ∷ []

-- A filter in its window.
abbrev pub test_filter : BridgeInputFilter
test_filter = record {
  stale_release_until = some 600;
  pending = [];
  pending_until = none;
  output_pending = [];
}

abbrev pub test_screen : Screen
test_screen = record { filter = test_filter; painted = []; cwd = none }
