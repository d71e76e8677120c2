-- ===== src/Tests/Starts.antt =====
-- The theorem on the start of the daemon at a concrete run.
use livesh.Prelude.{ℕ, true, false, none, some, [], ◌∷◌, ◌++◌, Bytes, codes}
use livesh.Prelude.Result.{ok}
use livesh.Paths.PrivateDir.{directory}
use livesh.Daemon.Gc.{readable}
use livesh.Daemon.Descriptors.{nofile_target}
use livesh.Daemon.Startup.{Answers, Started, bound, new_daemon}
use livesh.Daemon.Files.{Files}
use livesh.Config.{default_config}
use livesh.Tests.Data.{test_os, test_paths, test_json}

-- A system that answers every call, with a variable that holds no manifest and no configuration file.
abbrev test_answers : Answers
test_answers = record {
  os = test_os;
  pid = 9;
  limit = record { cur = 256; max = 4096 };
  is_limit_readable = true;
  accepts_limit = λ limit. true;
  stat = λ path. directory 0o700;
  lock = none;
  takeover = some (codes "{}");
  config = ok none;
  look = λ dir. readable;
  stuck = λ path. false;
  adopts_listener = λ fd. none;
  bind = none;
  dup = λ fd. none;
  to_string_pretty = λ json. json.daemon_id;
  manifests = record { serialize = λ m. none; deserialize = λ p. none };
  json = test_json;
}

abbrev old_files : Files
old_files =
    (codes "/r/states/sh_1.json", codes "{}") ∷ (codes "/r/liveshd.log", codes "started") ∷ []

abbrev test_started : Started Bytes
test_started = record {
  registry = record {
    paths = test_paths;
    config = default_config;
    daemon_id = codes "daemon_u2";
    strip_prefix_env = [];
    json = test_json;
  };
  listener = bound (codes "/r/liveshd.sock");
  limit = record { cur = nofile_target; max = nofile_target };
  daemon = new_daemon (
      (codes "/r/liveshd.log", codes "started")
      ∷ (codes "/r/daemon.json", codes "daemon_u2" ++ (b'\n' ∷ []))
      ∷ []);
}
