-- ===== src/Tests/Upgrades.antt =====
-- The theorems on the hot upgrade and its files at a concrete registry.
use livesh.Prelude.{◌≡◌, refl, true, false, none, some, List, [], ◌∷◌, arith, Bytes, codes}
use livesh.Prelude.Dict.{lookup}
use livesh.Prelude.Result.{ok}
use livesh.Protocol.Frame.{Codec}
use livesh.Config.{Config, default_config}
use livesh.Paths.{below_base}
use livesh.Paths.PrivateDir.{directory}
use livesh.Daemon.Files.{Files, StateMetadata, to_metadata}
use livesh.Daemon.Files.Apart.{metadata, file-injective}
use livesh.Daemon.Upgrade.{Manifest, ShellHandoff, adopt_shells}
use livesh.Daemon.Upgrade.Adopted.{readopted}
use livesh.Daemon.Upgrade.Saved.{registry}
use livesh.Daemon.Gc.{readable}
use livesh.Daemon.Descriptors.{nofile_target}
use livesh.Daemon.Startup.{Answers, Started, adopted, new_daemon, daemon_id, write_daemon_json}
use livesh.Daemon.Startup.Upgraded.{start-AllBack, handed_over}
use livesh.Tests.Data.{test_vt, test_os, test_config, test_shell, test_daemon}

-- The metadata of one shell, as JSON that stands for it.
abbrev print_shell : StateMetadata → Bytes
print_shell m = codes "{}"

abbrev shell_json : Codec StateMetadata
shell_json = record {
  serialize = λ m. some (print_shell m);
  deserialize = λ p. some (to_metadata (codes "d") test_shell);
}

abbrev test_manifest : Manifest
test_manifest = record {
  schema = 1;
  listener_fd = 3;
  runtime_dir = codes "/r";
  daemon_id = codes "d";
  shells = record { id = codes "sh_1"; master_fd = 5 } ∷ [];
}

-- A system where every call succeeds, for a process that is started with that manifest.
abbrev upgraded_answers : Answers
upgraded_answers = record {
  os = test_os;
  pid = 9;
  limit = record { cur = 256; max = 4096 };
  is_limit_readable = true;
  accepts_limit = λ limit. true;
  stat = λ path. directory 0o700;
  lock = none;
  takeover = some (codes "{}");
  config = ok none;
  look = λ dir. readable;
  stuck = λ path. false;
  adopts_listener = λ fd. none;
  bind = none;
  dup = λ fd. none;
  to_string_pretty = λ json. json.daemon_id;
  manifests = record { serialize = λ m. none; deserialize = λ p. some test_manifest };
  json = shell_json;
}

abbrev left : List ShellHandoff × Files
left =
    handed_over test_vt upgraded_answers (codes "/r") [] test_config [] test_os (λ n. codes "41")
      (λ fd. none) test_daemon.states [] test_manifest

abbrev upgraded_config : Config
upgraded_config = default_config

abbrev upgraded : Started Bytes
upgraded = record {
  registry = registry (codes "/r") upgraded_config (codes "d") [] shell_json;
  listener = adopted 3;
  limit = record { cur = nofile_target; max = nofile_target };
  daemon =
      adopt_shells test_vt (registry (codes "/r") upgraded_config (codes "d") [] shell_json) test_os
        (λ fd. none) test_manifest.shells
        (new_daemon
          (write_daemon_json test_os (λ json. json.daemon_id) 9 (below_base (codes "/r"))
            (codes "d") left.1).1);
}

start-AllBack_example :
    (upgraded.listener ≡ adopted 3)
    × (lookup (codes "sh_1") upgraded.daemon.states
        ≡ some (readopted test_vt upgraded_config.limits (codes "d") test_shell 5))
unfolding livesh.Daemon.Startup.start livesh.Paths.PrivateDir.ensure_private_dir
    livesh.Daemon.Descriptors.raise_nofile_limit livesh.Daemon.Upgrade.handoffs lookup
start-AllBack_example =
    start-AllBack test_vt upgraded_answers (codes "/r") [] test_config [] print_shell test_os
      (λ n. codes "41") (λ fd. none) test_daemon.states [] test_manifest {new = upgraded}
      (codes "sh_1") {s = test_shell} {max = 2} {fd = 5} {pid = 41} refl refl refl (λ path. refl)
      (λ path. refl) (λ m. refl)
      (record {
        counted = omega arith;
        distinct = (refl, tt);
        live = (
          record {
            same_id = refl;
            is_running = refl;
            is_open = (5, refl);
            bounded = record {
              scrollback = omega arith;
              scrollback_max = refl;
              events = record { counted = refl; bounded = omega arith };
              events_max = refl;
            };
          },
          tt,
        );
      })
      (((ground arith, ground arith, ground arith, ground arith), omega arith), tt) refl refl refl
      refl refl refl refl (omega arith)

file-injective_example : (metadata ≡ metadata) × (codes "sh_1" ≡ codes "sh_1")
unfolding livesh.Protocol.Ids.new
file-injective_example =
    file-injective (codes "/r") metadata metadata (codes "sh_1") (codes "sh_1") {id = codes "sh_1"}
      {j = codes "sh_1"} refl refl refl
