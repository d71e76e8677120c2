-- ===== src/Daemon/Startup/Fresh.antt =====
-- A daemon that starts without a manifest: what is left of an earlier daemon.
use livesh.Prelude.{◌≡◌, false, ◌&&◌, none, [], ◌∷◌, ◌++◌, arith, Bytes, eq_bytes, if◌then◌else◌}
use livesh.Prelude.Dict.{lookup, lookup-insert, lookup-remove}
use livesh.Prelude.Result.{ok}
use livesh.Paths.{RuntimePaths}
use livesh.Config
use livesh.Config.{Config}
use livesh.Daemon.Files.{Files, write_private_file}
use livesh.Daemon.Gc.Swept.{is_swept, shell_dirs}
use livesh.Daemon.Startup.{
  write_daemon_json, Answers, Started, daemon_id, bound, listen, DaemonJson,
}

pub lookup-write_daemon_json :
    (a : Answers) (paths : RuntimePaths) (id path : Bytes) (files : Files)
    → eq_bytes paths.daemon_json path ≡ false
    → lookup path (write_daemon_json a.os a.to_string_pretty a.pid paths id files).1
      ≡ lookup path files
unfolding write_daemon_json write_private_file
lookup-write_daemon_json a paths id path files h =
    let json : DaemonJson = record {
      schema = 1;
      daemon_id = id;
      pid = a.pid;
      started_at_ms = a.os.now_ms;
    } in
    ground (
      arith,
      h,
      lookup-insert paths.daemon_json path (a.to_string_pretty json ++ (b'\n' ∷ [])) files,
    )

lookup-listen :
    (a : Answers) (paths : RuntimePaths) (path : Bytes) (files : Files)
    → eq_bytes paths.socket path ≡ false
    → lookup path (listen a none paths files).1 ≡ lookup path files
unfolding listen
lookup-listen a paths path files h = ground (arith, h, lookup-remove paths.socket path files)

-- What a daemon that starts without a manifest has, and what is then at a path.
abbrev pub IsFresh : {P : Type 0} → Answers → RuntimePaths → Files → Bytes → Started P → Type 0
IsFresh a paths files path s =
    (s.daemon.states ≡ [])
    × (s.listener ≡ bound paths.socket)
    × (Config.load a.config ≡ ok s.registry.config)
    × (lookup path s.daemon.files ≡ (
        if s.registry.config.cleanup_lost_on_startup
          && is_swept a.look a.stuck (shell_dirs paths) path
        then none
        else lookup path files))
