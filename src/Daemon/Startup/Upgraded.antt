-- ===== src/Daemon/Startup/Upgraded.antt =====
-- A daemon that starts with the manifest of an upgrade: every shell is back.
use livesh.Prelude.{
  ◌≤◌, ◌≡◌, ap, ◌∙◌, ℕ, none, some, Option, List, [], ◌∷◌, ◌++◌, arith, Bytes, trim, parse_bounded,
  Option-cases, inl, inr,
}
use livesh.Prelude.Dict.{Dict, lookup, values, AllEntries, AllEntries-lookup}
use livesh.Prelude.Result.{Result-cases}
use livesh.Protocol.{ShellId}
use livesh.Config
use livesh.Config.{Config}
use livesh.Paths.{below_base}
use livesh.Terminal.{Vt100}
use livesh.Daemon.Os.{Os}
use livesh.Daemon.Shell.{ShellState}
use livesh.Daemon.Registry.{Daemon}
use livesh.Daemon.Registry.Sound.{IsSound}
use livesh.Daemon.Files.{Files, StateMetadata, to_metadata}
use livesh.Daemon.Files.Apart.{file, daemon_json-file}
use livesh.Daemon.Files.Written.{IsNamed}
use livesh.Daemon.Upgrade.{Manifest, ShellHandoff, adopt_shells}
use livesh.Daemon.Upgrade.Adopted.{readopted}
use livesh.Daemon.Upgrade.Saved.{registry}
use livesh.Daemon.Upgrade.AllBack.{WritesAll, PrintsAll, handed, adopt_shells-handed}
use livesh.Daemon.Startup.{
  write_daemon_json, Answers, Started, started, adopted, read_env, listen, start_registry,
  start_configured, sweep, start, adopt_if_any, new_daemon,
}
use livesh.Daemon.Startup.Fresh.{lookup-write_daemon_json}

module _ {P : Type 0} (vt : Vt100 P) (a : Answers) (base : Bytes) (prefixes : List Bytes) where
  abbrev json_written : Manifest → Files → Files
  json_written mf files =
      (write_daemon_json a.os a.to_string_pretty a.pid (below_base base) mf.daemon_id files).1

  -- A start with a manifest is the adoption of its shells, and of its listener.
  abbrev IsUpgraded : Manifest → Files → Started P → Type 0
  IsUpgraded mf files s =
      (s.listener ≡ adopted mf.listener_fd)
      × (s.daemon
          ≡ adopt_shells vt (registry base s.registry.config mf.daemon_id prefixes a.json) a.os
              a.dup mf.shells (new_daemon (json_written mf files)))

  start_registry-IsUpgraded :
      (config : Config) (mf : Manifest) (files : Files) {s : Started P}
      → start_registry vt a (below_base base) prefixes (some mf) config files ≡ started s
      → IsUpgraded mf files s
  unfolding start_registry listen adopt_if_any
  start_registry-IsUpgraded config mf files {s} h =
      elim (Option-cases (a.adopts_listener mf.listener_fd)) [
        | inl e ↦ ground (arith, e, h)
        | inr (m, e) ↦ absurd (ground (arith, e, h))
      ]

  start-IsUpgraded :
      (mf : Manifest) (files : Files) {s : Started P}
      → start vt a (below_base base) prefixes files ≡ started s
      → read_env a ≡ some mf
      → IsUpgraded mf files s
  unfolding start start_configured sweep
  start-IsUpgraded mf files {s} h env = elim (Result-cases (Config.load a.config)) [
    | inl (config, e) ↦
        let h' : start_registry vt a (below_base base) prefixes (some mf) config files ≡ started s =
          ground (arith, e, env, h) in
        start_registry-IsUpgraded config mf files {s = s} h'
    | inr (m, e) ↦ absurd (ground (arith, e, h))
  ]

  -- What the old process, with the id of the manifest, hands over.
  abbrev pub handed_over :
      Config
      → List Bytes
      → Os
      → (ℕ → Bytes)
      → (ℕ → Option Bytes)
      → Dict (ShellState P)
      → Files
      → Manifest
      → List ShellHandoff × Files
  handed_over config prefixes' os to_string clear m files mf =
      handed vt (registry base config mf.daemon_id prefixes' a.json) os to_string clear (values m)
        files

  -- The hot upgrade as a whole, from `perform_upgrade` of the old process to the loop of the new one.
  -- Let the registry of the old process be sound, its ids be names of files, and all files and metadata
  -- be written. If the new process starts with the manifest of the old one, it listens at the socket of
  -- the old one. A shell with a process and a time of creation, whose terminal is handed over and
  -- duplicated, and whose metadata and process number are read back as they were written, is then in
  -- the registry under its id, as `adopt` makes it of its metadata, screen, scrollback and events.
  pub start-AllBack :
      (config : Config) (prefixes' : List Bytes) (print : StateMetadata → Bytes) (os : Os)
      → (to_string : ℕ → Bytes) (clear : ℕ → Option Bytes) (m : Dict (ShellState P))
      → (files : Files) (mf : Manifest) {new : Started P} (id : ShellId) {s : ShellState P}
      → {max fd pid : ℕ}
      → start vt a
          (below_base base)
          prefixes
          (handed_over config prefixes' os to_string clear m files mf).1
        ≡ started new
      → read_env a ≡ some mf
      → mf.shells ≡ (handed_over config prefixes' os to_string clear m files mf).0
      → WritesAll os
      → WritesAll a.os
      → PrintsAll a.json print
      → IsSound config.limits max m
      → AllEntries (λ j t. IsNamed j) m
      → lookup id m ≡ some s
      → s.master ≡ some fd
      → clear fd ≡ none
      → a.dup fd ≡ none
      → s.pid ≡ some pid
      → parse_bounded 2147483647 (trim (to_string pid)) ≡ some pid
      → a.json.deserialize (print (to_metadata mf.daemon_id s) ++ (b'\n' ∷ []))
        ≡ some (to_metadata mf.daemon_id s)
      → 1 ≤ s.created_at_ms
      → (new.listener ≡ adopted mf.listener_fd)
        × (lookup id new.daemon.states
            ≡ some (readopted vt new.registry.config.limits mf.daemon_id s fd))
  start-AllBack config prefixes' print os to_string clear m files mf {new} id {s} {max} {fd} {pid}
        begun env shells w w' r v n h opened cleared dups has_pid parsed reads created =
      let old = handed_over config prefixes' os to_string clear m files mf in
      let (listener, daemon) = start-IsUpgraded mf old.1 {s = new} begun env in
      let named = AllEntries-lookup (λ j t. IsNamed j) id {v = s} m n h in
      let d : Daemon P = new_daemon (json_written mf old.1) in
      let back =
        adopt_shells-handed vt base config prefixes' mf.daemon_id a.json print os to_string clear
          files new.registry.config prefixes a.os a.dup w w' r m id {max = max} {s = s} {fd = fd}
          {pid = pid} d v n h opened cleared dups has_pid parsed reads created
          (λ k.
            lookup-write_daemon_json a (below_base base) mf.daemon_id (file (below_base base) k id)
              old.1 (daemon_json-file base k id named.0 named.1)) in
      let taken =
        daemon
        ∙ ap
            (λ (hs : List ShellHandoff).
              adopt_shells vt (registry base new.registry.config mf.daemon_id prefixes a.json) a.os
                a.dup hs d)
            shells in
      (listener, ap (λ (x : Daemon P). lookup id x.states) taken ∙ back)
