-- ===== src/Lib.antt =====
-- livesh keeps shells alive behind a daemon, `liveshd`: a client, `livesh`, creates a shell, attaches
-- its terminal to it, may lose it to another client or to a lost connection, and finds it again by
-- its id. This library models the program and proves what its parts promise.
--
-- Parts, and where they are modelled:
--   Limits     src/limits.rs: `BoundedBytes` (Limits/BoundedBytes) and `EventRing`
--              (Limits/EventRing), the bounded history of a shell.
--   Protocol   src/protocol.rs: ids, messages and errors; Protocol/Ids has `ShellId::new`,
--              Protocol/Frame `encode_frame`, `decode_payload` and src/framing.rs.
--   Client     src/client.rs: the calls of a client; Client/Wire has the daemon's end of its
--              connection, `handle_client` of src/daemon.rs.
--   Spawn      src/daemon_spawn.rs: `connect_or_spawn`; Spawn/Race has its steps among those of other
--              clients and of daemons, with `run` and `daemon_lock` of src/daemon.rs.
--   Ctl        src/bin/liveshctl.rs: the commands, their output and their exit codes.
--   Environment
--              src/shell_resolve.rs, the prefixes of src/bin/liveshd.rs, `config_path` of
--              src/config.rs and the size of src/tty.rs.
--   Pty        src/pty_master.rs: the loops around the system calls on a terminal.
--   Paths      src/paths.rs: the files of a runtime directory; Paths/PrivateDir has
--              `ensure_private_dir`.
--   Terminal   src/terminal_model.rs over the emulator vt100, which is a parameter.
--   Config     src/config.rs: the defaults and the file.
--   Args       src/args.rs: the command lines.
--   Bridge     src/bridge.rs: the input filter (Bridge/Csi, Bridge/InputFilter,
--              Bridge/KeyboardReset), the input task (Bridge/InputTask), the loop over the daemon's
--              messages (Bridge/OutputLoop), the title (Bridge/Title), and the whole of
--              `bridge_snapshot` over one connection after another (Bridge/Session).
--   Launcher   src/bin/livesh.rs: `run_managed_shell`, `open_or_recreate` and
--              `create_shell_with_fd_recovery`; src/lib.rs: the exit codes.
--   Daemon     src/daemon.rs: one shell (Daemon/Shell), its files (Daemon/Files, with src/metadata.rs
--              and src/gc.rs), its environment (Daemon/Env), the registry (Daemon/Registry,
--              Daemon/Listing), the sweeps (Daemon/Upkeep), the codes of errors (Daemon/Errors), the
--              start (Daemon/Startup, with the sweep of src/gc.rs in Daemon/Gc and the limit on files
--              in Daemon/Descriptors), the hot upgrade (Daemon/Upgrade, with src/takeover.rs), and the
--              messages and threads (Daemon/Server).
--   Tests      concrete states and inputs, with the theorems at them.
--
-- How they interact: a client (Client) writes its message as a frame to its connection, whose other
-- end (Client/Wire) reads it and hands it to `handle_msg` (Daemon/Server), which calls the
-- registry; the registry holds the shells in a map and calls the methods of `ShellState`; a shell
-- feeds its output to the terminal, the scrollback and the event log and sends it to the client
-- attached, whose `output_loop` paints it. The threads of the daemon (readers, waiters, the directory
-- poller and the periodic sweep) are events of Daemon/Server between the messages of the clients, in
-- any order.
--
-- Conventions: a text or a path is its bytes, and a number a natural number; counters of 64 bits wrap
-- as in the source, sizes of what is in memory do not. What is done under one lock is one
-- step. An operation that gives a lock back in its middle is a function for each part and their
-- composition: `create_shell` (its test and the rest), `record_output` (the recording and the
-- sending), the steps of `attach` that output may come between, and `kill_idle_detached` (the choice of
-- its victims and the kills). Daemon/Server has these parts as events of their own; a theorem about the
-- composition is about a run where nothing comes between. The messages, signals and writes that
-- leave the process are logs in the state. What the system answers (`Os`), the serialiser (`Codec`), the
-- emulator (`Vt100`) and the command builder (`CommandBuilder`) are parameters.
--
-- Fuel: the loop of `filter_input` has as fuel the number of its input bytes, and each round uses up
-- a byte at least; the loop of `handle_client` has one more than the bytes that were received, and a
-- frame takes four of them at least; `reconnect`, `connect_or_spawn` and the wait behind an upgrade
-- count the attempts of the source. The loops around system calls go down the list of the answers,
-- and are still running at its end. All other loops go down a list.
--
-- Not modelled: the `execv` of the hot upgrade itself (what it hands over and the start of the new
-- process are), the check of the peer's user, the raw mode, the
-- buffer of the process title, the JSON for `--state-json-fd` and the reading of a directory from
-- `/proc`, which are system calls; the resize task of the bridge, which passes a size on. Text is
-- handled byte by byte, as ASCII.
pub mod Prelude
pub mod Limits
pub mod Protocol
pub mod Client
pub mod Bridge
pub mod Paths
pub mod Terminal
pub mod Config
pub mod Args
pub mod Launcher
pub mod Ctl
pub mod Environment
pub mod Spawn
pub mod Pty
pub mod Daemon
pub mod Tests
