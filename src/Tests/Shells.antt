-- ===== src/Tests/Shells.antt =====
-- The daemon's theorems at concrete states.
use livesh.Prelude.{◌≡◌, refl, true, false, none, some, [], ◌∷◌, arith, codes, eq_bytes}
use livesh.Prelude.Dict.{lookup, remove}
use livesh.Prelude.Result.{ok, err}
use livesh.Protocol.{fd_limit}
use livesh.Protocol.Ids.{is_valid_shell_id, new}
use livesh.Terminal
use livesh.Daemon.Shell
use livesh.Daemon.Files.{persist_metadata, to_metadata, remove_orphans}
use livesh.Daemon.Files.Orphans.{remove_orphans-live}
use livesh.Daemon.Env.{child_command, matches_strip_prefix}
use livesh.Daemon.Env.Stripped.{lookup-child_command}
use livesh.Daemon.Registry.{
  attach_not_found, shell_not_found, open_shell, write_input, create_shell, kill_shell, detach,
}
use livesh.Daemon.Registry.Sound.{IsSound}
use livesh.Daemon.Registry.Opening.{open_shell-steal, write_input-detach}
use livesh.Daemon.Registry.Creating.{open_shell-create_shell}
use livesh.Daemon.Shell.Live.{IsLive}
use livesh.Daemon.Upgrade.{adopt}
use livesh.Daemon.Upgrade.Adopted.{adopt-IsLive, readopted}
use livesh.Daemon.Registry.Killing.{open_shell-kill_shell}
use livesh.Daemon.Upkeep.{kill_idle_detached}
use livesh.Daemon.Upkeep.Idle.{lookup-kill_idle_detached}
use livesh.Daemon.Errors.{classify_error}
use livesh.Daemon.Errors.Classified.{classify_error-fd_limit}
use livesh.Daemon.Server.{run, handle_event}
use livesh.Daemon.Server.Runs.{run-IsSound}
use livesh.Tests.Data.{
  test_vt, test_cb, test_cb_laws, test_limits, test_reg, test_os, test_attach, test_shell,
  test_daemon, test_server, test_events,
}

run-IsSound_example :
    IsSound test_limits 3 (run test_vt test_cb test_reg test_server test_events).daemon.states
unfolding handle_event livesh.Protocol.protocol_version
run-IsSound_example =
    run-IsSound test_vt test_cb test_reg 1 test_server test_events
      (record { counted = omega arith; distinct = tt; live = tt }) refl
      (
        omega arith,
        (
          omega arith,
          (
            omega arith,
            (
              omega arith,
              (
                omega arith,
                (
                  omega arith,
                  (
                    omega arith,
                    (
                      omega arith,
                      (
                        omega arith,
                        (
                          omega arith,
                          (
                            omega arith,
                            (omega arith, (omega arith, (omega arith, (omega arith, tt)))),
                          ),
                        ),
                      ),
                    ),
                  ),
                ),
              ),
            ),
          ),
        ),
      )

open_shell-steal_example :
    write_input test_os
      (open_shell test_vt test_reg test_os test_daemon (codes "sh_1") 80 24 true 9).1
      (codes "att_1")
      (codes "ls")
    ≡ (
      err (attach_not_found (codes "att_1")),
      (open_shell test_vt test_reg test_os test_daemon (codes "sh_1") 80 24 true 9).1,
    )
unfolding lookup remove eq_bytes
open_shell-steal_example =
    open_shell-steal test_vt test_reg test_os test_daemon (codes "sh_1") test_shell 80 24 9 refl
      (refl, tt) test_os (codes "ls") test_attach refl refl refl

open_shell-create_shell_example :
    (codes "sh_u2" ≡ codes "sh_u2")
    × ((codes "livesh" ∷ codes "--open" ∷ codes "sh_u2" ∷ [])
        ≡ codes "livesh" ∷ codes "--open" ∷ codes "sh_u2" ∷ [])
    × ((open_shell test_vt test_reg test_os
          (create_shell test_vt test_reg test_os test_cb test_daemon none
            (codes "/")
            (codes "/bin/sh")
            []
            80
            24).1
          (codes "sh_u2")
          80
          24
          false
          9).0
        ≡ ok (codes "att_u2"))
unfolding create_shell persist_metadata Shell.new
open_shell-create_shell_example =
    open_shell-create_shell test_vt test_reg test_os test_cb test_daemon none (codes "/")
      (codes "/bin/sh") [] 80 24 refl test_os false 9

lookup-kill_idle_detached_example :
    lookup
      (codes "sh_1")
      (kill_idle_detached test_reg test_os test_daemon.states test_daemon 10).1.states
    ≡ some test_shell
unfolding lookup eq_bytes Shell.is_attached
lookup-kill_idle_detached_example =
    lookup-kill_idle_detached test_reg test_os test_daemon.states test_daemon 10 (codes "sh_1")
      test_shell (refl, tt) refl

lookup-child_command_example :
    lookup (codes "CMUX_TAG") (
      child_command test_cb
        (codes "CMUX_" ∷ [])
        (codes "/bin/sh")
        (codes "/")
        ((codes "TERM", codes "xterm") ∷ [])
        (codes "sh_1"))
    ≡ none
unfolding lookup eq_bytes matches_strip_prefix
lookup-child_command_example =
    lookup-child_command test_cb test_cb_laws (codes "CMUX_" ∷ []) (codes "/bin/sh") (codes "/")
      ((codes "TERM", codes "xterm") ∷ []) (codes "sh_1") (codes "CMUX_TAG")

remove_orphans-live_example :
    lookup (codes "/r/states/sh_1.json") (
      remove_orphans test_os
        (codes "/r/states")
        (codes "sh_1" ∷ [])
        (codes "json")
        ((codes "/r/states/sh_1.json", codes "{}") ∷ []))
    ≡ some (codes "{}")
unfolding lookup eq_bytes new is_valid_shell_id
remove_orphans-live_example =
    remove_orphans-live test_os (codes "/r/states") (codes "json") (codes "sh_1" ∷ [])
      (codes "sh_1") ((codes "/r/states/sh_1.json", codes "{}") ∷ []) refl (ground arith)

classify_error-fd_limit_example : classify_error (shell_not_found (codes "sh_EMFILE1")) ≡ fd_limit
classify_error-fd_limit_example = classify_error-fd_limit (codes "sh_") (codes "1")

open_shell-kill_shell_example :
    ((kill_shell test_reg test_daemon (codes "sh_1")).0 ≡ ok tt)
    × ((kill_shell test_reg test_daemon (codes "sh_1")).1.signals ≡ 41 ∷ [])
    × (lookup (codes "sh_1") (kill_shell test_reg test_daemon (codes "sh_1")).1.states ≡ none)
    × (open_shell test_vt test_reg test_os
          (kill_shell test_reg test_daemon (codes "sh_1")).1
          (codes "sh_1")
          80
          24
          true
          9
        ≡ (
          err (shell_not_found (codes "sh_1")),
          (kill_shell test_reg test_daemon (codes "sh_1")).1,
        ))
unfolding lookup eq_bytes
open_shell-kill_shell_example =
    open_shell-kill_shell test_vt test_reg test_os test_daemon (codes "sh_1") test_shell 41 refl
      refl (codes "sh_1") 80 24 true 9

adopt-IsLive_example :
    IsLive test_limits (codes "sh_1") (readopted test_vt test_limits (codes "d") test_shell 6)
    × (codes "api" ≡ codes "api")
    × (codes "/" ≡ codes "/")
    × ((readopted test_vt test_limits (codes "d") test_shell 6).size ≡ (24, 80))
    × ((readopted test_vt test_limits (codes "d") test_shell 6).pid ≡ some 41)
    × ((readopted test_vt test_limits (codes "d") test_shell 6).scrollback.bytes ≡ [])
    × ((readopted test_vt test_limits (codes "d") test_shell 6).attach ≡ none)
unfolding adopt to_metadata
adopt-IsLive_example =
    adopt-IsLive test_vt test_limits (codes "d") test_shell (codes "sh_1") 6
      (record {
        same_id = refl;
        is_running = refl;
        is_open = (5, refl);
        bounded = record {
          scrollback = omega arith;
          scrollback_max = refl;
          events = record { counted = refl; bounded = omega arith };
          events_max = refl;
        };
      })
      (omega arith) (omega arith)

write_input-detach_example :
    (write_input test_os (detach test_daemon (codes "att_1")) (codes "att_1") (codes "ls")
      ≡ (err (attach_not_found (codes "att_1")), detach test_daemon (codes "att_1")))
    × (lookup (codes "sh_1") (detach test_daemon (codes "att_1")).states
        ≡ some (record test_shell { attach = none }))
unfolding lookup remove eq_bytes Shell.has_attach
write_input-detach_example =
    write_input-detach test_os test_daemon (codes "att_1") (codes "sh_1") test_shell (codes "ls")
      (refl, tt) refl refl
