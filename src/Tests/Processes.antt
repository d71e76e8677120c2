-- ===== src/Tests/Processes.antt =====
-- The theorems on system calls, processes and the command line tool at concrete inputs.
use livesh.Prelude.{
  ℕ, ◌++◌, ◌≡◌, ◌≢◌, refl, true, false, is_empty, trim, ◌⊎◌, inl, inr, none, some, Option, List, [],
  ◌∷◌, arith, Bytes, codes, if◌then◌else◌,
}
use livesh.Prelude.Dict.{lookup}
use livesh.Protocol.{ClientMsg, ServerMsg, daemon_unavailable}
use livesh.Daemon.Errors.{classify_error}
use livesh.Daemon.Registry
use livesh.Daemon.Shell.{is_some}
use livesh.Client.{server}
use livesh.Client.Calls.{joined}
use livesh.Client.Control.{killed}
use livesh.Client.Wire.{wire}
use livesh.Ctl.{client, other, exit_code, run}
use livesh.Ctl.Killed.{exit_code-unavailable, run-kill}
use livesh.Environment.{Variables, is_livesh_binary}
use livesh.Environment.RealShell.{resolve_real_shell-IsOther}
use livesh.Pty
use livesh.Pty.{Answer, interrupted, failed, done, write_all}
use livesh.Pty.Written.{write_all-prefix, write_all-ends, IsLeft}
use livesh.Tests.Codecs.{test_codecs, test_codecs-IsLawful}
use livesh.Tests.Wires.{test_wired}
use livesh.Tests.Data.{test_vt, test_cb, test_reg, test_os}

abbrev test_writes : List (Answer ℕ)
test_writes = done 2 ∷ interrupted ∷ done 1 ∷ done 5 ∷ []

write_all-prefix_example :
    let r = write_all (done 2 ∷ failed (codes "EIO") ∷ []) (codes "hello") in
    (left : Bytes) × (r.1 ++ left ≡ codes "hello") × IsLeft (r.0) left
write_all-prefix_example = write_all-prefix (done 2 ∷ failed (codes "EIO") ∷ []) (codes "hello")

write_all-ends_example : write_all test_writes (codes "abc") ≡ (Pty.ok tt, codes "abc")
write_all-ends_example =
    write_all-ends test_writes (codes "abc") (refl, (refl, (refl, (refl, tt)))) (omega arith)

exit_code-unavailable_example :
    ((m : Bytes) × (client (server daemon_unavailable []) ≡ client (server daemon_unavailable m)))
    × (classify_error (codes "x") ≢ daemon_unavailable)
unfolding exit_code
exit_code-unavailable_example =
    exit_code-unavailable (client (server daemon_unavailable [])) (codes "x") refl

run-kill_example :
    let r =
      run
        (wire test_vt test_cb test_reg test_codecs test_os 8)
        test_codecs
        (λ s. none)
        []
        []
        (inl (codes "d", joined test_wired []))
        (λ n. inr (other []))
        (codes "liveshctl" ∷ codes "kill" ∷ codes "sh_9" ∷ []) in
    (r.printed ≡ [])
    × (r.connection ≡ some (joined (killed test_reg 8 test_wired (codes "sh_9")) []))
    × (exit_code r.result
        ≡ (if is_some (lookup (codes "sh_9") test_wired.daemon.states) then 0 else 66))
unfolding livesh.Protocol.Ids.new livesh.Protocol.Frame.encode_frame
    livesh.Protocol.Frame.max_frame_len Registry.kill_shell lookup livesh.Prelude.eq_bytes
    classify_error
run-kill_example =
    run-kill test_vt test_cb test_reg test_codecs test_codecs-IsLawful 8 test_os test_wired
      (λ s. none) [] [] (codes "liveshctl") (codes "d") (λ n. inr (other [])) (codes "sh_9") refl
      refl (refl, tt) (_, refl) (_, refl)

-- `SHELL` is livesh itself.
abbrev test_env : Variables
test_env =
    (codes "SHELL", codes "/opt/bin/livesh")
    ∷ (codes "LIVESH_REAL_SHELL", codes "  ")
    ∷ (codes "LIVESH_INTERNAL_NO_REEXEC", codes "1")
    ∷ []

resolve_real_shell-IsOther_example :
    (codes "/bin/zsh" ≢ codes "livesh")
    × ((dir : Bytes) → codes "/bin/zsh" ≢ dir ++ codes "/livesh")
    × (is_empty (trim (codes "/bin/zsh")) ≡ false)
unfolding livesh.Environment.resolve_real_shell_with_config
resolve_real_shell-IsOther_example =
    resolve_real_shell-IsOther test_env (λ path. true) (some []) {path = codes "/bin/zsh"} refl refl
      refl
