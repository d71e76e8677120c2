-- ===== src/Tests/Clients.antt =====
-- The clients' theorems at concrete inputs.
use livesh.Prelude.{
  Option, true, false, ℕ, ◌≤◌, ◌≡◌, refl, ◌⊎◌, inl, inr, none, some, List, [], ◌∷◌, arith, length,
  Bytes, codes,
}
use livesh.Prelude.Result.{err}
use livesh.Protocol.{fd_limit, not_found}
use livesh.Launcher.{
  Failure, other, Surroundings, real_shell, run_managed_shell, Answers, server,
  create_shell_with_fd_recovery,
}
use livesh.Launcher.Fallback.{run_managed_shell-eq-failed}
use livesh.Launcher.Consent.{Consented, create_shell_with_fd_recovery-Consented}
use livesh.Bridge.OutputLoop.Retries.{reconnect-decided}
use livesh.Bridge.OutputLoop.{Attempt, refused, reconnect, disconnected, output_loop}
use livesh.Bridge.OutputLoop.Painted.{deliver, output_loop-record_all}
use livesh.Daemon.Shell.Attaching.{record_all}
use livesh.Tests.Data.{test_vt, test_shell, test_attach, test_output, test_screen}

output_loop-record_all_example :
    let r =
      output_loop
        (codes "att_1")
        test_screen
        (deliver (λ i. i) 0 (record_all test_vt test_shell test_output).1) in
    (r.0 ≡ disconnected) × (r.1.painted ≡ codes "hello")
output_loop-record_all_example =
    output_loop-record_all test_vt (λ i. i) test_shell test_attach test_output test_screen refl
      (refl, (refl, tt)) (omega arith)

-- A daemon that is out of descriptors, and a user who agrees once.
abbrev test_answers : Answers ℕ
test_answers = record {
  created = λ h. inr (server fd_limit []);
  line = λ h. if_first h;
  killed = λ h. none;
}
  where
    if_first : List livesh.Launcher.Request → Bytes ⊎ Bytes
    if_first [] = inl (codes "y")
    if_first (r ∷ []) = inl (codes "Yes")
    if_first (r ∷ s ∷ h) = inl (codes "no")

create_shell_with_fd_recovery-Consented_example :
    Consented test_answers (create_shell_with_fd_recovery test_answers).1
    × (length ((create_shell_with_fd_recovery test_answers).1) ≤ 10)
create_shell_with_fd_recovery-Consented_example =
    create_shell_with_fd_recovery-Consented test_answers

-- A system with a configuration that cannot be read.
abbrev test_surroundings : Surroundings ℕ
test_surroundings = record {
  force_live = false;
  is_tty = true;
  connected = none;
  config = some (other (codes "config"));
  shell_path = none;
  cwd = none;
  created = inl 1;
  json_written = none;
  is_reexec = false;
  current_exe = none;
  reexec = none;
  bridge = inl 0;
  exec_real_shell = none;
}

run_managed_shell-eq-failed_example :
    (some (other (codes "config")) ≡ some (other (codes "config")))
    ⊎ (◌≡◌ {A = Option Failure} none (some (other (codes "config"))))
    ⊎ (◌≡◌ {A = Option Failure} none (some (other (codes "config"))))
    ⊎ (◌≡◌ {A = Option Failure} none (some (other (codes "config"))))
    ⊎ (◌≡◌ {A = Option Failure} none (some (other (codes "config"))))
    ⊎ (◌≡◌ {A = Option Failure} none (some (other (codes "config"))))
    ⊎ (◌≡◌ {A = ℕ ⊎ Failure} (inl 0) (inr (other (codes "config"))))
unfolding run_managed_shell
run_managed_shell-eq-failed_example =
    run_managed_shell-eq-failed test_surroundings false false {f = other (codes "config")} refl

-- A daemon that does not know the shell.
abbrev test_attempts : ℕ → Attempt ℕ
test_attempts j = refused (some not_found) (codes "gone")

reconnect-decided_example : reconnect 50 test_attempts none ≡ err (codes "gone")
reconnect-decided_example =
    reconnect-decided 50 49 test_attempts none [] (omega arith) (λ j a b. absurd (omega arith)) refl
