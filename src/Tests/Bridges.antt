-- ===== src/Tests/Bridges.antt =====
-- The theorems on the client's side of a terminal over whole runs, at concrete inputs.
use livesh.Prelude.{◌≡◌, refl, none, some, true, ℕ, List, [], ◌∷◌, codes}
use livesh.Bridge.Csi.{escape}
use livesh.Bridge.InputFilter.Scan.{Removes}
use livesh.Bridge.InputTask.{Turn, read_bytes, observed, input_task, send_input}
use livesh.Bridge.InputTask.Sent.{flatten, all_read}
use livesh.Bridge.InputTask.Flushed.{then_pause, input_task-then_pause}
use livesh.Bridge.OutputLoop.{attached, timed_out as no_answer, reconnect}
use livesh.Bridge.OutputLoop.Painted.{deliver}
use livesh.Bridge.Session.{Target, Attempts, real_shell, bridge_snapshot}
use livesh.Bridge.Session.Reattached.{
  Stretch, Told, wrote, moved, told_messages, all_painted, bridge_snapshot-AllDeliver,
}
use livesh.Tests.Data.{test_filter, test_screen}

-- The start of a report, its end in the next read, and a letter.
abbrev test_turns : List (ℕ × Turn)
test_turns =
    (100, read_bytes 100 (escape ∷ codes "[97;1"))
    ∷ (104, observed 105 (codes "x"))
    ∷ (106, read_bytes 110 (codes ":3ub"))
    ∷ []

input_task-then_pause_example :
    let r = input_task test_filter (then_pause test_turns 200) in
    (r.1.pending ≡ []) × Removes (all_read test_turns) (flatten (send_input (λ k. true) 0 (r.0)))
input_task-then_pause_example =
    input_task-then_pause (λ k. true) test_filter test_turns 200 tt (λ k. refl)

-- Two attaches, each with the directory behind the screen and with output.
abbrev first_told : List Told
first_told = moved (codes "/") ∷ wrote 1 (codes "hel") ∷ wrote 2 (codes "lo") ∷ []

abbrev second_told : List Told
second_told = moved (codes "/") ∷ wrote 3 (codes "!") ∷ moved (codes "/tmp") ∷ []

abbrev first_target : Target
first_target = record {
  attach_id = codes "att_1";
  screen_bytes = codes "$ ";
  unpainted = none;
  messages = deliver (λ i. i) 0 (told_messages 7 (codes "att_1") first_told);
}

abbrev second_target : Target
second_target = record {
  attach_id = codes "att_2";
  screen_bytes = codes "$ hello";
  unpainted = none;
  messages = deliver (λ i. i) 0 (told_messages 8 (codes "att_2") second_told);
}

abbrev test_attempts : Attempts
test_attempts n = attached second_target

abbrev no_attempts : Attempts
no_attempts n = no_answer

abbrev test_first : Stretch
test_first = record { target = first_target; attempts = no_attempts; tx = 7; told = first_told }

abbrev test_second : Stretch
test_second = record {
  target = second_target;
  attempts = test_attempts;
  tx = 8;
  told = second_told;
}

bridge_snapshot-AllDeliver_example :
    let b =
      bridge_snapshot none none none first_target test_screen (test_attempts ∷ no_attempts ∷ []) in
    (b.0 ≡ real_shell)
    × (b.1 ≡ some (codes "att_2"))
    × (b.2.painted ≡ all_painted (test_first ∷ test_second ∷ []))
unfolding reconnect
bridge_snapshot-AllDeliver_example =
    bridge_snapshot-AllDeliver (λ i. i) no_attempts {e = codes "re-attach handshake timed out"} refl
      test_first (test_second ∷ []) test_screen (record { painted = refl; messages = refl })
      (refl, record { painted = refl; messages = refl }, tt)
