-- ===== src/Tests/Spawns.antt =====
-- The theorems on the start of the daemon at concrete inputs.
use livesh.Prelude.{
  ℕ, ◌≡◌, refl, true, false, none, some, ◌⊎◌, inl, arith, if◌then◌else◌, leb, ◌&&◌, not, ◌==◌,
}
use livesh.Spawn.{Answers, connect_or_spawn}
use livesh.Spawn.Ready.{count, is_sleep}
use livesh.Spawn.Found.{connect_or_spawn-found}
use livesh.Spawn.Race.{
  World, locking, starting, clearing, binding, serving, ended, first_failed, client_locks,
  second_failed, client_removes, client_unlocks, spawns, daemon_locks, daemon_clears, daemon_binds,
  poll_try, Steps, done, step, start, client_to, daemon_to, with_lock, with_socket, checking,
  removing, unlocking, spawning, polling, client, daemon, connected,
}
use livesh.Spawn.Race.Exclusion.{is_up, in_section, is_removing, Steps-exclusive}
use livesh.Spawn.Race.Stuck.{locking-Steps}

-- A daemon that accepts connections after three sleeps.
abbrev test_spawning : Answers ℕ
test_spawning = record {
  connected = λ h. if leb 3 (count is_sleep h) then some 1 else none;
  failure = λ a h. none;
  socket_exists = λ h. true;
}

connect_or_spawn-found_example : (c : ℕ) × ((connect_or_spawn test_spawning).0 ≡ inl c)
connect_or_spawn-found_example =
    connect_or_spawn-found test_spawning 3 (omega arith) (λ h l. (1, ground (arith, l)))
      (λ a h. refl)

-- A first client starts a daemon; a second one comes between the daemon's lock and its socket.
abbrev under_lock : World
under_lock = with_lock (some (client 0)) (client_to 0 checking (client_to 0 locking (start none)))

abbrev to_spawn : World
to_spawn = with_lock none (
    client_to 0 spawning
      (with_socket none (client_to 0 unlocking (client_to 0 removing under_lock))))

abbrev locked_daemon : World
locked_daemon =
    with_lock (some (daemon 0))
      (daemon_to 0 clearing (daemon_to 0 starting (client_to 0 (polling 100) to_spawn)))

abbrev waiting : World
waiting = client_to 1 locking locked_daemon

abbrev is_served : World
is_served =
    with_socket (some 0) (daemon_to 0 serving (with_socket none (daemon_to 0 binding waiting)))

to_waiting : Steps (start none) waiting
to_waiting =
    step _
      (step _
        (step _
          (step _
            (step _
              (step _
                (step _ (step _ (done (start none)) (first_failed _ 0 refl))
                  (client_locks _ 0 refl refl))
                (second_failed _ 0 refl))
              (client_removes _ 0 refl))
            (client_unlocks _ 0 refl))
          (spawns _ 0 0 refl refl))
        (daemon_locks _ 0 refl refl))
      (first_failed _ 1 refl)

to_served : Steps waiting (client_to 0 connected is_served)
to_served =
    step _ (step _ (step _ (done waiting) (daemon_clears _ 0 refl)) (daemon_binds _ 0 refl refl))
      (poll_try _ 0 99 refl (0, refl, refl))

locking-Steps_example :
    ((client_to 0 connected is_served).clients 1 ≡ locking)
    ⊎ ((client_to 0 connected is_served).daemons 0 ≡ ended)
locking-Steps_example =
    locking-Steps 1 0 none waiting (client_to 0 connected is_served) to_waiting refl refl to_served

Steps-exclusive_example :
    ((is_removing (waiting.clients 0) && is_up (waiting.daemons 0)) ≡ false)
    × ((in_section (waiting.clients 0) && in_section (waiting.clients 1) && not (0 == 1)) ≡ false)
    × ((is_up (waiting.daemons 0) && is_up (waiting.daemons 1) && not (0 == 1)) ≡ false)
Steps-exclusive_example = Steps-exclusive none waiting to_waiting 0 1 0 1
