-- ===== src/Spawn/Race/Exclusion.antt =====
-- The lock keeps clients and daemons apart.
use livesh.Prelude.{
  ℕ, ◌≡◌, refl, Bool, true, false, Option, none, some, ◌==◌, arith, ==_iff, ◌&&◌, not,
}
use livesh.Spawn.Race.{
  ClientAt, locking, checking, removing, unlocking, spawning, polling, connected, gave_up, DaemonAt,
  starting, clearing, binding, serving, ended, Owner, client, daemon, World, client_to, daemon_to,
  with_lock, with_socket, Step, first_try, first_failed, client_locks, second_try, second_failed,
  client_removes, client_unlocks, spawns, spawn_failed, poll_try, poll_failed, poll_over,
  daemon_locks, daemon_refused, daemon_clears, daemon_binds, clearing_ends, binding_ends,
  serving_ends, Steps, done, step, start,
}

abbrev pub in_section : ClientAt → Bool
in_section checking = true
in_section removing = true
in_section unlocking = true
in_section _ = false

abbrev pub is_up : DaemonAt → Bool
is_up clearing = true
is_up binding = true
is_up serving = true
is_up _ = false

abbrev pub is_client : Option Owner → ℕ → Bool
is_client (some (client j)) i = j == i
is_client _ i = false

abbrev pub is_daemon : Option Owner → ℕ → Bool
is_daemon (some (daemon j)) k = j == k
is_daemon _ k = false

-- A client is between `flock` and the drop of the lock exactly when it has the lock, and a daemon is
-- between `daemon_lock` and its end exactly when it has it.
pub record IsFair (w : World) : Type 0 where
  pub clients : (i : ℕ) → in_section (w.clients i) ≡ is_client w.lock i
  pub daemons : (k : ℕ) → is_up (w.daemons k) ≡ is_daemon w.lock k

module _ {w : World} (f : IsFair w) where
  client_moves :
      (i : ℕ) (p : ClientAt) → in_section p ≡ in_section (w.clients i) → IsFair (client_to i p w)
  client_moves i p same = record {
    clients = λ j. ground (arith, f.clients j, ==_iff i j);
    daemons = f.daemons;
  }

  daemon_moves : (k : ℕ) (p : DaemonAt) → is_up p ≡ is_up (w.daemons k) → IsFair (daemon_to k p w)
  daemon_moves k p same = record {
    clients = f.clients;
    daemons = λ j. ground (arith, f.daemons j, ==_iff k j);
  }

  client_takes :
      (i : ℕ) → w.lock ≡ none → IsFair (with_lock (some (client i)) (client_to i checking w))
  client_takes i free = record {
    clients = λ j. ground (arith, f.clients j, free);
    daemons = λ k. ground (arith, f.daemons k, free);
  }

  daemon_takes :
      (k : ℕ) → w.lock ≡ none → IsFair (with_lock (some (daemon k)) (daemon_to k clearing w))
  daemon_takes k free = record {
    clients = λ j. ground (arith, f.clients j, free);
    daemons = λ j. ground (arith, f.daemons j, free);
  }

  client_leaves :
      (i : ℕ) (p : ClientAt)
      → in_section (w.clients i) ≡ true
      → in_section p ≡ false
      → IsFair (with_lock none (client_to i p w))
  client_leaves i p inside outside = record {
    clients = λ j. ground (arith, f.clients j, f.clients i, ==_iff i j);
    daemons = λ k. ground (arith, f.daemons k, f.clients i);
  }

  daemon_leaves :
      (k : ℕ) → is_up (w.daemons k) ≡ true → IsFair (with_lock none (daemon_to k ended w))
  daemon_leaves k up = record {
    clients = λ j. ground (arith, f.clients j, f.daemons k);
    daemons = λ j. ground (arith, f.daemons j, f.daemons k, ==_iff k j);
  }

  socket_moves : (s : Option ℕ) → IsFair (with_socket s w)
  socket_moves s = record { clients = f.clients; daemons = f.daemons }

pub step-IsFair : {v w : World} → IsFair v → Step v w → IsFair w
step-IsFair f (first_try w i h s) = client_moves f i connected (rw h refl)
step-IsFair f (first_failed w i h) = client_moves f i locking (rw h refl)
step-IsFair f (client_locks w i h free) = client_takes f i free
step-IsFair f (second_try w i h s) = client_leaves f i connected (rw h refl) refl
step-IsFair f (second_failed w i h) = client_moves f i removing (rw h refl)
step-IsFair f (client_removes w i h) = socket_moves (client_moves f i unlocking (rw h refl)) none
step-IsFair f (client_unlocks w i h) = client_leaves f i spawning (rw h refl) refl
step-IsFair f (spawns w i k h g) =
    daemon_moves (client_moves f i (polling 100) (rw h refl)) k starting (rw g refl)
step-IsFair f (spawn_failed w i h) = client_moves f i gave_up (rw h refl)
step-IsFair f (poll_try w i n h s) = client_moves f i connected (rw h refl)
step-IsFair f (poll_failed w i n h) = client_moves f i (polling n) (rw h refl)
step-IsFair f (poll_over w i h) = client_moves f i gave_up (rw h refl)
step-IsFair f (daemon_locks w k h free) = daemon_takes f k free
step-IsFair f (daemon_refused w k o h taken) = daemon_moves f k ended (rw h refl)
step-IsFair f (daemon_clears w k h) = socket_moves (daemon_moves f k binding (rw h refl)) none
step-IsFair f (daemon_binds w k h free) =
    socket_moves (daemon_moves f k serving (rw h refl)) (some k)
step-IsFair f (clearing_ends w k h) = daemon_leaves f k (rw h refl)
step-IsFair f (binding_ends w k h) = daemon_leaves f k (rw h refl)
step-IsFair f (serving_ends w k h) = daemon_leaves f k (rw h refl)

pub start-IsFair : (s : Option ℕ) → IsFair (start s)
start-IsFair s = record { clients = λ i. refl; daemons = λ k. refl }

pub Steps-IsFair : {v w : World} → IsFair v → Steps v w → IsFair w
Steps-IsFair f (done w) = f
Steps-IsFair f (step w before s) = step-IsFair (Steps-IsFair f before) s

abbrev pub is_removing : ClientAt → Bool
is_removing removing = true
is_removing _ = false

-- In whatever order the steps of clients and daemons come: when a client is about to remove the
-- socket no daemon is between its lock and its end, so the socket is not that of a daemon that
-- serves; two clients are never between `flock` and the drop of the lock; and two daemons are never
-- up.
pub Steps-exclusive :
    (s : Option ℕ) (w : World)
    → Steps (start s) w
    → (i j k l : ℕ)
    → ((is_removing (w.clients i) && is_up (w.daemons k)) ≡ false)
      × ((in_section (w.clients i) && in_section (w.clients j) && not (i == j)) ≡ false)
      × ((is_up (w.daemons k) && is_up (w.daemons l) && not (k == l)) ≡ false)
Steps-exclusive s w steps i j k l =
    let f = Steps-IsFair (start-IsFair s) steps in
    (
      ground (arith, f.clients i, f.daemons k),
      ground (arith, f.clients i, f.clients j),
      ground (arith, f.daemons k, f.daemons l),
    )
