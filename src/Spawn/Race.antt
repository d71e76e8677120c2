-- ===== src/Spawn/Race.antt =====
-- Clients in `connect_or_spawn` (src/daemon_spawn.rs) and daemons at their start and end (`run` and
-- `daemon_lock` of src/daemon.rs), in any order of their steps. Both take the same lock; it goes when
-- its owner ends. Clients and daemons are numbered.
pub mod Exclusion
pub mod Stuck
use livesh.Prelude.{ℕ, suc, ◌≡◌, Bool, true, false, Option, none, some, ◌==◌, if◌then◌else◌}

-- Where a client is: before its first connection, at `flock`, before the second connection, before
-- the removal of the socket, before the lock is dropped, before the daemon is started, in the loop
-- with that many attempts left, and at the end, with a connection or an error.
pub data ClientAt : Type 0 where
  connecting locking checking removing unlocking spawning : ClientAt
  polling : (left : ℕ) → ClientAt
  connected gave_up : ClientAt

-- Where a daemon is: not started, before `daemon_lock`, before the old socket is removed, before the
-- new one is bound, in the loop of `run`, and at its end.
pub data DaemonAt : Type 0 where
  absent starting clearing binding serving ended : DaemonAt

pub data Owner : Type 0 where
  client : ℕ → Owner
  daemon : ℕ → Owner

-- The owner of the lock, and the daemon that bound the socket whose file is there, which may have
-- ended.
pub record World : Type 0 where
  pub lock : Option Owner
  pub socket : Option ℕ
  pub clients : ℕ → ClientAt
  pub daemons : ℕ → DaemonAt

abbrev pub set {ℓ} : {A : Type ℓ} → ℕ → A → (ℕ → A) → ℕ → A
set i a f j = if i == j then a else f j

abbrev pub client_to : ℕ → ClientAt → World → World
client_to i p w = record w { clients = set i p w.clients }

abbrev pub daemon_to : ℕ → DaemonAt → World → World
daemon_to k p w = record w { daemons = set k p w.daemons }

abbrev pub with_lock : Option Owner → World → World
with_lock o w = record w { lock = o }

abbrev pub with_socket : Option ℕ → World → World
with_socket s w = record w { socket = s }

-- A connection can be made: the socket is that of a daemon in its loop. Even then a connection or its
-- ping may fail.
abbrev pub IsServed : World → Type 0
IsServed w = (k : ℕ) × (w.socket ≡ some k) × (w.daemons k ≡ serving)

-- One step of one client or daemon.
pub data Step : World → World → Type 0 where
  first_try :
      (w : World) (i : ℕ) → w.clients i ≡ connecting → IsServed w → Step w (client_to i connected w)
  first_failed : (w : World) (i : ℕ) → w.clients i ≡ connecting → Step w (client_to i locking w)
  client_locks :
      (w : World) (i : ℕ)
      → w.clients i ≡ locking
      → w.lock ≡ none
      → Step w (with_lock (some (client i)) (client_to i checking w))
  second_try :
      (w : World) (i : ℕ)
      → w.clients i ≡ checking
      → IsServed w
      → Step w (with_lock none (client_to i connected w))
  second_failed : (w : World) (i : ℕ) → w.clients i ≡ checking → Step w (client_to i removing w)
  client_removes :
      (w : World) (i : ℕ)
      → w.clients i ≡ removing
      → Step w (with_socket none (client_to i unlocking w))
  client_unlocks :
      (w : World) (i : ℕ)
      → w.clients i ≡ unlocking
      → Step w (with_lock none (client_to i spawning w))
  spawns :
      (w : World) (i k : ℕ)
      → w.clients i ≡ spawning
      → w.daemons k ≡ absent
      → Step w (daemon_to k starting (client_to i (polling 100) w))
  spawn_failed : (w : World) (i : ℕ) → w.clients i ≡ spawning → Step w (client_to i gave_up w)
  poll_try :
      (w : World) (i n : ℕ)
      → w.clients i ≡ polling (suc n)
      → IsServed w
      → Step w (client_to i connected w)
  poll_failed :
      (w : World) (i n : ℕ) → w.clients i ≡ polling (suc n) → Step w (client_to i (polling n) w)
  poll_over : (w : World) (i : ℕ) → w.clients i ≡ polling 0 → Step w (client_to i gave_up w)
  daemon_locks :
      (w : World) (k : ℕ)
      → w.daemons k ≡ starting
      → w.lock ≡ none
      → Step w (with_lock (some (daemon k)) (daemon_to k clearing w))
  daemon_refused :
      (w : World) (k : ℕ) (o : Owner)
      → w.daemons k ≡ starting
      → w.lock ≡ some o
      → Step w (daemon_to k ended w)
  daemon_clears :
      (w : World) (k : ℕ)
      → w.daemons k ≡ clearing
      → Step w (with_socket none (daemon_to k binding w))
  daemon_binds :
      (w : World) (k : ℕ)
      → w.daemons k ≡ binding
      → w.socket ≡ none
      → Step w (with_socket (some k) (daemon_to k serving w))
  clearing_ends :
      (w : World) (k : ℕ) → w.daemons k ≡ clearing → Step w (with_lock none (daemon_to k ended w))
  binding_ends :
      (w : World) (k : ℕ) → w.daemons k ≡ binding → Step w (with_lock none (daemon_to k ended w))
  serving_ends :
      (w : World) (k : ℕ) → w.daemons k ≡ serving → Step w (with_lock none (daemon_to k ended w))

pub data Steps : World → World → Type 0 where
  done : (w : World) → Steps w w
  step : {v : World} (w : World) {u : World} → Steps v w → Step w u → Steps v u

-- Every client is before its first connection, and no daemon was started; a socket may be left.
abbrev pub start : Option ℕ → World
start s = record { lock = none; socket = s; clients = λ i. connecting; daemons = λ k. absent }
