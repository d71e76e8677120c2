-- ===== src/Spawn.antt =====
-- src/daemon_spawn.rs, `connect_or_spawn` and `spawn_daemon`: a client that finds no daemon starts
-- one. What the system answers to an action depends on all that was done before, so each answer is a
-- function of the actions so far, the latest first.
pub mod Ready
pub mod Race
pub mod Found
use livesh.Prelude.{
  ℕ, zero, suc, Bool, true, false, Option, none, some, List, [], ◌∷◌, ◌++◌, ◌⊎◌, inl, inr,
  if◌then◌else◌, Bytes, codes,
}

pub data Action : Type 0 where
  -- A connection and a ping over it.
  connect : Action
  ensure_dirs open_lock lock remove_socket drop_lock : Action
  -- The parts of `spawn_daemon`: the log is opened and duplicated, and the process started with
  -- `LIVESH_INTERNAL_DAEMON` set, in a session of its own.
  open_log spawn : Action
  -- 25 milliseconds
  sleep : Action

-- The answers, each to an action behind those of the history: the client if a connection and its ping
-- succeed, and the error of another call that fails.
pub record Answers (C : Type 0) : Type 0 where
  pub connected : List Action → Option C
  pub failure : Action → List Action → Option Bytes
  pub socket_exists : List Action → Bool

abbrev pub not_ready : Bytes
not_ready = codes "liveshd did not become ready"

abbrev pub Run : Type 0 → Type 0
Run C = (C ⊎ Bytes) × List Action

module _ {C : Type 0} (ans : Answers C) where
  -- A call with `?`: its error ends the run.
  abbrev pub attempt : Action → List Action → Run C → Run C
  attempt a h rest = elim (ans.failure a h) [ some e ↦ (inr e, a ∷ h) | none ↦ rest ]

  -- A connection that succeeds ends the run.
  abbrev pub or_connected : List Action → Run C → Run C
  or_connected h rest = elim (ans.connected h) [ some c ↦ (inl c, connect ∷ h) | none ↦ rest ]

  unfoldable pub poll : ℕ → List Action → Run C
  poll zero h = (inr not_ready, h)
  poll (suc n) h = let rest = poll n (sleep ∷ connect ∷ h) in or_connected h rest

  abbrev pub spawn_daemon : List Action → Run C → Run C
  spawn_daemon h rest = attempt open_log h (attempt spawn (open_log ∷ h) rest)

  -- The part under the lock, from the second connection on, and behind it: the error of removing the
  -- socket is ignored.
  abbrev pub cleared : List Action → List Action
  cleared h = if ans.socket_exists h then remove_socket ∷ h else h

  unfoldable pub locked : List Action → Run C
  unfolding poll
  locked h =
      let h' = drop_lock ∷ cleared (connect ∷ h) in
      or_connected h (spawn_daemon h' (poll 100 (spawn ∷ open_log ∷ h')))

  unfoldable pub connect_or_spawn : Run C
  unfolding locked
  connect_or_spawn =
      let h = lock ∷ open_lock ∷ ensure_dirs ∷ connect ∷ [] in
      or_connected [] (
        attempt ensure_dirs (connect ∷ []) (
          attempt open_lock (ensure_dirs ∷ connect ∷ [])
            (attempt lock (open_lock ∷ ensure_dirs ∷ connect ∷ []) (locked h))))
