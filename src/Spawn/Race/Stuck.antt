-- ===== src/Spawn/Race/Stuck.antt =====
-- A client that waits for the lock.
use livesh.Prelude.{ℕ, ◌≡◌, true, Option, ◌⊎◌, inl, arith}
use livesh.Spawn.Race.{
  locking, ended, World, Step, first_try, first_failed, client_locks, second_try, second_failed,
  client_removes, client_unlocks, spawns, spawn_failed, poll_try, poll_failed, poll_over,
  daemon_locks, daemon_refused, daemon_clears, daemon_binds, clearing_ends, binding_ends,
  serving_ends, Steps, done, step, start,
}
use livesh.Spawn.Race.Exclusion.{is_up, IsFair, Steps-IsFair, start-IsFair}

-- The client waits and the daemon is up, or the daemon has ended.
abbrev Waits : ℕ → ℕ → World → Type 0
Waits i k w = ((w.clients i ≡ locking) × (is_up (w.daemons k) ≡ true)) ⊎ (w.daemons k ≡ ended)

module _ (i k : ℕ) where
  step-Waits : {v w : World} → IsFair v → Waits i k v → Step v w → Waits i k w
  step-Waits f a (first_try w j h s) = ground (arith, a, h)
  step-Waits f a (first_failed w j h) = ground (arith, a, h)
  step-Waits f a (client_locks w j h free) = ground (arith, a, h, f.daemons k, free)
  step-Waits f a (second_try w j h s) = ground (arith, a, h)
  step-Waits f a (second_failed w j h) = ground (arith, a, h)
  step-Waits f a (client_removes w j h) = ground (arith, a, h)
  step-Waits f a (client_unlocks w j h) = ground (arith, a, h)
  step-Waits f a (spawns w j l h g) = ground (arith, a, h, g)
  step-Waits f a (spawn_failed w j h) = ground (arith, a, h)
  step-Waits f a (poll_try w j n h s) = ground (arith, a, h)
  step-Waits f a (poll_failed w j n h) = ground (arith, a, h)
  step-Waits f a (poll_over w j h) = ground (arith, a, h)
  step-Waits f a (daemon_locks w l h free) = ground (arith, a, h)
  step-Waits f a (daemon_refused w l o h taken) = ground (arith, a, h)
  step-Waits f a (daemon_clears w l h) = ground (arith, a, h)
  step-Waits f a (daemon_binds w l h free) = ground (arith, a, h)
  step-Waits f a (clearing_ends w l h) = ground (arith, a, h)
  step-Waits f a (binding_ends w l h) = ground (arith, a, h)
  step-Waits f a (serving_ends w l h) = ground (arith, a, h)

  Steps-Waits : {v w : World} → IsFair v → Waits i k v → Steps v w → Waits i k w
  Steps-Waits f a (done w) = a
  Steps-Waits f a (step w before s) = step-Waits (Steps-IsFair f before) (Steps-Waits f a before) s

  -- A client whose first connection fails while a daemon is between its lock and its end, as when it
  -- has not bound its socket yet, waits for the lock until that daemon ends: whatever steps follow,
  -- the client is still there, also when the daemon serves and others connect to it.
  pub locking-Steps :
      (s : Option ℕ) (v w : World)
      → Steps (start s) v
      → v.clients i ≡ locking
      → is_up (v.daemons k) ≡ true
      → Steps v w
      → (w.clients i ≡ locking) ⊎ (w.daemons k ≡ ended)
  locking-Steps s v w reached waits up steps =
      let a = Steps-Waits (Steps-IsFair (start-IsFair s) reached) (inl (waits, up)) steps in
      ground (arith, a)
