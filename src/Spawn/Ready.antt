-- ===== src/Spawn/Ready.antt =====
-- How often `connect_or_spawn` tries, and that it finds a daemon that becomes ready.
use livesh.Prelude.{
  ℕ, zero, ◌+◌, ◌≤◌, ◌≡◌, Bool, true, false, List, [], ◌∷◌, inl, inr, if◌then◌else◌, length,
  Option-cases, Bytes,
}
use livesh.Spawn.{
  Action, connect, ensure_dirs, open_lock, lock, remove_socket, drop_lock, open_log, spawn, sleep,
  Answers, Run, attempt, or_connected,
}

abbrev pub is_spawn : Action → Bool
is_spawn spawn = true
is_spawn _ = false

abbrev pub is_sleep : Action → Bool
is_sleep sleep = true
is_sleep _ = false

abbrev pub count : (Action → Bool) → List Action → ℕ
count p [] = 0
count p (a ∷ h) = (if p a then 1 else 0) + count p h

-- The socket is only removed right behind a failed connection under the lock, and a daemon is only
-- started behind one, when the lock has been given up.
abbrev pub IsCareful : List Action → Type 0
IsCareful [] = Unit
IsCareful (remove_socket ∷ connect ∷ lock ∷ h) = IsCareful h
IsCareful (remove_socket ∷ _) = (zero ≡ 1)
IsCareful (spawn ∷ open_log ∷ drop_lock ∷ remove_socket ∷ connect ∷ lock ∷ h) = IsCareful h
IsCareful (spawn ∷ open_log ∷ drop_lock ∷ connect ∷ lock ∷ h) = IsCareful h
IsCareful (spawn ∷ _) = (zero ≡ 1)
IsCareful (_ ∷ h) = IsCareful h

module _ {C : Type 0} (ans : Answers C) where
  -- What holds of both outcomes holds of the call.
  pub attempt-both :
      (Q : Run C → Type 0) (a : Action) (h : List Action) (rest : Run C)
      → ((e : Bytes) → Q (inr e, a ∷ h))
      → Q rest
      → Q (attempt ans a h rest)
  attempt-both Q a h rest failed q = elim (Option-cases (ans.failure a h)) [
    | inl n ↦ rw (attempt, n) q
    | inr (f, n) ↦ rw (attempt, n) (failed f)
  ]

  pub or_connected-both :
      (Q : Run C → Type 0) (h : List Action) (rest : Run C)
      → ((c : C) → Q (inl c, connect ∷ h))
      → Q rest
      → Q (or_connected ans h rest)
  or_connected-both Q h rest found q = elim (Option-cases (ans.connected h)) [
    | inl n ↦ rw (or_connected, n) q
    | inr (c, n) ↦ rw (or_connected, n) (found c)
  ]

  -- What is shown of every run.
  abbrev pub Good : Run C → Type 0
  Good r = (length r.1 ≤ 210) × (count is_spawn r.1 ≤ 1) × IsCareful r.1

  -- The actions before the poll, when the socket was there and when it was not.
  abbrev pub started : Bool → List Action
  started exists =
      let h = connect ∷ lock ∷ open_lock ∷ ensure_dirs ∷ connect ∷ [] in
      drop_lock ∷ (if exists then remove_socket ∷ h else h)
