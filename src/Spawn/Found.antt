-- ===== src/Spawn/Found.antt =====
-- `connect_or_spawn` finds a daemon that becomes ready in time.
use livesh.Prelude.{
  ℕ, zero, suc, ◌+◌, ◌≤◌, ◌<◌, ◌≡◌, refl, ap, none, some, List, [], ◌∷◌, inl, inr, arith,
  Option-cases,
}
use livesh.Spawn.{
  Action, connect, ensure_dirs, open_lock, lock, drop_lock, open_log, spawn, sleep, Answers, Run,
  poll, locked, connect_or_spawn, or_connected, attempt, cleared,
}
use livesh.Spawn.Ready.{count, is_sleep, or_connected-both}

module _ {C : Type 0} (ans : Answers C) where
  abbrev Found : Run C → Type 0
  Found r = (c : C) × (r.0 ≡ inl c)

  -- The daemon accepts connections once there were `k` sleeps.
  abbrev pub IsReadyAfter : ℕ → Type 0
  IsReadyAfter k = (h : List Action) → k ≤ count is_sleep h → (c : C) × (ans.connected h ≡ some c)

  or_connected-some :
      (h : List Action) (rest : Run C) {c : C}
      → ans.connected h ≡ some c
      → or_connected ans h rest ≡ (inl c, connect ∷ h)
  or_connected-some h rest e = rw (or_connected, e) refl

  Found-attempt :
      (a : Action) (h : List Action) (rest : Run C)
      → ans.failure a h ≡ none
      → Found rest
      → Found (attempt ans a h rest)
  Found-attempt a h rest e found = rw (Found, attempt, e) found

  poll-Found :
      (k n : ℕ) (h : List Action)
      → IsReadyAfter k
      → count is_sleep h ≤ k
      → k < count is_sleep h + n
      → Found (poll ans n h)
  unfolding poll
  poll-Found k zero h ready l m = absurd (omega arith)
  poll-Found k (suc n) h ready l m = elim (Option-cases (ans.connected h)) [
    | inr (c, e) ↦ (c, ap (λ r. r.0) (or_connected-some h (poll ans n (sleep ∷ connect ∷ h)) e))
    | inl e ↦
        let late : count is_sleep h < k = ground (arith, ready h, e) in
        or_connected-both ans Found h (poll ans n (sleep ∷ connect ∷ h)) (λ c. (c, refl))
          (poll-Found k n (sleep ∷ connect ∷ h) ready (omega (arith, late))
            (omega (arith, late, m)))
  ]

  sleeps-cleared :
      (h : List Action) → count is_sleep h ≡ 0 → count is_sleep (cleared ans (connect ∷ h)) ≡ 0
  sleeps-cleared h e = ground arith

  -- If nothing fails but connections, and from the `k`-th sleep on, for a `k` below 100, every
  -- connection succeeds, then `connect_or_spawn` comes back with a client.
  pub connect_or_spawn-found :
      (k : ℕ)
      → k < 100
      → IsReadyAfter k
      → ((a : Action) (h : List Action) → ans.failure a h ≡ none)
      → (c : C) × ((connect_or_spawn ans).0 ≡ inl c)
  unfolding connect_or_spawn locked
  connect_or_spawn-found k l ready works =
      let h = lock ∷ open_lock ∷ ensure_dirs ∷ connect ∷ [] in
      let h' = drop_lock ∷ cleared ans (connect ∷ h) in
      let none_yet = sleeps-cleared h refl in
      let polled =
        poll-Found k 100 (spawn ∷ open_log ∷ h') ready (omega (arith, none_yet))
          (omega (arith, none_yet, l)) in
      or_connected-both ans Found [] _ (λ c. (c, refl))
        (Found-attempt ensure_dirs (connect ∷ []) _ (works _ _) (
          Found-attempt open_lock (ensure_dirs ∷ connect ∷ []) _ (works _ _) (
            Found-attempt lock (open_lock ∷ ensure_dirs ∷ connect ∷ []) _ (works _ _) (
              or_connected-both ans Found h _ (λ c. (c, refl))
                (Found-attempt open_log h' _ (works _ _)
                  (Found-attempt spawn (open_log ∷ h') _ (works _ _) polled))))))
