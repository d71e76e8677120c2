-- ===== src/Launcher/Consent.antt =====
-- The recovery asks before it kills, and comes to an end.
use livesh.Prelude.{
  ℕ, ◌+◌, ◌*◌, ◌≤◌, ◌≡◌, refl, true, ◌⊎◌, inl, inr, Option, none, some, List, [], ◌∷◌, arith,
  length, Bytes, Bool-cases,
}
use livesh.Launcher.{
  Request, create, prompt, kill_idle, Answers, is_yes, fd_limit_tiers_ms, ask_and_kill, recover,
  create_shell_with_fd_recovery,
}

sum-cases : {A B : Type 0} (x : A ⊎ B) → ((a : A) × (x ≡ inl a)) ⊎ ((b : B) × (x ≡ inr b))
sum-cases (inl a) = inl (a, refl)
sum-cases (inr b) = inr (b, refl)

module _ {S : Type 0} (ans : Answers S) where
  -- The history ends in a prompt that the user answered with a yes.
  abbrev pub Agreed : List Request → Type 0
  Agreed (prompt shown ∷ h) = (line : Bytes) × (ans.line h ≡ inl line) × (is_yes line ≡ true)
  Agreed _ = ⊥

  -- Every kill comes right behind a prompt that the user answered with a yes.
  abbrev pub Consented : List Request → Type 0
  Consented [] = Unit
  Consented (kill_idle ms ∷ h) = Agreed h × Consented h
  Consented (_ ∷ h) = Consented h

  ask_and_kill-Consented :
      (shown : Option ℕ) (ms : ℕ) (h : List Request)
      → Consented h
      → Consented (ask_and_kill ans shown ms h).1
  unfolding ask_and_kill
  ask_and_kill-Consented shown ms h c = elim (sum-cases (ans.line h)) [
    | inr (e, k) ↦ rw (ask_and_kill, k) c
    | inl (line, k) ↦ elim (Bool-cases (is_yes line)) [
      | inl y ↦ rw (ask_and_kill, k, y) ((line, k, y), c)
      | inr n ↦ rw (ask_and_kill, k, n) c
    ]
  ]

  recover-Consented :
      (ts : List ℕ) (h : List Request) → Consented h → Consented (recover ans ts h).1
  unfolding recover
  recover-Consented [] h c = ground (arith, ask_and_kill-Consented none 0 h c)
  recover-Consented (t ∷ ts) h c =
      let asked = ask_and_kill-Consented (some t) t h c in
      ground (arith, asked, recover-Consented ts (create ∷ (ask_and_kill ans (some t) t h).1) asked)

  length-ask_and_kill :
      (shown : Option ℕ) (ms : ℕ) (h : List Request)
      → length (ask_and_kill ans shown ms h).1 ≤ length h + 2
  unfolding ask_and_kill
  length-ask_and_kill shown ms h = ground arith

  length-recover :
      (ts : List ℕ) (h : List Request) → length (recover ans ts h).1 ≤ length h + 3 * length ts + 3
  unfolding recover
  length-recover [] h = ground (arith, length-ask_and_kill none 0 h)
  length-recover (t ∷ ts) h = ground (
    arith,
    length-ask_and_kill (some t) t h,
    length-recover ts (create ∷ (ask_and_kill ans (some t) t h).1),
  )

  -- Whatever the daemon and the user answer: every kill of idle shells stands right behind a prompt
  -- that the user answered with a yes, and there are 10 requests at most.
  pub create_shell_with_fd_recovery-Consented :
      let h = (create_shell_with_fd_recovery ans).1 in Consented h × (length h ≤ 10)
  unfolding create_shell_with_fd_recovery
  create_shell_with_fd_recovery-Consented = ground (
    arith,
    recover-Consented fd_limit_tiers_ms (create ∷ []) tt,
    length-recover fd_limit_tiers_ms (create ∷ []),
  )
