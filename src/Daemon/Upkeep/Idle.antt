-- ===== src/Daemon/Upkeep/Idle.antt =====
-- `kill_idle_detached`: which shells it takes, and which it leaves.
use livesh.Prelude.{
  ℕ, ◌-◌, ◌≡◌, ◌⊎◌, refl, sym, ap, ◌∙◌, Bool, true, false, Option, none, some, List, [], ◌∷◌, arith,
  Bool-cases, Option-cases, subst, inl, inr, eq_bytes, eq_bytes_iff, any, if◌then◌else◌, ◌&&◌, leb,
}
use livesh.Prelude.Dict.{Dict, lookup, lookup-remove, IsDistinct}
use livesh.Protocol.{ShellId, ExitCode}
use livesh.Daemon.Os.{Os}
use livesh.Daemon.Shell
use livesh.Daemon.Shell.{ShellState}
use livesh.Daemon.Registry.{Registry, Daemon, cleanup_shell, terminate}
use livesh.Daemon.Upkeep.{is_idle, victims, kill_all, kill_idle_detached}

abbrev named_in : ShellId → List (ShellId × Option ℕ) → Bool
named_in id vs = any (λ v. eq_bytes (v.0) id) vs

module _ {P : Type 0} (reg : Registry) where
  -- The shell of the id is gone, and every other one as it was.
  pub lookup-cleanup_shell :
      (d : Daemon P) (k id : ShellId) (exit_code : Option ExitCode)
      → lookup id (cleanup_shell reg d k exit_code).states
        ≡ (if eq_bytes k id then none else lookup id d.states)
  unfolding cleanup_shell
  lookup-cleanup_shell d k id exit_code = elim (Option-cases (lookup k d.states)) [
    | inl e ↦ rw (cleanup_shell, e) (absent (Bool-cases (eq_bytes k id)) e)
    | inr (s, e) ↦ rw (cleanup_shell, e) (lookup-remove k id d.states)
  ]
    where
      absent :
          (eq_bytes k id ≡ true) ⊎ (eq_bytes k id ≡ false)
          → lookup k d.states ≡ none
          → lookup id d.states ≡ (if eq_bytes k id then none else lookup id d.states)
      absent (inl h) e = rw h (ap (λ i. lookup i d.states) (sym ((eq_bytes_iff k id).0 h)) ∙ e)
      absent (inr h) e = rw h refl

  terminate_states : (pid : Option ℕ) (d : Daemon P) → (terminate pid d).states ≡ d.states
  terminate_states none d = refl
  terminate_states (some pid) d = refl

  lookup-kill_all :
      (vs : List (ShellId × Option ℕ)) (d : Daemon P) (id : ShellId)
      → lookup id (kill_all reg vs d).states ≡ (if named_in id vs then none else lookup id d.states)
  unfolding kill_all
  lookup-kill_all [] d id = refl
  lookup-kill_all ((k, pid) ∷ vs) d id = ground (
    arith,
    lookup-kill_all vs (cleanup_shell reg (terminate pid d) k none) id,
    lookup-cleanup_shell (terminate pid d) k id none,
    terminate_states pid d,
  )

abbrev pub is_none : {A : Type 0} → Option A → Bool
is_none none = true
is_none (some a) = false

module _ {P : Type 0} (cutoff : ℕ) where
  not_victim :
      (m : Dict (ShellState P)) (id : ShellId)
      → lookup id m ≡ none
      → named_in id (victims cutoff m) ≡ false
  unfolding lookup
  not_victim [] id h = refl
  not_victim ((k, t) ∷ m) id h = ground (arith, not_victim m id)

  named_victim :
      (m : Dict (ShellState P)) (id : ShellId) (s : ShellState P)
      → IsDistinct m
      → lookup id m ≡ some s
      → named_in id (victims cutoff m) ≡ is_idle cutoff s
  unfolding lookup
  named_victim [] id s u h = absurd (ground arith)
  named_victim ((k, t) ∷ m) id s u h = elim (Bool-cases (eq_bytes k id)) [
    | inl e ↦
        let same : k ≡ id = (eq_bytes_iff k id).0 e in
        let gone : named_in id (victims cutoff m) ≡ false =
          not_victim m id (subst (λ i. lookup i m ≡ none) same u.0) in
        let here : t ≡ s = ground arith in
        let keeps : is_idle cutoff t ≡ is_idle cutoff s = ap (is_idle cutoff) here in
        ground (arith, gone, keeps, e)
    | inr e ↦ ground (arith, named_victim m id s u.1)
  ]

-- Without a client, and not active behind the cutoff.
is_idle-eq :
    {P : Type 0} (cutoff : ℕ) (s : ShellState P)
    → is_idle cutoff s ≡ (is_none s.attach && leb s.last_active_at_ms cutoff)
unfolding Shell.is_attached
is_idle-eq cutoff s = elim (Option-cases s.attach) [
  | inl e ↦ ground (arith, e)
  | inr (a, e) ↦ ground (arith, e)
]

-- Of the shells that are in the registry as the victims are collected, `kill_idle_detached` takes those
-- that had no client then and were last active `older_than_ms` before the clock or earlier, also one
-- that has got a client since; it leaves every other one as it is by then: one that had a client,
-- however old, and one without that was active since.
pub lookup-kill_idle_detached :
    {P : Type 0} (reg : Registry) (os : Os) (seen : Dict (ShellState P)) (d : Daemon P)
    → (older_than_ms : ℕ) (id : ShellId) (s : ShellState P) → IsDistinct seen
    → lookup id seen ≡ some s
    → lookup id (kill_idle_detached reg os seen d older_than_ms).1.states ≡ (
        if is_none s.attach && leb s.last_active_at_ms (os.now_ms - older_than_ms)
        then none
        else lookup id d.states)
unfolding kill_idle_detached
lookup-kill_idle_detached reg os seen d older_than_ms id s u h =
    let cutoff = os.now_ms - older_than_ms in
    rw
      (
        lookup-kill_all reg (victims cutoff seen) d id,
        named_victim cutoff seen id s u h,
        is_idle-eq cutoff s,
      )
      refl
