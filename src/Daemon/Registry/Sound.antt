-- ===== src/Daemon/Registry/Sound.antt =====
-- The registry's invariant: at most a number of shells, each under its own
-- id, running, with an open terminal and a bounded history. Every operation keeps it.
use livesh.Prelude.{
  ℕ, ◌≤◌, ◌≡◌, Bool, true, Option, none, some, [], ◌∷◌, arith, length, Bytes, Option-cases,
  Bool-cases, inl, inr, subst, eq_bytes_refl, eq_bytes_iff,
}
use livesh.Prelude.Dict.{
  Dict, lookup, insert, remove, AllEntries, AllEntries-lookup, AllEntries-insert, AllEntries-remove,
  length-insert_self, length-remove, IsDistinct, insert-IsDistinct, remove-IsDistinct,
}
use livesh.Protocol.{ShellId, AttachId, ExitCode}
use livesh.Limits.{Limits}
use livesh.Terminal.{Vt100}
use livesh.Daemon.Os.{Os}
use livesh.Daemon.Shell
use livesh.Daemon.Shell.{ShellState}
use livesh.Daemon.Shell.Live.{IsLive, resize-IsLive, attach-IsLive, detach-IsLive, rename-IsLive}
use livesh.Daemon.Registry.{
  Registry, Daemon, terminate, find_attach, state_for_attach, detach, cleanup_shell, kill_shell,
  rename, write_input, open_shell, resize,
}

pub record IsSound {P : Type 0} (limits : Limits) (n : ℕ) (m : Dict (ShellState P)) : Type 0 where
  pub counted : length m ≤ n
  pub distinct : IsDistinct m
  pub live : AllEntries (IsLive limits) m

-- The number may be any that is not under the number of the shells.
pub IsSound-length :
    {P : Type 0} {limits : Limits} {k n : ℕ} (m : Dict (ShellState P))
    → length m ≤ n
    → IsSound limits k m
    → IsSound limits n m
IsSound-length m l v = record { counted = l; distinct = v.distinct; live = v.live }

module _ {P : Type 0} where
  -- What `state_for_attach` finds is the entry of its key, and has the attach.
  pub find_attach-lookup :
      (attach_id : AttachId) (id : ShellId) (s : ShellState P) (m : Dict (ShellState P))
      → IsDistinct m
      → find_attach attach_id m ≡ some (id, s)
      → (lookup id m ≡ some s) × (Shell.has_attach s attach_id ≡ true)
  unfolding lookup
  find_attach-lookup attach_id id s [] u h = cc
  find_attach-lookup attach_id id s ((j, t) ∷ m) u h =
      elim (Bool-cases (Shell.has_attach t attach_id)) [
        | inl e ↦
            let same_id : j ≡ id = ground arith in
            let same : t ≡ s = ground arith in
            (
              ground (arith, same_id, same, eq_bytes_refl id),
              subst (λ (x : ShellState P). Shell.has_attach x attach_id ≡ true) same e,
            )
        | inr e ↦
            let (found, has) = find_attach-lookup attach_id id s m u.1 (ground arith) in
            (ground (arith, eq_bytes_iff j id, u.0, found), has)
      ]

module _ {P : Type 0} {limits : Limits} {n : ℕ} where
  pub replace-IsSound :
      (id : ShellId) (s' : ShellState P) {s : ShellState P} (m : Dict (ShellState P))
      → lookup id m ≡ some s
      → IsLive limits id s'
      → IsSound limits n m
      → IsSound limits n (insert id s' m)
  replace-IsSound id s' {s} m e l v = record {
    counted = omega (arith, v.counted, length-insert_self id s' {w = s} m e);
    distinct = insert-IsDistinct id s' m v.distinct;
    live = AllEntries-insert (IsLive limits) id s' m v.live l;
  }

  pub remove-IsSound :
      (id : ShellId) (m : Dict (ShellState P)) → IsSound limits n m → IsSound limits n (remove id m)
  remove-IsSound id m v = record {
    counted = omega (arith, v.counted, length-remove id m);
    distinct = remove-IsDistinct id m v.distinct;
    live = AllEntries-remove (IsLive limits) id m v.live;
  }

  pub IsLive-lookup :
      (id : ShellId) {s : ShellState P} (m : Dict (ShellState P))
      → IsSound limits n m
      → lookup id m ≡ some s
      → IsLive limits id s
  IsLive-lookup id m v e = AllEntries-lookup (IsLive limits) id m v.live e

  pub cleanup_shell-IsSound :
      (reg : Registry) (d : Daemon P) (id : ShellId) (exit_code : Option ExitCode)
      → IsSound limits n d.states
      → IsSound limits n (cleanup_shell reg d id exit_code).states
  unfolding cleanup_shell
  cleanup_shell-IsSound reg d id exit_code v = elim (Option-cases (lookup id d.states)) [
    | inl e ↦ rw (e, cleanup_shell) v
    | inr (s, e) ↦ rw (e, cleanup_shell) (remove-IsSound id d.states v)
  ]

  pub terminate-IsSound :
      (pid : Option ℕ) (d : Daemon P)
      → IsSound limits n d.states
      → IsSound limits n (terminate pid d).states
  terminate-IsSound none d v = v
  terminate-IsSound (some pid) d v = v

  pub kill_shell-IsSound :
      (reg : Registry) (d : Daemon P) (id : ShellId)
      → IsSound limits n d.states
      → IsSound limits n (kill_shell reg d id).1.states
  unfolding kill_shell
  kill_shell-IsSound reg d id v = elim (Option-cases (lookup id d.states)) [
    | inl e ↦ rw (e, kill_shell) v
    | inr (s, e) ↦
        rw (e, kill_shell)
          (cleanup_shell-IsSound reg (terminate s.pid d) id none (terminate-IsSound s.pid d v))
  ]

  pub detach-IsSound :
      (d : Daemon P) (attach_id : AttachId)
      → IsSound limits n d.states
      → IsSound limits n (detach d attach_id).states
  unfolding detach state_for_attach
  detach-IsSound d attach_id v = elim (Option-cases (find_attach attach_id d.states)) [
    | inl e ↦ rw (e, detach) v
    | inr ((id, s), e) ↦
        let found = (find_attach-lookup attach_id id s d.states v.distinct e).0 in
        rw (e, detach)
          (replace-IsSound id (Shell.detach s attach_id) d.states found
            (detach-IsLive attach_id (IsLive-lookup id d.states v found)) v)
  ]

  pub rename-IsSound :
      (reg : Registry) (os : Os) (d : Daemon P) (id : ShellId) (name : Bytes)
      → IsSound limits n d.states
      → IsSound limits n (rename reg os d id name).1.states
  unfolding rename
  rename-IsSound reg os d id name v = elim (Option-cases (lookup id d.states)) [
    | inl e ↦ rw (e, rename) v
    | inr (s, e) ↦
        rw (e, rename)
          (replace-IsSound id (record s { name = name }) d.states e
            (rename-IsLive name (IsLive-lookup id d.states v e)) v)
  ]

  pub write_input-IsSound :
      (os : Os) (d : Daemon P) (attach_id : AttachId) (bytes : Bytes)
      → IsSound limits n d.states
      → IsSound limits n (write_input os d attach_id bytes).1.states
  unfolding write_input
  write_input-IsSound os d attach_id bytes v = elim (Option-cases (state_for_attach d attach_id)) [
    | inl e ↦ rw (e, write_input) v
    | inr ((id, s), e) ↦ rw (e, write_input) (ground (arith, v))
  ]

module _ {P : Type 0} {limits : Limits} {n : ℕ} (vt : Vt100 P) (reg : Registry) (os : Os) where
  pub open_shell-IsSound :
      (d : Daemon P) (id : ShellId) (cols rows : ℕ) (steal : Bool) (tx : ℕ)
      → IsSound limits n d.states
      → IsSound limits n (open_shell vt reg os d id cols rows steal tx).1.states
  unfolding open_shell
  open_shell-IsSound d id cols rows steal tx v = elim (Option-cases (lookup id d.states)) [
    | inl e ↦ rw (e, open_shell) v
    | inr (s, e) ↦
        rw (e, open_shell)
          (replace-IsSound id (Shell.attach vt os s cols rows steal tx).1 d.states e
            (attach-IsLive vt os limits cols rows steal tx (IsLive-lookup id d.states v e)) v)
  ]

  pub resize-IsSound :
      (d : Daemon P) (attach_id : AttachId) (cols rows : ℕ)
      → IsSound limits n d.states
      → IsSound limits n (resize vt reg os d attach_id cols rows).1.states
  unfolding resize state_for_attach
  resize-IsSound d attach_id cols rows v = elim (Option-cases (find_attach attach_id d.states)) [
    | inl e ↦ rw (e, resize) v
    | inr ((id, s), e) ↦
        let found = (find_attach-lookup attach_id id s d.states v.distinct e).0 in
        rw (e, resize)
          (replace-IsSound id (Shell.resize vt os s cols rows).1 d.states found
            (resize-IsLive vt os limits cols rows (IsLive-lookup id d.states v found)) v)
  ]
