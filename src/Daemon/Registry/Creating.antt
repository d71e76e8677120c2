-- ===== src/Daemon/Registry/Creating.antt =====
-- `create_shell`: the new shell, the errors, and the registry's invariant.
use livesh.Prelude.{
  ◌+◌, ◌≤◌, ℕ, ◌<◌, ◌≡◌, refl, ap, Bool, Option, none, some, List, ◌∷◌, arith, length, Bytes,
  Bool-cases, inl, inr, leb, [], codes, sym, ◌∙◌, eq_bytes_refl,
}
use livesh.Prelude.Dict.{
  Dict, lookup, lookup-insert, insert, AllEntries-insert, length-insert, insert-IsDistinct,
}
use livesh.Prelude.Result.{ok}
use livesh.Protocol.{ShellId}
use livesh.Protocol.Ids.{fresh_shell_id}
use livesh.Terminal.{Vt100}
use livesh.Daemon.Os.{Os, Spawned, failed, started}
use livesh.Daemon.Shell
use livesh.Daemon.Shell.{ShellState}
use livesh.Daemon.Shell.Live.{IsLive, new-IsLive}
use livesh.Daemon.Shell.Attaching.{new_attach_id}
use livesh.Daemon.Env.{CommandBuilder, child_command}
use livesh.Daemon.Registry.{
  Registry, Daemon, create_shell, make_shell, with_child, register, open_shell, restore_argv, named,
}
use livesh.Daemon.Registry.Opening.{open_shell-free}
use livesh.Daemon.Registry.Sound.{IsSound, IsSound-length}

module _ {P : Type 0} (vt : Vt100 P) (reg : Registry) (os : Os) where
  insert_new-IsSound :
      {k n : ℕ} (id : ShellId) (s : ShellState P) (m : Dict (ShellState P))
      → length m < n
      → IsLive reg.config.limits id s
      → IsSound reg.config.limits k m
      → IsSound reg.config.limits n (insert id s m)
  insert_new-IsSound id s m l h v = record {
    counted = omega (arith, l, length-insert id s m);
    distinct = insert-IsDistinct id s m v.distinct;
    live = AllEntries-insert (IsLive reg.config.limits) id s m v.live h;
  }

  register_states :
      (s : ShellState P) (d : Daemon P) → (register vt reg os s d).1.states ≡ insert s.id s d.states
  unfolding register
  register_states s d = ground arith

  with_child-IsSound :
      {k n : ℕ} (sp : Spawned) (id : ShellId) (name cwd shell_path : Bytes) (cols rows : ℕ)
      → (d : Daemon P) → length d.states < n
      → IsSound reg.config.limits k d.states
      → IsSound reg.config.limits n
          (with_child vt reg os sp id name cwd shell_path cols rows d).1.states
  unfolding with_child Shell.new
  with_child-IsSound (failed message) id name cwd shell_path cols rows d l v =
      IsSound-length d.states (omega (arith, l)) v
  with_child-IsSound (started fd pid) id name cwd shell_path cols rows d l v =
      let s = Shell.new vt os id name cwd shell_path fd pid cols rows reg.config.limits in
      let live = new-IsLive vt os reg.config.limits id name cwd shell_path fd pid cols rows in
      rw (register_states s d, live.same_id) (insert_new-IsSound id s d.states l live v)

  -- Without the test there may be a shell more.
  pub make_shell-IsSound :
      {C : Type 0} {n : ℕ} (cb : CommandBuilder C) (d : Daemon P) (name : Option Bytes)
      → (cwd shell_path : Bytes) (env : List (Bytes × Bytes)) (cols rows : ℕ)
      → IsSound reg.config.limits n d.states
      → IsSound reg.config.limits
          (n + 1)
          (make_shell vt reg os cb d name cwd shell_path env cols rows).1.states
  unfolding make_shell
  make_shell-IsSound cb d name cwd shell_path env cols rows v =
      with_child-IsSound _ (fresh_shell_id os.uuid) _ cwd shell_path cols rows d
        (omega (arith, v.counted)) v

  pub create_shell-IsSound :
      {C : Type 0} {n : ℕ} (cb : CommandBuilder C) (d : Daemon P) (name : Option Bytes)
      → (cwd shell_path : Bytes) (env : List (Bytes × Bytes)) (cols rows : ℕ)
      → reg.config.limits.max_shells ≤ n
      → IsSound reg.config.limits n d.states
      → IsSound reg.config.limits n
          (create_shell vt reg os cb d name cwd shell_path env cols rows).1.states
  unfolding create_shell make_shell
  create_shell-IsSound cb d name cwd shell_path env cols rows l v =
      elim (Bool-cases (leb reg.config.limits.max_shells (length d.states))) [
        | inl e ↦ rw (e, create_shell) v
        | inr e ↦
            rw (e, create_shell)
              (with_child-IsSound _ (fresh_shell_id os.uuid) _ cwd shell_path cols rows d
                (ground (arith, e, l)) v)
      ]

  -- What a creation that succeeds answers, and the shell that it leaves in the map.
  record Created (d' : Daemon P) (r : ShellId × Bytes × List Bytes) (cwd : Bytes) : Type 0 where
    pub id : r.0 ≡ fresh_shell_id os.uuid
    pub argv : r.2 ≡ restore_argv vt reg os (r.0)
    pub shell : ShellState P
    pub registered : lookup (r.0) d'.states ≡ some shell
    pub free : shell.attach ≡ none
    pub at : shell.cwd ≡ cwd

  register-eq-ok :
      (s : ShellState P) (d : Daemon P) {r : ShellId × Bytes × List Bytes} {d' : Daemon P}
      → register vt reg os s d ≡ (ok r, d')
      → (r ≡ (s.id, s.name, restore_argv vt reg os s.id)) × (d'.states ≡ insert s.id s d.states)
  unfolding register
  register-eq-ok s d h = ground arith

  with_child-eq-ok :
      (sp : Spawned) (id : ShellId) (name cwd shell_path : Bytes) (cols rows : ℕ) (d : Daemon P)
      → {r : ShellId × Bytes × List Bytes} {d' : Daemon P} → id ≡ fresh_shell_id os.uuid
      → with_child vt reg os sp id name cwd shell_path cols rows d ≡ (ok r, d')
      → Created d' r cwd
  unfolding with_child Shell.new
  with_child-eq-ok (failed message) id name cwd shell_path cols rows d same h =
      absurd (ground arith)
  with_child-eq-ok (started fd pid) id name cwd shell_path cols rows d {r} {d'} same h =
      let s = Shell.new vt os id name cwd shell_path fd pid cols rows reg.config.limits in
      let (result, states) = register-eq-ok s d {r = r} {d' = d'} h in
      let its_id : r.0 ≡ id = ap (λ x. x.0) result in
      record {
        id = its_id ∙ same;
        argv = ap (λ x. x.2) result ∙ ap (restore_argv vt reg os) (sym its_id);
        shell = s;
        registered =
            rw (states, its_id) (lookup-insert id id s d.states ∙ rw (eq_bytes_refl id) refl);
        free = refl;
        at = refl;
      }

  -- A shell that was created can be opened: the creation answers with the id of the UUID and the
  -- command that opens it, and whoever opens that id next gets it, with a new attach.
  pub open_shell-create_shell :
      {C : Type 0} (cb : CommandBuilder C) (d : Daemon P) (name : Option Bytes)
      → (cwd shell_path : Bytes) (env : List (Bytes × Bytes)) (cols rows : ℕ)
      → {id : ShellId} {given : Bytes} {argv : List Bytes} {d' : Daemon P}
      → create_shell vt reg os cb d name cwd shell_path env cols rows ≡ (ok (id, given, argv), d')
      → (os' : Os) (steal : Bool) (tx : ℕ)
      → (id ≡ fresh_shell_id os.uuid)
        × (argv ≡ codes "livesh" ∷ codes "--open" ∷ id ∷ [])
        × ((open_shell vt reg os' d' id cols rows steal tx).0 ≡ ok (new_attach_id vt os'))
  unfolding create_shell make_shell
  open_shell-create_shell cb d name cwd shell_path env cols rows {id} {given} {argv} {d'} h os'
        steal tx =
      elim (Bool-cases (leb reg.config.limits.max_shells (length d.states))) [
        | inl e ↦ absurd (ground arith)
        | inr e ↦
            let fresh = fresh_shell_id os.uuid in
            let cmd = child_command cb reg.strip_prefix_env shell_path cwd env fresh in
            let sp = os.spawn shell_path cwd (cb.full_env cmd) rows cols in
            let child : with_child vt reg os sp fresh (named vt reg os name) cwd shell_path cols
                  rows d
                ≡ (ok (id, given, argv), d') =
              ground arith in
            let made =
              with_child-eq-ok sp fresh (named vt reg os name) cwd shell_path cols rows d refl
                child in
            (
              made.id,
              made.argv,
              open_shell-free vt reg os' d' id made.shell cols rows steal tx made.registered
                  made.free,
            )
      ]
