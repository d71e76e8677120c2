-- ===== src/Daemon/Registry/Opening.antt =====
-- `open_shell` and what may be done with the attach that it gives: who may write, and who may not.
use livesh.Prelude.{
  ℕ, ◌≡◌, refl, ap, ◌∙◌, Bool, true, false, none, some, [], ◌∷◌, ◌++◌, arith, Bytes, Bool-cases,
  inl, inr, subst, eq_bytes, eq_bytes_iff, eq_bytes_refl, if◌then◌else◌,
}
use livesh.Prelude.Dict.{Dict, lookup, lookup-insert, insert, remove, IsDistinct}
use livesh.Prelude.Result.{ok, err}
use livesh.Protocol.{ShellId, AttachId}
use livesh.Terminal.{Vt100}
use livesh.Daemon.Os.{Os}
use livesh.Daemon.Shell
use livesh.Daemon.Shell.{ShellState, Attach}
use livesh.Daemon.Shell.Attaching.{new_attach_id, attach-steal, attach-free}
use livesh.Daemon.Registry.Sound.{find_attach-lookup}
use livesh.Daemon.Registry.{
  detach, put_shell, Registry, Daemon, find_attach, state_for_attach, attach_not_found, open_shell,
  write_input, write_found,
}

module _ {P : Type 0} where
  remove_absent : (k : Bytes) (m : Dict (ShellState P)) → lookup k m ≡ none → remove k m ≡ m
  unfolding lookup remove
  remove_absent k [] h = refl
  remove_absent k ((j, s) ∷ m) h = ground (arith, remove_absent k m)

  -- An attach that no other shell has is that of the shell written last, if it has it.
  pub find_attach-insert :
      (attach_id : AttachId) (id : ShellId) (s : ShellState P) (m : Dict (ShellState P))
      → IsDistinct m
      → find_attach attach_id (remove id m) ≡ none
      → find_attach attach_id (insert id s m)
        ≡ (if Shell.has_attach s attach_id then some (id, s) else none)
  unfolding insert remove
  find_attach-insert attach_id id s [] u h = refl
  find_attach-insert attach_id id s ((j, t) ∷ m) u h = elim (Bool-cases (eq_bytes j id)) [
    | inl e ↦
        let same : j ≡ id = (eq_bytes_iff j id).0 e in
        let absent : lookup id m ≡ none = subst (λ i. lookup i m ≡ none) same u.0 in
        let gone : find_attach attach_id m ≡ none =
          subst (λ n. find_attach attach_id n ≡ none) (remove_absent id m absent)
            (ground (arith, h)) in
        rw (e, gone) refl
    | inr e ↦
        let other : Shell.has_attach t attach_id ≡ false = ground arith in
        let rest = find_attach-insert attach_id id s m u.1 (ground arith) in
        rw (e, find_attach, other, rest) refl
  ]

  write_input_found :
      (os : Os) (d : Daemon P) (attach_id : AttachId) (bytes : Bytes) {id : ShellId}
      → (s : ShellState P) (fd : ℕ) → find_attach attach_id d.states ≡ some (id, s)
      → s.master ≡ some fd
      → os.write_pty fd bytes ≡ none
      → write_input os d attach_id bytes
        ≡ (ok tt, record d { written = d.written ++ ((fd, bytes) ∷ []) })
  unfolding write_input state_for_attach Shell.write_input write_found
  write_input_found os d attach_id bytes s fd h e free =
      let accepted : Shell.write_input os s bytes ≡ ok tt = ground arith in
      rw (write_input, h, write_found, accepted, e) refl

  write_input_absent :
      (os : Os) (d : Daemon P) (attach_id : AttachId) (bytes : Bytes)
      → find_attach attach_id d.states ≡ none
      → write_input os d attach_id bytes ≡ (err (attach_not_found attach_id), d)
  unfolding write_input state_for_attach
  write_input_absent os d attach_id bytes h = rw (write_input, h) refl

module _ {P : Type 0} (vt : Vt100 P) (reg : Registry) (os : Os) (d : Daemon P) (id : ShellId)
    (s : ShellState P) (cols rows tx : ℕ) (found : lookup id d.states ≡ some s)
    (distinct : IsDistinct d.states) where
  -- With an attach that no other shell has, the client's input goes to the shell that it opened.
  pub open_shell-write_input :
      (os' : Os) (bytes : Bytes) (fd : ℕ)
      → s.master ≡ some fd
      → find_attach (new_attach_id vt os) (remove id d.states) ≡ none
      → os'.write_pty fd bytes ≡ none
      → let opened = open_shell vt reg os d id cols rows true tx in
        (opened.0 ≡ ok (new_attach_id vt os))
        × (write_input os' opened.1 (new_attach_id vt os) bytes
            ≡ (ok tt, record (opened.1) { written = d.written ++ ((fd, bytes) ∷ []) }))
  unfolding open_shell Shell.has_attach
  open_shell-write_input os' bytes fd is_open fresh free =
      let (opened, attached, master) = attach-steal vt os s cols rows tx in
      let s' = (Shell.attach vt os s cols rows true tx).1 in
      let has : Shell.has_attach s' (new_attach_id vt os) ≡ true =
        rw (Shell.has_attach, attached) (eq_bytes_refl (new_attach_id vt os)) in
      rw (open_shell, found)
        (
          opened,
          write_input_found os' _ (new_attach_id vt os) bytes {id = id} s' fd
              (rw (find_attach-insert (new_attach_id vt os) id s' d.states distinct fresh, has)
                refl)
              (master ∙ is_open) free,
        )

  -- A stolen shell takes no input from the client that had it.
  pub open_shell-steal :
      (os' : Os) (bytes : Bytes) (a : Attach)
      → s.attach ≡ some a
      → find_attach a.id (remove id d.states) ≡ none
      → eq_bytes (new_attach_id vt os) a.id ≡ false
      → let opened = open_shell vt reg os d id cols rows true tx in
        write_input os' opened.1 a.id bytes ≡ (err (attach_not_found a.id), opened.1)
  unfolding open_shell Shell.has_attach
  open_shell-steal os' bytes a had only other =
      let (opened, attached, master) = attach-steal vt os s cols rows tx in
      let s' = (Shell.attach vt os s cols rows true tx).1 in
      let hasnt : Shell.has_attach s' a.id ≡ false = rw (Shell.has_attach, attached) other in
      rw (open_shell, found)
        (write_input_absent os' _ a.id bytes
          (rw (find_attach-insert a.id id s' d.states distinct only, hasnt) refl))

module _ {P : Type 0} (vt : Vt100 P) (reg : Registry) (os : Os) where
  -- A shell without a client can be opened by any client, stealing or not.
  pub open_shell-free :
      (d : Daemon P) (id : ShellId) (s : ShellState P) (cols rows : ℕ) (steal : Bool) (tx : ℕ)
      → lookup id d.states ≡ some s
      → s.attach ≡ none
      → (open_shell vt reg os d id cols rows steal tx).0 ≡ ok (new_attach_id vt os)
  unfolding open_shell
  open_shell-free d id s cols rows steal tx found free =
      rw (open_shell, found) (attach-free vt os s cols rows steal tx free)

module _ {P : Type 0} where
  -- After a detach the client's input is refused, and the shell that it had is as it was, without a
  -- client, if no other shell has the attach.
  pub write_input-detach :
      (os : Os) (d : Daemon P) (attach_id : AttachId) (id : ShellId) (s : ShellState P)
      → (bytes : Bytes) → IsDistinct d.states
      → find_attach attach_id d.states ≡ some (id, s)
      → find_attach attach_id (remove id d.states) ≡ none
      → (write_input os (detach d attach_id) attach_id bytes
          ≡ (err (attach_not_found attach_id), detach d attach_id))
        × (lookup id (detach d attach_id).states ≡ some (record s { attach = none }))
  unfolding detach state_for_attach Shell.detach Shell.has_attach
  write_input-detach os d attach_id id s bytes distinct h only =
      let has = (find_attach-lookup attach_id id s d.states distinct h).1 in
      let s' : ShellState P = record s { attach = none } in
      let gave_up : Shell.detach s attach_id ≡ s' = ground (arith, has) in
      let step : detach d attach_id ≡ put_shell id s' d =
        rw (detach, h) (ap (λ t. put_shell id t d) gave_up) in
      rw step (
        write_input_absent os (put_shell id s' d) attach_id bytes
            (find_attach-insert attach_id id s' d.states distinct only),
        lookup-insert id id s' d.states ∙ rw (eq_bytes_refl id) refl,
      )
