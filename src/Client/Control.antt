-- ===== src/Client/Control.antt =====
-- What `liveshctl` does over its connection: to kill a shell and to list those that there are.
use livesh.Prelude.{
  ℕ, ◌≡◌, refl, ap, ◌∙◌, sym, Option, none, some, List, [], ◌∷◌, ◌++◌, ◌⊎◌, inl, inr, append_assoc,
  append-nil, Option-cases,
}
use livesh.Prelude.Dict.{lookup, AllEntries, AllEntries-lookup}
use livesh.Prelude.Result.{Result, ok, err}
use livesh.Protocol.{ShellId, ClientMsg, ServerMsg, shell_list}
use livesh.Terminal.{Vt100}
use livesh.Daemon.Os.{Os}
use livesh.Daemon.Env.{CommandBuilder}
use livesh.Daemon.Errors.{classify_error}
use livesh.Daemon.Shell
use livesh.Daemon.Shell.{ShellState, Sent, Attach, sent_exit}
use livesh.Daemon.Registry
use livesh.Daemon.Registry.{Registry, Daemon, terminate, shell_not_found}
use livesh.Daemon.Registry.Killing.{states-terminate}
use livesh.Daemon.Server.{Server, handle_event, handle_msg, answer}
use livesh.Client
use livesh.Client.{Codecs, ClientError, server, ok_answer, list_answer}
use livesh.Client.Calls.{IsLawful, joined, call-joined}
use livesh.Client.Session.{Framed, IsElsewhere, sent_to_self}
use livesh.Client.Wire.{sent_to, write_replies, wire}

-- What a client is told of a result.
abbrev pub told : Result (Unit {0}) → Unit {0} ⊎ ClientError
told (ok u) = inl tt
told (err e) = inr (server (classify_error e) e)

abbrev pub to_answer : Result (Unit {0}) → ServerMsg
to_answer (ok u) = ServerMsg.ok
to_answer (err e) = ServerMsg.error (classify_error e) e

ok_answer-to_answer : (r : Result (Unit {0})) → ok_answer (to_answer r) ≡ told r
ok_answer-to_answer (ok u) = refl
ok_answer-to_answer (err e) = refl

module _ {P : Type 0} where
  sent-answer :
      (tx : ℕ) (r : Result (Unit {0})) (d : Daemon P)
      → (answer tx (r, d)).sent ≡ d.sent ++ ((tx, to_answer r) ∷ [])
  sent-answer tx (ok u) d = refl
  sent-answer tx (err e) d = refl

  sent-terminate : (pid : Option ℕ) (d : Daemon P) → (terminate pid d).sent ≡ d.sent
  sent-terminate none d = refl
  sent-terminate (some pid) d = refl

  -- What the client of the shell is told.
  abbrev told_of : Option (ShellState P) → ShellId → List Sent
  told_of none id = []
  told_of (some s) id = sent_exit s.attach s.id none

  sent-cleanup_shell :
      (reg : Registry) (d : Daemon P) (id : ShellId)
      → (Registry.cleanup_shell reg d id none).sent ≡ d.sent ++ told_of (lookup id d.states) id
  unfolding Registry.cleanup_shell Shell.mark_exited
  sent-cleanup_shell reg d id = elim (Option-cases (lookup id d.states)) [
    | inl e ↦ rw (Registry.cleanup_shell, e) (sym (append-nil d.sent))
    | inr (s, e) ↦ rw (Registry.cleanup_shell, e) refl
  ]

  sent-kill_shell :
      (reg : Registry) (d : Daemon P) (id : ShellId)
      → (Registry.kill_shell reg d id).1.sent ≡ d.sent ++ told_of (lookup id d.states) id
  unfolding Registry.kill_shell
  sent-kill_shell reg d id = elim (Option-cases (lookup id d.states)) [
    | inl e ↦ rw (Registry.kill_shell, e) (sym (append-nil d.sent))
    | inr (s, e) ↦
        rw (Registry.kill_shell, e)
          (sent-cleanup_shell reg (terminate s.pid d) id
            ∙ rw (sent-terminate s.pid d, states-terminate s.pid d, e) refl)
  ]

  sent_to-told_of :
      (tx : ℕ) (o : Option (ShellState P)) (id : ShellId) (sent : List Sent)
      → ((s : ShellState P) → o ≡ some s → IsElsewhere tx s.attach)
      → sent_to tx (told_of o id ++ sent) ≡ sent_to tx sent
  unfolding sent_to sent_exit
  sent_to-told_of tx none id sent h = refl
  sent_to-told_of tx (some s) id sent h = quiet s.attach (h s refl)
    where
      quiet :
          (a : Option Attach)
          → IsElsewhere tx a
          → sent_to tx (sent_exit a s.id none ++ sent) ≡ sent_to tx sent
      quiet none h = refl
      quiet (some a) h = rw h refl

-- The daemon and its clients behind `kill_shell`, with the answer in the log.
abbrev pub killed : {P : Type 0} → Registry → ℕ → Server P → ShellId → Server P
killed reg tx v id = record v { daemon = answer tx (Registry.kill_shell reg v.daemon id) }

module _ {P C : Type 0} (vt : Vt100 P) (cb : CommandBuilder C) (reg : Registry) (codecs : Codecs)
    (lawful : IsLawful codecs) (tx : ℕ) (os : Os) (v : Server P) where
  -- A client that is attached to no shell asks for it to be killed, over a connection where
  -- nothing is under way, and the messages fit into frames: it is told what the registry answered,
  -- success or the error with its code, the registry has then done just that, and nothing is left to
  -- be read.
  pub expect_ok-kill_shell :
      (id : ShellId)
      → AllEntries (λ i s. IsElsewhere tx s.attach) v.daemon.states
      → Framed codecs.client_msg (ClientMsg.kill_shell id)
      → Framed codecs.server_msg (to_answer (Registry.kill_shell reg v.daemon id).0)
      → Client.expect_ok
          (wire vt cb reg codecs os tx)
          codecs
          (joined v [])
          (ClientMsg.kill_shell id)
        ≡ (told (Registry.kill_shell reg v.daemon id).0, joined (killed reg tx v id) [])
  unfolding Client.expect_ok handle_event handle_msg write_replies sent_to
  expect_ok-kill_shell id elsewhere request framed =
      let r = Registry.kill_shell reg v.daemon id in
      let before = told_of (lookup id v.daemon.states) id in
      let sent : (killed reg tx v id).daemon.sent
          ≡ v.daemon.sent ++ (before ++ ((tx, to_answer r.0) ∷ [])) =
        sent-answer tx r.0 r.1
        ∙ ap (λ ms. ms ++ ((tx, to_answer r.0) ∷ [])) (sent-kill_shell reg v.daemon id)
        ∙ append_assoc v.daemon.sent before ((tx, to_answer r.0) ∷ []) in
      let ours =
        sent_to-told_of tx (lookup id v.daemon.states) id ((tx, to_answer r.0) ∷ [])
          (λ s. AllEntries-lookup (λ i t. IsElsewhere tx t.attach) id v.daemon.states elsewhere)
        ∙ sent_to_self tx (to_answer r.0) [] in
      call-joined vt cb reg codecs os tx lawful v request.0 framed.0 [] (ClientMsg.kill_shell id)
        (to_answer r.0) [] _ request.1 sent ours framed.1 refl ok_answer
      ∙ ap (λ a. (a, joined (killed reg tx v id) [])) (ok_answer-to_answer r.0)

  -- A client lists the shells over a connection where nothing is under way, and the list fits into a
  -- frame: it gets the registry's list, which stays as it is.
  pub list_shells-joined :
      Framed codecs.client_msg ClientMsg.list_shells
      → Framed codecs.server_msg (shell_list (Registry.list v.daemon))
      → let r = Client.list_shells (wire vt cb reg codecs os tx) codecs (joined v []) in
        (r.0 ≡ inl (Registry.list v.daemon)) × (r.1.server.daemon.states ≡ v.daemon.states)
  unfolding Client.list_shells handle_event handle_msg write_replies sent_to
  list_shells-joined request framed =
      let r =
        call-joined vt cb reg codecs os tx lawful v request.0 framed.0 [] ClientMsg.list_shells
          (shell_list (Registry.list v.daemon)) [] _ request.1 refl
          (sent_to_self tx (shell_list (Registry.list v.daemon)) []) framed.1 refl list_answer in
      rw (Client.list_shells, r) (refl, refl)
