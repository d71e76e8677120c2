-- ===== src/Ctl/Killed.antt =====
-- The exit codes of `liveshctl`, from its arguments over the connection to the registry and back.
use livesh.Prelude.{
  ℕ, ◌≡◌, ◌≢◌, refl, ap, Bool, Option, some, List, [], ◌∷◌, inl, inr, arith, Bytes, codes,
  Option-cases, if◌then◌else◌,
}
use livesh.Prelude.Dict.{lookup, AllEntries}
use livesh.Prelude.Result.{ok}
use livesh.Protocol.{
  ErrorCode, ShellInfo, ShellId, ClientMsg, not_found, fd_limit, too_many_shells, internal,
  daemon_unavailable,
}
use livesh.Protocol.Ids
use livesh.Terminal.{Vt100}
use livesh.Args
use livesh.Args.{parse_liveshctl}
use livesh.Daemon.Os.{Os}
use livesh.Daemon.Env.{CommandBuilder}
use livesh.Daemon.Errors.{classify_error}
use livesh.Daemon.Errors.Classified.{AllPlain, classify_error-AllPlain}
use livesh.Daemon.Shell.{is_some}
use livesh.Daemon.Registry
use livesh.Daemon.Registry.{Registry, shell_not_found}
use livesh.Daemon.Server.{Server}
use livesh.Launcher.{exit_code_for_error}
use livesh.Client.{Codecs, server}
use livesh.Client.Calls.{IsLawful, joined}
use livesh.Client.Control.{expect_ok-kill_shell, killed, to_answer}
use livesh.Client.Session.{Framed, IsElsewhere}
use livesh.Client.Wire.{wire}
use livesh.Ctl.{CtlError, client, other, Opened, exit_code, perform, run}

never :
    (a b c : Bool)
    → (if a then fd_limit else if b then not_found else if c then too_many_shells else internal)
      ≢ daemon_unavailable
never a b c = ground arith

unavailable :
    (c : ErrorCode) (m : Bytes)
    → exit_code (inr (client (server c m))) ≡ 69
    → c ≡ daemon_unavailable
unfolding exit_code exit_code_for_error
unavailable daemon_unavailable m h = refl
unavailable _ m h = absurd (ground arith)

-- A command of `liveshctl` that ends with the code 69 has got the code for an unavailable daemon from
-- the daemon, and the daemon classifies no error of its own as that.
pub exit_code-unavailable :
    (e : CtlError) (msg : Bytes)
    → exit_code (inr e) ≡ 69
    → ((m : Bytes) × (e ≡ client (server daemon_unavailable m)))
      × (classify_error msg ≢ daemon_unavailable)
unfolding exit_code classify_error exit_code_for_error
exit_code-unavailable (client (server c m)) msg h =
    ((m, ap (λ d. client (server d m)) (unavailable c m h)), never _ _ _)
exit_code-unavailable (client _) msg h = absurd (ground arith)
exit_code-unavailable (other m) msg h = absurd (ground arith)

parses_kill :
    (program id : Bytes)
    → Ids.new id ≡ some id
    → parse_liveshctl (program ∷ codes "kill" ∷ id ∷ []) ≡ ok (Args.kill id)
unfolding parse_liveshctl Args.checked
parses_kill program id h = rw (Args.checked, h) refl

module _ {P C : Type 0} (vt : Vt100 P) (cb : CommandBuilder C) (reg : Registry) (codecs : Codecs)
    (lawful : IsLawful codecs) (tx : ℕ) (os : Os) (v : Server P)
    (to_json : List ShellInfo → Option Bytes) (help_text version_text : Bytes) where
  abbrev pub Reopened : Type 0
  Reopened = ℕ → Opened (wire vt cb reg codecs os tx) codecs to_json help_text version_text

  -- `liveshctl kill` with a valid id, over a connection of a client that is attached to no shell, where
  -- nothing is under way and the messages fit into frames: it prints nothing, the registry is as
  -- `kill_shell` leaves it, and the exit code is 0 if the shell is there, and 66, if the id has no
  -- capital letter and no space, if it is not.
  pub run-kill :
      (program daemon_id : Bytes) (reopened : Reopened) (id : ShellId)
      → Ids.new id ≡ some id
      → AllPlain id
      → AllEntries (λ j s. IsElsewhere tx s.attach) v.daemon.states
      → Framed codecs.client_msg (ClientMsg.kill_shell id)
      → Framed codecs.server_msg (to_answer (Registry.kill_shell reg v.daemon id).0)
      → let r =
          run
            (wire vt cb reg codecs os tx)
            codecs
            to_json
            help_text
            version_text
            (inl (daemon_id, joined v []))
            reopened
            (program ∷ codes "kill" ∷ id ∷ []) in
        (r.printed ≡ [])
        × (r.connection ≡ some (joined (killed reg tx v id) []))
        × (exit_code r.result ≡ (if is_some (lookup id v.daemon.states) then 0 else 66))
  unfolding run perform Registry.kill_shell exit_code exit_code_for_error
  run-kill program daemon_id reopened id valid plain elsewhere request framed =
      let killing =
        expect_ok-kill_shell vt cb reg codecs lawful tx os v id elsewhere request framed in
      let coded = (classify_error-AllPlain id plain).0 in
      elim (Option-cases (lookup id v.daemon.states)) [
        | inl e ↦
            rw (run, parses_kill program id valid, killing)
              (rw (Registry.kill_shell, e, coded) (refl, refl, refl))
        | inr (s, e) ↦
            rw (run, parses_kill program id valid, killing)
              (rw (Registry.kill_shell, e) (refl, refl, refl))
      ]
