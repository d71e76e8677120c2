-- ===== src/Ctl.antt =====
-- src/bin/liveshctl.rs: a command of `liveshctl`, over the connection that `connect_or_spawn` gives it.
-- The JSON text of a list is a parameter.
pub mod Killed
use livesh.Prelude.{
  ℕ, zero, suc, Bool, true, false, Option, none, some, List, [], ◌∷◌, ◌++◌, ◌⊎◌, inl, inr,
  if◌then◌else◌, Bytes, codes,
}
use livesh.Prelude.Result.{Result, ok, err}
use livesh.Protocol.{ShellInfo, ShellStatus, running, exited, lost, ClientMsg}
use livesh.Protocol.Frame.Link.{Link}
use livesh.Args
use livesh.Args.{LiveshctlMode, parse_liveshctl}
use livesh.Launcher
use livesh.Launcher.{Failure, exit_code_for_error}
use livesh.Client
use livesh.Client.{Codecs, ClientError}

pub data CtlError : Type 0 where
  client : ClientError → CtlError
  -- The text of another error.
  other : Bytes → CtlError

-- What `exit_code_for_error` looks for in the error.
abbrev pub to_failure : CtlError → Failure
to_failure (client (Client.server code message)) = Launcher.server code message
to_failure (client e) = Launcher.other []
to_failure (other message) = Launcher.other message

-- `main`
unfoldable pub exit_code : Unit {0} ⊎ CtlError → ℕ
unfolding exit_code_for_error
exit_code (inl u) = 0
exit_code (inr e) = exit_code_for_error (to_failure e)

abbrev pub status_name : ShellStatus → Bytes
status_name running = codes "running"
status_name exited = codes "exited"
status_name lost = codes "lost"

abbrev attached_name : Bool → Bytes
attached_name true = codes "attached"
attached_name false = codes "detached"

-- A line of `print_shells`: five fields with tabs between them.
abbrev pub shell_line : ShellInfo → Bytes
shell_line s =
    s.id
    ++ (9 ∷ s.name
        ++ (9 ∷ status_name s.status ++ (9 ∷ attached_name s.attached ++ (9 ∷ s.cwd ++ (10 ∷ [])))))

unfoldable pub print_shells : List ShellInfo → Bytes
print_shells [] = []
print_shells (s ∷ ss) = shell_line s ++ print_shells ss

-- What was printed, how the command ended, and the connection that it used, if it got one.
pub record Outcome (L : Type 0) : Type 0 where
  pub printed : Bytes
  pub result : Unit {0} ⊎ CtlError
  pub connection : Option L

module _ {L : Type 0} (k : Link L) (codecs : Codecs) (to_json : List ShellInfo → Option Bytes)
    (help_text version_text : Bytes) where
  -- The connection, with the id of the daemon, or the error.
  abbrev pub Opened : Type 0
  Opened = (Bytes × L) ⊎ CtlError

  -- The call behind the connection.
  abbrev with_client : Opened → (Bytes → L → Outcome L) → Outcome L
  with_client (inr e) f = record { printed = []; result = inr e; connection = none }
  with_client (inl (daemon_id, l)) f = f daemon_id l

  abbrev ended : (Unit {0} ⊎ ClientError) × L → Bytes → Outcome L
  ended (inl u, l) printed = record { printed = printed; result = inl tt; connection = some l }
  ended (inr e, l) printed = record { printed = []; result = inr (client e); connection = some l }

  abbrev listed : Bool → (List ShellInfo ⊎ ClientError) × L → Outcome L
  listed json (inr e, l) = record { printed = []; result = inr (client e); connection = some l }
  listed false (inl shells, l) = record {
    printed = print_shells shells;
    result = inl tt;
    connection = some l;
  }
  listed true (inl shells, l) = elim (to_json shells) [
    | none ↦ record { printed = []; result = inr (other []); connection = some l }
    | some text ↦ record { printed = text ++ (10 ∷ []); result = inl tt; connection = some l }
  ]

  -- The attempts behind an upgrade, with those left: a daemon that answers a ping ends them.
  pub await_upgrade : ℕ → (ℕ → Opened) → L → Outcome L
  unfolding Client.ping
  await_upgrade zero reopened l = record {
    printed = [];
    result = inr (other (codes "liveshd did not come back after upgrade"));
    connection = some l;
  }
  await_upgrade (suc n) reopened l =
      let rest = await_upgrade n reopened l in
      elim (reopened n) [
        | inr e ↦ rest
        | inl (daemon_id, l') ↦ elim ((Client.ping k codecs l').0) [
          | inr e ↦ rest
          | inl u ↦ record {
            printed = codes "liveshd upgraded (" ++ (daemon_id ++ (codes ")" ++ (10 ∷ [])));
            result = inl tt;
            connection = some (Client.ping k codecs l').1;
          }
        ]
      ]

  abbrev upgraded : (ℕ → Opened) → (Unit {0} ⊎ ClientError) × L → Outcome L
  upgraded reopened (inr e, l) = record {
    printed = [];
    result = inr (client e);
    connection = some l;
  }
  upgraded reopened (inl u, l) = await_upgrade 200 reopened l

  abbrev plain : Bytes → Outcome L
  plain text = record { printed = text; result = inl tt; connection = none }

  -- The commands; the second argument is the answer to the connections behind an upgrade.
  unfoldable pub perform : Opened → (ℕ → Opened) → LiveshctlMode → Outcome L
  unfolding Client.expect_ok Client.list_shells Client.ping print_shells await_upgrade
  perform opened reopened Args.help = plain help_text
  perform opened reopened Args.version = plain (codes "liveshctl " ++ (version_text ++ (10 ∷ [])))
  perform opened reopened (Args.list json) =
      with_client opened (λ daemon_id l. listed json (Client.list_shells k codecs l))
  perform opened reopened (Args.rename id name) =
      with_client opened
        (λ daemon_id l. ended (Client.expect_ok k codecs l (ClientMsg.rename_shell id name)) [])
  perform opened reopened (Args.kill id) =
      with_client opened
        (λ daemon_id l. ended (Client.expect_ok k codecs l (ClientMsg.kill_shell id)) [])
  perform opened reopened Args.gc =
      with_client opened (λ daemon_id l. ended (Client.expect_ok k codecs l ClientMsg.run_gc) [])
  perform opened reopened Args.status = with_client opened (λ daemon_id l.
      ended (Client.ping k codecs l)
        (codes "liveshd ok (" ++ (daemon_id ++ (codes ")" ++ (10 ∷ [])))))
  perform opened reopened (Args.upgrade_daemon binary) = with_client opened (λ daemon_id l.
      upgraded reopened (Client.expect_ok k codecs l (ClientMsg.upgrade_daemon binary)))

  unfoldable pub run : Opened → (ℕ → Opened) → List Bytes → Outcome L
  unfolding perform parse_liveshctl
  run opened reopened argv = elim (parse_liveshctl argv) [
    | err e ↦ record { printed = []; result = inr (other e); connection = none }
    | ok mode ↦ perform opened reopened mode
  ]
