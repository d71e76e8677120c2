-- ===== src/Bridge/Session.antt =====
-- src/bridge.rs, `bridge_snapshot` from the first paint on: rounds of `output_loop`, each on the
-- connection that `reconnect` came back with, up to the end and what is made of it.
pub mod Reattached
use livesh.Prelude.{ℕ, Option, none, some, List, [], ◌∷◌, ◌++◌, Bytes}
use livesh.Prelude.Result.{Result, ok, err}
use livesh.Protocol.{AttachId, ExitCode, ErrorCode}
use livesh.Bridge.OutputLoop.{
  Outcome, exited, disconnected, failed_to_paint, server_error, Screen, Incoming, Attempt,
  reconnect, output_loop,
}

-- What a new attach gives: its id, the screen, the error of painting it if there is one, and the
-- messages on its connection.
pub record Target : Type 0 where
  pub attach_id : AttachId
  pub screen_bytes : Bytes
  pub unpainted : Option Bytes
  pub messages : List Incoming

pub data BridgeEnd : Type 0 where
  exit : ExitCode → BridgeEnd
  failed_paint : Bytes → BridgeEnd
  refused : ErrorCode → Bytes → BridgeEnd
  daemon_gone : Bytes → BridgeEnd
  -- The connection is gone, and nothing is known of the attempts to attach again.
  reattaching : BridgeEnd

-- How the client ends: with a code, with an error, or as a real shell.
pub data Ending : Type 0 where
  code : ExitCode → Ending
  failed : Ending
  real_shell : Ending
  running : Ending

-- The attempts of each `reconnect`, up to 50 of them.
abbrev pub Attempts : Type 0
Attempts = ℕ → Attempt Target

abbrev ended : Outcome → BridgeEnd
ended (exited c) = exit c
ended disconnected = reattaching
ended (failed_to_paint e) = failed_paint e
ended (server_error c m) = refused c m

abbrev pub painted_with : Screen → Bytes → Screen
painted_with s bytes = record s { painted = s.painted ++ bytes }

-- The end, the attach that was the last, and the screen. Each connection that is lost takes the next
-- attempts; the list of them is as long as the run is.
unfoldable pub bridge_loop : Target → Screen → List Attempts → BridgeEnd × AttachId × Screen
unfolding output_loop reconnect
bridge_loop t s [] =
    let (outcome, s') = output_loop t.attach_id s t.messages in (ended outcome, t.attach_id, s')
bridge_loop t s (attempts ∷ rounds) =
    let (outcome, s') = output_loop t.attach_id s t.messages in
    elim outcome [
      | disconnected ↦ elim (reconnect 50 attempts none) [
        | err e ↦ (daemon_gone e, t.attach_id, s')
        | ok t' ↦ elim t'.unpainted [
          | some e ↦ (failed_paint e, t'.attach_id, s')
          | none ↦ bridge_loop t' (painted_with s' t'.screen_bytes) rounds
        ]
      ]
      | exited c ↦ (exit c, t.attach_id, s')
      | failed_to_paint e ↦ (failed_paint e, t.attach_id, s')
      | server_error c m ↦ (refused c m, t.attach_id, s')
    ]

-- What the process does at the end, with the answer to `exec`, which only comes back with an error.
unfoldable pub finish : BridgeEnd → (exec : Option Bytes) → Ending
finish (exit c) exec = code c
finish (failed_paint e) exec = failed
finish (refused c m) exec = failed
finish (daemon_gone e) none = real_shell
finish (daemon_gone e) (some e') = failed
finish reattaching exec = running

-- `bridge_snapshot`: the mode of the terminal is set, the screen painted and the signal of the window
-- size taken, each of which may fail; behind the loop the last attach is given up, which is the
-- second part of the result.
pub bridge_snapshot :
    (raw_mode resize_signal exec : Option Bytes)
    → Target
    → Screen
    → List Attempts
    → Ending × Option AttachId × Screen
unfolding bridge_loop finish
bridge_snapshot (some e) resize_signal exec t s rounds = (failed, none, s)
bridge_snapshot none resize_signal exec t s rounds = elim t.unpainted [
  | some e ↦ (failed, none, s)
  | none ↦ elim resize_signal [
    | some e ↦ (failed, none, painted_with s t.screen_bytes)
    | none ↦
        let (end, last, s') = bridge_loop t (painted_with s t.screen_bytes) rounds in
        (finish end exec, some last, s')
  ]
]
