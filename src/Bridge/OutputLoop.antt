-- ===== src/Bridge/OutputLoop.antt =====
-- src/bridge.rs, `output_loop`: what the client does with the daemon's messages, up to the one that
-- ends it, and `reconnect`. A message comes with the time at which it is handled; `paint` may fail.
pub mod Painted
pub mod Retries
use livesh.Prelude.{
  ℕ, zero, suc, Bool, true, false, Option, none, some, List, [], ◌∷◌, ◌++◌, if◌then◌else◌, Bytes,
  codes, eq_bytes,
}
use livesh.Prelude.Result.{Result, ok, err}
use livesh.Protocol.{
  AttachId, ExitCode, code, ErrorCode, not_found, ServerMsg, output, detached_by_another_client,
  cwd_changed,
}
use livesh.Bridge.InputFilter.{BridgeInputFilter}
use livesh.Bridge.KeyboardReset.{observe_output}

pub data Outcome : Type 0 where
  exited : ExitCode → Outcome
  disconnected : Outcome
  failed_to_paint : Bytes → Outcome
  server_error : ErrorCode → Bytes → Outcome

-- What the loop changes: the filter that it shares with the input task, the bytes painted, and the
-- directory it is in.
pub record Screen : Type 0 where
  pub filter : BridgeInputFilter
  pub painted : Bytes
  pub cwd : Option Bytes

-- `msg_attach.as_ref().is_none_or(|id| id == &attach_id)`
abbrev pub is_none_or : Option AttachId → AttachId → Bool
is_none_or none attach_id = true
is_none_or (some id) attach_id = eq_bytes id attach_id

abbrev code_or_zero : Option ExitCode → ExitCode
code_or_zero none = code 0
code_or_zero (some c) = c

-- A message as the loop meets it: the time, the error of `paint` if it fails, and the message.
abbrev pub Incoming : Type 0
Incoming = ℕ × Option Bytes × ServerMsg

pub data Step : Type 0 where
  stop : Outcome → Screen → Step
  go_on : Screen → Step

paint : Screen → Option Bytes → Bytes → Step
paint s none bytes = go_on (record s { painted = s.painted ++ bytes })
paint s (some e) bytes = stop (failed_to_paint e) s

unfoldable pub handle : AttachId → Screen → Incoming → Step
unfolding paint observe_output
handle attach_id s (now, p, output id seq bytes) =
    if eq_bytes id attach_id
    then paint (record s { filter = observe_output s.filter bytes now }) p bytes
    else go_on s
handle attach_id s (now, p, ServerMsg.exited shell id exit_code) =
    if is_none_or id attach_id then stop (exited (code_or_zero exit_code)) s else go_on s
handle attach_id s (now, p, detached_by_another_client old) =
    if eq_bytes old attach_id then stop (exited (code 0)) s else go_on s
handle attach_id s (now, p, cwd_changed id cwd) =
    if eq_bytes id attach_id then go_on (record s { cwd = some cwd }) else go_on s
handle attach_id s (now, p, ServerMsg.error c message) = stop (server_error c message) s
handle attach_id s (now, p, _) = go_on s

-- The messages that are received, until the daemon closes the connection behind the last.
unfoldable pub output_loop : AttachId → Screen → List Incoming → Outcome × Screen
unfolding handle
output_loop attach_id s [] = (disconnected, s)
output_loop attach_id s (m ∷ ms) = elim (handle attach_id s m) [
  | stop o s' ↦ (o, s')
  | go_on s' ↦ output_loop attach_id s' ms
]

-- What an attempt to attach again comes to: success, an error, or no answer in time.
pub data Attempt (A : Type 0) : Type 0 where
  attached : A → Attempt A
  refused : (code : Option ErrorCode) (message : Bytes) → Attempt A
  timed_out : Attempt A

abbrev pub never_back : Bytes
never_back = codes "daemon did not come back after upgrade"

abbrev pub no_answer : Bytes
no_answer = codes "re-attach handshake timed out"

abbrev last_error : Option Bytes → Bytes
last_error none = never_back
last_error (some e) = e

abbrev pub is_not_found : Option ErrorCode → Bool
is_not_found (some not_found) = true
is_not_found _ = false

-- The loop of `reconnect`, with the attempts left and the outcome of each.
unfoldable pub reconnect : {A : Type 0} → (attempts : ℕ) → (ℕ → Attempt A) → Option Bytes → Result A
reconnect zero outcome last = err (last_error last)
reconnect (suc n) outcome last = elim (outcome n) [
  | attached a ↦ ok a
  | refused c m ↦ if is_not_found c then err m else reconnect n outcome (some m)
  | timed_out ↦ reconnect n outcome (some no_answer)
]
