-- ===== src/Bridge/InputTask.antt =====
-- src/bridge.rs, `spawn_input_task`: what is read from the standard input goes through the filter to
-- the shell. The filter is shared with `output_loop`, which looks at it between the reads.

pub mod Sent
pub mod Flushed
use livesh.Prelude.{
  ℕ, zero, suc, Bool, true, false, Option, none, some, List, [], ◌∷◌, ◌++◌, is_empty, if◌then◌else◌,
  Bytes,
}
use livesh.Bridge.InputFilter.{BridgeInputFilter, flush_pending, pending_timeout, filter_input}
use livesh.Bridge.KeyboardReset.{observe_output}

-- What the task meets: bytes that are read, with the time behind the read, the end of the wait for
-- them, the end or an error of the input; and, between its turns, an output that is observed.
pub data Turn : Type 0 where
  read_bytes : (now : ℕ) → Bytes → Turn
  timed_out : Turn
  closed : Turn
  observed : (now : ℕ) → Bytes → Turn

-- `if !bytes.is_empty()`, in front of each call of `send_input`.
abbrev pub if_any : Bytes → List Bytes → List Bytes
if_any bytes rest = if is_empty bytes then rest else bytes ∷ rest

-- `send_input`, called with one chunk after another: what reaches the daemon. The first argument
-- tells whether the send of the n-th succeeds; where it does not, the bytes are dropped and the task
-- goes on.
unfoldable pub send_input : (ℕ → Bool) → ℕ → List Bytes → List Bytes
send_input succeeds n [] = []
send_input succeeds n (bytes ∷ chunks) =
    let rest = send_input succeeds (suc n) chunks in if succeeds n then bytes ∷ rest else rest

-- `Some(wait) if wait.is_zero()`
abbrev pub is_zero : Option ℕ → Bool
is_zero (some zero) = true
is_zero _ = false

abbrev pub is_some : Option ℕ → Bool
is_some none = false
is_some (some n) = true

-- The wait that is over: the pending bytes are sent before the next read, for which there is none.
unfoldable pub before_read : BridgeInputFilter → ℕ → BridgeInputFilter × Bytes
unfolding pending_timeout flush_pending
before_read f now = if is_zero (pending_timeout f now) then flush_pending f else (f, [])

-- The end of a wait, which there is only for pending bytes.
unfoldable pub after_wait : BridgeInputFilter → ℕ → BridgeInputFilter × Bytes
unfolding pending_timeout flush_pending
after_wait f now = if is_some (pending_timeout f now) then flush_pending f else (f, [])

-- The chunks that `send_input` is called with, and the filter behind them; each turn comes with the time at its start.
unfoldable pub input_task : BridgeInputFilter → List (ℕ × Turn) → List Bytes × BridgeInputFilter
unfolding before_read after_wait filter_input observe_output
input_task f [] = ([], f)
input_task f ((now, observed t bytes) ∷ turns) = input_task (observe_output f bytes t) turns
input_task f ((now, closed) ∷ turns) = let (g, out) = before_read f now in (if_any out [], g)
input_task f ((now, timed_out) ∷ turns) =
    let (g, out) = before_read f now in
    let (h, waited) = after_wait g now in
    let (rest, last) = input_task h turns in (if_any out (if_any waited rest), last)
input_task f ((now, read_bytes t bytes) ∷ turns) =
    let (g, out) = before_read f now in
    let (h, passed) = filter_input g bytes t in
    let (rest, last) = input_task h turns in (if_any out (if_any passed rest), last)
