-- ===== src/Daemon/Shell/Overlap.antt =====
-- A client attaches while output is recorded: `attach` holds the lock of the attach, and `record_output`
-- takes it only for its last part, so the first part may come between any steps of `attach`.
use livesh.Prelude.{ℕ, ◌+◌, ◌≡◌, ◌⊎◌, List, [], ◌∷◌, ◌++◌, Bytes}
use livesh.Protocol.{output}
use livesh.Limits.EventRing
use livesh.Limits.EventRing.{Event, clip}
use livesh.Terminal
use livesh.Terminal.{Vt100}
use livesh.Daemon.Os.{Os}
use livesh.Daemon.Shell.{ShellState, Sent, attach_steps, record_chunk, send_chunk}
use livesh.Daemon.Shell.Attaching.{new_attach_id}

-- When the first part of `record_output` comes.
pub data Moment : Type 0 where
  before_counter : Moment
  before_screen : Moment
  before_events : Moment
  behind_all : Moment

-- The shell as the counter, the screen and the events are read, from the shell without the chunk and
-- with it.
abbrev pub views :
    {P : Type 0}
    → Moment
    → (without chunked : ShellState P) → ShellState P × ShellState P × ShellState P
views before_counter s t = (t, t, t)
views before_screen s t = (s, t, t)
views before_events s t = (s, s, t)
views behind_all s t = (s, s, s)

module _ {P : Type 0} (vt : Vt100 P) (os os' : Os) (s : ShellState P) (tx : ℕ) (bytes : Bytes) where
  abbrev pub chunked : ShellState P
  chunked = record_chunk vt os' s bytes

  -- What the new client is sent by the steps of `attach` and by the rest of `record_output`, which
  -- comes behind them, as the lock is free.
  abbrev pub sent_overlapped : Moment → List Sent
  unfolding send_chunk
  sent_overlapped m =
      let (counted, screened, replayed) = views m s chunked in
      let (r, attached, msgs) = attach_steps vt os counted screened replayed tx in
      msgs ++ (send_chunk vt os' attached chunked.seq bytes).1

  abbrev output_sent : Event → Sent
  output_sent e = (tx, output (new_attach_id vt os) (e.0) (e.1))

  -- No copy, or one, cut to what the event log can hold.
  abbrev pub AtMostOne : List Sent → Type 0
  AtMostOne copies =
      (copies ≡ [])
      ⊎ (copies
          ≡ (tx, output (new_attach_id vt os) (s.seq + 1) (clip s.events.max_bytes bytes)) ∷ [])
