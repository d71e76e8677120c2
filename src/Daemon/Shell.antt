-- ===== src/Daemon/Shell.antt =====
-- src/daemon.rs, `ShellState`: one shell, its terminal, its history and the client attached to it.
-- A method returns the new state; the messages that it sends come in order, each with the number of
-- the client's channel. Locks are not modelled: a method runs alone.
pub mod Attaching
pub mod Overlap
pub mod Live
use livesh.Prelude.{
  ℕ, suc, ◌+◌, ◌%◌, ◌^◌, Bool, true, false, not, Option, none, some, List, [], ◌∷◌, ◌++◌, map,
  if◌then◌else◌, Bytes, codes, eq_bytes,
}
use livesh.Prelude.Result.{Result, ok, err}
use livesh.Protocol.{
  ShellId, AttachId, ShellStatus, running, exited, ShellInfo, ExitCode, ServerMsg, snapshot, output,
  detached_by_another_client, cwd_changed,
}
use livesh.Limits.{Limits}
use livesh.Limits.BoundedBytes
use livesh.Limits.BoundedBytes.{BoundedBytes}
use livesh.Limits.EventRing
use livesh.Limits.EventRing.{EventRing}
use livesh.Terminal
use livesh.Terminal.{Vt100, TerminalModel}
use livesh.Daemon.Os.{Os}

-- A message sent, and the channel of its client.
abbrev pub Sent : Type 0
Sent = ℕ × ServerMsg

pub record Attach : Type 0 where
  pub id : AttachId
  pub tx : ℕ

pub record ShellState (P : Type 0) : Type 0 where
  pub id : ShellId
  pub name : Bytes
  pub status : ShellStatus
  pub shell_path : Bytes
  pub cwd : Bytes
  pub created_at_ms : ℕ
  pub last_active_at_ms : ℕ
  pub master : Option ℕ
  pub pid : Option ℕ
  pub terminal : TerminalModel P
  pub size : ℕ × ℕ
  pub scrollback : BoundedBytes
  pub events : EventRing
  pub attach : Option Attach
  pub seq : ℕ

-- A `u64` counter, which wraps.
abbrev pub next_seq : ℕ → ℕ
next_seq seq = (seq + 1) % 2 ^ 64

abbrev pub pty_closed : Bytes
pty_closed = codes "shell pty is closed"

abbrev pub already_attached : Bytes
already_attached = codes "shell already has an attached client"

write_master : Os → Option ℕ → Bytes → Result (Unit {0})
write_master os none bytes = err pty_closed
write_master os (some fd) bytes = elim (os.write_pty fd bytes) [ some e ↦ err e | none ↦ ok tt ]

unfoldable pub write_input : {P : Type 0} → Os → ShellState P → Bytes → Result (Unit {0})
unfolding write_master
write_input os s bytes = write_master os s.master bytes

sent_output : Option Attach → ℕ → Bytes → List Sent
sent_output none seq bytes = []
sent_output (some a) seq bytes = (a.tx, output a.id seq bytes) ∷ []

-- The attach after a send: it is given up if the client is gone.
still_attached : Os → Option Attach → Option Attach
still_attached os none = none
still_attached os (some a) = if os.is_open a.tx then some a else none

abbrev pub names_attach : Option Attach → AttachId → Bool
names_attach none attach_id = false
names_attach (some a) attach_id = eq_bytes a.id attach_id

abbrev pub is_some {ℓ} : {A : Type ℓ} → Option A → Bool
is_some none = false
is_some (some a) = true

unfoldable pub sent_exit : Option Attach → ShellId → Option ExitCode → List Sent
sent_exit none id exit_code = []
sent_exit (some a) id exit_code = (a.tx, ServerMsg.exited id (some a.id) exit_code) ∷ []

sent_cwd : Option Attach → Bytes → List Sent
sent_cwd none cwd = []
sent_cwd (some a) cwd = (a.tx, cwd_changed a.id cwd) ∷ []

module _ {P : Type 0} (vt : Vt100 P) (os : Os) where
  -- `ShellState::new`
  unfoldable pub new :
      (id : ShellId) (name cwd shell_path : Bytes) (master : ℕ) (pid : Option ℕ) (cols rows : ℕ)
      → Limits
      → ShellState P
  new id name cwd shell_path master pid cols rows limits = record {
    id = id;
    name = name;
    status = running;
    shell_path = shell_path;
    cwd = cwd;
    created_at_ms = os.now_ms;
    last_active_at_ms = os.now_ms;
    master = some master;
    pid = pid;
    terminal = Terminal.new vt rows cols;
    size = (rows, cols);
    scrollback = BoundedBytes.new limits.scrollback_bytes_per_shell;
    events = EventRing.new limits.event_ring_bytes_per_shell;
    attach = none;
    seq = 0;
  }

  resize_master : Option ℕ → ShellState P → (cols rows : ℕ) → Result (Unit {0}) × ShellState P
  resize_master none s cols rows = (err pty_closed, s)
  resize_master (some fd) s cols rows = elim (os.resize_pty fd cols rows) [
    | some e ↦ (err e, s)
    | none ↦ (
      ok tt,
      record s { terminal = Terminal.set_size vt s.terminal rows cols; size = (rows, cols) },
    )
  ]

  unfoldable pub resize : ShellState P → (cols rows : ℕ) → Result (Unit {0}) × ShellState P
  unfolding resize_master
  resize s cols rows = resize_master s.master s cols rows

  -- The steps of `attach` behind the resize, which hold the lock of the attach but not those of what
  -- they read, so that output may be recorded between them: the shell as the counter is read, as
  -- the screen is taken, and as the events are read.
  abbrev pub attach_steps :
      (counted screened replayed : ShellState P)
      → (tx : ℕ) → Result AttachId × ShellState P × List Sent
  attach_steps counted screened replayed tx =
      let attach_id = codes "att_" ++ os.uuid in
      let sent =
        (
          tx,
          snapshot screened.id attach_id counted.seq screened.name screened.status
              (Terminal.snapshot_bytes vt screened.terminal),
        )
        ∷ (tx, cwd_changed attach_id screened.cwd)
        ∷ map (λ e. (tx, output attach_id (e.0) (e.1)))
            (EventRing.after replayed.events counted.seq) in
      (ok attach_id, record replayed { attach = some (record { id = attach_id; tx = tx }) }, sent)

  -- `attach` behind its first test, with no output between its steps: a new attach id, the screen, the
  -- directory, and the events that are newer than the counter.
  pub attach_fresh : ShellState P → (cols rows tx : ℕ) → Result AttachId × ShellState P × List Sent
  unfolding resize
  attach_fresh s cols rows tx = let s' = (resize s cols rows).1 in attach_steps s' s' s' tx

  pub attach_to :
      Option Attach
      → ShellState P
      → (cols rows : ℕ) (steal : Bool) (tx : ℕ) → Result AttachId × ShellState P × List Sent
  unfolding attach_fresh
  attach_to none s cols rows steal tx = attach_fresh s cols rows tx
  attach_to (some existing) s cols rows steal tx =
      if not steal
      then (err already_attached, s, [])
      else let r = attach_fresh s cols rows tx in
        (r.0, r.1, (existing.tx, detached_by_another_client existing.id) ∷ r.2)

  unfoldable pub attach :
      ShellState P
      → (cols rows : ℕ) (steal : Bool) (tx : ℕ) → Result AttachId × ShellState P × List Sent
  unfolding attach_to
  attach s cols rows steal tx = attach_to s.attach s cols rows steal tx

  -- `record_output` up to the lock of the attach.
  abbrev pub record_chunk : ShellState P → Bytes → ShellState P
  record_chunk s bytes =
      let seq = next_seq s.seq in
      record s {
        seq = seq;
        last_active_at_ms = os.now_ms;
        terminal = Terminal.process vt s.terminal bytes;
        scrollback = BoundedBytes.append s.scrollback bytes;
        events = EventRing.append s.events seq bytes;
      }

  -- The rest of it, under that lock, with the number of the chunk.
  unfoldable pub send_chunk : ShellState P → ℕ → Bytes → ShellState P × List Sent
  unfolding sent_output still_attached
  send_chunk s seq bytes =
      (record s { attach = still_attached os s.attach }, sent_output s.attach seq bytes)

  -- `record_output`, with nothing between the two.
  unfoldable pub record_output : ShellState P → Bytes → ShellState P × List Sent
  unfolding send_chunk
  record_output s bytes = let s' = record_chunk s bytes in send_chunk s' s'.seq bytes

module _ {P : Type 0} where
  unfoldable pub has_attach : ShellState P → AttachId → Bool
  has_attach s attach_id = names_attach s.attach attach_id

  unfoldable pub is_attached : ShellState P → Bool
  is_attached s = is_some s.attach

  unfoldable pub detach : ShellState P → AttachId → ShellState P
  detach s attach_id = if names_attach s.attach attach_id then record s { attach = none } else s

  unfoldable pub mark_exited : ShellState P → Option ExitCode → ShellState P × List Sent
  unfolding sent_exit
  mark_exited s exit_code =
      (record s { status = exited; attach = none }, sent_exit s.attach s.id exit_code)

  unfoldable pub clear_replay_buffers : Vt100 P → ShellState P → ShellState P
  clear_replay_buffers vt s = record s {
    terminal = Terminal.clear vt s.terminal;
    scrollback = BoundedBytes.clear s.scrollback;
    events = EventRing.clear s.events;
  }

  poll_running : ShellState P → Option Bytes → ShellState P × List Sent
  unfolding sent_cwd
  poll_running s none = (s, [])
  poll_running s (some new_cwd) =
      if eq_bytes s.cwd new_cwd
      then (s, [])
      else (record s { cwd = new_cwd }, sent_cwd s.attach new_cwd)

  -- One round of `spawn_cwd_poller`, with the answer of `read_cwd`; it ends with the shell.
  unfoldable pub poll_cwd : ShellState P → Option Bytes → ShellState P × List Sent
  unfolding poll_running
  poll_cwd s found = elim s.status [ running ↦ poll_running s found | _ ↦ (s, []) ]

  unfoldable pub info : ShellState P → ShellInfo
  info s = record {
    id = s.id;
    name = s.name;
    status = s.status;
    cwd = s.cwd;
    shell_path = s.shell_path;
    created_at_ms = s.created_at_ms;
    last_active_at_ms = s.last_active_at_ms;
    attached = is_attached s;
  }
