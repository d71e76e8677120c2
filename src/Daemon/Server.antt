-- ===== src/Daemon/Server.antt =====
-- src/daemon.rs, `handle_msg` and `handle_client`, and the events that reach the registry from its
-- threads. A run of the daemon is a sequence of events, so that clients, shells and sweeps may come
-- in any order. Where the code gives a lock back in the middle of an operation, the parts of the
-- operation are events of their own, which others may come between: the test and the rest of
-- `create_shell`, the recording and the sending of a chunk of output, and the kills of
-- `kill_idle_detached` behind the choice of its victims.
pub mod Sound
pub mod Runs
use livesh.Prelude.{
  ℕ, zero, suc, Bool, true, false, not, Option, none, some, List, [], ◌∷◌, ◌++◌, filter, map, ◌==◌,
  if◌then◌else◌, Bytes,
}
use livesh.Prelude.Dict.{lookup}
use livesh.Prelude.Result.{Result, ok, err}
use livesh.Protocol.{
  ClientHello, protocol_version, ShellId, AttachId, ClientMsg, ServerMsg, ErrorCode, ExitCode, pong,
  created, shell_list, internal, ping, create_shell, open_shell, input, resize, detach, list_shells,
  rename_shell, kill_shell, run_gc, kill_idle_detached, upgrade_daemon,
}
use livesh.Terminal.{Vt100}
use livesh.Daemon.Os.{Os}
use livesh.Daemon.Shell
use livesh.Daemon.Shell.{ShellState, Sent}
use livesh.Daemon.Files.{Files, persist_replay_files}
use livesh.Daemon.Env.{CommandBuilder}
use livesh.Daemon.Errors.{classify_error}
use livesh.Daemon.Registry
use livesh.Daemon.Registry.{Registry, Daemon, send_all, put_shell}
use livesh.Daemon.Upkeep

module _ {P : Type 0} where
  abbrev pub send : ℕ → ServerMsg → Daemon P → Daemon P
  send tx msg d = send_all ((tx, msg) ∷ []) d

  abbrev pub send_error : ℕ → ErrorCode → Bytes → Daemon P → Daemon P
  send_error tx code message d = send tx (ServerMsg.error code message) d

  -- `Ok` or the classified error.
  abbrev pub answer : ℕ → Result (Unit {0}) × Daemon P → Daemon P
  answer tx (ok u, d) = send tx ServerMsg.ok d
  answer tx (err e, d) = send_error tx (classify_error e) e d

  -- Nothing, or the classified error.
  abbrev pub answer_error : ℕ → Result (Unit {0}) × Daemon P → Daemon P
  answer_error tx (ok u, d) = d
  answer_error tx (err e, d) = send_error tx (classify_error e) e d

  abbrev answer_internal : ℕ → Result (Unit {0}) × Daemon P → Daemon P
  answer_internal tx (ok u, d) = send tx ServerMsg.ok d
  answer_internal tx (err e, d) = send_error tx internal e d

  abbrev answer_created : ℕ → Result (ShellId × Bytes × List Bytes) × Daemon P → Daemon P
  answer_created tx (ok (id, name, argv), d) = send tx (created id name argv) d
  answer_created tx (err e, d) = send_error tx (classify_error e) e d

  abbrev pub answer_open : ℕ → Result AttachId × Daemon P → Option AttachId × Daemon P
  answer_open tx (ok attach_id, d) = (some attach_id, d)
  answer_open tx (err e, d) = (none, send_error tx (classify_error e) e d)

module _ {P C : Type 0} (vt : Vt100 P) (cb : CommandBuilder C) (reg : Registry) (os : Os) where
  -- The attach id is that of a shell opened by the message.
  unfoldable pub handle_msg : Daemon P → (tx : ℕ) → ClientMsg → Option AttachId × Daemon P
  unfolding classify_error
  handle_msg d tx ping = (none, send tx pong d)
  handle_msg d tx (create_shell name cwd shell_path env cols rows) = (
    none,
    answer_created tx (Registry.create_shell vt reg os cb d name cwd shell_path env cols rows),
  )
  handle_msg d tx (open_shell id cols rows steal) =
      answer_open tx (Registry.open_shell vt reg os d id cols rows steal tx)
  handle_msg d tx (input attach_id bytes) =
      (none, answer_error tx (Registry.write_input os d attach_id bytes))
  handle_msg d tx (resize attach_id cols rows) =
      (none, answer_error tx (Registry.resize vt reg os d attach_id cols rows))
  handle_msg d tx (detach attach_id) = (none, Registry.detach d attach_id)
  handle_msg d tx list_shells = (none, send tx (shell_list (Registry.list d)) d)
  handle_msg d tx (rename_shell id name) = (none, answer tx (Registry.rename reg os d id name))
  handle_msg d tx (kill_shell id) = (none, answer tx (Registry.kill_shell reg d id))
  handle_msg d tx run_gc = (none, send tx ServerMsg.ok (Upkeep.run_gc vt reg os d))
  handle_msg d tx (kill_idle_detached older_than_ms) =
      (none, send tx ServerMsg.ok (Upkeep.kill_idle_detached reg os d.states d older_than_ms).1)
  handle_msg d tx (upgrade_daemon binary) =
      (none, answer_internal tx (Registry.request_upgrade os d binary))

-- A request to create a shell, of the client `tx`.
pub record Creation : Type 0 where
  pub tx : ℕ
  pub name : Option Bytes
  pub cwd : Bytes
  pub shell_path : Bytes
  pub env : List (Bytes × Bytes)
  pub cols : ℕ
  pub rows : ℕ

-- The clients that are connected, each with the attaches that it has opened (`attached`), and the
-- creations between the test of `create_shell` and the rest of it.
pub record Server (P : Type 0) : Type 0 where
  pub daemon : Daemon P
  pub clients : List (ℕ × List AttachId)
  pub creating : List Creation

-- A connection starts with the client's hello; one of another protocol is answered and closed.
pub data Event (P : Type 0) : Type 0 where
  connect : (tx : ℕ) → ClientHello → Event P
  message : (tx : ℕ) → ClientMsg → Event P
  -- The two parts of a `create_shell`; the second of the creation at that place of those under way.
  begin_create : Creation → Event P
  end_create : (index : ℕ) → Event P
  -- A kill of `kill_idle_detached`, of a victim that it has chosen before.
  kill_victim : ShellId → (pid : Option ℕ) → Event P
  disconnect : (tx : ℕ) → Event P
  read_output : ShellId → Bytes → Event P
  -- The two parts of a `record_output`.
  chunk_recorded : ShellId → Bytes → Event P
  chunk_sent : ShellId → (seq : ℕ) → Bytes → Event P
  -- Output of a shell that has left the map, as its reader still holds it.
  late_output : ShellState P → Bytes → Event P
  child_exited : ShellId → Option ExitCode → Event P
  cwd_polled : ShellId → Option Bytes → Event P
  periodic_gc : Event P

abbrev pub attached_of : ℕ → List (ℕ × List AttachId) → List AttachId
attached_of tx [] = []
attached_of tx ((t, ids) ∷ cs) = let rest = attached_of tx cs in if t == tx then ids else rest

-- `attached.push(attach_id)`, for the client of that channel.
abbrev pub push_attached : ℕ → Option AttachId → List (ℕ × List AttachId) → List (ℕ × List AttachId)
push_attached tx none cs = cs
push_attached tx (some id) [] = []
push_attached tx (some id) ((t, ids) ∷ cs) =
    let rest = push_attached tx (some id) cs in
    if t == tx then (t, ids ++ (id ∷ [])) ∷ cs else (t, ids) ∷ rest

-- The creation at a place, and the others.
unfoldable pub pick : ℕ → List Creation → Option (Creation × List Creation)
pick index [] = none
pick zero (c ∷ cs) = some (c, cs)
pick (suc index) (c ∷ cs) = elim (pick index cs) [
  | none ↦ none
  | some (found, others) ↦ some (found, c ∷ others)
]

module _ {P : Type 0} where
  -- The loop behind `handle_client`'s: every attach of the connection is given up.
  pub detach_all : List AttachId → Daemon P → Daemon P
  detach_all [] d = d
  detach_all (id ∷ ids) d = detach_all ids (Registry.detach d id)

module _ {P C : Type 0} (vt : Vt100 P) (cb : CommandBuilder C) (reg : Registry) (os : Os) where
  -- The replay files are written behind each chunk, and the messages sent.
  abbrev persisted : ShellState P × List Sent → Daemon P → Daemon P
  persisted (s, msgs) d =
      send_all msgs (record d { files = (persist_replay_files vt os reg.paths s d.files).1 })

  -- A reader holds its shell; one that is not in the map is that of `late_output`.
  pub output_of : Option (ShellState P) → ShellId → Bytes → Daemon P → Daemon P
  output_of none id bytes d = d
  output_of (some s) id bytes d =
      let r = Shell.record_output vt os s bytes in put_shell id (r.0) (persisted r d)

  pub recorded_of : Option (ShellState P) → ShellId → Bytes → Daemon P → Daemon P
  recorded_of none id bytes d = d
  recorded_of (some s) id bytes d = put_shell id (Shell.record_chunk vt os s bytes) d

  pub sent_of : Option (ShellState P) → ShellId → ℕ → Bytes → Daemon P → Daemon P
  sent_of none id seq bytes d = d
  sent_of (some s) id seq bytes d =
      let r = Shell.send_chunk vt os s seq bytes in put_shell id (r.0) (persisted r d)

  begun : Creation → Server P → Server P
  begun c v =
      if Registry.is_full vt reg os v.daemon
      then record v { daemon = answer_created c.tx (err Registry.too_many, v.daemon) }
      else record v { creating = c ∷ v.creating }

  ended : Option (Creation × List Creation) → Server P → Server P
  ended none v = v
  ended (some (c, others)) v = record v {
    daemon =
        answer_created c.tx
          (Registry.make_shell vt reg os cb v.daemon c.name c.cwd c.shell_path c.env c.cols c.rows);
    creating = others;
  }

  pub cwd_of : Option (ShellState P) → ShellId → Option Bytes → Daemon P → Daemon P
  cwd_of none id found d = d
  cwd_of (some s) id found d =
      let (s', msgs) = Shell.poll_cwd s found in send_all msgs (put_shell id s' d)

  unfoldable pub handle_event : Server P → Event P → Server P
  unfolding handle_msg detach_all output_of cwd_of recorded_of sent_of begun ended pick
  handle_event v (connect tx hello) =
      if hello.protocol == protocol_version then record v { clients = (tx, []) ∷ v.clients } else v
  handle_event v (message tx msg) =
      let (opened, d) = handle_msg vt cb reg os v.daemon tx msg in
      record v { daemon = d; clients = push_attached tx opened v.clients }
  handle_event v (begin_create c) = begun c v
  handle_event v (end_create index) = ended (pick index v.creating) v
  handle_event v (kill_victim id pid) = record v {
    daemon = Upkeep.kill_all reg ((id, pid) ∷ []) v.daemon;
  }
  handle_event v (disconnect tx) = record v {
    daemon = detach_all (attached_of tx v.clients) v.daemon;
    clients = filter (λ c. not (c.0 == tx)) v.clients;
  }
  handle_event v (read_output id bytes) = record v {
    daemon = output_of (lookup id v.daemon.states) id bytes v.daemon;
  }
  handle_event v (chunk_recorded id bytes) = record v {
    daemon = recorded_of (lookup id v.daemon.states) id bytes v.daemon;
  }
  handle_event v (chunk_sent id seq bytes) = record v {
    daemon = sent_of (lookup id v.daemon.states) id seq bytes v.daemon;
  }
  handle_event v (late_output s bytes) = record v {
    daemon = persisted (Shell.record_output vt os s bytes) v.daemon;
  }
  handle_event v (child_exited id exit_code) = record v {
    daemon = Registry.cleanup_shell reg v.daemon id exit_code;
  }
  handle_event v (cwd_polled id found) = record v {
    daemon = cwd_of (lookup id v.daemon.states) id found v.daemon;
  }
  handle_event v periodic_gc = record v {
    daemon = Upkeep.prune_storage_caps vt reg os (Upkeep.cleanup_dead_shells reg os v.daemon).1;
  }

-- A run: each event comes with what the system answers while it is handled.
pub run :
    {P C : Type 0}
    → Vt100 P
    → CommandBuilder C
    → Registry
    → Server P
    → List (Os × Event P)
    → Server P
run vt cb reg v [] = v
run vt cb reg v ((os, e) ∷ es) = run vt cb reg (handle_event vt cb reg os v e) es
