-- ===== src/Client/Session.antt =====
-- What a client can do over its connection, from its call to the shell's terminal and the registry.
use livesh.Prelude.{
  ℕ, ◌≡◌, refl, ap, ◌∙◌, sym, true, false, Option, none, some, List, [], ◌∷◌, ◌++◌, inl, arith,
  append-nil, Bytes, ◌==◌,
}
use livesh.Prelude.Dict.{lookup, remove, IsDistinct}
use livesh.Protocol.{ShellId, ClientMsg, ServerMsg, snapshot, cwd_changed}
use livesh.Protocol.Frame
use livesh.Protocol.Frame.{Codec, encode_frame}
use livesh.Terminal
use livesh.Terminal.{Vt100}
use livesh.Daemon.Os.{Os}
use livesh.Daemon.Env.{CommandBuilder}
use livesh.Daemon.Shell
use livesh.Daemon.Shell.{ShellState, Sent, Attach}
use livesh.Daemon.Shell.Attaching.{new_attach_id, IsCurrent, notice, attach-sent, attach-steal}
use livesh.Daemon.Registry
use livesh.Daemon.Registry.{Registry, Daemon, find_attach}
use livesh.Daemon.Registry.Opening.{open_shell-write_input}
use livesh.Daemon.Server.{Server, message, handle_event, handle_msg, push_attached}
use livesh.Client
use livesh.Client.{Codecs, Snapshot, ClientError, server, send, open_answer, ok_answer, list_answer}
use livesh.Client.Calls.{IsLawful, joined, send-joined, call-joined}
use livesh.Client.Wire.{sent_to, write_replies, wire}

-- The message can be serialised and fits into a frame.
abbrev pub Framed : {A : Type 0} → Codec A → A → Type 0
Framed c v = (frame : Bytes) × (encode_frame c v ≡ Frame.ok frame)

-- No client of that channel is told by a message to the attach.
abbrev pub IsElsewhere : ℕ → Option Attach → Type 0
IsElsewhere tx none = Unit
IsElsewhere tx (some a) = (a.tx == tx) ≡ false

sent_to-notice :
    {P : Type 0} (vt : Vt100 P) (tx : ℕ) (a : Option Attach) (sent : List Sent)
    → IsElsewhere tx a
    → sent_to tx (notice vt a ++ sent) ≡ sent_to tx sent
unfolding sent_to
sent_to-notice vt tx none sent h = refl
sent_to-notice vt tx (some a) sent h = rw h refl

pub sent_to_self :
    (tx : ℕ) (msg : ServerMsg) (sent : List Sent)
    → sent_to tx ((tx, msg) ∷ sent) ≡ msg ∷ sent_to tx sent
unfolding sent_to
sent_to_self tx msg sent = ground arith

abbrev pub to_message : Snapshot → ServerMsg
to_message p = snapshot p.id p.attach_id p.seq p.name p.status p.screen_bytes

module _ {P : Type 0} (vt : Vt100 P) where
  -- What `open_shell` answers a client that takes the shell.
  abbrev pub snapshot_of : ℕ → Os → ShellState P → (cols rows : ℕ) → Snapshot
  snapshot_of tx os s cols rows = record {
    id = s.id;
    attach_id = new_attach_id vt os;
    seq = s.seq;
    name = s.name;
    status = s.status;
    screen_bytes = Terminal.snapshot_bytes vt (Shell.attach vt os s cols rows true tx).1.terminal;
  }

module _ {P C : Type 0} (vt : Vt100 P) (cb : CommandBuilder C) (reg : Registry) (codecs : Codecs)
    (lawful : IsLawful codecs) (tx : ℕ) where
  module _ (os : Os) (v : Server P) (id : ShellId) (s : ShellState P) (cols rows : ℕ)
      (found : lookup id v.daemon.states ≡ some s) (current : IsCurrent vt s)
      (elsewhere : IsElsewhere tx s.attach)
      (request : Framed codecs.client_msg (ClientMsg.open_shell id cols rows true))
      (screen : Framed codecs.server_msg (to_message (snapshot_of vt tx os s cols rows)))
      (directory : Framed codecs.server_msg (cwd_changed (new_attach_id vt os) s.cwd)) where
    abbrev opened : Server P
    opened = record {
      daemon = (Registry.open_shell vt reg os v.daemon id cols rows true tx).1;
      clients = push_attached tx (some (new_attach_id vt os)) v.clients;
      creating = v.creating;
    }

    handle_event-open_shell :
        handle_event vt cb reg os v (message tx (ClientMsg.open_shell id cols rows true)) ≡ opened
    unfolding handle_event handle_msg Registry.open_shell
    handle_event-open_shell =
        let (succeeds, _, _) = attach-steal vt os s cols rows tx in
        rw (handle_event, found, succeeds) refl

    sent-open_shell :
        opened.daemon.sent
        ≡ v.daemon.sent
          ++ (notice vt s.attach
              ++ (tx, to_message (snapshot_of vt tx os s cols rows))
                ∷ (tx, cwd_changed (new_attach_id vt os) s.cwd)
                ∷ [])
    unfolding Registry.open_shell
    sent-open_shell =
        rw (Registry.open_shell, found)
          (ap (λ ms. v.daemon.sent ++ ms) (attach-sent vt os s cols rows tx current))

    -- A client that takes a shell gets its snapshot, and the directory is what it can read next.
    open_shell-joined :
        Client.open_shell (wire vt cb reg codecs os tx) codecs (joined v []) id cols rows true
        ≡ (inl (snapshot_of vt tx os s cols rows), joined opened directory.0)
    unfolding Client.open_shell write_replies sent_to
    open_shell-joined =
        let msg = ClientMsg.open_shell id cols rows true in
        let p = to_message (snapshot_of vt tx os s cols rows) in
        let cwd = cwd_changed (new_attach_id vt os) s.cwd in
        let sent =
          sent_to-notice vt tx s.attach ((tx, p) ∷ (tx, cwd) ∷ []) elsewhere
          ∙ sent_to_self tx p ((tx, cwd) ∷ [])
          ∙ ap (λ ms. p ∷ ms) (sent_to_self tx cwd []) in
        call-joined vt cb reg codecs os tx lawful v request.0 screen.0 directory.0 msg p (cwd ∷ [])
          _ request.1 (rw (handle_event-open_shell) sent-open_shell) sent screen.1
          (rw (write_replies, directory.1) (rw (append-nil directory.0) refl)) open_answer
        ∙ ap (λ w. (inl (snapshot_of vt tx os s cols rows), joined w directory.0))
            handle_event-open_shell

    -- A client opens a shell that another client has, or none, over a connection to the daemon where
    -- nothing is under way: if its messages and the answers fit into frames and its attach is one
    -- that no other shell has, it gets the shell's screen, its own attach id and the directory; and
    -- the input that it then sends with that id is written to the terminal of that shell, and of no
    -- other.
    pub open_shell-send :
        (os' : Os) (bytes : Bytes) (fd : ℕ)
        → IsDistinct v.daemon.states
        → s.master ≡ some fd
        → find_attach (new_attach_id vt os) (remove id v.daemon.states) ≡ none
        → os'.write_pty fd bytes ≡ none
        → Framed codecs.client_msg (ClientMsg.input (new_attach_id vt os) bytes)
        → let opening =
            Client.open_shell
              (wire vt cb reg codecs os tx)
              codecs
              (joined v [])
              id
              cols
              rows
              true in
          let sending =
            send
              (wire vt cb reg codecs os' tx)
              codecs
              opening.1
              (ClientMsg.input (new_attach_id vt os) bytes) in
          (opening.0 ≡ inl (snapshot_of vt tx os s cols rows))
          × (opening.1.replies ≡ directory.0)
          × (sending.0 ≡ none)
          × (sending.1.server.daemon.written ≡ v.daemon.written ++ ((fd, bytes) ∷ []))
    unfolding handle_event handle_msg write_replies sent_to
    open_shell-send os' bytes fd distinct is_open fresh free framed =
        let (succeeds, wrote) =
          open_shell-write_input vt reg os v.daemon id s cols rows tx found distinct os' bytes fd
            is_open fresh free in
        let sent : (handle_event vt cb reg os' opened
              (message tx (ClientMsg.input (new_attach_id vt os) bytes))).daemon.sent
            ≡ opened.daemon.sent ++ [] =
          rw (handle_event, wrote) (sym (append-nil opened.daemon.sent)) in
        let sending =
          send-joined vt cb reg codecs os' tx lawful opened directory.0 framed.0 []
            (ClientMsg.input (new_attach_id vt os) bytes) [] framed.1 sent refl in
        rw open_shell-joined (refl, refl, rw sending refl, rw (sending, handle_event, wrote) refl)
