-- ===== src/Tests/Wires.antt =====
-- The theorems on a connection at concrete inputs.
use livesh.Prelude.{
  ℕ, suc, ◌≡◌, refl, true, false, none, some, List, [], ◌∷◌, ◌++◌, ◌⊎◌, inl, inr, arith, Bytes,
  codes, all, length,
}
use livesh.Protocol.{
  ClientHello, ClientMsg, ServerMsg, livesh_client, livesh_client, shell_list, cwd_changed,
}
use livesh.Protocol.Frame.{encode_frame}
use livesh.Daemon.Registry
use livesh.Daemon.Server.{Server, connect, handle_event}
use livesh.Client
use livesh.Client.{send, from_stream, link}
use livesh.Client.Handshake.{hello_of, accepted, from_stream-accepted, send-turned_away}
use livesh.Protocol.Frame.Link.{write_frame, read_frame, io}
use livesh.Client.Calls.{joined}
use livesh.Client.Wire.{wire, serve, closed, Connection, server_hello}
use livesh.Daemon.Shell.Attaching.{new_attach_id}
use livesh.Client.Session.{Framed, open_shell-send, snapshot_of}
use livesh.Client.Gone.{is_other, list_shells-kill_shell}
use livesh.Client.Serving.{serve-IsWaiting, IsWaiting}
use livesh.Tests.Codecs.{test_codecs, test_codecs-IsLawful}
use livesh.Tests.Data.{test_vt, test_cb, test_reg, test_os, test_daemon, test_shell, test_server}

abbrev pub test_wired : Server Bytes
test_wired = record { daemon = test_daemon; clients = (8, []) ∷ []; creating = [] }

abbrev test_directory :
    Framed test_codecs.server_msg (cwd_changed (new_attach_id test_vt test_os) (codes "/"))
unfolding encode_frame livesh.Protocol.Frame.max_frame_len
test_directory = (_, refl)

open_shell-send_example :
    let opening =
      Client.open_shell
        (wire test_vt test_cb test_reg test_codecs test_os 8)
        test_codecs
        (joined test_wired [])
        (codes "sh_1")
        80
        24
        true in
    let sending =
      send
        (wire test_vt test_cb test_reg test_codecs test_os 8)
        test_codecs
        opening.1
        (ClientMsg.input (new_attach_id test_vt test_os) (codes "ls")) in
    (opening.0 ≡ inl (snapshot_of test_vt 8 test_os test_shell 80 24))
    × (opening.1.replies ≡ test_directory.0)
    × (sending.0 ≡ none)
    × (sending.1.server.daemon.written ≡ [] ++ ((5, codes "ls") ∷ []))
unfolding encode_frame livesh.Prelude.Dict.lookup livesh.Prelude.eq_bytes
    livesh.Protocol.Frame.max_frame_len livesh.Terminal.snapshot_bytes livesh.Daemon.Shell.attach
    livesh.Terminal.set_size livesh.Prelude.Dict.remove
open_shell-send_example =
    open_shell-send test_vt test_cb test_reg test_codecs test_codecs-IsLawful 8 test_os test_wired
      (codes "sh_1") test_shell 80 24 refl refl refl (_, refl) (_, refl) test_directory test_os
      (codes "ls") 5 (refl, tt) refl refl refl (_, refl)

abbrev test_written : Connection Bytes
test_written = record (joined test_wired []) { received = 1 ∷ 0 ∷ 0 ∷ 0 ∷ 0 ∷ 6 ∷ 0 ∷ [] }

-- A whole message, and the start of another.
serve-IsWaiting_example :
    let m = serve test_vt test_cb test_reg test_codecs test_os 8 8 test_written in
    IsWaiting test_vt test_cb test_reg test_codecs test_os 8 m ⊎ (m.phase ≡ closed)
serve-IsWaiting_example =
    serve-IsWaiting test_vt test_cb test_reg test_codecs test_os 8 8 test_written (omega arith)

test_hello_reply :
    Framed test_codecs.server_hello (server_hello test_vt test_cb test_reg test_codecs test_os 8)
unfolding encode_frame livesh.Protocol.Frame.max_frame_len
test_hello_reply = (_, refl)

from_stream-accepted_example :
    from_stream
      (wire test_vt test_cb test_reg test_codecs test_os 8)
      test_codecs
      (accepted test_server)
      livesh_client
    ≡ (
      inl (codes "d"),
      joined
          (handle_event test_vt test_cb test_reg test_os test_server
            (connect 8 (hello_of livesh_client)))
          [],
    )
unfolding encode_frame livesh.Protocol.Frame.max_frame_len
from_stream-accepted_example =
    from_stream-accepted test_vt test_cb test_reg test_codecs test_codecs-IsLawful 8 test_os
      test_server (_, refl) livesh_client (_, refl)

abbrev test_old_hello : ClientHello
test_old_hello = record { protocol = 2; client_kind = livesh_client }

send-turned_away_example :
    let w = wire test_vt test_cb test_reg test_codecs test_os 8 in
    let n = (write_frame w test_codecs.client_hello (accepted test_server) test_old_hello).1 in
    (n.server ≡ test_server)
    × ((read_frame w test_codecs.server_hello n).0
        ≡ inl (server_hello test_vt test_cb test_reg test_codecs test_os 8))
    × (send w test_codecs n ClientMsg.list_shells ≡ (some (link (io (codes "broken pipe"))), n))
unfolding encode_frame livesh.Protocol.Frame.max_frame_len livesh.Protocol.protocol_version
send-turned_away_example =
    send-turned_away test_vt test_cb test_reg test_codecs test_codecs-IsLawful 8 test_os test_server
      (_, refl) test_old_hello (_, refl) refl ClientMsg.list_shells (_, refl)

list_shells-kill_shell_example :
    let d = (Registry.kill_shell test_reg test_daemon (codes "sh_1")).1 in
    let w = wire test_vt test_cb test_reg test_codecs test_os 8 in
    let killing =
      Client.expect_ok w test_codecs (joined test_wired []) (ClientMsg.kill_shell (codes "sh_1")) in
    (killing.0 ≡ inl tt)
    × ((Client.list_shells w test_codecs killing.1).0 ≡ inl (Registry.list d))
    × (all (is_other (codes "sh_1")) (Registry.list d) ≡ true)
unfolding livesh.Prelude.Dict.lookup livesh.Prelude.eq_bytes encode_frame
    livesh.Protocol.Frame.max_frame_len Registry.list livesh.Daemon.Listing.sort_by_created
    Registry.kill_shell livesh.Prelude.Dict.remove
list_shells-kill_shell_example =
    list_shells-kill_shell test_vt test_cb test_reg test_codecs test_codecs-IsLawful 8 test_os
      test_wired (codes "sh_1") test_shell refl (refl, tt) (refl, tt) (_, refl) (_, refl) (_, refl)
      (_, refl)
