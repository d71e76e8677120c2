-- ===== src/Client/Handshake.antt =====
-- The two hellos, the client's and the daemon's.
use livesh.Prelude.{
  ℕ, ◌≡◌, refl, ap, ◌∙◌, sym, true, false, none, some, [], inl, append-nil, Bytes, codes, length,
  ◌==◌, ==_iff, if◌then◌else◌,
}
use livesh.Protocol.{ClientKind, ClientHello, ClientMsg, protocol_version}
use livesh.Protocol.Frame
use livesh.Protocol.Frame.{encode_frame}
use livesh.Protocol.Frame.Link.{write_frame, read_frame, io}
use livesh.Protocol.Frame.Stream.{read_frame-encode_frame}
use livesh.Terminal.{Vt100}
use livesh.Daemon.Os.{Os}
use livesh.Daemon.Env.{CommandBuilder}
use livesh.Daemon.Registry.{Registry}
use livesh.Daemon.Server.{Server, connect, handle_event}
use livesh.Client.{Codecs, link, from_stream, send}
use livesh.Client.Calls.{IsLawful, joined, serve_idle}
use livesh.Client.Session.{Framed}
use livesh.Client.Wire.{Connection, greeting, closed, begin, greet, server_hello, wire}

-- A connection that the daemon has just accepted.
abbrev pub accepted : {P : Type 0} → Server P → Connection P
accepted v = record {
  server = v;
  received = [];
  replies = [];
  taken = length v.daemon.sent;
  writer_open = true;
  phase = greeting;
}

abbrev pub hello_of : ClientKind → ClientHello
hello_of kind = record { protocol = protocol_version; client_kind = kind }

module _ {P C : Type 0} (vt : Vt100 P) (cb : CommandBuilder C) (reg : Registry) (codecs : Codecs)
    (lawful : IsLawful codecs) (tx : ℕ) (os : Os) (v : Server P)
    (reply : Framed codecs.server_hello (server_hello vt cb reg codecs os tx)) where
  read_hello :
      (hello : ClientHello) (frame : Bytes)
      → encode_frame codecs.client_hello hello ≡ Frame.ok frame
      → Frame.read_frame codecs.client_hello frame ≡ Frame.ok (hello, [])
  read_hello hello frame framed =
      ap (Frame.read_frame codecs.client_hello) (sym (append-nil frame))
      ∙ read_frame-encode_frame codecs.client_hello lawful.client_hello hello frame [] framed

  read_reply :
      Frame.read_frame codecs.server_hello reply.0
      ≡ Frame.ok (server_hello vt cb reg codecs os tx, [])
  read_reply =
      ap (Frame.read_frame codecs.server_hello) (sym (append-nil reply.0))
      ∙ read_frame-encode_frame codecs.server_hello lawful.server_hello
          (server_hello vt cb reg codecs os tx) reply.0 [] reply.1

  -- A connection that the daemon has greeted and closed.
  abbrev pub turned_away : Connection P
  turned_away = record (accepted v) { replies = reply.0; phase = closed }

  -- What the daemon does with a hello.
  abbrev pub welcomed : ClientHello → Connection P
  welcomed hello =
      if hello.protocol == protocol_version
      then joined (handle_event vt cb reg os v (connect tx hello)) reply.0
      else turned_away

  greet-welcomed :
      (hello : ClientHello) → greet vt cb reg codecs os tx hello (accepted v) ≡ welcomed hello
  unfolding greet
  greet-welcomed hello =
      let v' = handle_event vt cb reg os v (connect tx hello) in
      rw (greet, reply.1)
        (ap (λ n. if hello.protocol == protocol_version then n else turned_away)
          (serve_idle vt cb reg codecs os tx 1 v' reply.0))

  write_hello :
      (hello : ClientHello) (framed : Framed codecs.client_hello hello)
      → write_frame (wire vt cb reg codecs os tx) codecs.client_hello (accepted v) hello
        ≡ (none, welcomed hello)
  unfolding write_frame wire
  write_hello hello framed =
      let n : Connection P = record (accepted v) { received = framed.0 } in
      let step : begin vt cb reg codecs os tx (Frame.read_frame codecs.client_hello framed.0) n
          ≡ welcomed hello =
        ap (λ r. begin vt cb reg codecs os tx r n) (read_hello hello framed.0 framed.1)
        ∙ greet-welcomed hello in
      rw (write_frame, framed.1) (ap (λ m. (none, m)) step)

  same_protocol : (protocol_version == protocol_version) ≡ true
  same_protocol = (==_iff protocol_version protocol_version).1 refl

  -- A client of the same protocol is greeted with the id of the daemon, is one of its clients then,
  -- and can call it: nothing is under way on the connection.
  pub from_stream-accepted :
      (kind : ClientKind)
      → Framed codecs.client_hello (hello_of kind)
      → from_stream (wire vt cb reg codecs os tx) codecs (accepted v) kind
        ≡ (inl reg.daemon_id, joined (handle_event vt cb reg os v (connect tx (hello_of kind))) [])
  unfolding from_stream read_frame wire
  from_stream-accepted kind framed =
      let welcome : welcomed (hello_of kind)
          ≡ joined (handle_event vt cb reg os v (connect tx (hello_of kind))) reply.0 =
        rw same_protocol refl in
      let joins = write_hello (hello_of kind) framed ∙ ap (λ n. (none, n)) welcome in
      rw (from_stream, joins) (rw (read_frame, read_reply) (rw same_protocol refl))

  -- A client of another protocol can read the daemon's hello, which names the daemon's protocol, but
  -- the connection is closed: no event has reached the daemon, and whatever the client sends then
  -- fails and changes nothing.
  pub send-turned_away :
      (hello : ClientHello)
      → Framed codecs.client_hello hello
      → (hello.protocol == protocol_version) ≡ false
      → (msg : ClientMsg) → Framed codecs.client_msg msg
      → let w = wire vt cb reg codecs os tx in
        let n = (write_frame w codecs.client_hello (accepted v) hello).1 in
        (n.server ≡ v)
        × ((read_frame w codecs.server_hello n).0 ≡ inl (server_hello vt cb reg codecs os tx))
        × (send w codecs n msg ≡ (some (link (io (codes "broken pipe"))), n))
  unfolding read_frame wire send write_frame
  send-turned_away hello framed differs msg request =
      let away : write_frame (wire vt cb reg codecs os tx) codecs.client_hello (accepted v) hello
          ≡ (none, turned_away) =
        write_hello hello framed ∙ ap (λ n. (none, n)) (rw differs refl) in
      rw away (refl, rw (read_frame, read_reply) refl, rw (send, write_frame, request.1) refl)
