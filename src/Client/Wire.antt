-- ===== src/Client/Wire.antt =====
-- src/daemon.rs, `handle_client`: the daemon's end of one connection, as the bytes that go in and
-- out, and with it the connection that a client writes to and reads from.
use livesh.Prelude.{
  ℕ, zero, suc, Bool, true, false, Option, none, some, List, [], ◌∷◌, ◌++◌, length, drop,
  if◌then◌else◌, ◌==◌, Bytes, codes,
}
use livesh.Protocol.{ClientHello, ServerHello, ServerMsg, protocol_version}
use livesh.Protocol.Frame
use livesh.Protocol.Frame.{FrameError, read_length, read_payload, read_frame, encode_frame}
use livesh.Protocol.Frame.Link.{Link}
use livesh.Terminal.{Vt100}
use livesh.Daemon.Os.{Os}
use livesh.Daemon.Env.{CommandBuilder}
use livesh.Daemon.Shell.{Sent}
use livesh.Daemon.Registry.{Registry}
use livesh.Daemon.Server.{Server, connect, message, disconnect, handle_event}
use livesh.Client.{Codecs}

-- Before the hello, in the loop of messages, or behind the end.
pub data Phase : Type 0 where
  greeting serving closed : Phase

-- `received` is what the client has written and `handle_client` has not read, `replies` what the
-- daemon has written and the client has not read. `taken` counts the messages in the log of the
-- daemon that were there when the writer task last looked; the task may have ended.
pub record Connection (P : Type 0) : Type 0 where
  pub server : Server P
  pub received : Bytes
  pub replies : Bytes
  pub taken : ℕ
  pub writer_open : Bool
  pub phase : Phase

-- The messages on the channel of a client.
unfoldable pub sent_to : ℕ → List Sent → List ServerMsg
sent_to tx [] = []
sent_to tx ((t, msg) ∷ sent) = let rest = sent_to tx sent in if t == tx then msg ∷ rest else rest

-- The bytes are not all there yet: `read_exact` waits.
abbrev pub is_short : FrameError → Bool
is_short read_length = true
is_short read_payload = true
is_short _ = false

module _ (codecs : Codecs) where
  -- `writer_task`: the frames up to the first that cannot be encoded, and whether there was none.
  unfoldable pub write_replies : List ServerMsg → Bytes × Bool
  write_replies [] = ([], true)
  write_replies (msg ∷ msgs) =
      let (rest, whole) = write_replies msgs in
      elim (encode_frame codecs.server_msg msg) [
        | Frame.ok frame ↦ (frame ++ rest, whole)
        | Frame.err e ↦ ([], false)
      ]

  module _ {P : Type 0} (tx : ℕ) where
    -- The writer task, up to what the daemon has sent so far.
    unfoldable pub flush : Connection P → Connection P
    unfolding write_replies sent_to
    flush n =
        let sent = n.server.daemon.sent in
        let (bytes, whole) = write_replies (sent_to tx (drop n.taken sent)) in
        if n.writer_open
        then record n { replies = n.replies ++ bytes; writer_open = whole; taken = length sent }
        else record n { taken = length sent }

module _ {P C : Type 0} (vt : Vt100 P) (cb : CommandBuilder C) (reg : Registry) (codecs : Codecs)
    (os : Os) (tx : ℕ) where
  -- Behind the loop: the attaches are given up and the writer task is aborted.
  close : Connection P → Connection P
  close n = record n {
    server = handle_event vt cb reg os n.server (disconnect tx);
    writer_open = false;
    phase = closed;
  }

  -- The loop of messages, while there are whole frames; each frame has four bytes and more, so the
  -- number of bytes is fuel enough.
  unfoldable pub serve : ℕ → Connection P → Connection P
  unfolding close
  serve zero n = n
  serve (suc fuel) n = elim (read_frame codecs.client_msg n.received) [
    | Frame.ok (msg, rest) ↦ serve fuel (
        flush codecs tx (record n {
          server = handle_event vt cb reg os n.server (message tx msg);
          received = rest;
        }))
    | Frame.err e ↦ if is_short e then n else close n
  ]

  abbrev pub server_hello : ServerHello
  server_hello = record { protocol = protocol_version; daemon_id = reg.daemon_id }

  -- The hello is answered in any case, and the loop is entered if the protocol is the same.
  unfoldable pub greet : ClientHello → Connection P → Connection P
  unfolding serve
  greet hello n =
      let v = handle_event vt cb reg os n.server (connect tx hello) in
      elim (encode_frame codecs.server_hello server_hello) [
        | Frame.err e ↦ record n { phase = closed }
        | Frame.ok frame ↦
            if hello.protocol == protocol_version
            then serve (suc (length n.received)) (record n {
              server = v;
              replies = n.replies ++ frame;
              taken = length v.daemon.sent;
              phase = serving;
            })
            else record n { replies = n.replies ++ frame; phase = closed }
      ]

  unfoldable pub begin : Frame.Result (ClientHello × Bytes) → Connection P → Connection P
  unfolding greet
  begin (Frame.ok (hello, rest)) n = greet hello (record n { received = rest })
  begin (Frame.err e) n = if is_short e then n else record n { phase = closed }

  abbrev progress : Phase → Connection P → Connection P
  progress closed n = n
  progress serving n = serve (suc (length n.received)) n
  progress greeting n = begin (read_frame codecs.client_hello n.received) n

  abbrev write : Phase → Connection P → Bytes → Option Bytes × Connection P
  write closed n bytes = (some (codes "broken pipe"), n)
  write p n bytes = (none, progress p (record n { received = n.received ++ bytes }))

  -- The connection as the client has it: what it writes is handled, and answered, at once.
  unfoldable pub wire : Link (Connection P)
  unfolding serve begin
  wire = record {
    write_all = λ n bytes. write n.phase n bytes;
    incoming = λ n. n.replies;
    keep = λ n rest. record n { replies = rest };
  }
