-- ===== src/Client/Calls.antt =====
-- A call of the client against the daemon at the other end of the connection: what the client gets
-- is what the registry answered, through both serialisers and both framings.
use livesh.Prelude.{
  ℕ, zero, suc, ◌≡◌, refl, ap, ◌∙◌, sym, true, none, List, [], ◌∷◌, ◌++◌, ◌⊎◌, append-nil, Bytes,
  length, drop-append_length,
}
use livesh.Protocol.{ClientMsg, ServerMsg}
use livesh.Protocol.Frame
use livesh.Protocol.Frame.{RoundTrips, encode_frame}
use livesh.Protocol.Frame.Link.{write_frame, read_frame}
use livesh.Protocol.Frame.Stream.{read_frame-encode_frame}
use livesh.Terminal.{Vt100}
use livesh.Daemon.Os.{Os}
use livesh.Daemon.Env.{CommandBuilder}
use livesh.Daemon.Shell.{Sent}
use livesh.Daemon.Registry.{Registry}
use livesh.Daemon.Server.{Server, message, handle_event}
use livesh.Client.{Codecs, ClientError, send, recv, call}
use livesh.Client.Wire.{Connection, serving, sent_to, write_replies, flush, serve, wire}

-- What the connection relies on: the serialiser reads back what it wrote.
pub record IsLawful (codecs : Codecs) : Type 0 where
  pub client_hello : RoundTrips codecs.client_hello
  pub server_hello : RoundTrips codecs.server_hello
  pub client_msg : RoundTrips codecs.client_msg
  pub server_msg : RoundTrips codecs.server_msg

-- A connection in its loop of messages, where all that the client wrote has been handled, with the
-- bytes that it has not read.
abbrev pub joined : {P : Type 0} → Server P → Bytes → Connection P
joined v bytes = record {
  server = v;
  received = [];
  replies = bytes;
  taken = length v.daemon.sent;
  writer_open = true;
  phase = serving;
}

module _ {P C : Type 0} (vt : Vt100 P) (cb : CommandBuilder C) (reg : Registry) (codecs : Codecs)
    (os : Os) (tx : ℕ) where
  pub serve_idle :
      (fuel : ℕ) (v : Server P) (bytes : Bytes)
      → serve vt cb reg codecs os tx fuel (joined v bytes) ≡ joined v bytes
  unfolding serve Frame.read_frame
  serve_idle zero v bytes = refl
  serve_idle (suc fuel) v bytes = refl

  flush_new :
      (v v' : Server P) (bytes frames : Bytes) (new : List Sent)
      → v'.daemon.sent ≡ v.daemon.sent ++ new
      → write_replies codecs (sent_to tx new) ≡ (frames, true)
      → flush codecs tx (record (joined v bytes) { server = v' }) ≡ joined v' (bytes ++ frames)
  unfolding flush
  flush_new v v' bytes frames new more framed =
      rw (flush, more, drop-append_length v.daemon.sent new, framed) refl

  module _ (lawful : IsLawful codecs) (v : Server P) (bytes frame frames : Bytes) (msg : ClientMsg)
      (new : List Sent) (framed : encode_frame codecs.client_msg msg ≡ Frame.ok frame)
      (answered : (handle_event vt cb reg os v (message tx msg)).daemon.sent ≡ v.daemon.sent ++ new)
      (written : write_replies codecs (sent_to tx new) ≡ (frames, true)) where
    -- What is sent is handled by the daemon, and its answers are behind what there was to read.
    pub send-joined :
        send (wire vt cb reg codecs os tx) codecs (joined v bytes) msg
        ≡ (none, joined (handle_event vt cb reg os v (message tx msg)) (bytes ++ frames))
    unfolding send wire
    send-joined =
        let v' = handle_event vt cb reg os v (message tx msg) in
        let read : Frame.read_frame codecs.client_msg frame ≡ Frame.ok (msg, []) =
          ap (Frame.read_frame codecs.client_msg) (sym (append-nil frame))
          ∙ read_frame-encode_frame codecs.client_msg lawful.client_msg msg frame [] framed in
        let flushed = flush_new v v' bytes frames new answered written in
        rw (send, write_frame, framed, wire)
          (ap (λ n. (none, n))
            (rw (serve, read, flushed) (serve_idle (length frame) v' (bytes ++ frames))))

  module _ (lawful : IsLawful codecs) (v : Server P) (frame first rest : Bytes) (msg : ClientMsg)
      (reply : ServerMsg) (replies : List ServerMsg) (new : List Sent)
      (framed : encode_frame codecs.client_msg msg ≡ Frame.ok frame)
      (answered : (handle_event vt cb reg os v (message tx msg)).daemon.sent ≡ v.daemon.sent ++ new)
      (sent : sent_to tx new ≡ reply ∷ replies)
      (first_framed : encode_frame codecs.server_msg reply ≡ Frame.ok first)
      (rest_framed : write_replies codecs replies ≡ (rest, true)) where
    -- The first answer is what the call matches; what else the daemon sent is left to be read.
    pub call-joined :
        {A : Type 0} (match_answer : ServerMsg → A ⊎ ClientError)
        → call (wire vt cb reg codecs os tx) codecs match_answer (joined v []) msg
          ≡ (match_answer reply, joined (handle_event vt cb reg os v (message tx msg)) rest)
    unfolding call recv write_replies wire
    call-joined match_answer =
        let v' = handle_event vt cb reg os v (message tx msg) in
        let written : write_replies codecs (sent_to tx new) ≡ (first ++ rest, true) =
          rw (sent, write_replies, first_framed, rest_framed) refl in
        let sending =
          send-joined lawful v [] frame (first ++ rest) msg new framed answered written in
        let read =
          read_frame-encode_frame codecs.server_msg lawful.server_msg reply first rest
            first_framed in
        rw (call, sending) (rw (recv, read_frame, read) refl)
