-- ===== src/Client/Serving.antt =====
-- The loop of `handle_client` comes to its end: it waits for more bytes, or has closed the connection.
use livesh.Prelude.{
  ℕ, zero, suc, ◌≡◌, ◌<◌, refl, ap, true, ◌++◌, ◌⊎◌, inl, inr, arith, length, length-append, Bytes,
  Bool-cases,
}
use livesh.Protocol.Frame
use livesh.Protocol.Frame.{Codec, FrameError, read_frame}
use livesh.Protocol.Frame.Stream.{read_frame-eq-ok}
use livesh.Terminal.{Vt100}
use livesh.Daemon.Os.{Os}
use livesh.Daemon.Env.{CommandBuilder}
use livesh.Daemon.Registry.{Registry}
use livesh.Daemon.Server.{message, handle_event}
use livesh.Client.{Codecs}
use livesh.Client.Wire.{Connection, closed, flush, is_short, serve}

read-cases :
    {A : Type 0} (r : Frame.Result (A × Bytes))
    → ((v : A) × (rest : Bytes) × (r ≡ Frame.ok (v, rest))) ⊎ ((e : FrameError) × (r ≡ Frame.err e))
read-cases (Frame.ok (v, rest)) = inl (v, rest, refl)
read-cases (Frame.err e) = inr (e, refl)

-- A message takes bytes away.
length-read_frame :
    {A : Type 0} (c : Codec A) (stream rest : Bytes) {v : A}
    → read_frame c stream ≡ Frame.ok (v, rest)
    → length rest < length stream
length-read_frame c stream rest {v} h =
    let (header, payload, shape, four, _, _, _) = read_frame-eq-ok c stream rest {v = v} h in
    omega (
      arith,
      ap length shape,
      length-append header (payload ++ rest),
      length-append payload rest,
      four,
    )

module _ {P C : Type 0} (vt : Vt100 P) (cb : CommandBuilder C) (reg : Registry) (codecs : Codecs)
    (os : Os) (tx : ℕ) where
  received-flush : (n : Connection P) → (flush codecs tx n).received ≡ n.received
  unfolding flush
  received-flush n = ground arith

  -- No whole frame is there, but one may come.
  abbrev pub IsWaiting : Connection P → Type 0
  IsWaiting n =
      (e : FrameError) × (read_frame codecs.client_msg n.received ≡ Frame.err e)
      × (is_short e ≡ true)

  -- Whatever bytes a client has written, with more fuel than there are bytes the loop of messages
  -- runs until it waits for the rest of a frame, or the connection is closed.
  pub serve-IsWaiting :
      (fuel : ℕ) (n : Connection P)
      → length n.received < fuel
      → let m = serve vt cb reg codecs os tx fuel n in IsWaiting m ⊎ (m.phase ≡ closed)
  unfolding serve
  serve-IsWaiting zero n h = absurd (omega arith)
  serve-IsWaiting (suc fuel) n h = elim (read-cases (read_frame codecs.client_msg n.received)) [
    | inl (msg, rest, e) ↦
        let n' : Connection P = record n {
          server = handle_event vt cb reg os n.server (message tx msg);
          received = rest;
        } in
        let less = length-read_frame codecs.client_msg n.received rest {v = msg} e in
        let kept = ap length (received-flush n') in
        rw (serve, e) (serve-IsWaiting fuel (flush codecs tx n') (omega (arith, less, kept)))
    | inr (e, failed) ↦ elim (Bool-cases (is_short e)) [
      | inl short ↦ rw (serve, failed, short) (inl (e, failed, short))
      | inr long ↦ rw (serve, failed, long) (inr refl)
    ]
  ]
