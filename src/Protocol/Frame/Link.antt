-- ===== src/Protocol/Frame/Link.antt =====
-- src/framing.rs, `write_frame`, and `read_frame` at the end of a connection that is being used. The
-- socket is a parameter: what a write does to it, and the bytes that are there to be read.
use livesh.Prelude.{Option, none, some, ◌⊎◌, inl, inr, Bytes}
use livesh.Protocol.Frame
use livesh.Protocol.Frame.{Codec, FrameError, encode_frame}

-- `write_all` answers the text of an error; `incoming` is what can be read, and `keep` sets it to
-- what a read has left.
pub record Link (L : Type 0) : Type 0 where
  pub write_all : L → Bytes → Option Bytes × L
  pub incoming : L → Bytes
  pub keep : L → Bytes → L

pub data LinkError : Type 0 where
  io : Bytes → LinkError
  frame : FrameError → LinkError

module _ {L : Type 0} (link : Link L) {A : Type 0} (c : Codec A) where
  abbrev or_io : Option Bytes × L → Option LinkError × L
  or_io (none, l) = (none, l)
  or_io (some e, l) = (some (io e), l)

  unfoldable pub write_frame : L → A → Option LinkError × L
  write_frame l v = elim (encode_frame c v) [
    | Frame.ok bytes ↦ or_io (link.write_all l bytes)
    | Frame.err e ↦ (some (frame e), l)
  ]

  -- A read that would wait for ever ends here with the error of a connection that has ended.
  unfoldable pub read_frame : L → (A ⊎ LinkError) × L
  read_frame l = elim (Frame.read_frame c (link.incoming l)) [
    | Frame.ok (v, rest) ↦ (inl v, link.keep l rest)
    | Frame.err e ↦ (inr (frame e), l)
  ]
