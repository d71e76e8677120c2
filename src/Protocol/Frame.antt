-- ===== src/Protocol/Frame.antt =====
-- src/protocol.rs, `encode_frame` and `decode_payload`, and src/framing.rs, `read_frame` and
-- `write_frame`: one message is a four-byte little-endian length and its payload. The serialiser
-- (bincode) is a parameter; a connection is the bytes that are still to be read from it.
pub mod Stream
pub mod Link
use livesh.Prelude.{
  ℕ, zero, suc, ◌+◌, ◌*◌, ◌/◌, ◌%◌, ◌^◌, ◌≡◌, Option, none, some, List, [], ◌∷◌, ◌++◌, length, take,
  drop, ltb, if◌then◌else◌, Bytes,
}

-- What a serialiser offers for one type: `none` is its error.
pub record Codec {ℓ} (A : Type ℓ) : Type ℓ where
  pub serialize : A → Option Bytes
  pub deserialize : Bytes → Option A

-- What the frames rely on: a payload that was serialised is read back.
abbrev pub RoundTrips {ℓ} : {A : Type ℓ} → Codec A → Type ℓ
RoundTrips {A} c = (v : A) (p : Bytes) → c.serialize v ≡ some p → c.deserialize p ≡ some v

pub data FrameError : Type 0 where
  serialize_failed encoded_too_large : FrameError
  read_length read_payload : FrameError
  frame_length_exceeds : ℕ → FrameError
  frame_too_large : ℕ → FrameError
  decode_failed : FrameError

pub data Result {ℓ} (A : Type ℓ) : Type ℓ where
  ok : A → Result A
  err : FrameError → Result A

unfoldable pub max_frame_len : ℕ
max_frame_len = 16 * 1024 * 1024

-- `(len as u32).to_le_bytes()` and `u32::from_le_bytes`.
unfoldable pub to_le_bytes : ℕ → Bytes
to_le_bytes len =
    let n = len % 2 ^ 32 in n % 256 ∷ n / 2 ^ 8 % 256 ∷ n / 2 ^ 16 % 256 ∷ n / 2 ^ 24 % 256 ∷ []

unfoldable pub from_le_bytes : Bytes → ℕ
from_le_bytes [] = 0
from_le_bytes (b ∷ bs) = b + 256 * from_le_bytes bs

module _ {ℓ} {A : Type ℓ} (c : Codec A) where
  pub encode_payload : Option Bytes → Result Bytes
  encode_payload none = err serialize_failed
  encode_payload (some payload) =
      if ltb max_frame_len (length payload)
      then err encoded_too_large
      else ok (to_le_bytes (length payload) ++ payload)

  unfoldable pub encode_frame : A → Result Bytes
  unfolding encode_payload
  encode_frame v = encode_payload (c.serialize v)

  abbrev or_decode_failed : Option A → Result A
  or_decode_failed none = err decode_failed
  or_decode_failed (some v) = ok v

  unfoldable pub decode_payload : Bytes → Result A
  decode_payload payload =
      if ltb max_frame_len (length payload)
      then err (frame_too_large (length payload))
      else or_decode_failed (c.deserialize payload)

  abbrev with_rest : Result A → Bytes → Result (A × Bytes)
  with_rest (ok v) rest = ok (v, rest)
  with_rest (err e) rest = err e

  -- The reads behind the length: `read_exact` fails on a connection that ends before.
  pub read_body : ℕ → Bytes → Result (A × Bytes)
  unfolding decode_payload
  read_body len stream =
      if ltb max_frame_len len
      then err (frame_length_exceeds len)
      else if ltb (length stream) len
      then err read_payload
      else with_rest (decode_payload (take len stream)) (drop len stream)

  -- The message, and what is left to read.
  unfoldable pub read_frame : Bytes → Result (A × Bytes)
  unfolding read_body
  read_frame stream =
      if ltb (length stream) 4
      then err read_length
      else read_body (from_le_bytes (take 4 stream)) (drop 4 stream)
