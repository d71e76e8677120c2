-- ===== src/Protocol/Frame/Stream.antt =====
-- What was framed is read back, one frame or a stream of them; what is read was framed.
use livesh.Prelude.{
  ℕ, zero, suc, ◌^◌, ◌≡◌, ◌<◌, ◌≤◌, inl, inr, refl, sym, some, List, [], ◌∷◌, ◌++◌, append_assoc,
  length, take, drop, Bytes, arith, Option-cases, length-append, length-take, take-append-drop,
  take-append_length, drop-append_length,
}
use livesh.Protocol.Frame.{
  Codec, RoundTrips, Result, ok, err, max_frame_len, to_le_bytes, from_le_bytes, encode_frame,
  read_body, read_frame,
}

from_to_le_bytes : (n : ℕ) → n < 2 ^ 32 → from_le_bytes (to_le_bytes n) ≡ n
unfolding from_le_bytes to_le_bytes
from_to_le_bytes n h = omega arith

abbrev join : Result Bytes → Result Bytes → Result Bytes
join (ok a) (ok b) = ok (a ++ b)
join (ok a) (err e) = err e
join (err e) r = err e

join-eq-ok :
    (r s : Result Bytes) {t : Bytes}
    → join r s ≡ ok t
    → (a b : Bytes) × (r ≡ ok a) × (s ≡ ok b) × (t ≡ a ++ b)
join-eq-ok (ok a) (ok b) h = (a, b, refl, refl, ground arith)
join-eq-ok (ok a) (err e) h = cc
join-eq-ok (err e) s h = cc

abbrev cons_read {ℓ} : {A : Type ℓ} → A → Result (List A × Bytes) → Result (List A × Bytes)
cons_read v (ok (vs, rest)) = ok (v ∷ vs, rest)
cons_read v (err e) = err e

module _ {ℓ} {A : Type ℓ} (c : Codec A) where
  -- What `encode_frame` answers: a frame with the payload's length in front exactly when the payload
  -- was serialised and fits.
  encode_frame-eq-ok :
      (v : A) {frame : Bytes}
      → encode_frame c v ≡ ok frame
      → (payload : Bytes) × (c.serialize v ≡ some payload)
        × (length payload ≤ max_frame_len)
        × (frame ≡ to_le_bytes (length payload) ++ payload)
  unfolding encode_frame max_frame_len
  encode_frame-eq-ok v h = elim (Option-cases (c.serialize v)) [
    | inl e ↦ absurd (ground arith)
    | inr (payload, e) ↦ (payload, e, ground arith, ground arith)
  ]

  read_body-append :
      (payload rest : Bytes) {v : A}
      → length payload ≤ max_frame_len
      → c.deserialize payload ≡ some v
      → read_body c (length payload) (payload ++ rest) ≡ ok (v, rest)
  unfolding read_body
  read_body-append payload rest h e = ground (
    arith,
    take-append_length payload rest,
    drop-append_length payload rest,
    length-append payload rest,
  )

  -- If the serialiser reads back what it wrote, `read_frame` reads the frame that `encode_frame`
  -- made of a message, and leaves exactly the bytes behind it.
  pub read_frame-encode_frame :
      RoundTrips c
      → (v : A) (frame rest : Bytes) → encode_frame c v ≡ ok frame
      → read_frame c (frame ++ rest) ≡ ok (v, rest)
  unfolding read_frame to_le_bytes
  read_frame-encode_frame trips v frame rest h =
      let (payload, s, fits, shape) = encode_frame-eq-ok v h in
      let whole = read_body-append payload rest fits (trips v payload s) in
      let len : from_le_bytes (to_le_bytes (length payload)) ≡ length payload =
        from_to_le_bytes (length payload) (unfold max_frame_len in omega arith) in
      rw shape (ground (arith, len, whole))

  read_body-eq-ok :
      (len : ℕ) (stream rest : Bytes) {v : A}
      → read_body c len stream ≡ ok (v, rest)
      → (len ≤ length stream)
        × (len ≤ max_frame_len)
        × (rest ≡ drop len stream)
        × (c.deserialize (take len stream) ≡ some v)
  unfolding read_body max_frame_len
  read_body-eq-ok len stream rest h = ground arith

  -- A stream of messages in their frames, one behind the other.
  unfoldable pub encode_all : List A → Result Bytes
  encode_all [] = ok []
  encode_all (v ∷ vs) = join (encode_frame c v) (encode_all vs)

  -- `n` calls of `read_frame`.
  pub read_all : ℕ → Bytes → Result (List A × Bytes)
  read_all zero stream = ok ([], stream)
  read_all (suc n) stream = elim (read_frame c stream) [
    | err e ↦ err e
    | ok (v, rest) ↦ cons_read v (read_all n rest)
  ]

  -- Messages are read back from a connection in the order in which they were written, with nothing
  -- lost or left between them, if the serialiser reads back what it wrote.
  pub read_all-encode_all :
      RoundTrips c
      → (vs : List A) (stream rest : Bytes) → encode_all vs ≡ ok stream
      → read_all (length vs) (stream ++ rest) ≡ ok (vs, rest)
  unfolding encode_all read_all
  read_all-encode_all trips [] stream rest h = ground arith
  read_all-encode_all trips (v ∷ vs) stream rest h =
      let (frame, others, f, o, shape) = join-eq-ok (encode_frame c v) (encode_all vs) h in
      rw (shape, append_assoc, read_frame-encode_frame trips v frame (others ++ rest) f, read_all)
        (rw (read_all-encode_all trips vs others rest o) refl)

  -- Whatever a peer sends, a message that is read was in a frame at the head of the connection: a
  -- length of at most `max_frame_len`, a payload of that length that decodes to it, and the rest.
  pub read_frame-eq-ok :
      (stream rest : Bytes) {v : A}
      → read_frame c stream ≡ ok (v, rest)
      → (header payload : Bytes) × (stream ≡ header ++ (payload ++ rest))
        × (length header ≡ 4)
        × (from_le_bytes header ≡ length payload)
        × (length payload ≤ max_frame_len)
        × (c.deserialize payload ≡ some v)
  unfolding read_frame
  read_frame-eq-ok stream rest {v} h =
      let len = from_le_bytes (take 4 stream) in
      let long : 4 ≤ length stream = ground arith in
      let (covers, fits, left, decoded) =
        read_body-eq-ok len (drop 4 stream) rest {v = v} (ground arith) in
      (
        take 4 stream,
        take len (drop 4 stream),
        rw left (rw (take-append-drop len (drop 4 stream)) (sym (take-append-drop 4 stream))),
        omega (arith, length-take 4 stream),
        omega (arith, length-take len (drop 4 stream)),
        omega (arith, length-take len (drop 4 stream)),
        decoded,
      )
