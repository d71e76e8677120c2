-- ===== src/Limits/BoundedBytes/History.antt =====
-- `BoundedBytes` against the history of what was appended: the buffer is its end.
use livesh.Prelude.{
  ℕ, ◌+◌, ◌-◌, ◌≤◌, ◌≡◌, sym, ap, ◌∙◌, List, [], ◌∷◌, ◌++◌, append_assoc, append-nil, arith, length,
  drop, last, length-append, length-drop, length-last, drop-drop, drop-append_le, drop-append_ge,
  drop_all, Bytes,
}
use livesh.Limits.BoundedBytes.{BoundedBytes, new, append, len}

-- `append` in a loop, over the chunks in their order.
pub append_all : BoundedBytes → List Bytes → BoundedBytes
append_all b [] = b
append_all b (c ∷ cs) = append_all (append b c) cs

-- All bytes of the chunks.
abbrev pub flatten : List Bytes → Bytes
flatten [] = []
flatten (c ∷ cs) = c ++ flatten cs

pub max_bytes-append : (b : BoundedBytes) (c : Bytes) → (append b c).max_bytes ≡ b.max_bytes
unfolding append
max_bytes-append b c = ground arith

last-append_long :
    (n : ℕ) (xs ys : Bytes) → n ≤ length ys → last n (xs ++ ys) ≡ drop (length ys - n) ys
last-append_long n xs ys h =
    let e : length (xs ++ ys) - n ≡ length xs + (length ys - n) =
      omega (arith, length-append xs ys) in
    rw e (drop-append_ge (length ys - n) xs ys)

-- Each branch keeps the last `max_bytes` bytes of the old content followed by the chunk.
pub bytes-append :
    (b : BoundedBytes) (c : Bytes) → (append b c).bytes ≡ last b.max_bytes (b.bytes ++ c)
unfolding append
bytes-append b c = ground (
  arith,
  last-append_long b.max_bytes b.bytes c,
  drop_all (length c - b.max_bytes) c,
  drop_all (length (b.bytes ++ c)) (b.bytes ++ c),
)

-- The end of a list is the end of any end of it that is long enough.
last-append_last : (n : ℕ) (xs ys : Bytes) → last n (last n xs ++ ys) ≡ last n (xs ++ ys)
last-append_last n xs ys =
    let k = length xs - n in
    let cut : drop k xs ++ ys ≡ drop k (xs ++ ys) = sym (drop-append_le k xs ys (omega arith)) in
    let e : k + (length (drop k (xs ++ ys)) - n) ≡ length (xs ++ ys) - n =
      omega (arith, length-drop k (xs ++ ys), length-append xs ys) in
    ap (last n) cut ∙ drop-drop _ k (xs ++ ys) ∙ ap (λ j. drop j (xs ++ ys)) e

bytes-append_all :
    (b : BoundedBytes) (cs : List Bytes)
    → length b.bytes ≤ b.max_bytes
    → (append_all b cs).bytes ≡ last b.max_bytes (b.bytes ++ flatten cs)
unfolding append_all
bytes-append_all b [] h =
    let e : length (b.bytes ++ []) - b.max_bytes ≡ 0 = omega (arith, length-append b.bytes []) in
    rw e (sym (append-nil b.bytes))
bytes-append_all b (c ∷ cs) h =
    bytes-append_all (append b c) cs (
      omega (
        arith,
        ap length (bytes-append b c),
        max_bytes-append b c,
        length-last b.max_bytes (b.bytes ++ c),
      ))
    ∙ rw (max_bytes-append b c, bytes-append b c)
        (last-append_last b.max_bytes (b.bytes ++ c) (flatten cs)
          ∙ ap (last b.max_bytes) (append_assoc b.bytes c (flatten cs)))

-- After any chunks the buffer holds exactly the last `max` bytes of all that was appended,
-- however the output was cut into chunks, and never more than `max`.
pub append_all-new :
    (max_bytes : ℕ) (cs : List Bytes)
    → ((append_all (new max_bytes) cs).bytes ≡ last max_bytes (flatten cs))
      × (len (append_all (new max_bytes) cs) ≤ max_bytes)
unfolding new len
append_all-new m cs =
    let e = bytes-append_all (new m) cs (omega arith) in
    (e, omega (arith, ap length e, length-last m (flatten cs)))
