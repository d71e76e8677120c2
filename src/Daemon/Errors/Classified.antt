-- ===== src/Daemon/Errors/Classified.antt =====
-- `classify_error` on the messages that the registry makes.
use livesh.Prelude.{
  ℕ, ◌≡◌, refl, Bool, true, false, [], ◌∷◌, ◌++◌, arith, Bytes, codes, all, contains,
  contains-append, starts_with, leb, ◌&&◌, ◌||◌,
}
use livesh.Protocol.{fd_limit, not_found, too_many_shells}
use livesh.Daemon.Registry.{shell_not_found, attach_not_found, too_many}
use livesh.Daemon.Errors.{classify_error}

-- No capital letter and no space.
abbrev pub is_plain_byte : ℕ → Bool
is_plain_byte b = leb b'_' b || (leb b'-' b && leb b b'9')

abbrev pub AllPlain : Bytes → Type 0
AllPlain id = all is_plain_byte id ≡ true

starts_with-AllPlain :
    (p id : Bytes) → AllPlain id → all is_plain_byte p ≡ false → starts_with p id ≡ false
unfolding starts_with
starts_with-AllPlain [] id h n = absurd (ground arith)
starts_with-AllPlain (c ∷ p) [] h n = refl
starts_with-AllPlain (c ∷ p) (b ∷ id) h n = ground (arith, starts_with-AllPlain p id)

contains-AllPlain :
    (p id : Bytes) → AllPlain id → all is_plain_byte p ≡ false → contains p id ≡ false
unfolding contains
contains-AllPlain p [] h n = starts_with-AllPlain p [] h n
contains-AllPlain p (b ∷ id) h n =
    ground (arith, starts_with-AllPlain p (b ∷ id), contains-AllPlain p id)

-- The registry's errors reach a client with their own codes, when the id named has no capital letter
-- and no space: the ids that the daemon makes, of hexadecimal digits, have none.
pub classify_error-AllPlain :
    (id : Bytes)
    → AllPlain id
    → (classify_error (shell_not_found id) ≡ not_found)
      × (classify_error (attach_not_found id) ≡ not_found)
      × (classify_error too_many ≡ too_many_shells)
unfolding classify_error contains starts_with
classify_error-AllPlain id h =
    let a = contains-AllPlain (codes "dup of fd") id h refl in
    let b = contains-AllPlain (codes "Too many open files") id h refl in
    let c = contains-AllPlain (codes "EMFILE") id h refl in
    (rw (a, b, c) refl, rw (a, b, c) refl, refl)

-- An id with `EMFILE` in it is reported as a lack of file descriptors when there is no such shell.
pub classify_error-fd_limit :
    (a b : Bytes) → classify_error (shell_not_found (a ++ (codes "EMFILE" ++ b))) ≡ fd_limit
unfolding classify_error
classify_error-fd_limit a b =
    ground (arith, contains-append (codes "shell state not found: " ++ a) (codes "EMFILE") b)
