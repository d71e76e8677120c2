-- ===== src/Pty.antt =====
-- src/pty_master.rs: the loops around the system calls on a terminal. What the calls answer, one after
-- the other, is a list; a loop that comes to its end is still running.
pub mod Written
use livesh.Prelude.{
  ℕ, zero, suc, ◌-◌, ◌%◌, Bool, Option, none, some, List, [], ◌∷◌, ◌++◌, take, drop, Bytes, codes,
}

-- The answer to `write` or `read`: how many bytes, or which, or an error; `EINTR` apart.
pub data Answer (A : Type 0) : Type 0 where
  done : A → Answer A
  interrupted : Answer A
  failed : (message : Bytes) → Answer A

pub data Ended (A : Type 0) : Type 0 where
  ok : A → Ended A
  err : Bytes → Ended A
  running : Ended A

-- The error for a `write` that takes no bytes.
abbrev pub write_zero : Bytes
write_zero = codes "failed to write whole buffer"

-- `OwnedPtyMaster::write_all`, with the bytes that the terminal has taken.
pub write_all : List (Answer ℕ) → Bytes → Ended (Unit {0}) × Bytes
write_all answers [] = (ok tt, [])
write_all [] (b ∷ bs) = (running, [])
write_all (interrupted ∷ answers) (b ∷ bs) = write_all answers (b ∷ bs)
write_all (failed e ∷ answers) (b ∷ bs) = (err e, [])
write_all (done zero ∷ answers) (b ∷ bs) = (err write_zero, [])
write_all (done (suc n) ∷ answers) (b ∷ bs) =
    let (r, taken) = write_all answers (drop n bs) in (r, (b ∷ take n bs) ++ taken)

-- `OwnedReader::read`
pub read : List (Answer Bytes) → Ended Bytes
read [] = running
read (interrupted ∷ answers) = read answers
read (failed e ∷ answers) = err e
read (done bytes ∷ answers) = ok bytes

-- A call that is made once: `fcntl` or `ioctl`.
abbrev or_failed : {A B : Type 0} → Answer A → (A → Ended B) → Ended B
or_failed (done a) f = f a
or_failed (failed e) f = err e
or_failed interrupted f = err (codes "Interrupted system call")

-- `clear_cloexec`: the flags are read, and written without the bit of `FD_CLOEXEC`, which is 1. The
-- second argument is the answer to the write of these flags.
unfoldable pub clear_cloexec : Answer ℕ → (ℕ → Answer (Unit {0})) → Ended (Unit {0})
clear_cloexec get set = or_failed get (λ flags. or_failed (set (flags - flags % 2)) (λ u. ok tt))

-- `OwnedPtyMaster::resize`
unfoldable pub resize : ((rows cols : ℕ) → Answer (Unit {0})) → (cols rows : ℕ) → Ended (Unit {0})
resize ioctl cols rows = or_failed (ioctl rows cols) (λ u. ok tt)
