-- ===== src/Protocol/Ids.antt =====
-- src/protocol.rs, `is_valid_shell_id` and `ShellId::new`: which texts from a command line may name
-- a shell, and so become part of a file's name.
use livesh.Prelude.{
  ℕ, ◌≤◌, ◌≡◌, ◌≢◌, Bool, true, false, not, ◌&&◌, ◌||◌, Option, none, some, [], ◌∷◌, ◌++◌, arith,
  length, all, is_empty, leb, ◌==◌, if◌then◌else◌, Bytes, codes, strip_prefix, strip_prefix-eq-some,
  Option-cases, inl, inr, is_ascii_alphanumeric,
}
use livesh.Protocol.{ShellId}

-- A byte that an id may hold behind its prefix.
abbrev pub is_id_byte : ℕ → Bool
is_id_byte b = is_ascii_alphanumeric b || b == b'-' || b == b'_'

abbrev check_rest : Option Bytes → Bool
check_rest none = false
check_rest (some rest) = not (is_empty rest) && leb (length rest) 64 && all is_id_byte rest

unfoldable pub is_valid_shell_id : Bytes → Bool
unfolding strip_prefix
is_valid_shell_id id = check_rest (strip_prefix (codes "sh_") id)

-- `ShellId::new`; the error carries the text.
unfoldable pub new : Bytes → Option ShellId
unfolding is_valid_shell_id
new id = if is_valid_shell_id id then some id else none

-- No byte is a path separator, a dot or a NUL.
abbrev pub IsFileSafe : Bytes → Type 0
IsFileSafe [] = Unit
IsFileSafe (b ∷ bs) = (b ≢ b'/') × (b ≢ b'.') × (b ≢ 0) × IsFileSafe bs

all-IsFileSafe : (bs : Bytes) → all is_id_byte bs ≡ true → IsFileSafe bs
all-IsFileSafe [] h = tt
all-IsFileSafe (b ∷ bs) h =
    (ground arith, ground arith, ground arith, all-IsFileSafe bs (ground arith))

rest-IsFileSafe :
    (rest : Bytes)
    → check_rest (some rest) ≡ true
    → IsFileSafe rest × (1 ≤ length rest) × (length rest ≤ 64)
rest-IsFileSafe [] h = absurd (ground arith)
rest-IsFileSafe (b ∷ bs) h = (all-IsFileSafe (b ∷ bs) (ground arith), omega arith, ground arith)

-- An id that `ShellId::new` accepts starts with `sh_`, has 4 to 67 bytes, and none of them can
-- lead out of a directory: no separator, no dot, no NUL.
pub new-IsFileSafe :
    (text : Bytes) {id : ShellId}
    → new text ≡ some id
    → (id ≡ text) × IsFileSafe text × (4 ≤ length text) × (length text ≤ 67)
unfolding new
new-IsFileSafe text h = elim (Option-cases (strip_prefix (codes "sh_") text)) [
  | inl e ↦ absurd (ground arith)
  | inr (rest, e) ↦
      let shape = strip_prefix-eq-some (codes "sh_") text e in
      let safe = rest-IsFileSafe rest (ground arith) in
      rw shape (
        ground (arith, shape),
        (
          omega arith,
          omega arith,
          omega arith,
          (omega arith, omega arith, omega arith, (omega arith, omega arith, omega arith, safe.0)),
        ),
        omega arith,
        omega arith,
      )
]

-- The ids that the daemon makes: `sh_` and a `simple` UUID, which is 32 hexadecimal digits.
abbrev pub fresh_shell_id : Bytes → ShellId
fresh_shell_id uuid = codes "sh_" ++ uuid

-- `new` accepts the prefix with 1 to 64 id bytes behind it, and so every id that the daemon makes.
pub new-fresh_shell_id :
    (uuid : Bytes)
    → 1 ≤ length uuid
    → length uuid ≤ 64
    → all is_id_byte uuid ≡ true
    → new (fresh_shell_id uuid) ≡ some (fresh_shell_id uuid)
unfolding new
new-fresh_shell_id [] h k d = absurd (omega arith)
new-fresh_shell_id (b ∷ bs) h k d = ground arith
