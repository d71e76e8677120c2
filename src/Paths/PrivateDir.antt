-- ===== src/Paths/PrivateDir.antt =====
-- src/paths.rs, `ensure_private_dir` and `ensure_runtime_dirs`. What `stat` says of a path is an
-- argument; what the calls do to the directory is the answer.
use Prim.Native.Nat.{bit_and}
use livesh.Prelude.{
  ℕ, ◌≡◌, refl, not, Option, none, some, List, [], ◌∷◌, arith, ◌==◌, if◌then◌else◌, Bytes,
}
use livesh.Paths.{RuntimePaths}

-- What is at a path: nothing, or an inode of a kind with its permission bits.
pub data Stat : Type 0 where
  absent : Stat
  directory : (mode : ℕ) → Stat
  not_directory : Stat

-- `none` is success; the directories that were made come with it.
pub data Outcome : Type 0 where
  kept : Outcome
  made : (mode : ℕ) → Outcome
  refused_not_directory : Outcome
  refused_mode : (mode : ℕ) → Outcome

-- `mode() & 0o777`, and the bits of group and others in it.
unfoldable pub ensure_private_dir : Stat → Outcome
ensure_private_dir absent = made 0o700
ensure_private_dir not_directory = refused_not_directory
ensure_private_dir (directory mode) =
    let mode' = bit_and mode 0o777 in
    if not (bit_and mode' 0o077 == 0) then refused_mode mode' else kept

-- The directory that is there after a call that succeeded.
abbrev pub mode_after : Stat → Outcome → Option ℕ
mode_after (directory mode) kept = some mode
mode_after s (made mode) = some mode
mode_after s o = none

-- The directory is there after the call, and grants nothing to group or others.
abbrev pub IsPrivate : Stat → Type 0
IsPrivate s =
    (mode : ℕ) × (mode_after s (ensure_private_dir s) ≡ some mode)
    × (bit_and (bit_and mode 0o777) 0o077 ≡ 0)

-- The calls in their order, up to the first that fails; the failure comes with its path.
pub ensure_dirs : (Bytes → Stat) → List Bytes → Option (Bytes × Outcome)
ensure_dirs stat [] = none
ensure_dirs stat (d ∷ ds) =
    let rest = ensure_dirs stat ds in
    elim (ensure_private_dir (stat d)) [
      | kept ↦ rest
      | made mode ↦ rest
      | refused_not_directory ↦ some (d, refused_not_directory)
      | refused_mode mode ↦ some (d, refused_mode mode)
    ]

abbrev pub runtime_dirs : RuntimePaths → List Bytes
runtime_dirs paths =
    paths.base ∷ paths.states ∷ paths.snapshots ∷ paths.scrollback ∷ paths.events ∷ paths.tmp ∷ []

unfoldable pub ensure_runtime_dirs : (Bytes → Stat) → RuntimePaths → Option (Bytes × Outcome)
unfolding ensure_dirs
ensure_runtime_dirs stat paths = ensure_dirs stat (runtime_dirs paths)

abbrev pub AllPrivate : (Bytes → Stat) → List Bytes → Type 0
AllPrivate stat [] = Unit
AllPrivate stat (d ∷ ds) = IsPrivate (stat d) × AllPrivate stat ds

ensure_private_dir-IsPrivate : (s : Stat) → ensure_private_dir s ≡ kept → IsPrivate s
unfolding ensure_private_dir
ensure_private_dir-IsPrivate absent h = cc
ensure_private_dir-IsPrivate not_directory h = cc
ensure_private_dir-IsPrivate (directory mode) h = (mode, ground arith, ground arith)

made-IsPrivate : (s : Stat) (m : ℕ) → ensure_private_dir s ≡ made m → IsPrivate s
unfolding ensure_private_dir
made-IsPrivate absent m h = (0o700, refl, refl)
made-IsPrivate not_directory m h = cc
made-IsPrivate (directory mode) m h = absurd (ground arith)

-- One directory, if those behind it are private where their calls succeed.
first-AllPrivate :
    (stat : Bytes → Stat) (d : Bytes) (ds : List Bytes) (o : Outcome)
    → ensure_private_dir (stat d) ≡ o
    → (ensure_dirs stat ds ≡ none → AllPrivate stat ds)
    → ensure_dirs stat (d ∷ ds) ≡ none
    → AllPrivate stat (d ∷ ds)
unfolding ensure_dirs
first-AllPrivate stat d ds kept e rest h =
    (ensure_private_dir-IsPrivate (stat d) e, rest (rw (e, ensure_dirs) at h))
first-AllPrivate stat d ds (made m) e rest h =
    (made-IsPrivate (stat d) m e, rest (rw (e, ensure_dirs) at h))
first-AllPrivate stat d ds refused_not_directory e rest h = absurd (ground arith)
first-AllPrivate stat d ds (refused_mode m) e rest h = absurd (ground arith)

ensure_dirs-AllPrivate :
    (stat : Bytes → Stat) (ds : List Bytes) → ensure_dirs stat ds ≡ none → AllPrivate stat ds
ensure_dirs-AllPrivate stat [] h = tt
ensure_dirs-AllPrivate stat (d ∷ ds) h =
    first-AllPrivate stat d ds (ensure_private_dir (stat d)) refl (ensure_dirs-AllPrivate stat ds) h

-- If `ensure_runtime_dirs` succeeds, the base and the directories for states,
-- snapshots, scrollback, events and temporary files are each there, whether it was before or
-- was made, and grants nothing to group or others.
pub ensure_runtime_dirs-AllPrivate :
    (stat : Bytes → Stat) (paths : RuntimePaths)
    → ensure_runtime_dirs stat paths ≡ none
    → AllPrivate stat (
        paths.base ∷ paths.states ∷ paths.snapshots ∷ paths.scrollback ∷ paths.events ∷ paths.tmp
        ∷ [])
unfolding ensure_runtime_dirs
ensure_runtime_dirs-AllPrivate stat paths h = ensure_dirs-AllPrivate stat (runtime_dirs paths) h
