-- ===== src/Environment.antt =====
-- src/shell_resolve.rs, and what else the programs take from their environment: `config_path` of
-- src/config.rs, `main` of src/bin/liveshd.rs and `current_size` of src/tty.rs. The variables are a
-- dictionary; a value that is not UTF-8 is not modelled.
pub mod RealShell
use livesh.Prelude.{
  ℕ, Bool, true, false, not, ◌&&◌, Option, none, some, List, [], ◌∷◌, ◌++◌, map, filter, is_empty,
  ltb, ◌==◌, if◌then◌else◌, Bytes, codes, eq_bytes, split, trim, starts_with,
}
use livesh.Prelude.Dict.{Dict, lookup}
use livesh.Prelude.Result.{Result, ok, err}
use livesh.Paths.{join}
use livesh.Daemon.Files.{rsplit_dot, stem_extension}

abbrev pub Variables : Type 0
Variables = Dict Bytes

-- A value that is more than white space.
unfoldable pub if_filled : Option Bytes → Option Bytes
unfolding trim
if_filled none = none
if_filled (some value) = if is_empty (trim value) then none else some value

unfoldable pub non_empty_env : Variables → Bytes → Option Bytes
unfolding lookup if_filled
non_empty_env env key = if_filled (lookup key env)

-- `Path::file_name`: the last component that is not `.`, if it is not `..`.
abbrev pub is_component : Bytes → Bool
unfolding eq_bytes
is_component part = not (is_empty part) && not (eq_bytes part (codes "."))

abbrev last_of : List Bytes → Option Bytes
last_of [] = none
last_of (part ∷ []) = some part
last_of (part ∷ next ∷ parts) = last_of (next ∷ parts)

unfoldable pub file_name : Bytes → Option Bytes
unfolding split eq_bytes
file_name path = elim (last_of (filter is_component (split b'/' path))) [
  | none ↦ none
  | some part ↦ if eq_bytes part (codes "..") then none else some part
]

unfoldable pub is_livesh_binary : Bytes → Bool
unfolding file_name eq_bytes
is_livesh_binary path = elim (file_name path) [
  | none ↦ false
  | some name ↦ eq_bytes ((stem_extension name (rsplit_dot name)).0) (codes "livesh")
]

abbrev pub first_existing : (Bytes → Bool) → List Bytes → Result Bytes
first_existing exists [] = err (codes "could not resolve a real shell")
first_existing exists (path ∷ paths) =
    let rest = first_existing exists paths in if exists path then ok path else rest

abbrev pub candidates : List Bytes
candidates = codes "/bin/zsh" ∷ codes "/bin/bash" ∷ codes "/bin/sh" ∷ []

-- The shell of the user, if it is not livesh itself.
unfoldable pub not_livesh : Option Bytes → Option Bytes
unfolding is_livesh_binary
not_livesh none = none
not_livesh (some path) = if is_livesh_binary path then none else some path

abbrev pub or_next : Option Bytes → Result Bytes → Result Bytes
or_next (some path) rest = ok path
or_next none rest = rest

unfoldable pub resolve_real_shell_with_config :
    Variables → (exists : Bytes → Bool) → (configured : Option Bytes) → Result Bytes
unfolding non_empty_env not_livesh if_filled
resolve_real_shell_with_config env exists configured =
    or_next (non_empty_env env (codes "LIVESH_REAL_SHELL")) (
      or_next (if_filled configured) (
        or_next (not_livesh (non_empty_env env (codes "SHELL")))
          (first_existing exists candidates)))

unfoldable pub filtered_current_env : Variables → Variables
unfolding starts_with
filtered_current_env env = filter (λ v. not (starts_with (codes "LIVESH_INTERNAL_") (v.0))) env

-- `config_path`
pub config_path : Variables → Option Bytes
unfolding lookup join
config_path env = elim (lookup (codes "XDG_CONFIG_HOME") env) [
  | some dir ↦ some (join dir (codes "livesh/config.toml"))
  | none ↦ elim (lookup (codes "HOME") env) [
    | some home ↦ some (join home (codes ".config/livesh/config.toml"))
    | none ↦ none
  ]
]

-- The prefixes that the daemon is started with: the fields of the variable, less white space.
unfoldable pub strip_prefixes : Option Bytes → List Bytes
unfolding split trim
strip_prefixes none = []
strip_prefixes (some value) = filter (λ part. not (is_empty part)) (map trim (split b',' value))

-- `current_size`, with the answer to the `ioctl`: columns and rows.
abbrev default_size : ℕ × ℕ
default_size = (80, 24)

unfoldable pub current_size : Option (ℕ × ℕ) → ℕ × ℕ
current_size none = default_size
current_size (some (cols, rows)) = if ltb 0 cols && ltb 0 rows then (cols, rows) else default_size
